-- ===== src/Files/Cache/Laws.antt =====
-- The cache is one dictionary, whichever level holds an entry.
use mathlib.Core.Option.{some-ne-none}
use kernelc_moderne.Prelude.{
  ℕ, ◌+◌, ◌≡◌, refl, sym, ◌∙◌, ap, inl, inr, Bool, List, [], ◌∷◌, Option, none, some, ◌==◌, ==_iff,
  if◌then◌else◌, lookup, insert, lookup-insert, Bool-cases, Option-cases,
}
use kernelc_moderne.Files.Cache.{
  CacheEntry, CacheLevel, probe, Promotion, get, replace, put_first, put,
}

abbrev bytes_of : Option CacheEntry → Option (List ℕ)
bytes_of none = none
bytes_of (some e) = some (e.bytes)

abbrev or_else : Option (List ℕ) → Option (List ℕ) → Option (List ℕ)
or_else none b = b
or_else (some a) b = some a

-- What the cache holds under a key: the entry of the first level that has one.
unfoldable pub contents : List CacheLevel → ℕ → Option (List ℕ)
contents [] key = none
contents (level ∷ levels) key = or_else (bytes_of (lookup key level.entries)) (contents levels key)

abbrev found_bytes : Option (ℕ × List ℕ) → Option (List ℕ)
found_bytes none = none
found_bytes (some (i, bytes)) = some bytes

probe-contents :
    (now key i : ℕ) (levels : List CacheLevel)
    → found_bytes (probe now key i levels).1 ≡ contents levels key
unfolding probe contents
probe-contents now key i [] = refl
probe-contents now key i (level ∷ levels) = elim (Option-cases (lookup key level.entries)) [
  | inl e ↦ rw (e, probe) (probe-contents now key (i + 1) levels)
  | inr (v, e) ↦ rw (e, probe) refl
]

-- Bringing the time of an entry up to date changes no bytes.
bytes_of-touched :
    (k key : ℕ) (v : CacheEntry) (now : ℕ) (entries : List (ℕ × CacheEntry))
    → lookup key entries ≡ some v
    → bytes_of (lookup k (insert key (record v { timestamp = now }) entries))
      ≡ bytes_of (lookup k entries)
bytes_of-touched k key v now entries e = elim (Bool-cases (key == k)) [
  | inl same ↦
      ap bytes_of (lookup-insert key k (record v { timestamp = now }) entries)
      ∙ rw same (sym (ap bytes_of (ap (λ j. lookup j entries) (sym ((==_iff key k).0 same)) ∙ e)))
  | inr other ↦
      ap bytes_of (lookup-insert key k (record v { timestamp = now }) entries) ∙ rw other refl
]

contents-probe :
    (k now key i : ℕ) (levels : List CacheLevel)
    → contents (probe now key i levels).0 k ≡ contents levels k
unfolding probe contents
contents-probe k now key i [] = refl
contents-probe k now key i (level ∷ levels) = elim (Option-cases (lookup key level.entries)) [
  | inl e ↦
      rw (e, probe)
        (ap (or_else (bytes_of (lookup k level.entries))) (contents-probe k now key (i + 1) levels))
  | inr (v, e) ↦
      rw (e, probe)
        (ap (λ o. or_else o (contents levels k)) (bytes_of-touched k key v now level.entries e))
]

get-contents :
    (promote : Promotion) (now : ℕ) (levels : List CacheLevel) (key : ℕ)
    → (get promote now levels key).1 ≡ contents levels key
unfolding get
get-contents promote now levels key = elim (Option-cases (probe now key 0 levels).1) [
  | inl e ↦ rw (e, get) (ap found_bytes (sym e) ∙ probe-contents now key 0 levels)
  | inr ((i, b), e) ↦ rw (e, get) (ap found_bytes (sym e) ∙ probe-contents now key 0 levels)
]

-- If promoting an entry changes nothing that the cache holds, `get` gives what the cache holds
-- under the key and changes nothing that it holds.
pub get-contents_kept :
    (promote : Promotion)
    → ((levels : List CacheLevel) (key : ℕ) (bytes : List ℕ) (i k : ℕ)
        → contents (promote levels key bytes i) k ≡ contents levels k)
    → (now : ℕ) (levels : List CacheLevel) (key k : ℕ)
    → ((get promote now levels key).1 ≡ contents levels key)
      × (contents (get promote now levels key).0 k ≡ contents levels k)
unfolding get
get-contents_kept promote keeps now levels key k = (
  get-contents promote now levels key,
  elim (Option-cases (probe now key 0 levels).1) [
    | inl e ↦ rw (e, get) (contents-probe k now key 0 levels)
    | inr ((i, b), e) ↦
        rw (e, get) (keeps (probe now key 0 levels).0 key b i k ∙ contents-probe k now key 0 levels)
  ],
)

-- A level with a new entry under the key.
bytes_of-insert :
    (k key : ℕ) (v : CacheEntry) (entries : List (ℕ × CacheEntry))
    → bytes_of (lookup k (insert key v entries))
      ≡ (if key == k then some (v.bytes) else bytes_of (lookup k entries))
bytes_of-insert k key v entries = elim (Bool-cases (key == k)) [
  | inl same ↦ ap bytes_of (lookup-insert key k v entries) ∙ rw same refl
  | inr other ↦ ap bytes_of (lookup-insert key k v entries) ∙ rw other refl
]

-- A search for the key by `put`: it is missed, or the bytes are put where it was found.
abbrev Replaced : ℕ → List ℕ → List CacheLevel → Option (List CacheLevel) → Type 0
Replaced key bytes levels none = contents levels key ≡ none
Replaced key bytes levels (some levels') =
    (k : ℕ) → contents levels' k ≡ (if key == k then some bytes else contents levels k)

module _ (now key : ℕ) (bytes : List ℕ) (dirty : Bool) where
  put_here :
      (level : CacheLevel) (levels : List CacheLevel) (k : ℕ)
      → contents
          (record level {
            entries =
                insert key (record { bytes = bytes; timestamp = now; dirty = dirty }) level.entries;
          }
            ∷ levels)
          k
        ≡ (if key == k then some bytes else contents (level ∷ levels) k)
  unfolding contents
  put_here level levels k =
      let new : CacheEntry = record { bytes = bytes; timestamp = now; dirty = dirty } in
      ap (λ o. or_else o (contents levels k)) (bytes_of-insert k key new level.entries)
      ∙ (elim (Bool-cases (key == k)) [ inl e ↦ rw e refl | inr e ↦ rw e refl ])

  put_later :
      (level : CacheLevel) (levels levels' : List CacheLevel)
      → lookup key level.entries ≡ none
      → Replaced key bytes levels (some levels')
      → Replaced key bytes (level ∷ levels) (some (level ∷ levels'))
  unfolding contents
  put_later level levels levels' e later k = elim (Bool-cases (key == k)) [
    | inl same ↦
        ap (λ o. or_else o (contents levels' k))
          (ap bytes_of (ap (λ j. lookup j level.entries) (sym ((==_iff key k).0 same)) ∙ e))
        ∙ later k
        ∙ rw same refl
    | inr other ↦
        ap (or_else (bytes_of (lookup k level.entries))) (rw other at (later k)) ∙ rw other refl
  ]

  replace-Replaced :
      (levels : List CacheLevel) → Replaced key bytes levels (replace now key bytes dirty levels)
  unfolding replace contents
  replace-Replaced [] = refl
  replace-Replaced (level ∷ levels) = elim (Option-cases (lookup key level.entries)) [
    | inr (v, e) ↦ rw (e, replace) (λ k. put_here level levels k)
    | inl e ↦
        let later = replace-Replaced levels in
        elim (Option-cases (replace now key bytes dirty levels)) [
          | inl e' ↦
              rw (e, replace, e')
                (ap (λ o. or_else (bytes_of o) (contents levels key)) e ∙ rw e' at later)
          | inr (ls, e') ↦ rw (e, replace, e') (put_later level levels ls e (rw e' at later))
        ]
  ]

  -- Over a cache with at least one level, `put` makes the bytes what the cache holds under the
  -- key, and changes nothing that it holds under another.
  pub contents-put :
      (level : CacheLevel) (levels : List CacheLevel) (k : ℕ)
      → contents (put now (level ∷ levels) key bytes dirty) k
        ≡ (if key == k then some bytes else contents (level ∷ levels) k)
  unfolding put put_first
  contents-put level levels k =
      let found = replace-Replaced (level ∷ levels) in
      elim (Option-cases (replace now key bytes dirty (level ∷ levels))) [
        | inl e ↦ rw (e, put) (put_here level levels k)
        | inr (ls, e) ↦ rw (e, put) ((rw e at found) k)
      ]

-- A search that misses only counts.
probe_missed :
    (now key i : ℕ) (level : CacheLevel) (levels : List CacheLevel)
    → (probe now key i (level ∷ levels)).1 ≡ none
    → (probe now key i (level ∷ levels)).0
      ≡ record level { miss_count = level.miss_count + 1 } ∷ (probe now key (i + 1) levels).0
unfolding probe
probe_missed now key i level levels missed = elim (Option-cases (lookup key level.entries)) [
  | inl e ↦ rw (e, probe) refl
  | inr (v, e) ↦ absurd (some-ne-none _ ((rw (e, probe) at missed)))
]

-- A search for a key that the cache does not hold keeps the first level.
pub get_shape :
    (promote : Promotion) (now : ℕ) (level : CacheLevel) (levels : List CacheLevel) (key : ℕ)
    → contents (level ∷ levels) key ≡ none
    → (get promote now (level ∷ levels) key).0
      ≡ record level { miss_count = level.miss_count + 1 } ∷ (probe now key (0 + 1) levels).0
unfolding get
get_shape promote now level levels key absent =
    elim (Option-cases (probe now key 0 (level ∷ levels)).1) [
      | inl e ↦ rw (e, get) (probe_missed now key 0 level levels e)
      | inr ((i, b), e) ↦ absurd (
          some-ne-none _
            (sym (ap found_bytes e) ∙ probe-contents now key 0 (level ∷ levels) ∙ absent))
    ]
