-- ===== src/Files/Cache/Tuning/Levels.antt =====
-- What the optimization of the cache does to each level.
use mathlib.Core.List.{append-nil}
use kernelc_moderne.Prelude.{
  ℕ, ◌≡◌, ◌≤◌, refl, sym, ◌∙◌, ap, subst, ◌⊎◌, inl, inr, ◌+◌, ◌-◌, true, false, List, [], ◌∷◌, ◌++◌,
  Option, none, some, length, ltb, if◌then◌else◌, lookup, map, All, Bool-cases, Option-cases, arith,
}
use kernelc_moderne.Files.Cache.{CacheEntry, CacheLevel}
use kernelc_moderne.Files.Cache.Tuning.{
  Platform, used_size, stamps, evict, access_count, evicted, moves, tune_levels, reset,
  optimize_cache,
}
use kernelc_moderne.Files.Cache.Tuning.Evicting.{has_key, IsSorted, freed, Removal, evict-Removal}

-- What the optimization does to a level: its counters are reset; its entries stay where it is not
-- too full, and else the oldest of them are removed.
pub record Tuned (p : Platform) (level level' : CacheLevel) : Type 0 where
  pub size : level'.size ≡ level.size
  pub hits : level'.hit_count ≡ 0
  pub misses : level'.miss_count ≡ 0
  pub entries :
      ((p.too_full (used_size level.entries) level.size ≡ false) × (level'.entries ≡ level.entries))
      ⊎ ((p.too_full (used_size level.entries) level.size ≡ true)
          × ((r : Removal p level.size
                (used_size level.entries)
                0
                (p.sort (stamps level.entries))
                level.entries
                level'.entries)
              × All (λ x. All (λ y. x.1 ≤ y.1) r.kept) r.gone
              × (((key : ℕ) → lookup key level'.entries ≡ none)
                  ⊎ (p.is_settled (used_size level.entries - freed r.gone level.entries) level.size
                      ≡ true))))

pub data AllTuned (p : Platform) : List CacheLevel → List CacheLevel → Type 0 where
  nothing : AllTuned p [] []
  tuned :
      {level level' : CacheLevel} {levels levels' : List CacheLevel}
      → Tuned p level level'
      → AllTuned p levels levels'
      → AllTuned p (level ∷ levels) (level' ∷ levels')

from_zero :
    (p : Platform) (total used n : ℕ)
    → p.is_settled (used - (0 + n)) total ≡ true
    → p.is_settled (used - n) total ≡ true
from_zero p total used n h =
    let same : 0 + n ≡ n = omega arith in subst (λ m. p.is_settled (used - m) total ≡ true) same h

All-right : (P : ℕ × ℕ → Type 0) (front back : List (ℕ × ℕ)) → All P (front ++ back) → All P back
All-right P [] back h = h
All-right P (x ∷ front) back h = All-right P front back h.1

split-IsSorted :
    (gone kept : List (ℕ × ℕ)) → IsSorted (gone ++ kept) → All (λ x. All (λ y. x.1 ≤ y.1) kept) gone
unfolding IsSorted
split-IsSorted [] kept h = tt
split-IsSorted (x ∷ gone) kept h =
    (All-right (λ y. x.1 ≤ y.1) gone kept h.0, split-IsSorted gone kept h.1)

has_key-stamps :
    (key : ℕ) (entries : List (ℕ × CacheEntry))
    → (if has_key key (stamps entries) then none else lookup key entries) ≡ none
unfolding has_key stamps lookup
has_key-stamps key [] = refl
has_key-stamps key ((key', e) ∷ rest) = ground (arith, has_key-stamps key rest)

-- What is assumed of std::sort: its result is in order and has the same keys.
module _ (p : Platform) (ordered : (l : List (ℕ × ℕ)) → IsSorted (p.sort l))
    (same_keys : (l : List (ℕ × ℕ)) (key : ℕ) → has_key key (p.sort l) ≡ has_key key l) where
  emptied :
      (level : CacheLevel) (end : List (ℕ × CacheEntry))
      (r : Removal p level.size
        (used_size level.entries)
        0
        (p.sort (stamps level.entries))
        level.entries
        end)
      → r.kept ≡ []
      → (key : ℕ) → lookup key end ≡ none
  emptied level end r e key =
      let all : p.sort (stamps level.entries) ≡ r.gone =
        r.split ∙ ap (λ l. r.gone ++ l) e ∙ append-nil r.gone in
      r.lookups key
      ∙ rw (sym all, same_keys (stamps level.entries) key) (has_key-stamps key level.entries)

  evicted-Tuned_full :
      (level : CacheLevel)
      → p.too_full (used_size level.entries) level.size ≡ true
      → Tuned p level (reset (evicted p level))
  unfolding evicted reset
  evicted-Tuned_full level e =
      let used = used_size level.entries in
      let r = evict-Removal p level.size used 0 (p.sort (stamps level.entries)) level.entries in
      let order =
        split-IsSorted r.gone r.kept (subst IsSorted r.split (ordered (stamps level.entries))) in
      let ended : ((key : ℕ)
            → lookup key (evict p level.size used 0 (p.sort (stamps level.entries)) level.entries)
              ≡ none)
          ⊎ (p.is_settled (used - freed r.gone level.entries) level.size ≡ true) =
        elim r.stopped [
          | inl h ↦ inl (emptied level _ r h)
          | inr h ↦ inr (from_zero p level.size used _ h)
        ] in
      simp e
        (record { size = refl; hits = refl; misses = refl; entries = inr (e, (r, order, ended)) })

  evicted-Tuned_fits :
      (level : CacheLevel)
      → p.too_full (used_size level.entries) level.size ≡ false
      → Tuned p level (reset (evicted p level))
  unfolding evicted reset
  evicted-Tuned_fits level e =
      simp e (record { size = refl; hits = refl; misses = refl; entries = inl (e, refl) })

  evicted-Tuned : (level : CacheLevel) → Tuned p level (reset (evicted p level))
  evicted-Tuned level = elim (Bool-cases (p.too_full (used_size level.entries) level.size)) [
    | inl e ↦ evicted-Tuned_full level e
    | inr e ↦ evicted-Tuned_fits level e
  ]

access_count_le : (key : ℕ) (levels : List CacheLevel) → access_count key levels ≤ length levels
unfolding access_count
access_count_le key [] = omega arith
access_count_le key (level ∷ levels) = elim (Option-cases (lookup key level.entries)) [
  | inl e ↦ rw (access_count, e) (omega (arith, access_count_le key levels))
  | inr (x, e) ↦ rw (access_count, e) (omega (arith, access_count_le key levels))
]

moves-none :
    (p : Platform) (now : ℕ) (start : List CacheLevel) (above : CacheLevel)
    (entries : List (ℕ × CacheEntry))
    → length start ≤ 100
    → moves p now start above entries ≡ false
unfolding moves
moves-none p now start above [] h = refl
moves-none p now start above ((key, e) ∷ rest) h =
    let few : ltb 100 (access_count key start) ≡ false =
      ground (arith, access_count_le key start, h) in
    rw (few, moves-none p now start above rest h) refl

tune_levels-evicted :
    (p : Platform) (now : ℕ) (start : List CacheLevel) (above : Option CacheLevel)
    (levels : List CacheLevel)
    → length start ≤ 100
    → tune_levels p now start above levels ≡ some (map (evicted p) levels)
unfolding tune_levels
tune_levels-evicted p now start above [] h = refl
tune_levels-evicted p now start none (level ∷ levels) h =
    rw (tune_levels-evicted p now start (some level) levels h) refl
tune_levels-evicted p now start (some a) (level ∷ levels) h =
    rw
      (
        moves-none p now start a (evicted p level).entries h,
        tune_levels-evicted p now start (some level) levels h,
      )
      refl

optimize_cache-evicted :
    (p : Platform) (now : ℕ) (levels : List CacheLevel)
    → length levels ≤ 100
    → optimize_cache p now levels ≡ some (map reset (map (evicted p) levels))
unfolding optimize_cache
optimize_cache-evicted p now levels h =
    rw (optimize_cache, tune_levels-evicted p now levels none levels h) refl

all_tuned :
    (p : Platform) (levels : List CacheLevel)
    → ((level : CacheLevel) → Tuned p level (reset (evicted p level)))
    → AllTuned p levels (map reset (map (evicted p) levels))
all_tuned p [] h = AllTuned.nothing
all_tuned p (level ∷ levels) h = AllTuned.tuned (h level) (all_tuned p levels h)

-- Of a cache with at most 100 levels, and a sort whose result is in order and has the same keys:
-- the optimization never moves an entry to another level. It resets the counters of each level.
-- A level that is not too full keeps its entries. In a level that is too full it removes the first
-- entries in the order of the sort, each while the level is not settled, and stops when the level
-- is settled or empty; no entry that is removed has a later time than one that is kept.
pub optimize_cache-Tuned :
    (p : Platform) (now : ℕ) (levels : List CacheLevel)
    → ((l : List (ℕ × ℕ)) → IsSorted (p.sort l))
    → ((l : List (ℕ × ℕ)) (key : ℕ) → has_key key (p.sort l) ≡ has_key key l)
    → length levels ≤ 100
    → (levels' : List CacheLevel) × (optimize_cache p now levels ≡ some levels')
      × AllTuned p levels levels'
optimize_cache-Tuned p now levels ordered same_keys few = (
  _,
  optimize_cache-evicted p now levels few,
  all_tuned p levels (evicted-Tuned p ordered same_keys),
)
