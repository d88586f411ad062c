-- ===== src/Files/Cache/Tuning/Evicting.antt =====
-- What the optimization of the cache removes.
use kernelc_moderne.Prelude.{
  ℕ, ◌≡◌, ◌≤◌, refl, ◌∙◌, ap, subst, ◌⊎◌, inl, inr, ◌+◌, ◌-◌, Bool, true, false, ◌||◌, List, [],
  ◌∷◌, ◌++◌, Option, none, ◌==◌, if◌then◌else◌, lookup, erase, lookup-erase, All, Bool-cases, arith,
}
use kernelc_moderne.Files.Cache.{CacheEntry}
use kernelc_moderne.Files.Cache.Tuning.{Platform, size_of, evict}

unfoldable pub has_key : ℕ → List (ℕ × ℕ) → Bool
has_key key [] = false
has_key key ((key', time) ∷ rest) = key' == key || has_key key rest

-- In the order of the times.
unfoldable pub IsSorted : List (ℕ × ℕ) → Type 0
IsSorted [] = Unit {0}
IsSorted (x ∷ xs) = All (λ y. x.1 ≤ y.1) xs × IsSorted xs

-- The bytes that the removal of these entries one after the other frees.
unfoldable pub freed : List (ℕ × ℕ) → List (ℕ × CacheEntry) → ℕ
freed [] entries = 0
freed ((key, time) ∷ rest) entries = size_of key entries + freed rest (erase key entries)

-- When each of these entries was removed, the level was not settled yet.
unfoldable pub Needed : Platform → ℕ → ℕ → ℕ → List (ℕ × ℕ) → List (ℕ × CacheEntry) → Type 0
Needed p total used removed [] entries = Unit {0}
Needed p total used removed ((key, time) ∷ rest) entries =
    (p.is_settled (used - removed) total ≡ false)
    × Needed p total used (removed + size_of key entries) rest (erase key entries)

-- The loop has removed the entries `gone`, the first in the order of `sorted`, and stopped.
pub record Removal (p : Platform) (total used removed : ℕ) (sorted : List (ℕ × ℕ))
    (start end : List (ℕ × CacheEntry)) : Type 0 where
  pub gone : List (ℕ × ℕ)
  pub kept : List (ℕ × ℕ)
  pub split : sorted ≡ gone ++ kept
  pub lookups : (key : ℕ) → lookup key end ≡ (if has_key key gone then none else lookup key start)
  pub needed : Needed p total used removed gone start
  pub stopped : (kept ≡ []) ⊎ (p.is_settled (used - (removed + freed gone start)) total ≡ true)

module _ (p : Platform) (total used : ℕ) where
  lookups_after :
      (key time k : ℕ) (gone : List (ℕ × ℕ)) (start : List (ℕ × CacheEntry)) (o : Option CacheEntry)
      → o ≡ (if has_key k gone then none else lookup k (erase key start))
      → o ≡ (if has_key k ((key, time) ∷ gone) then none else lookup k start)
  unfolding has_key
  lookups_after key time k gone start o h = h ∙ rw (lookup-erase key k start) (ground arith)

  settled_now :
      (removed : ℕ)
      → p.is_settled (used - removed) total ≡ true
      → p.is_settled (used - (removed + 0)) total ≡ true
  settled_now removed e = let same : removed + 0 ≡ removed = omega arith in rw same e

  stopped_later :
      (kept : List (ℕ × ℕ)) (removed size more : ℕ)
      → (kept ≡ []) ⊎ (p.is_settled (used - ((removed + size) + more)) total ≡ true)
      → (kept ≡ []) ⊎ (p.is_settled (used - (removed + (size + more))) total ≡ true)
  stopped_later kept removed size more h =
      let same : (removed + size) + more ≡ removed + (size + more) = omega arith in
      subst (λ n. (kept ≡ []) ⊎ (p.is_settled (used - n) total ≡ true)) same h

  pub evict-Removal :
      (removed : ℕ) (sorted : List (ℕ × ℕ)) (start : List (ℕ × CacheEntry))
      → Removal p total used removed sorted start (evict p total used removed sorted start)
  unfolding evict has_key freed Needed
  evict-Removal removed [] start = record {
    gone = [];
    kept = [];
    split = refl;
    lookups = λ key. refl;
    needed = tt;
    stopped = inl refl;
  }
  evict-Removal removed ((key, time) ∷ rest) start =
      elim (Bool-cases (p.is_settled (used - removed) total)) [
        | inl e ↦
            rw (evict, e)
              (record {
                gone = [];
                kept = (key, time) ∷ rest;
                split = refl;
                lookups = λ k. refl;
                needed = tt;
                stopped = inr (settled_now removed e);
              })
        | inr e ↦
            let r = evict-Removal (removed + size_of key start) rest (erase key start) in
            rw (evict, e)
              (record {
                gone = (key, time) ∷ r.gone;
                kept = r.kept;
                split = ap (λ l. (key, time) ∷ l) r.split;
                lookups = λ k. lookups_after key time k r.gone start _ (r.lookups k);
                needed = (e, r.needed);
                stopped = stopped_later r.kept removed _ _ r.stopped;
              })
      ]
