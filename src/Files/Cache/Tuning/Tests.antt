-- ===== src/Files/Cache/Tuning/Tests.antt =====
-- The theorem at a concrete input: a level that is too full, and a sort by insertion.
use kernelc_moderne.Prelude.{
  ℕ, ◌≡◌, ◌≤◌, refl, ◌∙◌, inl, inr, ◌*◌, false, List, [], ◌∷◌, some, ltb, leb, leb→le,
  if◌then◌else◌, All, Bool-cases, arith,
}
use kernelc_moderne.Files.Cache.{CacheLevel}
use kernelc_moderne.Files.Cache.Tuning.{Platform, optimize_cache}
use kernelc_moderne.Files.Cache.Tuning.Evicting.{has_key, IsSorted}
use kernelc_moderne.Files.Cache.Tuning.Levels.{AllTuned, optimize_cache-Tuned}

put_in : ℕ × ℕ → List (ℕ × ℕ) → List (ℕ × ℕ)
put_in x [] = x ∷ []
put_in x (y ∷ ys) = let later = put_in x ys in if leb x.1 y.1 then x ∷ y ∷ ys else y ∷ later

insertion_sort : List (ℕ × ℕ) → List (ℕ × ℕ)
insertion_sort [] = []
insertion_sort (x ∷ xs) = put_in x (insertion_sort xs)

has_key-put_in :
    (key : ℕ) (x : ℕ × ℕ) (l : List (ℕ × ℕ)) → has_key key (put_in x l) ≡ has_key key (x ∷ l)
unfolding has_key put_in
has_key-put_in key x [] = refl
has_key-put_in key x (y ∷ ys) = ground (arith, has_key-put_in key x ys)

has_key-insertion_sort :
    (l : List (ℕ × ℕ)) (key : ℕ) → has_key key (insertion_sort l) ≡ has_key key l
unfolding has_key insertion_sort
has_key-insertion_sort [] key = refl
has_key-insertion_sort (x ∷ xs) key =
    has_key-put_in key x (insertion_sort xs) ∙ rw (has_key-insertion_sort xs key) refl

All_le : (a b : ℕ) (l : List (ℕ × ℕ)) → a ≤ b → All (λ y. b ≤ y.1) l → All (λ y. a ≤ y.1) l
All_le a b [] h all = tt
All_le a b (y ∷ ys) h all = (omega (arith, h, all.0), All_le a b ys h all.1)

All-put_in :
    (a : ℕ) (x : ℕ × ℕ) (l : List (ℕ × ℕ))
    → a ≤ x.1
    → All (λ y. a ≤ y.1) l
    → All (λ y. a ≤ y.1) (put_in x l)
unfolding put_in
All-put_in a x [] h all = (h, tt)
All-put_in a x (y ∷ ys) h all = elim (Bool-cases (leb x.1 y.1)) [
  | inl e ↦ rw (put_in, e) (h, all)
  | inr e ↦ rw (put_in, e) (all.0, All-put_in a x ys h all.1)
]

put_in-IsSorted : (x : ℕ × ℕ) (l : List (ℕ × ℕ)) → IsSorted l → IsSorted (put_in x l)
unfolding put_in IsSorted
put_in-IsSorted x [] h = (tt, tt)
put_in-IsSorted x (y ∷ ys) h = elim (Bool-cases (leb x.1 y.1)) [
  | inl e ↦ let le = leb→le x.1 y.1 e in rw (put_in, e) ((le, All_le x.1 y.1 ys le h.0), h)
  | inr e ↦
      let le : y.1 ≤ x.1 = ground (arith, e) in
      rw (put_in, e) (All-put_in y.1 x ys le h.0, put_in-IsSorted x ys h.1)
]

insertion_sort-IsSorted : (l : List (ℕ × ℕ)) → IsSorted (insertion_sort l)
unfolding IsSorted insertion_sort
insertion_sort-IsSorted [] = tt
insertion_sort-IsSorted (x ∷ xs) =
    put_in-IsSorted x (insertion_sort xs) (insertion_sort-IsSorted xs)

abbrev in_tenths : Platform
in_tenths = record {
  too_full = λ used total. ltb (total * 9) (used * 10);
  is_settled = λ used total. ltb (used * 10) (total * 7);
  is_recent = λ now time. ltb now 60;
  sort = insertion_sort;
}

abbrev full_level : CacheLevel
full_level = record {
  size = 4;
  entries =
      (5, record { bytes = 1 ∷ 2 ∷ []; timestamp = 3; dirty = false })
      ∷ (6, record { bytes = 1 ∷ 2 ∷ []; timestamp = 2; dirty = false })
      ∷ [];
  hit_count = 1;
  miss_count = 0;
}

optimize_cache-Tuned_example :
    (levels' : List CacheLevel) × (optimize_cache in_tenths 9 (full_level ∷ []) ≡ some levels')
    × AllTuned in_tenths (full_level ∷ []) levels'
optimize_cache-Tuned_example =
    optimize_cache-Tuned in_tenths 9 (full_level ∷ []) insertion_sort-IsSorted
      has_key-insertion_sort (omega arith)
