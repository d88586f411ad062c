-- ===== src/Files/Pool/Laws.antt =====
-- The pool hands out a buffer that is not in use, and a release takes that back.
use kernelc_moderne.Prelude.{
  ℕ, zero, suc, ◌+◌, ◌<◌, ◌≡◌, refl, sym, ap, subst, Bool, true, false, List, [], ◌∷◌, Option, none,
  some, arith, length, get_or, set, All,
}
use kernelc_moderne.Files.Pool.{acquire_from, acquire, release}

-- What the loop of `acquire` gives, where `i` is the index of the first of the buffers.
abbrev Found : ℕ → List Bool → Option ℕ → Type 0
Found i pool none = All (λ used. used ≡ true) pool
Found i pool (some k) =
    (j : ℕ) × (k ≡ i + j)
    × (j < length pool)
    × (get_or pool j true ≡ false)
    × ((m : ℕ) → m < j → get_or pool m true ≡ true)

acquire_from-Found : (i : ℕ) (pool : List Bool) → Found i pool (acquire_from i pool)
unfolding acquire_from
acquire_from-Found i [] = tt
acquire_from-Found i (false ∷ pool) =
    (0, omega arith, omega arith, refl, λ m below_zero. elim below_zero [ ])
acquire_from-Found i (true ∷ pool) =
    later i pool (acquire_from (i + 1) pool) (acquire_from-Found (i + 1) pool)
  where
    lower :
        (pool : List Bool) (j : ℕ)
        → ((m : ℕ) → m < j → get_or pool m true ≡ true)
        → (m : ℕ) → m < suc j
        → get_or (true ∷ pool) m true ≡ true
    lower pool j below_j zero h = refl
    lower pool j below_j (suc m) h = below_j m (omega arith)

    later :
        (i : ℕ) (pool : List Bool) (o : Option ℕ) → Found (i + 1) pool o → Found i (true ∷ pool) o
    later i pool none all = (refl, all)
    later i pool (some k) (j, e, inside, free, below_j) =
        (suc j, omega arith, omega arith, free, lower pool j below_j)

-- A call of `acquire`: every buffer is in use, or the first that is not, which is then in use.
abbrev pub Acquired : List Bool → List Bool × Option ℕ → Type 0
Acquired pool (pool', none) = (pool' ≡ pool) × All (λ used. used ≡ true) pool
Acquired pool (pool', some k) =
    (k < length pool)
    × (get_or pool k true ≡ false)
    × ((m : ℕ) → m < k → get_or pool m true ≡ true)
    × (pool' ≡ set pool k true)
    × (release pool' k ≡ pool)

set-set_back :
    (pool : List Bool) (k : ℕ) → get_or pool k true ≡ false → set (set pool k true) k false ≡ pool
set-set_back [] k h = refl
set-set_back (b ∷ pool) zero h = ap (λ c. c ∷ pool) (sym h)
set-set_back (b ∷ pool) (suc k) h = ap (λ p. b ∷ p) (set-set_back pool k h)

-- `acquire` fails exactly when every buffer is in use, and changes nothing then. Otherwise it
-- gives the first buffer that is not in use and marks it alone, and a release of that buffer
-- brings the pool back.
pub acquire-Acquired : (pool : List Bool) → Acquired pool (acquire pool)
unfolding acquire release
acquire-Acquired pool = go (acquire_from 0 pool) refl (acquire_from-Found 0 pool)
  where
    at :
        (pool : List Bool) (k j : ℕ)
        → k ≡ 0 + j
        → (j < length pool)
          × (get_or pool j true ≡ false)
          × ((m : ℕ) → m < j → get_or pool m true ≡ true)
        → (k < length pool)
          × (get_or pool k true ≡ false)
          × ((m : ℕ) → m < k → get_or pool m true ≡ true)
    at pool k j e facts =
        subst
          (λ n.
            (n < length pool)
            × (get_or pool n true ≡ false)
            × ((m : ℕ) → m < n → get_or pool m true ≡ true))
          (omega arith) facts

    go : (o : Option ℕ) → acquire_from 0 pool ≡ o → Found 0 pool o → Acquired pool (acquire pool)
    go none e f = rw (e, acquire) (refl, f)
    go (some k) e (j, same, inside, free, first) =
        let here = at pool k j same (inside, free, first) in
        rw (e, acquire) (here.0, here.1, here.2, refl, set-set_back pool k here.1)
