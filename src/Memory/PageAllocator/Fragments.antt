-- ===== src/Memory/PageAllocator/Fragments.antt =====
-- The numerator of `getFragmentationRatio`, against a count of the pages where a free run begins.
use native.Mathlib.Numerals.{add-one}
use kernelc_moderne.Prelude.{
  ℕ, zero, suc, ◌+◌, ◌≡◌, refl, inl, inr, Bool, true, false, not, ◌&&◌, List, arith, if◌then◌else◌,
  Bool-cases, ◌∙◌, ◌≤◌, ◌*◌, ap,
}
use kernelc_moderne.Memory.PageAllocator.{get_bit, count_fragments}

-- Page `i` is free and the page before it is not.
pub starts_run : List ℕ → ℕ → Bool
starts_run b zero = not (get_bit b zero)
starts_run b (suc i) = not (get_bit b (suc i)) && get_bit b i

-- How many of the first `n` pages begin a run of free pages.
pub count_starts : ℕ → List ℕ → ℕ
count_starts zero b = 0
count_starts (suc n) b = count_starts n b + (if starts_run b n then 1 else 0)

free_before : List ℕ → ℕ → Bool
free_before b zero = false
free_before b (suc i) = not (get_bit b i)

start_used : (b : List ℕ) (i : ℕ) → get_bit b i ≡ true → starts_run b i ≡ false
unfolding starts_run
start_used b zero e = rw e
start_used b (suc i) e = rw e

start_free :
    (b : List ℕ) (i f : ℕ)
    → get_bit b i ≡ false
    → (if free_before b i then f else f + 1) ≡ f + (if starts_run b i then 1 else 0)
unfolding starts_run free_before
start_free b zero f e = ground arith
start_free b (suc i) f e = ground arith

module _ (b : List ℕ) (i f : ℕ) where
  next_used :
      get_bit b i ≡ true
      → f ≡ count_starts i b
      → (f ≡ count_starts (i + 1) b) × (false ≡ free_before b (i + 1))
  unfolding count_starts free_before
  next_used e p = rw (add-one i, e) (ground (arith, start_used b i e), refl)

  next_free :
      (inside : Bool)
      → get_bit b i ≡ false
      → f ≡ count_starts i b
      → inside ≡ free_before b i
      → ((if inside then f else f + 1) ≡ count_starts (i + 1) b) × (true ≡ free_before b (i + 1))
  unfolding count_starts free_before
  next_free inside e p q = rw (add-one i) (ground (arith, start_free b i f e), ground arith)

count_fragments_from :
    (n : ℕ) (b : List ℕ) (i f : ℕ) (inside : Bool)
    → f ≡ count_starts i b
    → inside ≡ free_before b i
    → count_fragments n b i f inside ≡ count_starts (n + i) b
unfolding count_fragments
count_fragments_from zero b i f inside p q = p ∙ ap (λ k. count_starts k b) (omega arith)
count_fragments_from (suc n) b i f inside p q = elim (Bool-cases (get_bit b i)) [
  | inl used ↦
      let (p', q') = next_used b i f used p in
      rw (used, count_fragments)
        (count_fragments_from n b (i + 1) f false p' q' ∙ ap (λ k. count_starts k b) (omega arith))
  | inr unused ↦
      let (p', q') = next_free b i f inside unused p q in
      rw (unused, count_fragments)
        (count_fragments_from n b (i + 1) (if inside then f else f + 1) true p' q'
          ∙ ap (λ k. count_starts k b) (omega arith))
]

start_is_free : (b : List ℕ) (i : ℕ) → starts_run b i ≡ true → get_bit b i ≡ false
unfolding starts_run
start_is_free b zero e = ground arith
start_is_free b (suc i) e = ground arith

count_starts-le : (n : ℕ) (b : List ℕ) → 2 * count_starts n b ≤ n + 1
unfolding count_starts starts_run
count_starts-le zero b = omega arith
count_starts-le (suc zero) b = ground arith
count_starts-le (suc (suc n)) b = ground (arith, count_starts-le n b, start_is_free b n)

-- Over `n` pages the loop gives the number of free pages whose predecessor is not free, which is
-- at most half of the pages, rounded up.
pub count_fragments-eq :
    (n : ℕ) (b : List ℕ)
    → (count_fragments n b 0 0 false ≡ count_starts n b)
      × (2 * count_fragments n b 0 0 false ≤ n + 1)
unfolding count_starts free_before
count_fragments-eq n b =
    let e : count_fragments n b 0 0 false ≡ count_starts n b =
      count_fragments_from n b 0 0 false refl refl ∙ ap (λ k. count_starts k b) (omega arith) in
    (e, rw e (count_starts-le n b))
