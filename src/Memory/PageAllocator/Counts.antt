-- ===== src/Memory/PageAllocator/Counts.antt =====
-- The number of free pages in the bitmap, and how a run of writes changes it.
use kernelc_moderne.Prelude.{
  ℕ, zero, suc, ◌+◌, ◌*◌, ◌/◌, ◌≤◌, ◌<◌, ◌≡◌, refl, ap, ◌∙◌, inl, inr, Bool, true, false, List,
  arith, ◌==◌, length, Bool-cases,
}
use kernelc_moderne.Memory.PageAllocator.{get_bit, set_bit, set_bits}
use kernelc_moderne.Memory.PageAllocator.Bitmap.{
  Bytes, set_bit-Bytes, length-set_bit, get_bit-set_bit,
}

abbrev weight : Bool → ℕ
weight true = 0
weight false = 1

-- How many of the first `n` pages are free.
unfoldable pub count_free : ℕ → List ℕ → ℕ
count_free zero b = 0
count_free (suc n) b = count_free n b + weight (get_bit b n)

module _ (b : List ℕ) (i : ℕ) (v : Bool) (bytes : Bytes b) (h : i / 8 < length b) where
  count_free-set_bit_above : (n : ℕ) → n ≤ i → count_free n (set_bit b i v) ≡ count_free n b
  unfolding count_free
  count_free-set_bit_above zero p = refl
  count_free-set_bit_above (suc n) p =
      ground (arith, count_free-set_bit_above n (omega arith), get_bit-set_bit b i n v bytes h)

  -- One write changes the count by the change of that page.
  count_free-set_bit :
      (n : ℕ)
      → i < n
      → count_free n (set_bit b i v) + weight (get_bit b i) ≡ count_free n b + weight v
  unfolding count_free
  count_free-set_bit zero p = absurd (omega arith)
  count_free-set_bit (suc n) p = elim (Bool-cases (i == n)) [
    | inl same ↦
        let eq : i ≡ n = ground arith in
        ground (arith, count_free-set_bit_above n (omega arith), get_bit-set_bit b i n v bytes h)
    | inr other ↦
        let below : i < n = ground arith in
        ground (arith, count_free-set_bit n below, get_bit-set_bit b i n v bytes h)
  ]

module _ (total : ℕ) (v w : Bool) where
  -- A run of pages that all hold `w` and are all set to `v`.
  pub count_free-set_bits :
      (n : ℕ) (b : List ℕ) (start : ℕ)
      → Bytes b
      → total ≤ length b * 8
      → start + n ≤ total
      → ((j : ℕ) → start ≤ j → j < start + n → get_bit b j ≡ w)
      → count_free total (set_bits n b start v) + n * weight w ≡ count_free total b + n * weight v
  unfolding set_bits
  count_free-set_bits zero b start bytes len fits held = omega arith
  count_free-set_bits (suc n) b start bytes len fits held = omega (
    arith,
    count_free-set_bits n (set_bit b start v) (start + 1) (set_bit-Bytes b start v bytes)
        (omega (arith, length-set_bit b start v)) (omega arith) later,
    count_free-set_bit b start v bytes (omega arith) total (omega arith),
    ap weight (held start (omega arith) (omega arith)),
  )
    where
      later : (j : ℕ) → start + 1 ≤ j → j < start + 1 + n → get_bit (set_bit b start v) j ≡ w
      later j p q =
          get_bit-set_bit b start j v bytes (omega arith)
          ∙ ground (arith, held j (omega arith) (omega arith))
