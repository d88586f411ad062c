-- ===== src/Memory/Compression/Tests.antt =====
-- A page that lz4 does not make smaller, and two blocks of which one is inactive.
use kernelc_moderne.Prelude.{
  ◌≡◌, refl, ℕ, ◌<◌, ◌++◌, false, List, [], ◌∷◌, All, All-replicate, length, replicate,
  length-replicate, arith,
}
use kernelc_moderne.Memory.Compression.{page_size, run, rle, compress_page, MemoryBlock}
use kernelc_moderne.Memory.Compression.Runs.{Kept, compress_page-Kept}

-- A compression that changes nothing.
abbrev copy : List ℕ → List ℕ
copy bytes = bytes

abbrev ones : List ℕ
ones = replicate 4096 1

rle_test : rle 6 (7 ∷ 7 ∷ 7 ∷ 0 ∷ 9 ∷ 9 ∷ []) ≡ 3 ∷ 7 ∷ 1 ∷ 0 ∷ 2 ∷ 9 ∷ []
unfolding rle run
rle_test = refl

compress_page-Kept_example :
    ((compress_page copy [] ones).0 ≡ [] ++ (ones ∷ []))
    × (length (compress_page copy [] ones).1 ≡ page_size)
    × All (λ b. b < 256) (compress_page copy [] ones).1
    × Kept ones (compress_page copy [] ones).1
    × (length ones < page_size → (compress_page copy [] ones).1 ≡ ones)
compress_page-Kept_example =
    compress_page-Kept copy [] ones (length-replicate {A = ℕ} 4096 1)
      (All-replicate (λ b. b < 256) 4096 1 (omega arith))

abbrev blocks : List MemoryBlock
blocks =
    record { address = 4096; size = 4096; is_free = false; flags = 0; protection_bits = 0 }
    ∷ record { address = 8192; size = 4096; is_free = false; flags = 0; protection_bits = 0 }
    ∷ []
