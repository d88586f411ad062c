-- ===== src/Memory/PageAllocator/Invariant.antt =====
-- The invariant of the page allocator, and that every operation keeps it.
use Prim.Native.Nat.{bit_and, bit_and-bitwise}
use kernelc_moderne.Prelude.{
  ℕ, zero, suc, ◌+◌, ◌*◌, ◌/◌, ◌%◌, ◌^◌, ◌≤◌, ◌≡◌, refl, sym, ◌∙◌, true, false, List, arith,
  if◌then◌else◌, length, replicate, length-replicate, get_or-replicate, All-replicate,
}
use kernelc_moderne.Memory.PageAllocator.{
  PageAllocator, u64_mod, page_size, get_bit, initialize, take_run,
}
use kernelc_moderne.Memory.PageAllocator.Bitmap.{
  Bytes, in_run, length-set_bits, set_bits-Bytes, get_bit-set_bits,
}
use kernelc_moderne.Memory.PageAllocator.FirstFit.{IsFreeRun}
use kernelc_moderne.Memory.PageAllocator.Counts.{count_free, count_free-set_bits}

pub record IsValid (a : PageAllocator) : Type 0 where
  pub bytes : Bytes a.buffer
  pub sized : length a.buffer ≡ (a.total_pages + 7) / 8
  pub counted : a.free_pages ≡ count_free a.total_pages a.buffer
  pub addressable : a.memory_start + a.total_pages * page_size ≤ u64_mod

pub count_free-le : (n : ℕ) (b : List ℕ) → count_free n b ≤ n
unfolding count_free
count_free-le zero b = omega arith
count_free-le (suc n) b = ground (arith, count_free-le n b)

-- The pages that the bitmap covers, and the free ones among them, are fewer than 2^64.
pub free_pages-le : (a : PageAllocator) → IsValid a → a.free_pages ≤ a.total_pages
free_pages-le a v = omega (arith, count_free-le a.total_pages a.buffer, v.counted)

zero-bit_and : (b : ℕ) → bit_and 0 b ≡ 0
zero-bit_and b = bit_and-bitwise 0 b

pub get_bit-zeros : (n j : ℕ) → get_bit (replicate n 0) j ≡ false
unfolding get_bit
get_bit-zeros n j = let z : ℕ = 0 in rw (get_or-replicate n (j / 8) z, zero-bit_and (2 ^ (j % 8)))

count_free-zeros : (k n : ℕ) → count_free k (replicate n 0) ≡ k
unfolding count_free
count_free-zeros zero n = refl
count_free-zeros (suc k) n = rw (get_bit-zeros n k) (omega (arith, count_free-zeros k n))

-- A fresh allocator over memory that ends below 2^64 is valid, with every page free.
pub initialize-IsValid :
    (start memory_size : ℕ) → start + memory_size ≤ u64_mod → IsValid (initialize start memory_size)
unfolding initialize
initialize-IsValid start size h = record {
  bytes = All-replicate _ _ 0 (omega arith);
  sized = length-replicate _ 0;
  counted = sym (count_free-zeros (size / page_size) _);
  addressable = omega arith;
}

module _ (a : PageAllocator) (v : IsValid a) (count start : ℕ)
    (fits : start + count ≤ a.total_pages) where
  covered : start + count ≤ length a.buffer * 8
  covered = omega (arith, v.sized)

  pub get_bit-take_run :
      (j : ℕ)
      → get_bit (take_run a count start).buffer j
        ≡ (if in_run count start j then true else get_bit a.buffer j)
  unfolding take_run
  get_bit-take_run j = get_bit-set_bits count a.buffer start j true v.bytes covered

  pub free_pages-take_run :
      IsFreeRun a.buffer start count → (take_run a count start).free_pages + count ≡ a.free_pages
  unfolding take_run
  free_pages-take_run run = omega (
    arith,
    count_free-set_bits a.total_pages true false count a.buffer start v.bytes
        (omega (arith, v.sized)) fits run,
    free_pages-le a v,
    v.counted,
    v.addressable,
  )

  pub take_run-IsValid : IsFreeRun a.buffer start count → IsValid (take_run a count start)
  unfolding take_run
  take_run-IsValid run = record {
    bytes = set_bits-Bytes count a.buffer start true v.bytes;
    sized = length-set_bits count a.buffer start true ∙ v.sized;
    counted = omega (
      arith,
      free_pages-take_run run,
      count_free-set_bits a.total_pages true false count a.buffer start v.bytes
          (omega (arith, v.sized)) fits run,
      v.counted,
    );
    addressable = v.addressable;
  }

  pub covered-take_run : start + count ≤ length (take_run a count start).buffer * 8
  unfolding take_run
  covered-take_run = omega (arith, length-set_bits count a.buffer start true, v.sized)
