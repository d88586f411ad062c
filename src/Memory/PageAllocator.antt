-- ===== src/Memory/PageAllocator.antt =====
-- memory/PageAllocator.hpp: a bitmap of 4 KiB pages with first-fit allocation of page runs.
-- The buffer is the list of its bytes, and addresses and sizes are 64-bit values that wrap.
-- A read outside the buffer gives 0 and a write outside it does nothing: the source has no
-- defined behaviour there.
pub mod Bitmap
pub mod FirstFit
pub mod Counts
pub mod Invariant
pub mod Allocate
pub mod Laws
pub mod Fragments
mod Tests
use Prim.Native.Nat.{bit_and, bit_or}
use kernelc_moderne.Prelude.{
  ℕ, zero, suc, ◌+◌, ◌-◌, ◌*◌, ◌/◌, ◌%◌, ◌^◌, Bool, true, false, not, List, [], ◌∷◌, Option, none,
  some, ◌==◌, if◌then◌else◌, get_or, set, replicate,
}

abbrev pub u64_mod : ℕ
u64_mod = 2 ^ 64

abbrev pub page_size : ℕ
page_size = 4096

pub record PageAllocator : Type 0 where
  pub buffer : List ℕ
  pub memory_start : ℕ
  pub total_pages : ℕ
  pub free_pages : ℕ

abbrev pub bit_mask : ℕ → ℕ
bit_mask index = 2 ^ (index % 8)

-- `~bitMask` is cut to eight bits by the assignment to a `uint8_t`.
pub set_bit : List ℕ → ℕ → Bool → List ℕ
set_bit buffer index value =
    let byte_index = index / 8 in
    let byte = get_or buffer byte_index 0 in
    set buffer byte_index
      (if value then bit_or byte (bit_mask index) else bit_and byte (255 - bit_mask index))

unfoldable pub get_bit : List ℕ → ℕ → Bool
get_bit buffer index = not (bit_and (get_or buffer (index / 8) 0) (bit_mask index) == 0)

pub page_index : PageAllocator → ℕ → ℕ
page_index a address = ((address + u64_mod - a.memory_start) % u64_mod) / page_size

unfoldable pub initialize : ℕ → ℕ → PageAllocator
initialize start memory_size =
    let total = memory_size / page_size in
    record {
      buffer = replicate ((total + 7) / 8) 0;
      memory_start = start;
      total_pages = total;
      free_pages = total;
    }

-- The number of pages that a request of `size` bytes takes; the sum wraps.
unfoldable pub page_count : ℕ → ℕ
page_count size = ((size + page_size - 1) % u64_mod) / page_size

-- The loop `for (i = ...; i < totalPages; i++)` of `allocate`, with the rounds that are left:
-- the first page of the run that it finds.
unfoldable pub find_run : ℕ → List ℕ → ℕ → ℕ → ℕ → ℕ → Option ℕ
find_run zero buffer count i consecutive start = none
find_run (suc n) buffer count i consecutive start = elim (get_bit buffer i) [
  | true ↦ find_run n buffer count (i + 1) 0 start
  | false ↦
      let start' = if consecutive == 0 then i else start in
      elim (consecutive + 1 == count) [
        | true ↦ some start'
        | false ↦ find_run n buffer count (i + 1) (consecutive + 1) start'
      ]
]

-- `for (j = 0; j < n; j++) setBit(start + j, value)`
pub set_bits : ℕ → List ℕ → ℕ → Bool → List ℕ
set_bits zero buffer start value = buffer
set_bits (suc n) buffer start value = set_bits n (set_bit buffer start value) (start + 1) value

-- The branch of `allocate` that takes the run at page `start`.
unfoldable pub take_run : PageAllocator → ℕ → ℕ → PageAllocator
take_run a count start = record a {
  buffer = set_bits count a.buffer start true;
  free_pages = (a.free_pages + u64_mod - count) % u64_mod;
}

-- `none` is the null pointer.
unfoldable pub allocate : PageAllocator → ℕ → PageAllocator × Option ℕ
allocate a size = elim (find_run a.total_pages a.buffer (page_count size) 0 0 0) [
  | none ↦ (a, none)
  | some p ↦ (take_run a (page_count size) p, some ((a.memory_start + p * page_size) % u64_mod))
]

pub free : PageAllocator → ℕ → ℕ → PageAllocator
free a address size = record a {
  buffer = set_bits (page_count size) a.buffer (page_index a address) false;
  free_pages = (a.free_pages + page_count size) % u64_mod;
}

-- The loop of `getFragmentationRatio`: the number of maximal runs of free pages.
pub count_fragments : ℕ → List ℕ → ℕ → ℕ → Bool → ℕ
count_fragments zero buffer i fragments in_fragment = fragments
count_fragments (suc n) buffer i fragments in_fragment = elim (get_bit buffer i) [
  | true ↦ count_fragments n buffer (i + 1) fragments false
  | false ↦ count_fragments n buffer (i + 1) (if in_fragment then fragments else fragments + 1) true
]
