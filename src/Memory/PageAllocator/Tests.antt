-- ===== src/Memory/PageAllocator/Tests.antt =====
-- The page allocator on ten pages.
use kernelc_moderne.Prelude.{◌+◌, ◌*◌, ◌≤◌, ◌≡◌, ◌⊎◌, refl, none, some, arith}
use kernelc_moderne.Memory.PageAllocator.{
  PageAllocator, get_bit, set_bit, set_bits, initialize, page_index, page_count, find_run, take_run,
  allocate, free,
}
use kernelc_moderne.Memory.PageAllocator.Invariant.{IsValid, initialize-IsValid}
use kernelc_moderne.Memory.PageAllocator.Allocate.{Outcome, allocate-Outcome}
use kernelc_moderne.Memory.PageAllocator.Laws.{allocate_disjoint, free-allocate}

program : Unit {0}
unfolding get_bit set_bit set_bits initialize page_index page_count find_run take_run allocate free
program = tt

abbrev fresh : PageAllocator
fresh = initialize 0x100000 40960

abbrev used : PageAllocator
used = (allocate fresh 5000).0

fresh-IsValid : IsValid fresh
fresh-IsValid = initialize-IsValid 0x100000 40960 (omega arith)

first_run : allocate fresh 5000 ≡ (used, some 0x100000)
unfolding program
first_run = refl

second_run : (allocate used 4096).1 ≡ some 0x102000
unfolding program
second_run = refl

too_long : (allocate used 40000).1 ≡ none
unfolding program
too_long = refl

allocate-Outcome_example : Outcome fresh 5000 (allocate fresh 5000)
allocate-Outcome_example = allocate-Outcome fresh 5000 fresh-IsValid

allocate_disjoint_example :
    (0x100000 + page_count 5000 * 4096 ≤ 0x102000) ⊎ (0x102000 + page_count 4096 * 4096 ≤ 0x100000)
unfolding program
allocate_disjoint_example =
    allocate_disjoint fresh used (allocate used 4096).0 5000 4096 0x100000 0x102000 fresh-IsValid
      refl refl

free-allocate_example :
    (get_bit (free used 0x100000 5000).buffer 1 ≡ get_bit fresh.buffer 1)
    × ((free used 0x100000 5000).free_pages ≡ fresh.free_pages)
unfolding allocate find_run get_bit
free-allocate_example = free-allocate fresh used 5000 0x100000 1 fresh-IsValid first_run
