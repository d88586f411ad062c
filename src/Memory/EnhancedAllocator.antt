-- ===== src/Memory/EnhancedAllocator.antt =====
-- memory/MemoryManager.hpp: the page allocator with huge pages and the manager over 16 GB.
-- Its bitmap, `initialize` and search loop are those of memory/PageAllocator.hpp, line for line,
-- and are used from there. The cache settings and the float `getMemoryUtilization` are left out.
pub mod Laws
use kernelc_moderne.Prelude.{
  ℕ, ◌+◌, ◌-◌, ◌*◌, ◌/◌, ◌%◌, Bool, true, false, Option, none, some, leb, if◌then◌else◌,
}
use kernelc_moderne.Memory.PageAllocator.{
  PageAllocator, u64_mod, page_size, initialize, find_run, take_run,
}

abbrev pub huge_page_size : ℕ
huge_page_size = 2 * 1024 * 1024

abbrev pub page_unit : Bool → ℕ
page_unit use_huge_pages = if use_huge_pages then huge_page_size else page_size

pub unit_count : ℕ → Bool → ℕ
unit_count size huge = ((size + page_unit huge - 1) % u64_mod) / page_unit huge

-- The bitmap has one bit for each 4 KiB page, whichever unit the request is counted in.
pub allocate : PageAllocator → ℕ → Bool → PageAllocator × Option ℕ
allocate a size huge = elim (find_run a.total_pages a.buffer (unit_count size huge) 0 0 0) [
  | none ↦ (a, none)
  | some p ↦
      (take_run a (unit_count size huge) p, some ((a.memory_start + p * page_unit huge) % u64_mod))
]

pub initialize_manager : PageAllocator
initialize_manager = initialize 0x100000 (16 * 1024 * 1024 * 1024)

pub allocate_memory : PageAllocator → ℕ → PageAllocator × Option ℕ
allocate_memory a size =
    if leb huge_page_size size then allocate a size true else allocate a size false
