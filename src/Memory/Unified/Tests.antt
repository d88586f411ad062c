-- ===== src/Memory/Unified/Tests.antt =====
-- Runs of the memory manager with pools, and the theorems on them.
use kernelc_moderne.Prelude.{
  ℕ, ◌≡◌, refl, false, true, ◌+◌, ◌*◌, List, [], ◌∷◌, Option, none, some, All, replicate, lookup,
  insert, erase, arith,
}
use kernelc_moderne.Memory.Unified.{
  page_size, WorkloadType, same_workload, MemoryPool, MemoryManager, empty_entry, no_metrics,
  configure_memory_pools, align_size, pool_allocate, map_pages, page_allocate, allocate_memory,
  update_tlb, invalidate_tlb_entry, should_defragment, record_deallocation,
}
use kernelc_moderne.Memory.Unified.Freeing.{
  unmap_pages, free_memory, free_pool_block, free_page_block, live_allocations, insert_sorted,
  compact, defragment_pool, Freed,
}
use kernelc_moderne.Memory.Unified.Pools.{fits, IsSound, Taken, pool_allocate-Taken}
use kernelc_moderne.Memory.Unified.Reuse.{in_first, reuse_live}
use kernelc_moderne.Memory.Unified.Pages.{supplied}
use kernelc_moderne.Memory.Unified.RoundTrip.{page_count, IsUndone, free_memory-allocate_memory}

abbrev some_pools : List MemoryPool
some_pools = configure_memory_pools 1048576 2097152 3145728 8388608

abbrev new_manager : MemoryManager
new_manager = record {
  tlb_cache = replicate 4 empty_entry;
  pools = some_pools;
  page_table = [];
  pool_allocations = [];
  page_allocations = [];
  available_memory = 1000000;
}

abbrev physical_page : ℕ → ℕ
physical_page i = 65536 + i * page_size

-- A page allocator with room at one address.
abbrev one_block : ℕ → Option ℕ
one_block n = some 16777216

program : Unit {0}
unfolding configure_memory_pools align_size pool_allocate same_workload map_pages unmap_pages
    page_allocate allocate_memory update_tlb invalidate_tlb_entry should_defragment
    record_deallocation free_memory free_pool_block free_page_block live_allocations insert_sorted
    compact defragment_pool insert erase lookup fits page_count supplied
program = tt

align_size_test : align_size 100 ≡ 128
unfolding program
align_size_test = refl

two_blocks_test :
    let m1 = (allocate_memory physical_page one_block WorkloadType.gaming new_manager 100).0 in
    (allocate_memory physical_page one_block WorkloadType.gaming m1 1).1 ≡ some (1048576 + 128)
unfolding program
two_blocks_test = refl

IsSound-some_pools : All IsSound some_pools
unfolding program
IsSound-some_pools = (
  record { within = omega arith; small = omega arith; addressed = omega arith },
  (
    record { within = omega arith; small = omega arith; addressed = omega arith },
    (
      record { within = omega arith; small = omega arith; addressed = omega arith },
      (record { within = omega arith; small = omega arith; addressed = omega arith }, tt),
    ),
  ),
)

pool_allocate-Taken_example :
    Taken WorkloadType.creative 128 0 some_pools
      (pool_allocate 0 WorkloadType.creative 128 some_pools)
pool_allocate-Taken_example =
    pool_allocate-Taken WorkloadType.creative 128 0 some_pools IsSound-some_pools

abbrev first_pool : MemoryPool
first_pool = record {
  start = 1048576;
  size = 64 * 1024;
  used = 0;
  optimized_for = WorkloadType.gaming;
  fragmentation_metrics = no_metrics;
}

abbrev small_manager : MemoryManager
small_manager = record new_manager { pools = first_pool ∷ [] }

align_100 : align_size 100 ≡ 128
unfolding program
align_100 = refl

is_gaming : same_workload first_pool.optimized_for WorkloadType.gaming ≡ true
unfolding program
is_gaming = refl

quiet :
    should_defragment (record_deallocation first_pool.fragmentation_metrics (align_size 100))
    ≡ false
unfolding program
quiet = refl

reuse_live_example :
    let request = allocate_memory physical_page one_block WorkloadType.gaming in
    let (m1, first) = request small_manager 100 in
    let (m2, second) = request m1 100 in
    let m3 = (free_memory m2 (1048576 + 0)).0 in
    let address = 1048576 + (0 + align_size 100) in
    (first ≡ some (1048576 + 0))
    × (second ≡ some address)
    × ((request m3 100).1 ≡ some address)
    × (lookup address m3.pool_allocations ≡ some (in_first (align_size 100)))
reuse_live_example =
    reuse_live physical_page one_block WorkloadType.gaming small_manager 100 first_pool []
      (omega arith) (omega (arith, align_100)) refl
      (record { within = omega arith; small = omega arith; addressed = omega arith }) is_gaming
      (omega (arith, align_100)) quiet

-- A request that is too large for its pool and takes 17 pages.
too_large : pool_allocate 0 WorkloadType.gaming (align_size 65537) some_pools ≡ none
unfolding program
too_large = refl

pages_of_large : page_count 65537 ≡ 17
unfolding program
pages_of_large = refl

no_block : lookup 16777216 new_manager.pool_allocations ≡ none
unfolding program
no_block = refl

free_memory-allocate_memory_example :
    let (m1, block) =
      allocate_memory physical_page one_block WorkloadType.gaming new_manager 65537 in
    let (m2, result) = free_memory m1 16777216 in
    (block ≡ some 16777216)
    × (result ≡ Freed.page_block (supplied physical_page (page_count 65537) 0) (page_count 65537))
    × IsUndone physical_page new_manager m1 m2 16777216 (page_count 65537)
free_memory-allocate_memory_example =
    free_memory-allocate_memory physical_page one_block WorkloadType.gaming new_manager 65537
      16777216 (omega arith) too_large refl no_block (omega (arith, pages_of_large))
