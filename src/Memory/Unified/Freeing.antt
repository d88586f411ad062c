-- ===== src/Memory/Unified/Freeing.antt =====
-- memory/MemoryManager.cpp, `freeMemory` and `defragmentPool`. The live blocks that a
-- defragmentation moves are part of its result.
use kernelc_moderne.Prelude.{
  ℕ, zero, suc, ◌+◌, ◌-◌, ◌*◌, ◌%◌, true, false, not, List, [], ◌∷◌, ◌++◌, none, some, leb, ◌==◌,
  if◌then◌else◌, get_or, set, lookup, insert, erase,
}
use kernelc_moderne.Memory.Unified.{
  word, page_size, WorkloadType, no_metrics, record_deallocation, should_defragment, MemoryPool,
  PoolAllocationInfo, MemoryManager, invalidate_tlb_entry,
}

-- `defragmentPool`: the live blocks of the pool, by address.
unfoldable pub insert_sorted : ℕ × ℕ → List (ℕ × ℕ) → List (ℕ × ℕ)
insert_sorted (a, n) [] = (a, n) ∷ []
insert_sorted (a, n) ((b, k) ∷ rest) =
    let later = insert_sorted (a, n) rest in
    if leb a b then (a, n) ∷ (b, k) ∷ rest else (b, k) ∷ later

unfoldable pub live_allocations : ℕ → List (ℕ × PoolAllocationInfo) → List (ℕ × ℕ)
live_allocations index [] = []
live_allocations index ((a, info) ∷ rest) =
    let others = live_allocations index rest in
    if info.pool_index == index then insert_sorted (a, info.size) others else others

-- The loop that moves them down to `dest`: the table, the end, and the moves that it makes, as
-- from, to and size.
unfoldable pub compact :
    ℕ
    → ℕ
    → List (ℕ × ℕ)
    → List (ℕ × PoolAllocationInfo)
    → List (ℕ × PoolAllocationInfo) × ℕ × List (ℕ × ℕ × ℕ)
compact index dest [] table = (table, dest, [])
compact index dest ((a, size) ∷ rest) table = elim (a == dest) [
  | true ↦ compact index (dest + size) rest table
  | false ↦
      let (table', end, moves) =
        compact index (dest + size) rest
          (erase a (insert dest (record { pool_index = index; size = size }) table)) in
      (table', end, (a, dest, size) ∷ moves)
]

pub empty_pool : MemoryPool
empty_pool = record {
  start = 0;
  size = 0;
  used = 0;
  optimized_for = WorkloadType.general;
  fragmentation_metrics = no_metrics;
}

unfoldable pub defragment_pool : MemoryManager → ℕ → MemoryManager × List (ℕ × ℕ × ℕ)
defragment_pool m index =
    let pool = get_or m.pools index empty_pool in
    if not (should_defragment pool.fragmentation_metrics)
    then (m, [])
    else (let (table, end, moves) =
          compact index pool.start (live_allocations index m.pool_allocations) m.pool_allocations in
        (
          record m {
            pool_allocations = table;
            pools =
                set m.pools index
                  (record pool { fragmentation_metrics = no_metrics; used = end - pool.start });
          },
          moves,
        ))

-- The branch of `freeMemory` on a block of a pool; the list is what a defragmentation moved.
unfoldable pub free_pool_block :
    MemoryManager → ℕ → PoolAllocationInfo → MemoryManager × List (ℕ × ℕ × ℕ)
free_pool_block m address info =
    let pool = get_or m.pools info.pool_index empty_pool in
    let pool' : MemoryPool = record pool {
      used = (pool.used + word - info.size) % word;
      fragmentation_metrics = record_deallocation pool.fragmentation_metrics info.size;
    } in
    let m' : MemoryManager = record m {
      pools = set m.pools info.pool_index pool';
      pool_allocations = erase address m.pool_allocations;
    } in
    if should_defragment pool'.fragmentation_metrics
    then defragment_pool m' info.pool_index
    else (m', [])

-- The loop over the pages of an allocation from page `i` on: the physical pages given back.
unfoldable pub unmap_pages : ℕ → ℕ → ℕ → MemoryManager → MemoryManager × List ℕ
unmap_pages zero i address m = (m, [])
unmap_pages (suc n) i address m =
    let virtual = (address + i * page_size) % word in
    let (m', freed) = unmap_pages n (i + 1) address (record m {
      tlb_cache = invalidate_tlb_entry m.tlb_cache virtual;
      page_table = erase virtual m.page_table;
    }) in
    (m', (elim (lookup virtual m.page_table) [ none ↦ [] | some p ↦ p ∷ [] ]) ++ freed)

-- The branch on pages. The pages are given back to the page allocator as well.
unfoldable pub free_page_block : MemoryManager → ℕ → ℕ → MemoryManager
free_page_block m address pages =
    let m' = (unmap_pages pages 0 address m).0 in
    record m' {
      page_allocations = erase address m'.page_allocations;
      available_memory = m'.available_memory + pages * page_size;
    }

-- What `freeMemory` calls and returns: false; true, after moving blocks of a pool; true, after
-- giving back these physical pages and a number of pages to the page allocator.
pub data Freed : Type 0 where
  invalid_free : Freed
  pool_block : List (ℕ × ℕ × ℕ) → Freed
  page_block : List ℕ → ℕ → Freed

unfoldable pub free_memory : MemoryManager → ℕ → MemoryManager × Freed
free_memory m address = elim (lookup address m.pool_allocations) [
  | some info ↦ let (m', moves) = free_pool_block m address info in (m', Freed.pool_block moves)
  | none ↦ elim (lookup address m.page_allocations) [
    | none ↦ (m, Freed.invalid_free)
    | some pages ↦
        (free_page_block m address pages, Freed.page_block (unmap_pages pages 0 address m).1 pages)
  ]
]
