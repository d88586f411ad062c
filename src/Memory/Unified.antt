-- ===== src/Memory/Unified.antt =====
-- memory/MemoryManager.cpp, OptimizedUnifiedMemoryManager: pools, page allocations and the cache
-- of translations. Addresses and sizes are 64-bit values. What the page allocator, the supply of
-- physical pages and the detection of the workload answer are arguments; the setup functions
-- and the log are left out.
pub mod Freeing
pub mod Tlb
pub mod Pools
pub mod Reuse
pub mod Pages
pub mod RoundTrip
mod Tests
use kernelc_moderne.Prelude.{
  ℕ, zero, suc, ◌+◌, ◌-◌, ◌*◌, ◌/◌, ◌%◌, ◌^◌, Bool, true, false, not, ◌&&◌, List, [], ◌∷◌, ◌++◌,
  Option, none, some, ltb, leb, ◌==◌, if◌then◌else◌, get_or, set, lookup, insert, erase,
}

abbrev pub word : ℕ
word = 2 ^ 64

abbrev pub page_size : ℕ
page_size = 4096

abbrev pub cache_line_size : ℕ
cache_line_size = 64

abbrev pub tlb_size : ℕ
tlb_size = 256

pub record TlbEntry : Type 0 where
  pub virtual_address : ℕ
  pub physical_address : ℕ
  pub valid : Bool

pub data WorkloadType : Type 0 where
  gaming creative general high_performance : WorkloadType

pub same_workload : WorkloadType → WorkloadType → Bool
same_workload WorkloadType.gaming WorkloadType.gaming = true
same_workload WorkloadType.creative WorkloadType.creative = true
same_workload WorkloadType.general WorkloadType.general = true
same_workload WorkloadType.high_performance WorkloadType.high_performance = true
same_workload w v = false

pub record FragmentationMetrics : Type 0 where
  pub total_allocations : ℕ
  pub total_deallocations : ℕ
  pub fragmented_space : ℕ

abbrev pub no_metrics : FragmentationMetrics
no_metrics = record { total_allocations = 0; total_deallocations = 0; fragmented_space = 0 }

pub record_deallocation : FragmentationMetrics → ℕ → FragmentationMetrics
record_deallocation f size = record f {
  total_deallocations = f.total_deallocations + 1;
  fragmented_space = f.fragmented_space + size;
}

pub should_defragment : FragmentationMetrics → Bool
should_defragment f = ltb (1024 * 1024) f.fragmented_space

pub record MemoryPool : Type 0 where
  pub start : ℕ
  pub size : ℕ
  pub used : ℕ
  pub optimized_for : WorkloadType
  pub fragmentation_metrics : FragmentationMetrics

pub record PoolAllocationInfo : Type 0 where
  pub pool_index : ℕ
  pub size : ℕ

pub record MemoryManager : Type 0 where
  pub tlb_cache : List TlbEntry
  pub pools : List MemoryPool
  pub page_table : List (ℕ × ℕ)
  pub pool_allocations : List (ℕ × PoolAllocationInfo)
  pub page_allocations : List (ℕ × ℕ)
  pub available_memory : ℕ

-- The sizes and kinds of the four pools, at the addresses that the page allocator gave.
pub configure_memory_pools : ℕ → ℕ → ℕ → ℕ → List MemoryPool
configure_memory_pools a b c d =
    record {
      start = a;
      size = 64 * 1024;
      used = 0;
      optimized_for = WorkloadType.gaming;
      fragmentation_metrics = no_metrics;
    }
    ∷ record {
      start = b;
      size = 256 * 1024;
      used = 0;
      optimized_for = WorkloadType.creative;
      fragmentation_metrics = no_metrics;
    }
    ∷ record {
      start = c;
      size = 1024 * 1024;
      used = 0;
      optimized_for = WorkloadType.general;
      fragmentation_metrics = no_metrics;
    }
    ∷ record {
      start = d;
      size = 4096 * 1024;
      used = 0;
      optimized_for = WorkloadType.high_performance;
      fragmentation_metrics = no_metrics;
    }
    ∷ []

pub update_tlb : List TlbEntry → ℕ → ℕ → List TlbEntry
update_tlb tlb virtual physical =
    set tlb (virtual % tlb_size)
      (record { virtual_address = virtual; physical_address = physical; valid = true })

abbrev pub empty_entry : TlbEntry
empty_entry = record { virtual_address = 0; physical_address = 0; valid = false }

pub invalidate_tlb_entry : List TlbEntry → ℕ → List TlbEntry
invalidate_tlb_entry tlb virtual =
    set tlb (virtual % tlb_size)
      (record (get_or tlb (virtual % tlb_size) empty_entry) { valid = false })

-- Up to a multiple of the cache line; the sum wraps.
unfoldable pub align_size : ℕ → ℕ
align_size size = ((size + cache_line_size - 1) % word) / cache_line_size * cache_line_size

-- The loop over the pools, with the index of the first: the pools, the address and the index of
-- the pool that has room. `fetch_add` and `fetch_sub` of one size cancel.
pub pool_allocate : ℕ → WorkloadType → ℕ → List MemoryPool → Option (List MemoryPool × ℕ × ℕ)
pool_allocate i workload size [] = none
pool_allocate i workload size (pool ∷ pools) =
    elim (same_workload pool.optimized_for workload
      && (leb size pool.size && leb ((pool.used + size) % word) pool.size)) [
        | true ↦ some (
          record pool { used = (pool.used + size) % word } ∷ pools,
          (pool.start + pool.used) % word,
          i,
        )
        | false ↦ elim (pool_allocate (i + 1) workload size pools) [
          | none ↦ none
          | some (pools', address, index) ↦ some (pool ∷ pools', address, index)
        ]
      ]

-- The loop over the pages from page `i` on, with the pages that are left.
pub map_pages : (ℕ → ℕ) → ℕ → ℕ → ℕ → MemoryManager → MemoryManager
map_pages physical zero i address m = m
map_pages physical (suc n) i address m =
    let virtual = (address + i * page_size) % word in
    map_pages physical n (i + 1) address (record m {
      page_table = insert virtual (physical i) m.page_table;
      tlb_cache = update_tlb m.tlb_cache virtual (physical i);
    })

-- The fall back on the page allocator, which answers with an address or null.
pub page_allocate : (ℕ → ℕ) → (ℕ → Option ℕ) → MemoryManager → ℕ → MemoryManager × Option ℕ
page_allocate physical allocate_pages m size =
    let pages = ((size + page_size - 1) % word) / page_size in
    elim (allocate_pages pages) [
      | none ↦ (m, none)
      | some address ↦
          let m' = map_pages physical pages 0 address m in
          (record m' { page_allocations = insert address pages m'.page_allocations }, some address)
    ]

pub allocate_memory :
    (ℕ → ℕ) → (ℕ → Option ℕ) → WorkloadType → MemoryManager → ℕ → MemoryManager × Option ℕ
allocate_memory physical allocate_pages workload m size =
    if size == 0 then (m, none) else (elim (pool_allocate 0 workload (align_size size) m.pools) [
      | some (pools', address, index) ↦ (
        record m {
          pools = pools';
          pool_allocations =
              insert address (record { pool_index = index; size = align_size size })
                m.pool_allocations;
        },
        some address,
      )
      | none ↦ page_allocate physical allocate_pages m (align_size size)
    ])
