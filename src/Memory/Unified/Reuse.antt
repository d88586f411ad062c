-- ===== src/Memory/Unified/Reuse.antt =====
-- What the release of a block of a pool does to the blocks that stand behind it.
use kernelc_moderne.Prelude.{
  ℕ, ◌≡◌, ◌≤◌, ◌<◌, refl, ◌∙◌, ap, ◌+◌, ◌-◌, ◌%◌, List, [], ◌∷◌, true, false, Option, some, ◌==◌,
  ==_ne, ==_refl, le→leb, lookup, insert, erase, lookup-insert, lookup-erase, arith,
}
use kernelc_moderne.Memory.Unified.{
  word, WorkloadType, same_workload, MemoryPool, PoolAllocationInfo, MemoryManager, align_size,
  pool_allocate, allocate_memory, should_defragment, record_deallocation,
}
use kernelc_moderne.Memory.Unified.Freeing.{free_pool_block, free_memory, Freed}
use kernelc_moderne.Memory.Unified.Pools.{fits, IsSound, with_used, pool_allocate-here}

-- A block of the first pool.
abbrev pub in_first : ℕ → PoolAllocationInfo
in_first n = record { pool_index = 0; size = n }

-- The manager once the first pool has given a block of `n` bytes, and once it has one back.
abbrev pub given : MemoryManager → MemoryPool → List MemoryPool → ℕ → MemoryManager
given m pool pools n = record m {
  pools = with_used pool n ∷ pools;
  pool_allocations = insert (pool.start + pool.used) (in_first n) m.pool_allocations;
}

abbrev pub taken_back : MemoryManager → MemoryPool → List MemoryPool → ℕ → ℕ → MemoryManager
taken_back m pool pools address n = record m {
  pools =
      record pool {
        used = (pool.used + word - n) % word;
        fragmentation_metrics = record_deallocation pool.fragmentation_metrics n;
      }
      ∷ pools;
  pool_allocations = erase address m.pool_allocations;
}

allocate_memory-here :
    (physical : ℕ → ℕ) (allocate_pages : ℕ → Option ℕ) (workload : WorkloadType) (m : MemoryManager)
    (size : ℕ) (pool : MemoryPool) (pools : List MemoryPool)
    → (size == 0) ≡ false
    → m.pools ≡ pool ∷ pools
    → IsSound pool
    → fits workload (align_size size) pool ≡ true
    → allocate_memory physical allocate_pages workload m size
      ≡ (given m pool pools (align_size size), some (pool.start + pool.used))
unfolding allocate_memory
allocate_memory-here physical allocate_pages workload m size pool pools h same sound fit =
    rw
      (
        h,
        ap (pool_allocate 0 workload (align_size size)) same
            ∙ pool_allocate-here workload (align_size size) 0 pool pools sound fit,
      )
      refl

free_pool_block-quiet :
    (m : MemoryManager) (address n : ℕ) (pool : MemoryPool) (pools : List MemoryPool)
    → m.pools ≡ pool ∷ pools
    → should_defragment (record_deallocation pool.fragmentation_metrics n) ≡ false
    → free_pool_block m address (in_first n) ≡ (taken_back m pool pools address n, [])
unfolding free_pool_block
free_pool_block-quiet m address n pool pools same quiet = rw (same, quiet) refl

free_memory-here :
    (m : MemoryManager) (address n : ℕ) (pool : MemoryPool) (pools : List MemoryPool)
    → m.pools ≡ pool ∷ pools
    → lookup address m.pool_allocations ≡ some (in_first n)
    → should_defragment (record_deallocation pool.fragmentation_metrics n) ≡ false
    → free_memory m address ≡ (taken_back m pool pools address n, Freed.pool_block [])
unfolding free_memory
free_memory-here m address n pool pools same found quiet =
    rw (found, free_memory, free_pool_block-quiet m address n pool pools same quiet) refl

-- The first pool after it gave two blocks of `n` bytes and took one back.
abbrev taken_one_back : MemoryPool → ℕ → MemoryPool
taken_one_back pool n = record pool {
  used = (pool.used + n + n + word - n) % word;
  fragmentation_metrics = record_deallocation pool.fragmentation_metrics n;
}

fits-at :
    (workload : WorkloadType) (n : ℕ) (pool : MemoryPool)
    → same_workload pool.optimized_for workload ≡ true
    → pool.used + n ≤ pool.size
    → fits workload n pool ≡ true
unfolding fits
fits-at workload n pool same room = rw (same, le→leb (pool.used + n) pool.size room) refl

third-fits :
    (workload : WorkloadType) (n : ℕ) (pool : MemoryPool)
    → IsSound pool
    → same_workload pool.optimized_for workload ≡ true
    → pool.used + n + n ≤ pool.size
    → let once = with_used pool n in
      let third = taken_one_back pool n in
      IsSound once
      × (fits workload n pool ≡ true)
      × (fits workload n once ≡ true)
      × IsSound third
      × (fits workload n third ≡ true)
      × (third.used ≡ pool.used + n)
third-fits workload n pool sound same room =
    let e : (pool.used + n + n + word - n) % word ≡ pool.used + n =
      omega (arith, room, sound.small) in
    (
      record { within = omega (arith, room); small = sound.small; addressed = sound.addressed },
      fits-at workload n pool same (omega (arith, room)),
      fits-at workload n (with_used pool n) same room,
      record { within = omega (arith, room, e); small = sound.small; addressed = sound.addressed },
      fits-at workload n (taken_one_back pool n) same (omega (arith, room, e)),
      e,
    )

-- On a manager whose first pool is for the workload and has room for two blocks of the aligned
-- size, where the release of one starts no defragmentation: two blocks are allocated, and the
-- first is freed. The next request of the same size is given the address of the second block,
-- which is still recorded as allocated.
pub reuse_live :
    (physical : ℕ → ℕ) (allocate_pages : ℕ → Option ℕ) (workload : WorkloadType) (m : MemoryManager)
    (size : ℕ) (pool : MemoryPool) (pools : List MemoryPool)
    → 0 < size
    → 0 < align_size size
    → m.pools ≡ pool ∷ pools
    → IsSound pool
    → same_workload pool.optimized_for workload ≡ true
    → pool.used + align_size size + align_size size ≤ pool.size
    → should_defragment (record_deallocation pool.fragmentation_metrics (align_size size)) ≡ false
    → let request = allocate_memory physical allocate_pages workload in
      let (m1, first) = request m size in
      let (m2, second) = request m1 size in
      let m3 = (free_memory m2 (pool.start + pool.used)).0 in
      let address = pool.start + (pool.used + align_size size) in
      (first ≡ some (pool.start + pool.used))
      × (second ≡ some address)
      × ((request m3 size).1 ≡ some address)
      × (lookup address m3.pool_allocations ≡ some (in_first (align_size size)))
reuse_live physical allocate_pages workload m size pool pools positive aligned same sound kind room
      quiet =
    let n = align_size size in
    let once = with_used pool n in
    let f = third-fits workload n pool sound kind room in
    let nonzero = ==_ne size 0 (λ e. omega (arith, positive, e)) in
    let m1 : MemoryManager = given m pool pools n in
    let m2 : MemoryManager = given m1 once pools n in
    let m3 : MemoryManager = taken_back m2 (with_used once n) pools (pool.start + pool.used) n in
    let address = pool.start + (pool.used + n) in
    let one =
      allocate_memory-here physical allocate_pages workload m size pool pools nonzero same sound
        f.1 in
    let two =
      allocate_memory-here physical allocate_pages workload m1 size once pools nonzero refl f.0
        f.2 in
    let back =
      free_memory-here m2 (pool.start + pool.used) n (with_used once n) pools refl
        (lookup-insert address (pool.start + pool.used) (in_first n) m1.pool_allocations
          ∙ rw (==_ne address (pool.start + pool.used) (λ e. omega (arith, aligned, e))) (
              lookup-insert (pool.start + pool.used) (pool.start + pool.used) (in_first n)
                m.pool_allocations
              ∙ rw (==_refl (pool.start + pool.used)) refl))
        quiet in
    let three =
      allocate_memory-here physical allocate_pages workload m3 size (taken_one_back pool n) pools
        nonzero refl f.3 f.4 in
    rw (one, two, back, three)
      (
        refl,
        refl,
        ap (λ u. some (pool.start + u)) f.5,
        lookup-erase (pool.start + pool.used) address m2.pool_allocations
            ∙ rw (==_ne (pool.start + pool.used) address (λ e. omega (arith, aligned, e))) (
                lookup-insert address address (in_first n) m1.pool_allocations
                ∙ rw (==_refl address) refl),
      )
