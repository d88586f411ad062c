-- ===== src/Memory/Unified/RoundTrip.antt =====
-- Allocating a block of pages and freeing it again.
use kernelc_moderne.Prelude.{
  ℕ, ◌≡◌, ◌≤◌, ◌<◌, ==_refl, refl, ◌∙◌, ap, ◌+◌, ◌-◌, ◌*◌, ◌/◌, ◌%◌, Bool, true, false, Option,
  none, some, ◌==◌, ==_ne, if◌then◌else◌, lookup, insert, lookup-insert, lookup-erase, arith,
}
use kernelc_moderne.Memory.Unified.{
  word, page_size, WorkloadType, MemoryManager, map_pages, page_allocate, align_size, pool_allocate,
  allocate_memory,
}
use kernelc_moderne.Memory.Unified.Freeing.{unmap_pages, free_page_block, free_memory, Freed}
use kernelc_moderne.Memory.Unified.Pages.{
  page_of, translation, no_translation, page_of-page, supplied, freed-unmap_pages, lookup-map_pages,
  lookup-unmap_pages, map_pages_kept, unmap_pages_kept,
}

-- The number of pages that hold an aligned size.
unfoldable pub page_count : ℕ → ℕ
page_count size = ((align_size size + page_size - 1) % word) / page_size

-- The manager once the block is allocated: its pages are mapped and its allocation is recorded.
unfoldable pub with_block : (ℕ → ℕ) → MemoryManager → ℕ → ℕ → MemoryManager
with_block physical m address pages =
    let m' = map_pages physical pages 0 address m in
    record m' { page_allocations = insert address pages m'.page_allocations }

allocate_memory-pages :
    (physical : ℕ → ℕ) (allocate_pages : ℕ → Option ℕ) (workload : WorkloadType) (m : MemoryManager)
    (size address : ℕ)
    → (size == 0) ≡ false
    → pool_allocate 0 workload (align_size size) m.pools ≡ none
    → allocate_pages (page_count size) ≡ some address
    → allocate_memory physical allocate_pages workload m size
      ≡ (with_block physical m address (page_count size), some address)
unfolding allocate_memory page_allocate page_count with_block
allocate_memory-pages physical allocate_pages workload m size address h full given =
    rw (h, full, given, page_allocate) refl

free_memory-pages :
    (m : MemoryManager) (address pages : ℕ)
    → lookup address m.pool_allocations ≡ none
    → lookup address m.page_allocations ≡ some pages
    → free_memory m address
      ≡ (free_page_block m address pages, Freed.page_block (unmap_pages pages 0 address m).1 pages)
unfolding free_memory
free_memory-pages m address pages other found = rw (other, free_memory, found) refl

-- What allocating a block of pages and freeing it again leave of a manager `m`.
pub record IsUndone (physical : ℕ → ℕ) (m m1 m2 : MemoryManager) (address pages : ℕ) : Type 0 where
  pub mapped :
      (v : ℕ)
      → lookup v m1.page_table
        ≡ translation physical (page_of pages 0 address v) (lookup v m.page_table)
  pub unmapped :
      (v : ℕ)
      → lookup v m2.page_table ≡ no_translation (page_of pages 0 address v) (lookup v m.page_table)
  pub forgotten :
      (k : ℕ)
      → lookup k m2.page_allocations ≡ (if address == k then none else lookup k m.page_allocations)
  pub same_pools : m2.pools ≡ m.pools
  pub available : m2.available_memory ≡ m.available_memory + pages * page_size

free-with_block :
    (physical : ℕ → ℕ) (m : MemoryManager) (address pages : ℕ)
    → IsUndone physical m
        (with_block physical m address pages)
        (free_page_block (with_block physical m address pages) address pages)
        address
        pages
unfolding with_block free_page_block translation no_translation
free-with_block physical m address pages =
    let b : MemoryManager = with_block physical m address pages in
    let one = map_pages_kept physical pages 0 address m in
    let two = unmap_pages_kept pages 0 address b in
    record {
      mapped = λ v. lookup-map_pages physical pages 0 address v m;
      unmapped = λ v.
          lookup-unmap_pages pages 0 address v b
          ∙ ap (no_translation (page_of pages 0 address v))
              (lookup-map_pages physical pages 0 address v m)
          ∙ twice (page_of pages 0 address v) (lookup v m.page_table);
      forgotten = λ k.
          lookup-erase address k _
          ∙ ap (λ t. if address == k then none else lookup k t) two.2
          ∙ ap (λ o. if address == k then none else o) (lookup-insert address k pages _)
          ∙ ap (λ t. if address == k then none else if address == k then some pages else lookup k t)
              one.2
          ∙ once (address == k) _ _;
      same_pools = two.0 ∙ one.0;
      available = ap (λ a. a + pages * page_size) (two.3 ∙ one.3);
    }
  where
    twice :
        (o old : Option ℕ) → no_translation o (translation physical o old) ≡ no_translation o old
    twice none old = refl
    twice (some j) old = refl

    once :
        (b : Bool) (o old : Option ℕ)
        → (if b then none else if b then o else old) ≡ (if b then none else old)
    once true o old = refl
    once false o old = refl

-- On a request of at least one byte that no pool takes, where the page allocator gives a block
-- whose address is not that of a pool block and which is no longer than the address space:
-- `allocateMemory` gives the block, and `freeMemory` of it gives back exactly the physical pages
-- that were supplied to it, in order. In between, every page of the block has its
-- translation; afterwards none has, no other translation has changed, and the allocation is not
-- recorded. The memory that counts as available has grown by the block.
pub free_memory-allocate_memory :
    (physical : ℕ → ℕ) (allocate_pages : ℕ → Option ℕ) (workload : WorkloadType) (m : MemoryManager)
    (size address : ℕ)
    → 0 < size
    → pool_allocate 0 workload (align_size size) m.pools ≡ none
    → allocate_pages (page_count size) ≡ some address
    → lookup address m.pool_allocations ≡ none
    → page_count size * page_size ≤ word
    → let (m1, block) = allocate_memory physical allocate_pages workload m size in
      let (m2, result) = free_memory m1 address in
      (block ≡ some address)
      × (result ≡ Freed.page_block (supplied physical (page_count size) 0) (page_count size))
      × IsUndone physical m m1 m2 address (page_count size)
unfolding with_block translation
free_memory-allocate_memory physical allocate_pages workload m size address h full given other
      room =
    let n = page_count size in
    let b : MemoryManager = with_block physical m address n in
    let kept = map_pages_kept physical n 0 address m in
    let freed =
      free_memory-pages b address n (ap (lookup address) kept.1 ∙ other)
        (lookup-insert address address n _ ∙ rw (==_refl address) refl) in
    rw
      (allocate_memory-pages physical allocate_pages workload m size address
        (==_ne size 0 (λ e. omega (arith, h, e))) full given)
      (rw freed (
        refl,
        ap (λ l. Freed.page_block l n)
            (freed-unmap_pages physical n 0 address b room (λ j low high.
              lookup-map_pages physical n 0 address _ m
              ∙ ap
                  (λ o.
                    translation physical o (lookup ((address + j * page_size) % word) m.page_table))
                  (page_of-page n 0 address j room low high))),
        free-with_block physical m address n,
      ))
