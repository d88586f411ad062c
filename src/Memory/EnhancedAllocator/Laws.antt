-- ===== src/Memory/EnhancedAllocator/Laws.antt =====
-- Small requests behave as those of the page allocator; huge ones do not mark what they hand out.
use kernelc_moderne.Prelude.{
  ℕ, ◌+◌, ◌-◌, ◌*◌, ◌/◌, ◌%◌, ◌≤◌, ◌<◌, ◌≡◌, refl, ◌∙◌, sym, ap, true, Option, none, some, arith,
}
use kernelc_moderne.Memory.PageAllocator
use kernelc_moderne.Memory.PageAllocator.{
  PageAllocator, u64_mod, page_size, get_bit, page_count, find_run, take_run,
}
use kernelc_moderne.Memory.PageAllocator.FirstFit.{Scanned-start, find_run_sound}
use kernelc_moderne.Memory.PageAllocator.Invariant.{IsValid, get_bit-take_run}
use kernelc_moderne.Memory.EnhancedAllocator.{huge_page_size, unit_count, allocate, allocate_memory}

-- Below the threshold of 2 MiB the manager allocates as the page allocator does.
pub allocate_memory_small :
    (a : PageAllocator) (size : ℕ)
    → size < huge_page_size
    → allocate_memory a size ≡ PageAllocator.allocate a size
unfolding allocate_memory allocate unit_count PageAllocator.allocate PageAllocator.page_count
allocate_memory_small a size h = ground arith

huge_run :
    (a b : PageAllocator) (size address : ℕ)
    → allocate a size true ≡ (b, some address)
    → (p : ℕ) × (find_run a.total_pages a.buffer (unit_count size true) 0 0 0 ≡ some p)
      × (b ≡ take_run a (unit_count size true) p)
      × (address ≡ (a.memory_start + p * huge_page_size) % u64_mod)
unfolding allocate
huge_run a b size address = go (find_run a.total_pages a.buffer (unit_count size true) 0 0 0) refl
  where
    go :
        (o : Option ℕ)
        → find_run a.total_pages a.buffer (unit_count size true) 0 0 0 ≡ o
        → allocate a size true ≡ (b, some address)
        → (p : ℕ) × (find_run a.total_pages a.buffer (unit_count size true) 0 0 0 ≡ some p)
          × (b ≡ take_run a (unit_count size true) p)
          × (address ≡ (a.memory_start + p * huge_page_size) % u64_mod)
    go none e h = cc (rw (e, allocate) at h)
    go (some p) e h = let h' = rw (e, allocate) at h in (p, e, sym (ap (λ r. r.0) h'), cc)

-- The last page of the block lies beyond the pages that are marked.
last_beyond :
    (start size p count address : ℕ)
    → count ≡ ((size + huge_page_size - 1) % u64_mod) / huge_page_size
    → size + huge_page_size ≤ u64_mod
    → huge_page_size ≤ size
    → address ≡ start + p * huge_page_size
    → p + count ≤ (address - start + size - 1) / page_size
last_beyond start size p count address e small large at = omega arith

unmarked :
    (a b : PageAllocator) (size address p last : ℕ)
    → IsValid a
    → find_run a.total_pages a.buffer (unit_count size true) 0 0 0 ≡ some p
    → b ≡ take_run a (unit_count size true) p
    → p + unit_count size true ≤ last
    → get_bit b.buffer last ≡ get_bit a.buffer last
unmarked a b size address p last v found after beyond =
    let (run, fits) =
      find_run_sound a.total_pages a.buffer (unit_count size true) 0 0 0 p (Scanned-start a.buffer)
        found in
    rw after (get_bit-take_run a v (unit_count size true) p (omega arith) last ∙ ground arith)

found_within :
    (a : PageAllocator) (count p : ℕ)
    → find_run a.total_pages a.buffer count 0 0 0 ≡ some p
    → p + count ≤ a.total_pages
found_within a count p found =
    omega (
      arith,
      (find_run_sound a.total_pages a.buffer count 0 0 0 p (Scanned-start a.buffer) found).1,
    )

large_eq :
    (a : PageAllocator) (size : ℕ)
    → huge_page_size ≤ size
    → allocate_memory a size ≡ allocate a size true
unfolding allocate_memory
large_eq a size h = ground arith

-- On a valid allocator whose huge pages and request end below 2^64, a request of 2 MiB or more
-- that succeeds leaves the bit of the last 4 KiB page of the block it hands out as it was.
pub huge_block_unmarked :
    (a b : PageAllocator) (size address : ℕ)
    → IsValid a
    → a.memory_start + a.total_pages * huge_page_size ≤ u64_mod
    → huge_page_size ≤ size
    → size + huge_page_size ≤ u64_mod
    → allocate_memory a size ≡ (b, some address)
    → let last = (address - a.memory_start + size - 1) / page_size in
      get_bit b.buffer last ≡ get_bit a.buffer last
unfolding unit_count
huge_block_unmarked a b size address v room large small e =
    let (p, found, after, address_eq) =
      huge_run a b size address (sym (large_eq a size large) ∙ e) in
    unmarked a b size address p ((address - a.memory_start + size - 1) / page_size) v found after (
      last_beyond a.memory_start size p (unit_count size true) address refl small large
        (exact p (found_within a (unit_count size true) p found) address_eq))
  where
    exact :
        (p : ℕ)
        → p + unit_count size true ≤ a.total_pages
        → address ≡ (a.memory_start + p * huge_page_size) % u64_mod
        → address ≡ a.memory_start + p * huge_page_size
    exact p fits q = omega arith
