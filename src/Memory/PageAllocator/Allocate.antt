-- ===== src/Memory/PageAllocator/Allocate.antt =====
-- What `allocate` and `free` promise on a valid allocator.
use kernelc_moderne.Prelude.{
  ℕ, zero, suc, ◌+◌, ◌*◌, ◌≤◌, ◌<◌, ◌≡◌, refl, ap, List, Option, none, some, arith, ◌==◌,
  if◌then◌else◌,
}
use kernelc_moderne.Memory.PageAllocator.{
  PageAllocator, page_size, page_count, find_run, take_run, allocate,
}
use kernelc_moderne.Memory.PageAllocator.FirstFit.{
  IsFreeRun, Scanned-start, find_run_sound, find_run_complete,
}
use kernelc_moderne.Memory.PageAllocator.Invariant.{IsValid}

-- The address of page `p`.
abbrev pub page_address : PageAllocator → ℕ → ℕ
page_address a p = a.memory_start + p * page_size

-- A request of no page, which the wrapping sum also makes of one near 2^64, finds nothing.
find_run_zero : (n : ℕ) (b : List ℕ) (i c s : ℕ) → find_run n b 0 i c s ≡ none
unfolding find_run
find_run_zero zero b i c s = refl
find_run_zero (suc n) b i c s = ground (
  arith,
  find_run_zero n b (i + 1) 0 s,
  find_run_zero n b (i + 1) (c + 1) (if c == 0 then i else s),
)

-- The two outcomes of `allocate`: nothing free is long enough and nothing changes, or the run
-- from page `p` is taken, and no free run of that length starts below `p`.
pub data Outcome (a : PageAllocator) (size : ℕ) : PageAllocator × Option ℕ → Type 0 where
  refused :
      {r : PageAllocator × Option ℕ}
      → ((q : ℕ)
          → 0 < page_count size
          → q + page_count size ≤ a.total_pages
          → ¬ IsFreeRun a.buffer q (page_count size))
      → r ≡ (a, none)
      → Outcome a size r
  taken :
      {r : PageAllocator × Option ℕ} (p : ℕ)
      → 0 < page_count size
      → p + page_count size ≤ a.total_pages
      → IsFreeRun a.buffer p (page_count size)
      → ((q : ℕ)
          → q + page_count size ≤ a.total_pages
          → IsFreeRun a.buffer q (page_count size)
          → p ≤ q)
      → r ≡ (take_run a (page_count size) p, some (page_address a p))
      → Outcome a size r

find_lowest :
    (a : PageAllocator) (count q : ℕ)
    → 0 < count
    → q + count ≤ a.total_pages
    → IsFreeRun a.buffer q count
    → (p : ℕ) × (find_run a.total_pages a.buffer count 0 0 0 ≡ some p) × (p ≤ q)
find_lowest a count q pos fits run =
    find_run_complete a.total_pages a.buffer count 0 0 0 q (Scanned-start a.buffer) pos run
      (omega arith) (omega arith)

find_run-pos :
    (n : ℕ) (b : List ℕ) (count i c s p : ℕ) → find_run n b count i c s ≡ some p → 0 < count
find_run-pos n b zero i c s p e = cc (find_run_zero n b i c s)
find_run-pos n b (suc k) i c s p e = omega arith

-- On a valid allocator `allocate` takes the lowest free run that is long enough, and fails only
-- when there is none.
pub allocate-Outcome : (a : PageAllocator) (size : ℕ) → IsValid a → Outcome a size (allocate a size)
unfolding allocate
allocate-Outcome a size v = go (find_run a.total_pages a.buffer (page_count size) 0 0 0) refl
  where
    go :
        (o : Option ℕ)
        → find_run a.total_pages a.buffer (page_count size) 0 0 0 ≡ o
        → Outcome a size (allocate a size)
    go none e = refused (λ q pos fits run. absent q pos fits run) (rw (e, allocate))
      where
        absent :
            (q : ℕ)
            → 0 < page_count size
            → q + page_count size ≤ a.total_pages
            → ¬ IsFreeRun a.buffer q (page_count size)
        absent q pos fits run =
            let (p, found, le) = find_lowest a (page_count size) q pos fits run in cc
    go (some p) e =
        let (run, le) =
          find_run_sound a.total_pages a.buffer (page_count size) 0 0 0 p (Scanned-start a.buffer)
            e in
        let pos = find_run-pos a.total_pages a.buffer (page_count size) 0 0 0 p e in
        taken p pos (omega arith) run (λ q fits free_run. lowest q pos fits free_run)
          (rw (e, allocate)
            (ap (λ x. (take_run a (page_count size) p, some x)) (omega (arith, v.addressable))))
      where
        lowest :
            (q : ℕ)
            → 0 < page_count size
            → q + page_count size ≤ a.total_pages
            → IsFreeRun a.buffer q (page_count size)
            → p ≤ q
        lowest q pos fits free_run =
            let (p', found, le) = find_lowest a (page_count size) q pos fits free_run in
            let same : p ≡ p' = cc in omega arith
