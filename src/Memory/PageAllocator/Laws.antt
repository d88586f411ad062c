-- ===== src/Memory/PageAllocator/Laws.antt =====
-- The invariant under `allocate` and `free`, and how the two fit together.
use kernelc_moderne.Prelude.{
  ℕ, ◌+◌, ◌-◌, ◌*◌, ◌/◌, ◌%◌, ◌≤◌, ◌<◌, ◌≡◌, ◌⊎◌, refl, ap, ◌∙◌, inl, inr, Bool, true, Bool-cases,
  ltb, leb→le, ◌&&◌, ltb→lt, false, Option, some, arith, if◌then◌else◌, max,
}
use kernelc_moderne.Memory.PageAllocator.{
  PageAllocator, u64_mod, page_size, get_bit, set_bits, page_index, page_count, take_run, allocate,
  free,
}
use kernelc_moderne.Memory.PageAllocator.Bitmap.{
  in_run, length-set_bits, set_bits-Bytes, get_bit-set_bits,
}
use kernelc_moderne.Memory.PageAllocator.FirstFit.{IsFreeRun}
use kernelc_moderne.Memory.PageAllocator.Counts.{count_free-set_bits}
use kernelc_moderne.Memory.PageAllocator.Invariant.{
  IsValid, get_bit-take_run, free_pages-take_run, take_run-IsValid, free_pages-le, count_free-le,
  covered-take_run,
}
use kernelc_moderne.Memory.PageAllocator.Allocate.{
  page_address, Outcome, refused, taken, allocate-Outcome,
}

-- On a valid allocator `allocate` keeps it valid, whether or not it finds a run.
pub allocate-IsValid : (a : PageAllocator) (size : ℕ) → IsValid a → IsValid (allocate a size).0
allocate-IsValid a size v = go (allocate-Outcome a size v)
  where
    go : {r : PageAllocator × Option ℕ} → Outcome a size r → IsValid r.0
    go (refused absent e) = rw e v
    go (taken p pos fits run lowest e) = rw e (take_run-IsValid a v (page_count size) p fits run)

-- A successful allocation, with the facts that its run has.
pub record Grant (a : PageAllocator) (size address : ℕ) (b : PageAllocator) : Type 0 where
  pub page : ℕ
  pub pos : 0 < page_count size
  pub fits : page + page_count size ≤ a.total_pages
  pub run : IsFreeRun a.buffer page (page_count size)
  pub after : b ≡ take_run a (page_count size) page
  pub address_eq : address ≡ page_address a page

pub allocate-Grant :
    (a b : PageAllocator) (size address : ℕ)
    → IsValid a
    → allocate a size ≡ (b, some address)
    → Grant a size address b
allocate-Grant a b size address v e = go (allocate-Outcome a size v) refl
  where
    go :
        {r : PageAllocator × Option ℕ}
        → Outcome a size r
        → r ≡ allocate a size
        → Grant a size address b
    go (refused absent e') q = cc
    go (taken p pos fits run lowest e') q = record {
      page = p;
      pos = pos;
      fits = fits;
      run = run;
      after = cc;
      address_eq = cc;
    }

-- When an allocation on a valid allocator succeeds, the free pages fall by the pages of the
-- request, every bit of the run is set, and every other bit stays.
pub allocate_effect :
    (a b : PageAllocator) (size address j : ℕ)
    → IsValid a
    → allocate a size ≡ (b, some address)
    → let p = (address - a.memory_start) / page_size in
      (b.free_pages + page_count size ≡ a.free_pages)
      × (get_bit b.buffer j ≡ (if in_run (page_count size) p j then true else get_bit a.buffer j))
allocate_effect a b size address j v e =
    let g = allocate-Grant a b size address v e in
    let page_eq : (address - a.memory_start) / page_size ≡ g.page = omega (arith, g.address_eq) in
    (
      rw g.after (free_pages-take_run a v (page_count size) g.page g.fits g.run),
      rw (page_eq, g.after) (get_bit-take_run a v (page_count size) g.page g.fits j),
    )

module _ (a b c : PageAllocator) (size size' address address' : ℕ) (v : IsValid a) where
  meet :
      (g : Grant a size address b) (g' : Grant b size' address' c)
      → g'.page < g.page + page_count size
      → g.page < g'.page + page_count size'
      → ⊥
  meet g g' p q =
      let j = max g.page g'.page in
      let used : get_bit (take_run a (page_count size) g.page).buffer j ≡ true =
        get_bit-take_run a v (page_count size) g.page g.fits j ∙ ground (arith, g.pos, g'.pos) in
      let unused : get_bit b.buffer j ≡ false =
        g'.run j (omega arith) (omega (arith, g.pos, g'.pos)) in
      let same : b.buffer ≡ (take_run a (page_count size) g.page).buffer =
        ap (λ (x : PageAllocator). x.buffer) g.after in
      cc

  apart :
      (g : Grant a size address b) (g' : Grant b size' address' c)
      → (g.page + page_count size ≤ g'.page) ⊎ (g'.page + page_count size' ≤ g.page)
  apart g g' = elim (Bool-cases (ltb g'.page (g.page + page_count size))) [
    | inl p ↦ elim (Bool-cases (ltb g.page (g'.page + page_count size'))) [
      | inl q ↦ absurd (meet g g' (ltb→lt _ _ p) (ltb→lt _ _ q))
      | inr q ↦ inr (ground arith)
    ]
    | inr p ↦ inl (ground arith)
  ]

-- On a valid allocator, two allocations in a row that both succeed give blocks that do not
-- overlap.
pub allocate_disjoint :
    (a b c : PageAllocator) (size size' address address' : ℕ)
    → IsValid a
    → allocate a size ≡ (b, some address)
    → allocate b size' ≡ (c, some address')
    → (address + page_count size * page_size ≤ address')
      ⊎ (address' + page_count size' * page_size ≤ address)
unfolding take_run
allocate_disjoint a b c size size' address address' v e e' =
    let g = allocate-Grant a b size address v e in
    let valid : IsValid b =
      rw g.after (take_run-IsValid a v (page_count size) g.page g.fits g.run) in
    let g' = allocate-Grant b c size' address' valid e' in
    let start : b.memory_start ≡ a.memory_start =
      ap (λ (x : PageAllocator). x.memory_start) g.after in
    omega
      (arith, start, g.address_eq, g'.address_eq, apart a b c size size' address address' v g g')

module _ (a : PageAllocator) (address size : ℕ) (v : IsValid a) where
  abbrev run_start : ℕ
  run_start = page_index a address

  -- On a valid allocator, `free` on a run of pages inside the managed memory that are all in use
  -- keeps it valid.
  pub free-IsValid :
      run_start + page_count size ≤ a.total_pages
      → ((j : ℕ) → run_start ≤ j → j < run_start + page_count size → get_bit a.buffer j ≡ true)
      → IsValid (free a address size)
  unfolding free
  free-IsValid fits held = record {
    bytes = set_bits-Bytes (page_count size) a.buffer run_start false v.bytes;
    sized = length-set_bits (page_count size) a.buffer run_start false ∙ v.sized;
    counted = omega (
      arith,
      count_free-set_bits a.total_pages false true (page_count size) a.buffer run_start v.bytes
          (omega (arith, v.sized)) fits held,
      v.counted,
      v.addressable,
      count_free-le a.total_pages (free a address size).buffer,
    );
    addressable = v.addressable;
  }

module _ (a : PageAllocator) (v : IsValid a) (n p : ℕ) (fits : p + n ≤ a.total_pages) where
  -- Clearing the run that was just set.
  clear_run :
      (j : ℕ)
      → IsFreeRun a.buffer p n
      → get_bit (set_bits n (take_run a n p).buffer p false) j ≡ get_bit a.buffer j
  clear_run j run = elim (Bool-cases (in_run n p j)) [
    | inl inside ↦
        rw (
          cleared j,
          inside,
          run j (leb→le _ _ (both _ _ inside).0) (ltb→lt _ _ (both _ _ inside).1),
        )
    | inr outside ↦ rw (cleared j, outside, get_bit-take_run a v n p fits j, outside)
  ]
    where
      both : (x y : Bool) → (x && y) ≡ true → (x ≡ true) × (y ≡ true)
      both x y h = ground arith

      valid : IsFreeRun a.buffer p n → IsValid (take_run a n p)
      valid r = take_run-IsValid a v n p fits r

      cleared :
          (j : ℕ)
          → get_bit (set_bits n (take_run a n p).buffer p false) j
            ≡ (if in_run n p j then false else get_bit (take_run a n p).buffer j)
      cleared j =
          get_bit-set_bits n (take_run a n p).buffer p j false (valid run).bytes
            (covered-take_run a v n p fits)

-- On a valid allocator, `free` with the address and size of an allocation that has just succeeded
-- undoes it: every bit and the number of free pages are what they were.
pub free-allocate :
    (a b : PageAllocator) (size address j : ℕ)
    → IsValid a
    → allocate a size ≡ (b, some address)
    → (get_bit (free b address size).buffer j ≡ get_bit a.buffer j)
      × ((free b address size).free_pages ≡ a.free_pages)
unfolding free take_run page_index
free-allocate a b size address j v e =
    let g = allocate-Grant a b size address v e in
    let n = page_count size in
    let page_eq : ((address + u64_mod - a.memory_start) % u64_mod) / page_size ≡ g.page =
      omega (arith, g.address_eq, g.fits, v.addressable, g.pos) in
    rw (g.after, page_eq)
      (
        clear_run a v n g.page g.fits j g.run,
        omega (
          arith,
          free_pages-le a v,
          free_pages-take_run a v n g.page g.fits g.run,
          v.addressable,
        ),
      )

-- On a valid allocator, `free` on a run of one or more managed pages that are all free already
-- makes the allocator invalid.
pub free_twice :
    (a : PageAllocator) (address size : ℕ)
    → IsValid a
    → 0 < page_count size
    → page_index a address + page_count size ≤ a.total_pages
    → IsFreeRun a.buffer (page_index a address) (page_count size)
    → ¬ IsValid (free a address size)
unfolding free
free_twice a address size v pos fits run w = omega (
  arith,
  count_free-set_bits a.total_pages false false (page_count size) a.buffer (page_index a address)
      v.bytes (omega (arith, v.sized)) fits run,
  v.addressable,
  v.counted,
  w.counted,
  free_pages-le a v,
)
