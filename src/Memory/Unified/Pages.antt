-- ===== src/Memory/Unified/Pages.antt =====
-- The page table over an allocation of pages and its release.
use kernelc_moderne.Prelude.{
  ℕ, zero, suc, ◌≡◌, ◌≢◌, ◌≤◌, ◌<◌, ◌⊎◌, inl, inr, [], ◌∷◌, ==_refl, refl, sym, ◌∙◌, ap, subst, ◌+◌,
  ◌-◌, ◌*◌, ◌%◌, List, Option, none, some, ◌==◌, ==_ne, if◌then◌else◌, lookup, insert, erase,
  lookup-insert, lookup-erase, arith,
}
use kernelc_moderne.Memory.Unified.{word, page_size, MemoryManager, map_pages}
use kernelc_moderne.Memory.Unified.Freeing.{unmap_pages}

-- The last of the pages `i`, …, `i + n - 1` of a block whose address is `v`.
unfoldable pub page_of : ℕ → ℕ → ℕ → ℕ → Option ℕ
page_of zero i address v = none
page_of (suc n) i address v = elim (page_of n (i + 1) address v) [
  | some j ↦ some j
  | none ↦ if (address + i * page_size) % word == v then some i else none
]

-- The translation of `v` once the pages are mapped, and once they are unmapped.
unfoldable pub translation : (ℕ → ℕ) → Option ℕ → Option ℕ → Option ℕ
translation physical none old = old
translation physical (some j) old = some (physical j)

unfoldable pub no_translation : Option ℕ → Option ℕ → Option ℕ
no_translation none old = old
no_translation (some j) old = none

pub lookup-map_pages :
    (physical : ℕ → ℕ) (n i address v : ℕ) (m : MemoryManager)
    → lookup v (map_pages physical n i address m).page_table
      ≡ translation physical (page_of n i address v) (lookup v m.page_table)
unfolding map_pages page_of translation
lookup-map_pages physical zero i address v m = refl
lookup-map_pages physical (suc n) i address v m =
    lookup-map_pages physical n (i + 1) address v _ ∙ step (page_of n (i + 1) address v)
  where
    step :
        (o : Option ℕ)
        → translation physical o
            (lookup v (insert ((address + i * page_size) % word) (physical i) m.page_table))
          ≡ translation physical
              (elim o [
                | some j ↦ some j
                | none ↦ if (address + i * page_size) % word == v then some i else none
              ])
              (lookup v m.page_table)
    step (some j) = refl
    step none = lookup-insert _ v _ _ ∙ ground arith

pub lookup-unmap_pages :
    (n i address v : ℕ) (m : MemoryManager)
    → lookup v (unmap_pages n i address m).0.page_table
      ≡ no_translation (page_of n i address v) (lookup v m.page_table)
unfolding unmap_pages page_of no_translation
lookup-unmap_pages zero i address v m = refl
lookup-unmap_pages (suc n) i address v m =
    lookup-unmap_pages n (i + 1) address v _ ∙ step (page_of n (i + 1) address v)
  where
    step :
        (o : Option ℕ)
        → no_translation o (lookup v (erase ((address + i * page_size) % word) m.page_table))
          ≡ no_translation
              (elim o [
                | some j ↦ some j
                | none ↦ if (address + i * page_size) % word == v then some i else none
              ])
              (lookup v m.page_table)
    step (some j) = refl
    step none = lookup-erase _ v _ ∙ ground arith

page-ne :
    (address i j : ℕ)
    → i < j
    → (j - i) * page_size < word
    → (address + i * page_size) % word ≢ (address + j * page_size) % word
page-ne address i j h room e = omega (arith, e)

page_of-before :
    (n k address i : ℕ)
    → i < k
    → ((k - i) + n) * page_size ≤ word
    → page_of n k address ((address + i * page_size) % word) ≡ none
unfolding page_of
page_of-before zero k address i low room = refl
page_of-before (suc n) k address i low room =
    rw
      (
        page_of-before n (k + 1) address i (omega arith) (omega arith),
        ==_ne ((address + k * page_size) % word) ((address + i * page_size) % word)
            (λ e. page-ne address i k low (omega arith) (sym e)),
      )
      refl

page_of-first :
    (n i address : ℕ)
    → suc n * page_size ≤ word
    → page_of (suc n) i address ((address + i * page_size) % word) ≡ some i
unfolding page_of
page_of-first n i address room =
    rw
      (
        page_of-before n (i + 1) address i (omega arith) (omega arith),
        ==_refl ((address + i * page_size) % word),
      )
      refl

same_or_later : (i j : ℕ) → i ≤ j → (i ≡ j) ⊎ (i + 1 ≤ j)
same_or_later i j h = omega arith

pub page_of-page :
    (n i address j : ℕ)
    → n * page_size ≤ word
    → i ≤ j
    → j < i + n
    → page_of n i address ((address + j * page_size) % word) ≡ some j
unfolding page_of
page_of-page zero i address j room low high = absurd (omega arith)
page_of-page (suc n) i address j room low high = elim (same_or_later i j low) [
  | inl e ↦
      subst (λ j. page_of (suc n) i address ((address + j * page_size) % word) ≡ some j) e
        (page_of-first n i address room)
  | inr h ↦ rw (page_of-page n (i + 1) address j (omega arith) (omega arith) (omega arith)) refl
]

-- The physical pages that `allocatePhysicalPage` gave to the pages from `i` on.
unfoldable pub supplied : (ℕ → ℕ) → ℕ → ℕ → List ℕ
supplied physical zero i = []
supplied physical (suc n) i = physical i ∷ supplied physical n (i + 1)

pub freed-unmap_pages :
    (physical : ℕ → ℕ) (n i address : ℕ) (m : MemoryManager)
    → n * page_size ≤ word
    → ((j : ℕ)
        → i ≤ j
        → j < i + n
        → lookup ((address + j * page_size) % word) m.page_table ≡ some (physical j))
    → (unmap_pages n i address m).1 ≡ supplied physical n i
unfolding unmap_pages supplied
freed-unmap_pages physical zero i address m room mapped = refl
freed-unmap_pages physical (suc n) i address m room mapped =
    rw (mapped i (omega arith) (omega arith)) (
      ap (λ l. physical i ∷ l)
        (freed-unmap_pages physical n (i + 1) address _ (omega arith) (λ j low high.
          lookup-erase _ _ m.page_table
          ∙ rw (==_ne _ _ (page-ne address i j (omega arith) (omega arith)))
              (mapped j (omega arith) (omega arith)))))

pub map_pages_kept :
    (physical : ℕ → ℕ) (n i address : ℕ) (m : MemoryManager)
    → let m' = map_pages physical n i address m in
      (m'.pools ≡ m.pools)
      × (m'.pool_allocations ≡ m.pool_allocations)
      × (m'.page_allocations ≡ m.page_allocations)
      × (m'.available_memory ≡ m.available_memory)
unfolding map_pages
map_pages_kept physical zero i address m = (refl, refl, refl, refl)
map_pages_kept physical (suc n) i address m = map_pages_kept physical n (i + 1) address _

pub unmap_pages_kept :
    (n i address : ℕ) (m : MemoryManager)
    → let m' = (unmap_pages n i address m).0 in
      (m'.pools ≡ m.pools)
      × (m'.pool_allocations ≡ m.pool_allocations)
      × (m'.page_allocations ≡ m.page_allocations)
      × (m'.available_memory ≡ m.available_memory)
unfolding unmap_pages
unmap_pages_kept zero i address m = (refl, refl, refl, refl)
unmap_pages_kept (suc n) i address m = unmap_pages_kept n (i + 1) address _
