-- ===== src/Memory/Unified/Tlb.antt =====
-- The cache of translations: which of its slots a page reaches.
use kernelc_moderne.Prelude.{
  ℕ, zero, suc, ◌≡◌, ◌<◌, refl, sym, ◌∙◌, ap, subst, ◌+◌, ◌*◌, ◌%◌, List, false, get_or, set,
  get_or-set_self, get_or-set_ne, length, length-set, arith,
}
use kernelc_moderne.Memory.Unified.{
  word, page_size, tlb_size, TlbEntry, empty_entry, update_tlb, invalidate_tlb_entry, MemoryManager,
  map_pages,
}
use kernelc_moderne.Memory.Unified.Freeing.{unmap_pages}

page_slot : (p i : ℕ) → ((p * page_size + i * page_size) % word) % tlb_size ≡ 0
page_slot p i = omega arith

other_slot :
    (tlb : List TlbEntry) (e : TlbEntry) (p i k : ℕ)
    → 0 < k
    → get_or (set tlb (((p * page_size + i * page_size) % word) % tlb_size) e) k empty_entry
      ≡ get_or tlb k empty_entry
other_slot tlb e p i k h =
    get_or-set_ne tlb _ k e empty_entry (λ same. omega (arith, page_slot p i, same, h))

other_slots :
    (physical : ℕ → ℕ) (n i p k : ℕ) (m : MemoryManager)
    → 0 < k
    → (get_or (map_pages physical n i (p * page_size) m).tlb_cache k empty_entry
        ≡ get_or m.tlb_cache k empty_entry)
      × (get_or (unmap_pages n i (p * page_size) m).0.tlb_cache k empty_entry
          ≡ get_or m.tlb_cache k empty_entry)
unfolding map_pages unmap_pages update_tlb invalidate_tlb_entry
other_slots physical zero i p k m h = (refl, refl)
other_slots physical (suc n) i p k m h = (
  (other_slots physical n (i + 1) p k _ h).0 ∙ other_slot m.tlb_cache _ p i k h,
  (other_slots physical n (i + 1) p k _ h).1 ∙ other_slot m.tlb_cache _ p i k h,
)

set_valid :
    (tlb : List TlbEntry) (p i : ℕ)
    → 0 < length tlb
    → (get_or
        (invalidate_tlb_entry tlb ((p * page_size + i * page_size) % word))
        0
        empty_entry).valid
      ≡ false
unfolding invalidate_tlb_entry
set_valid tlb p i h = rw (page_slot p i) (ap (λ e. e.valid) (get_or-set_self tlb 0 _ empty_entry h))

first_invalid :
    (n i p : ℕ) (m : MemoryManager)
    → 0 < length m.tlb_cache
    → (get_or m.tlb_cache 0 empty_entry).valid ≡ false
    → (get_or (unmap_pages n i (p * page_size) m).0.tlb_cache 0 empty_entry).valid ≡ false
unfolding unmap_pages invalidate_tlb_entry
first_invalid zero i p m full h = h
first_invalid (suc n) i p m full h =
    first_invalid n (i + 1) p _ (subst (λ l. 0 < l) (sym (length-set m.tlb_cache _ _)) full)
      (set_valid m.tlb_cache p i full)

-- For a block of pages that starts at a page: mapping and unmapping it change no slot of the cache
-- but the first, and unmapping at least one page leaves an invalid entry in the first slot,
-- whichever page it was for.
pub page_slots :
    (physical : ℕ → ℕ) (n i p k : ℕ) (m : MemoryManager)
    → 0 < length m.tlb_cache
    → 0 < k
    → (get_or (map_pages physical n i (p * page_size) m).tlb_cache k empty_entry
        ≡ get_or m.tlb_cache k empty_entry)
      × (get_or (unmap_pages n i (p * page_size) m).0.tlb_cache k empty_entry
          ≡ get_or m.tlb_cache k empty_entry)
      × ((get_or (unmap_pages (suc n) i (p * page_size) m).0.tlb_cache 0 empty_entry).valid ≡ false)
unfolding unmap_pages invalidate_tlb_entry
page_slots physical n i p k m full h =
    let kept = other_slots physical n i p k m h in
    (
      kept.0,
      kept.1,
      first_invalid n (i + 1) p _ (subst (λ l. 0 < l) (sym (length-set m.tlb_cache _ _)) full)
          (set_valid m.tlb_cache p i full),
    )
