-- ===== src/Boot/MemoryMap/Walk.antt =====
-- The walks against the list of the entries of the map.
use mathlib.Core.List.{append-nil}
use kernelc_moderne.Prelude.{
  ℕ, zero, suc, ◌≡◌, ◌≤◌, ◌<◌, refl, sym, ◌∙◌, ap, inl, inr, ◌+◌, ◌-◌, ◌%◌, ◌^◌, true, List, [],
  ◌∷◌, ◌++◌, append_assoc, Option, none, some, ltb, ltb→lt, Bool-cases, arith,
}
use kernelc_moderne.Boot.MemoryMap.{
  word, MemoryType, MapEntry, MultibootInfo, HardwareState, Found, nothing_found, region, add_entry,
  next_entry, walk, walk_regions, map_end, with_memory, detect_memory_capacity, detect_memory,
}

-- The entries that stand one behind the other from `address` up to `end`.
pub data Entries (memory : ℕ → MapEntry) (end : ℕ) : ℕ → List MapEntry → Type 0 where
  stop : {address : ℕ} → end ≤ address → Entries memory end address []
  step :
      {address : ℕ} {entries : List MapEntry}
      → address < end
      → Entries memory end (next_entry address (memory address)) entries
      → Entries memory end address (memory address ∷ entries)

-- The regions of the available entries, in order.
unfoldable pub free_regions : List MapEntry → List (ℕ × ℕ)
free_regions [] = []
free_regions (e ∷ entries) = elim e.kind [
  | MemoryType.available ↦ region e ∷ free_regions entries
  | _ ↦ free_regions entries
]

-- The bytes of the available entries.
unfoldable pub free_bytes : List MapEntry → ℕ
free_bytes [] = 0
free_bytes (e ∷ entries) =
    (elim e.kind [ MemoryType.available ↦ e.len | _ ↦ 0 ]) + free_bytes entries

-- What a walk that came to its end found.
pub record Walked (memory : ℕ → MapEntry) (address end : ℕ) (f : Found) (o : Option Found)
    : Type 0 where
  pub entries : List MapEntry
  pub found : Found
  pub laid_out : Entries memory end address entries
  pub ended : o ≡ some found
  pub same_regions : found.regions ≡ f.regions ++ free_regions entries
  pub bytes : found.usable % word ≡ (f.usable + free_bytes entries) % word

-- One more entry.
add_entry-free :
    (f : Found) (e : MapEntry) (kind : MemoryType) (regions : List (ℕ × ℕ)) (bytes : ℕ)
    → e.kind ≡ kind
    → let g = add_entry f e kind in
      (g.regions ++ regions
        ≡ f.regions ++ (elim kind as (λ _. List (ℕ × ℕ)) [
          | MemoryType.available ↦ region e ∷ regions
          | _ ↦ regions
        ]))
      × ((g.usable + bytes) % word
          ≡ (f.usable + ((elim kind as (λ _. ℕ) [ MemoryType.available ↦ e.len | _ ↦ 0 ]) + bytes))
            % word)
unfolding add_entry
add_entry-free f e MemoryType.available regions bytes h =
    (append_assoc f.regions _ regions, omega arith)
add_entry-free f e MemoryType.reserved regions bytes h = (refl, omega arith)
add_entry-free f e MemoryType.acpi_reclaimable regions bytes h = (refl, omega arith)
add_entry-free f e MemoryType.other regions bytes h = (refl, omega arith)

walk-Walked :
    (rounds : ℕ) (memory : ℕ → MapEntry) (address end : ℕ) (f : Found)
    → ((a : ℕ) → (memory a).size < 2 ^ 32)
    → end < 2 ^ 32
    → end - address < rounds
    → Walked memory address end f (walk rounds memory address end f)
unfolding walk free_regions free_bytes next_entry
walk-Walked zero memory address end f sizes small h = absurd (omega (arith, h))
walk-Walked (suc rounds) memory address end f sizes small h = elim (Bool-cases (ltb address end)) [
  | inl e ↦
      let entry = memory address in
      let size = sizes address in
      let before = ltb→lt address end e in
      let w =
        walk-Walked rounds memory (next_entry address entry) end (add_entry f entry entry.kind)
          sizes small (omega (arith, size, small, before, h)) in
      let one =
        add_entry-free f entry entry.kind (free_regions w.entries) (free_bytes w.entries) refl in
      record {
        entries = entry ∷ w.entries;
        found = w.found;
        laid_out = Entries.step before w.laid_out;
        ended = rw e w.ended;
        same_regions = w.same_regions ∙ one.0;
        bytes = w.bytes ∙ one.1;
      }
  | inr e ↦ record {
    entries = [];
    found = f;
    laid_out = Entries.stop (ground (arith, e));
    ended = rw e refl;
    same_regions = sym (append-nil f.regions);
    bytes = omega arith;
  }
]

regions_of : Option Found → Option (List (ℕ × ℕ))
regions_of none = none
regions_of (some f) = some f.regions

add_entry-regions :
    (f : Found) (e : MapEntry) (kind : MemoryType)
    → (elim kind as (λ _. List (ℕ × ℕ)) [
      | MemoryType.available ↦ f.regions ++ (region e ∷ [])
      | _ ↦ f.regions
    ])
      ≡ (add_entry f e kind).regions
unfolding add_entry
add_entry-regions f e MemoryType.available = refl
add_entry-regions f e MemoryType.reserved = refl
add_entry-regions f e MemoryType.acpi_reclaimable = refl
add_entry-regions f e MemoryType.other = refl

walk_regions-walk :
    (rounds : ℕ) (memory : ℕ → MapEntry) (address end : ℕ) (f : Found)
    → walk_regions rounds memory address end f.regions
      ≡ regions_of (walk rounds memory address end f)
unfolding walk walk_regions regions_of
walk_regions-walk zero memory address end f = refl
walk_regions-walk (suc rounds) memory address end f = elim (Bool-cases (ltb address end)) [
  | inl e ↦ rw e (
      ap (walk_regions rounds memory (next_entry address (memory address)) end)
        (add_entry-regions f (memory address) (memory address).kind)
      ∙ walk_regions-walk rounds memory (next_entry address (memory address)) end
          (add_entry f (memory address) (memory address).kind))
  | inr e ↦ rw e refl
]

map_end_small : (mbi : MultibootInfo) → map_end mbi < 2 ^ 32
unfolding map_end
map_end_small mbi = omega arith

regions-Walked :
    (memory : ℕ → MapEntry) (address end : ℕ) (o : Option Found)
    → (w : Walked memory address end nothing_found o) → regions_of o ≡ some (free_regions w.entries)
unfolding regions_of
regions-Walked memory address end o w = ap regions_of w.ended ∙ ap some w.same_regions

capacity_ended :
    (rounds : ℕ) (memory : ℕ → MapEntry) (hw : HardwareState) (mbi : MultibootInfo) (f : Found)
    → mbi.has_memory ≡ true
    → mbi.has_mem_map ≡ true
    → walk rounds memory mbi.mmap_addr (map_end mbi) nothing_found ≡ some f
    → detect_memory_capacity rounds memory hw mbi ≡ some (with_memory hw mbi, f)
unfolding detect_memory_capacity
capacity_ended rounds memory hw mbi f h h' e = simp (h, h', e) refl

regions_ended :
    (rounds : ℕ) (memory : ℕ → MapEntry) (hw : HardwareState) (mbi : MultibootInfo)
    (regions : List (ℕ × ℕ))
    → mbi.has_memory ≡ true
    → mbi.has_mem_map ≡ true
    → walk_regions rounds memory mbi.mmap_addr (map_end mbi) [] ≡ some regions
    → detect_memory rounds memory hw mbi ≡ some (with_memory hw mbi, regions)
unfolding detect_memory
regions_ended rounds memory hw mbi regions h h' e = simp (h, h', e) refl

-- With information about the memory and a map of it, whose entries have sizes of 32 bits: in 2^32
-- rounds or more, `detectMemoryCapacity` comes to its end. It reports the memory, and it has
-- called `addFreeRegion` once for each available entry that stands in the map, in order.
-- `detectMemory` makes the same calls.
pub detect_memory_capacity-Walked :
    (rounds : ℕ) (memory : ℕ → MapEntry) (hw : HardwareState) (mbi : MultibootInfo)
    → 2 ^ 32 ≤ rounds
    → ((a : ℕ) → (memory a).size < 2 ^ 32)
    → mbi.has_memory ≡ true
    → mbi.has_mem_map ≡ true
    → (entries : List MapEntry) × (found : Found) × Entries memory
        (map_end mbi)
        mbi.mmap_addr
        entries
      × (detect_memory_capacity rounds memory hw mbi ≡ some (with_memory hw mbi, found))
      × (found.regions ≡ free_regions entries)
      × (detect_memory rounds memory hw mbi ≡ some (with_memory hw mbi, free_regions entries))
detect_memory_capacity-Walked rounds memory hw mbi enough sizes h h' =
    let below = map_end_small mbi in
    let w =
      walk-Walked rounds memory mbi.mmap_addr (map_end mbi) nothing_found sizes below
        (omega (arith, below, enough)) in
    let same =
      walk_regions-walk rounds memory mbi.mmap_addr (map_end mbi) nothing_found
      ∙ regions-Walked memory mbi.mmap_addr (map_end mbi) _ w in
    (
      w.entries,
      w.found,
      w.laid_out,
      capacity_ended rounds memory hw mbi w.found h h' w.ended,
      w.same_regions,
      regions_ended rounds memory hw mbi _ h h' same,
    )
