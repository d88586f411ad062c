-- ===== src/Boot/MemoryMap.antt =====
-- boot/bootloader.cpp: the two walks over the memory map, `detectMemoryCapacity` and
-- `detectMemory`. `multiboot_info_t` is not in the repository: its flags are Booleans, its types
-- of memory constructors and its addresses and lengths numbers of 32 bits; `memory` is the
-- entry that stands at an address. Pointers and sums of bytes have 64 bits. The analysis by
-- `memoryMap` and the log are left out.
pub mod Walk
use kernelc_moderne.Prelude.{
  ℕ, zero, suc, ◌+◌, ◌*◌, ◌%◌, ◌^◌, Bool, true, false, not, List, [], ◌∷◌, ◌++◌, Option, none, some,
  ltb, if◌then◌else◌,
}

abbrev pub word : ℕ
word = 2 ^ 64

pub data MemoryType : Type 0 where
  available reserved acpi_reclaimable other : MemoryType

pub record MapEntry : Type 0 where
  pub size : ℕ
  pub addr : ℕ
  pub len : ℕ
  pub kind : MemoryType

pub record MultibootInfo : Type 0 where
  pub has_memory : Bool
  pub has_mem_map : Bool
  pub mem_upper : ℕ
  pub mmap_addr : ℕ
  pub mmap_length : ℕ

pub record HardwareState : Type 0 where
  pub cpu_detected : Bool
  pub memory_detected : Bool
  pub total_memory : ℕ
  pub cpu_cores : ℕ
  pub cpu_vendor : List ℕ
  pub cpu_model : List ℕ

-- The sums of the walk, and the calls of `addFreeRegion`.
pub record Found : Type 0 where
  pub usable : ℕ
  pub reserved_memory : ℕ
  pub acpi : ℕ
  pub regions : List (ℕ × ℕ)

abbrev pub nothing_found : Found
nothing_found = record { usable = 0; reserved_memory = 0; acpi = 0; regions = [] }

abbrev pub region : MapEntry → ℕ × ℕ
region e = (e.addr, (e.addr + e.len) % word)

unfoldable pub add_entry : Found → MapEntry → MemoryType → Found
add_entry f e available = record f {
  usable = (f.usable + e.len) % word;
  regions = f.regions ++ (region e ∷ []);
}
add_entry f e reserved = record f { reserved_memory = (f.reserved_memory + e.len) % word }
add_entry f e acpi_reclaimable = record f { acpi = (f.acpi + e.len) % word }
add_entry f e other = f

-- `mmap + mmap->size + sizeof(mmap->size)`
unfoldable pub next_entry : ℕ → MapEntry → ℕ
next_entry address e = (address + e.size + 4) % word

-- The loop of `detectMemoryCapacity`; `none` where these rounds do not bring it to an end.
unfoldable pub walk : ℕ → (ℕ → MapEntry) → ℕ → ℕ → Found → Option Found
walk zero memory address end f = none
walk (suc rounds) memory address end f =
    let e = memory address in
    let rest = walk rounds memory (next_entry address e) end (add_entry f e e.kind) in
    if ltb address end then rest else some f

-- The loop of `detectMemory`.
pub walk_regions : ℕ → (ℕ → MapEntry) → ℕ → ℕ → List (ℕ × ℕ) → Option (List (ℕ × ℕ))
walk_regions zero memory address end regions = none
walk_regions (suc rounds) memory address end regions =
    let e = memory address in
    let regions' : List (ℕ × ℕ) = elim e.kind [
      | available ↦ regions ++ (region e ∷ [])
      | _ ↦ regions
    ] in
    let rest = walk_regions rounds memory (next_entry address e) end regions' in
    if ltb address end then rest else some regions

-- `mbi->mmap_addr + mbi->mmap_length`
unfoldable pub map_end : MultibootInfo → ℕ
map_end mbi = (mbi.mmap_addr + mbi.mmap_length) % 2 ^ 32

abbrev pub with_memory : HardwareState → MultibootInfo → HardwareState
with_memory hw mbi = record hw {
  memory_detected = true;
  total_memory = (mbi.mem_upper * 1024) % 2 ^ 32;
}

-- `none` where the walk does not come to an end in these rounds.
unfoldable pub detect_memory_capacity :
    ℕ → (ℕ → MapEntry) → HardwareState → MultibootInfo → Option (HardwareState × Found)
detect_memory_capacity rounds memory hw mbi =
    if not mbi.has_memory
    then some (hw, nothing_found)
    else if not mbi.has_mem_map
    then some (with_memory hw mbi, nothing_found)
    else (elim (walk rounds memory mbi.mmap_addr (map_end mbi) nothing_found) [
      | none ↦ none
      | some f ↦ some (with_memory hw mbi, f)
    ])

pub detect_memory :
    ℕ → (ℕ → MapEntry) → HardwareState → MultibootInfo → Option (HardwareState × List (ℕ × ℕ))
detect_memory rounds memory hw mbi =
    if not mbi.has_memory
    then some (hw, [])
    else if not mbi.has_mem_map
    then some (with_memory hw mbi, [])
    else (elim (walk_regions rounds memory mbi.mmap_addr (map_end mbi) []) [
      | none ↦ none
      | some regions ↦ some (with_memory hw mbi, regions)
    ])
