-- ===== src/Boot/Tests.antt =====
-- The theorems at concrete inputs.
use kernelc_moderne.Prelude.{
  ℕ, ◌≡◌, ◌≢◌, ◌<◌, ◌≤◌, length, refl, ◌⊎◌, ◌↔◌, ◌*◌, ◌%◌, ◌^◌, Bool, true, false, List, [], ◌∷◌,
  none, some, arith,
}
use kernelc_moderne.Boot.MemoryMap.{
  MemoryType, MapEntry, MultibootInfo, HardwareState, Found, map_end, with_memory,
  detect_memory_capacity, detect_memory, walk, add_entry, next_entry,
}
use kernelc_moderne.Boot.MemoryMap.Walk.{Entries, free_regions, detect_memory_capacity-Walked}
use kernelc_moderne.Boot.Image.{Header, ImageError, drop, is_elf, em_x86_64, validate_kernel_image}
use kernelc_moderne.Boot.Image.Checksum.{whole_sum, validate_kernel_image-accepted}
use kernelc_moderne.Boot.Pci.{
  PciDevice, PciRead, Probing, probe_buses, probe_devices, probe_functions, probe_function,
}
use kernelc_moderne.Boot.Pci.Endless.{scan, copies, probe_buses-endless}
use kernelc_moderne.Boot.Cpu.{Registers, CpuFeatures, features}
use kernelc_moderne.Boot.Stages.{
  BootStage, Attempt, BootError, Environment, Loader, load_kernel, initialize,
}
use kernelc_moderne.Boot.Stages.Reached.{Rest, load_kernel-Rest}
use kernelc_moderne.Boot.Stages.Failing.{stopped, surveyed, exhausted, initialize_fails}

-- A header of four bytes, the magic number, of a file whose body adds up to 0.
abbrev small_header : List ℕ → Header
small_header bytes = record {
  mag0 = 127;
  mag1 = 69;
  mag2 = 76;
  mag3 = 70;
  machine = em_x86_64;
  checksum = 0;
}

abbrev small_file : List ℕ
small_file = 127 ∷ 69 ∷ 76 ∷ 70 ∷ []

validate_kernel_image-accepted_example :
    (validate_kernel_image small_header 4 none ≡ some ImageError.cannot_open)
    × ((validate_kernel_image small_header 4 (some small_file) ≡ none) ↔ (
        (is_elf (small_header small_file) ≡ true)
        × (em_x86_64 ≡ em_x86_64)
        × (whole_sum (drop 4 small_file) % 2 ^ 32 ≡ 0)))
validate_kernel_image-accepted_example = validate_kernel_image-accepted small_header 4 small_file

-- A map whose entries are all the same.
abbrev entry_at : ℕ → MapEntry
entry_at a = record { size = 20; addr = 0x100000; len = 0x1000; kind = MemoryType.available }

abbrev info : MultibootInfo
info = record {
  has_memory = true;
  has_mem_map = true;
  mem_upper = 1024;
  mmap_addr = 0x9000;
  mmap_length = 48;
}

abbrev no_hardware : HardwareState
no_hardware = record {
  cpu_detected = false;
  memory_detected = false;
  total_memory = 0;
  cpu_cores = 0;
  cpu_vendor = [];
  cpu_model = [];
}

size_small : (a : ℕ) → (entry_at a).size < 2 ^ 32
size_small a = omega arith

detect_memory_capacity-Walked_example :
    (entries : List MapEntry) × (found : Found) × Entries entry_at (map_end info) 0x9000 entries
    × (detect_memory_capacity (2 ^ 32) entry_at no_hardware info
        ≡ some (with_memory no_hardware info, found))
    × (found.regions ≡ free_regions entries)
    × (detect_memory (2 ^ 32) entry_at no_hardware info
        ≡ some (with_memory no_hardware info, free_regions entries))
detect_memory_capacity-Walked_example =
    detect_memory_capacity-Walked (2 ^ 32) entry_at no_hardware info (omega arith) size_small refl
      refl

-- A machine with a device at each function.
abbrev all_present : PciRead
all_present bus device function register = 0x12378086

probe_buses-endless_example :
    ((found : List PciDevice) × (probe_buses all_present 3 0 [] ≡ Probing.probing found))
    × (probe_buses all_present (2 * 256) 0 [] ≡ Probing.probing (copies 2 (scan all_present 256 0)))
probe_buses-endless_example = probe_buses-endless all_present 3 2

-- A processor with the long mode, and one that tells more in leaf 1.
abbrev registers : ℕ → Registers
registers leaf = record { eax = 0; ebx = 0x756E6547; ecx = 0; edx = 2 ^ 29 }

abbrev no_features : CpuFeatures
no_features = features (record { eax = 0; ebx = 0; ecx = 0; edx = 0 })

abbrev machine : Environment
machine = record {
  boot_exists = Attempt.returned true;
  kernel_exists = Attempt.returned true;
  root_made = Attempt.returned true;
  home_made = Attempt.raised;
  kernel_file = some small_file;
  read_header = small_header;
  header_size = 4;
  cpuid = registers;
  mbi = info;
  memory = entry_at;
  pci_read = all_present;
  device_room = 1;
}

abbrev fresh_loader : Loader
fresh_loader = record {
  stage = BootStage.kernel_load;
  hardware = no_hardware;
  cpu_features = no_features;
  free = [];
  detected = [];
  errors = [];
}

load_kernel-Rest_example :
    (l' : Loader) × (ok : Bool) × (load_kernel machine fresh_loader ≡ (l', ok))
    × Rest machine fresh_loader l' ok
load_kernel-Rest_example = load_kernel-Rest machine fresh_loader

-- The memory map has two entries of 24 bytes, each of them available.
abbrev memory_found : Found
memory_found = record {
  usable = 0x2000;
  reserved_memory = 0;
  acpi = 0;
  regions = (0x100000, 0x101000) ∷ (0x100000, 0x101000) ∷ [];
}

abbrev memory_hardware : HardwareState
memory_hardware = with_memory (surveyed machine fresh_loader).hardware info

memory_detected :
    detect_memory_capacity 512 entry_at (surveyed machine fresh_loader).hardware info
    ≡ some (memory_hardware, memory_found)
unfolding detect_memory_capacity walk add_entry next_entry map_end
memory_detected = refl

abbrev has_some : List PciDevice → Bool
has_some [] = false
has_some (d ∷ ds) = true

has_some-length : (ds : List PciDevice) → has_some ds ≡ true → 1 ≤ length ds
has_some-length [] h = cc
has_some-length (d ∷ ds) h = omega arith

first_device : 1 ≤ length (scan all_present 256 0)
unfolding scan probe_devices probe_functions probe_function
first_device = has_some-length (scan all_present 256 0) refl

initialize_fails_example :
    ((Attempt.returned true ≡ Attempt.returned true)
      × (initialize 512 machine fresh_loader
          ≡ some (exhausted 512 machine fresh_loader memory_hardware memory_found, false))
      × ((exhausted 512 machine fresh_loader memory_hardware memory_found).stage
          ≡ BootStage.hardware_detection))
    ⊎ ((Attempt.returned true ≢ Attempt.returned true)
        × ((e : BootError) × (initialize 512 machine fresh_loader
              ≡ some (stopped fresh_loader e, false))))
initialize_fails_example =
    initialize_fails 512 machine fresh_loader memory_hardware memory_found memory_detected
      first_device (omega arith)
