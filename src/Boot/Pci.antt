-- ===== src/Boot/Pci.antt =====
-- boot/bootloader.cpp, `probeHardwareInterfaces`. `pciConfigRead` has no body in the repository:
-- it is the argument `pci_read`. The variable of each loop has 8 bits.
pub mod Endless
use kernelc_moderne.Prelude.{
  ℕ, zero, suc, ◌+◌, ◌/◌, ◌%◌, ◌^◌, Bool, List, [], ◌∷◌, ◌++◌, ltb, ◌==◌, if◌then◌else◌,
}

pub record PciDevice : Type 0 where
  pub bus : ℕ
  pub device : ℕ
  pub function : ℕ
  pub vendor_id : ℕ
  pub device_id : ℕ
  pub class_code : ℕ
  pub sub_class : ℕ

-- Bus, device, function and register.
abbrev pub PciRead : Type 0
PciRead = ℕ → ℕ → ℕ → ℕ → ℕ

-- The device at a function, if there is one.
unfoldable pub probe_function : PciRead → ℕ → ℕ → ℕ → List PciDevice
probe_function pci_read bus device function =
    let id = pci_read bus device function 0 in
    let class_code = pci_read bus device function 8 in
    if id == 0xFFFFFFFF
    then []
    else record {
      bus = bus;
      device = device;
      function = function;
      vendor_id = id % 2 ^ 16;
      device_id = (id / 2 ^ 16) % 2 ^ 16;
      class_code = (class_code / 2 ^ 24) % 256;
      sub_class = (class_code / 2 ^ 16) % 256;
    }
      ∷ []

-- The two inner loops, with the rounds that are left.
unfoldable pub probe_functions : PciRead → ℕ → ℕ → ℕ → ℕ → List PciDevice
probe_functions pci_read zero bus device function = []
probe_functions pci_read (suc rounds) bus device function =
    probe_function pci_read bus device function
    ++ probe_functions pci_read rounds bus device (function + 1)

unfoldable pub probe_devices : PciRead → ℕ → ℕ → ℕ → List PciDevice
probe_devices pci_read zero bus device = []
probe_devices pci_read (suc rounds) bus device =
    probe_functions pci_read 8 bus device 0 ++ probe_devices pci_read rounds bus (device + 1)

pub data Probing : Type 0 where
  finished : List PciDevice → Probing
  probing : List PciDevice → Probing

-- The loop over the buses; `probing` where these rounds do not bring it to an end.
pub probe_buses : PciRead → ℕ → ℕ → List PciDevice → Probing
probe_buses pci_read zero bus found = probing found
probe_buses pci_read (suc rounds) bus found =
    let rest =
      probe_buses pci_read rounds ((bus + 1) % 256) (found ++ probe_devices pci_read 32 bus 0) in
    if ltb bus 256 then rest else finished found
