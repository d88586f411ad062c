-- ===== src/Boot/Stages.antt =====
-- boot/bootloader.cpp, `initialize` and the stages that it leads to. What the file system and the
-- processor answer is the record `Environment`. A call of std::filesystem returns or throws a
-- `filesystem_error`, which is a `std::exception`. The kernel's own functions are called as they
-- are; `initializeInterruptControllers`, which only writes to ports, and the log are left out, but
-- for the errors. `device_room` is how many PCI devices there is memory for: the `push_back` behind
-- them throws. The other allocations are taken to succeed. An `Option` is `none` where a loop does
-- not come to its end in the rounds given.
pub mod Reached
pub mod Failing
use kernelc_moderne.Prelude.{
  ℕ, ◌/◌, ◌*◌, Bool, true, false, not, List, [], ◌∷◌, ◌++◌, Option, none, some, if◌then◌else◌, ltb,
  length, take, map,
}
use kernelc_moderne.Boot.MemoryMap.{
  MapEntry, MultibootInfo, HardwareState, Found, detect_memory_capacity,
}
use kernelc_moderne.Boot.Cpu.{Registers, CpuFeatures, CpuReport, detect_cpu}
use kernelc_moderne.Boot.Pci.{PciDevice, PciRead, Probing, probe_buses}
use kernelc_moderne.Boot.Image.{Header, ImageError, validate_kernel_image}

pub data BootStage : Type 0 where
  pre_init hardware_detection kernel_load filesystem_mount memory_init : BootStage
  boot_screen kernel_startup complete : BootStage

pub data Attempt : Type 0 where
  returned : Bool → Attempt
  raised : Attempt

pub data BootError : Type 0 where
  boot_missing initialization_failed kernel_missing validation_failed : BootError
  loading_error mounting_failed detection_failed no_long_mode no_memory_information : BootError
  image_error : ImageError → BootError

pub record Environment : Type 0 where
  pub boot_exists : Attempt
  pub kernel_exists : Attempt
  pub root_made : Attempt
  pub home_made : Attempt
  pub kernel_file : Option (List ℕ)
  pub read_header : List ℕ → Header
  pub header_size : ℕ
  pub cpuid : ℕ → Registers
  pub mbi : MultibootInfo
  pub memory : ℕ → MapEntry
  pub pci_read : PciRead
  pub device_room : ℕ

-- What `detectedDevices_` holds: lines of text, and the devices that the probing adds.
pub data Detected : Type 0 where
  cpu_line : List ℕ → List ℕ → Detected
  cores_line : ℕ → Detected
  memory_line : ℕ → Detected
  pci : PciDevice → Detected

pub record Loader : Type 0 where
  pub stage : BootStage
  pub hardware : HardwareState
  pub cpu_features : CpuFeatures
  pub free : List (ℕ × ℕ)
  pub detected : List Detected
  pub errors : List BootError

pub handle_boot_error : Loader → BootError → Loader
handle_boot_error l e = record l { errors = l.errors ++ (e ∷ []) }

pub is_boot_complete : Loader → Bool
is_boot_complete l = elim l.stage [ BootStage.complete ↦ true | _ ↦ false ]

pub start_kernel : Loader → Loader × Bool
start_kernel l = (record l { stage = BootStage.complete }, true)

pub initialize_memory : Loader → Loader × Bool
initialize_memory l = (record l { stage = BootStage.boot_screen }, true)

pub mount_filesystems : Environment → Loader → Loader × Bool
mount_filesystems env l = elim env.root_made [
  | Attempt.raised ↦ (handle_boot_error l BootError.mounting_failed, false)
  | Attempt.returned new ↦ elim env.home_made [
    | Attempt.raised ↦ (handle_boot_error l BootError.mounting_failed, false)
    | Attempt.returned new' ↦ initialize_memory (record l { stage = BootStage.memory_init })
  ]
]

pub load_kernel : Environment → Loader → Loader × Bool
load_kernel env l = elim env.kernel_exists [
  | Attempt.raised ↦ (handle_boot_error l BootError.loading_error, false)
  | Attempt.returned false ↦ (handle_boot_error l BootError.kernel_missing, false)
  | Attempt.returned true ↦
      elim (validate_kernel_image env.read_header env.header_size env.kernel_file) [
        | some e ↦ (
          handle_boot_error (handle_boot_error l (BootError.image_error e))
              BootError.validation_failed,
          false,
        )
        | none ↦ mount_filesystems env (record l { stage = BootStage.filesystem_mount })
      ]
]

-- `detectCPU` on the state.
pub with_cpu : Environment → Loader → Loader
with_cpu env l =
    let report = detect_cpu env.cpuid l.hardware l.cpu_features in
    let l' : Loader = record l { hardware = report.hardware; cpu_features = report.cpu_features } in
    if report.no_long_mode then handle_boot_error l' BootError.no_long_mode else l'

-- The error of `detectMemoryCapacity`.
pub with_memory_error : Environment → Loader → Loader
with_memory_error env l =
    if env.mbi.has_memory then l else handle_boot_error l BootError.no_memory_information

-- The list that replaces `detectedDevices_`, and with it the devices that the probing has found.
pub device_lines : HardwareState → List Detected
device_lines hw =
    Detected.cpu_line hw.cpu_vendor hw.cpu_model
    ∷ Detected.cores_line hw.cpu_cores
    ∷ Detected.memory_line (hw.total_memory / (1024 * 1024))
    ∷ []

-- The part of `detectHardware` behind the probing.
pub hardware_detected : Environment → Loader → Loader × Bool
hardware_detected env l =
    load_kernel env (record l { detected = device_lines l.hardware; stage = BootStage.kernel_load })

-- The handler of `detectHardware`, for the exception of the first device that has no room.
pub out_of_room : Environment → Loader → List PciDevice → Loader × Bool
out_of_room env l devices = (
  handle_boot_error
      (record l { detected = l.detected ++ map Detected.pci (take env.device_room devices) })
      BootError.detection_failed,
  false,
)

pub detect_hardware : ℕ → Environment → Loader → Option (Loader × Bool)
detect_hardware rounds env l =
    let l' = with_memory_error env (with_cpu env l) in
    elim (detect_memory_capacity rounds env.memory l'.hardware env.mbi) [
      | none ↦ none
      | some (hw, found) ↦
          let l'' : Loader = record l' { hardware = hw; free = l'.free ++ found.regions } in
          elim (probe_buses env.pci_read rounds 0 []) [
            | Probing.probing devices ↦
                if ltb env.device_room (length devices)
                then some (out_of_room env l'' devices)
                else none
            | Probing.finished devices ↦
                if ltb env.device_room (length devices)
                then some (out_of_room env l'' devices)
                else some (hardware_detected env l'')
          ]
    ]

pub initialize : ℕ → Environment → Loader → Option (Loader × Bool)
initialize rounds env l =
    let l' : Loader = record l { stage = BootStage.pre_init } in
    elim env.boot_exists [
      | Attempt.raised ↦ some (handle_boot_error l' BootError.initialization_failed, false)
      | Attempt.returned false ↦ some (handle_boot_error l' BootError.boot_missing, false)
      | Attempt.returned true ↦
          detect_hardware rounds env (record l' { stage = BootStage.hardware_detection })
    ]
