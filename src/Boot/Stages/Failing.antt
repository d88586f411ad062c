-- ===== src/Boot/Stages/Failing.antt =====
-- How `initialize` ends: the probing of the buses fills the memory, and its exception ends the boot.
use kernelc_moderne.Prelude.{
  ℕ, zero, suc, ◌+◌, ◌-◌, ◌*◌, ◌%◌, ◌≤◌, ◌<◌, ◌≡◌, ◌≢◌, refl, ◌∙◌, ◌⊎◌, inl, inr, Bool, true, false,
  if◌then◌else◌, List, [], ◌∷◌, ◌++◌, none, some, arith, ltb, lt→ltb, length, length-append, take,
  map, Option-cases,
}
use kernelc_moderne.Boot.MemoryMap.{HardwareState, Found, detect_memory_capacity}
use kernelc_moderne.Boot.Pci.{PciDevice, PciRead}
use kernelc_moderne.Boot.Pci.Endless.{scan, copies, scan_add, scan-copies, probe_buses-scan}
use kernelc_moderne.Boot.Stages.{
  BootStage, Attempt, BootError, Environment, Detected, Loader, handle_boot_error, with_cpu,
  with_memory_error, out_of_room, detect_hardware, initialize,
}
use kernelc_moderne.Boot.Stages.Reached.{Attempt-cases}

-- The error in the first stage.
abbrev pub stopped : Loader → BootError → Loader
stopped l e = record l { stage = BootStage.pre_init; errors = l.errors ++ (e ∷ []) }

-- The loader after the detection of the processor, with the error for a missing memory map.
abbrev pub surveyed : Environment → Loader → Loader
surveyed env l =
    with_memory_error env (with_cpu env (record l { stage = BootStage.hardware_detection }))

-- The loader at the exception: the memory is detected, as many devices as there is room for are
-- listed, and the error is logged.
abbrev pub exhausted : ℕ → Environment → Loader → HardwareState → Found → Loader
exhausted rounds env l hw found = record (surveyed env l) {
  hardware = hw;
  free = (surveyed env l).free ++ found.regions;
  detected =
      (surveyed env l).detected
      ++ map Detected.pci (take env.device_room (scan env.pci_read rounds 0));
  errors = (surveyed env l).errors ++ (BootError.detection_failed ∷ []);
}

no_answer :
    (rounds : ℕ) (env : Environment) (l : Loader)
    → env.boot_exists ≡ Attempt.raised
    → initialize rounds env l ≡ some (stopped l BootError.initialization_failed, false)
unfolding initialize handle_boot_error
no_answer rounds env l e = rw (initialize, e) refl

no_directory :
    (rounds : ℕ) (env : Environment) (l : Loader)
    → env.boot_exists ≡ Attempt.returned false
    → initialize rounds env l ≡ some (stopped l BootError.boot_missing, false)
unfolding initialize handle_boot_error
no_directory rounds env l e = rw (initialize, e) refl

if-stage :
    (b : Bool) (l m : Loader) (stage : BootStage)
    → l.stage ≡ stage
    → m.stage ≡ stage
    → (if b then l else m).stage ≡ stage
if-stage true l m stage e f = e
if-stage false l m stage e f = f

with_cpu-stage : (env : Environment) (l : Loader) → (with_cpu env l).stage ≡ l.stage
unfolding with_cpu handle_boot_error
with_cpu-stage env l = if-stage _ _ _ l.stage refl refl

with_memory_error-stage :
    (env : Environment) (l : Loader) → (with_memory_error env l).stage ≡ l.stage
unfolding with_memory_error handle_boot_error
with_memory_error-stage env l = if-stage _ _ _ l.stage refl refl

length-copies :
    (k : ℕ) (devices : List PciDevice) → 1 ≤ length devices → k ≤ length (copies k devices)
unfolding copies
length-copies zero devices h = omega arith
length-copies (suc k) devices h =
    omega (arith, length-append devices (copies k devices), length-copies k devices h)

-- Enough rounds find more devices than there is room for.
scan-full :
    (pci_read : PciRead) (rounds room : ℕ)
    → 1 ≤ length (scan pci_read 256 0)
    → (room + 1) * 256 ≤ rounds
    → room < length (scan pci_read rounds 0)
scan-full pci_read rounds room device enough =
    let split : rounds ≡ (room + 1) * 256 + (rounds - (room + 1) * 256) = omega (arith, enough) in
    let first : room + 1 ≤ length (scan pci_read ((room + 1) * 256) 0) =
      rw (scan-copies pci_read (room + 1)) (length-copies (room + 1) _ device) in
    rw (split, scan_add pci_read ((room + 1) * 256) (rounds - (room + 1) * 256) 0 (omega arith))
      (omega (
        arith,
        first,
        length-append (scan pci_read ((room + 1) * 256) 0)
            (scan pci_read (rounds - (room + 1) * 256) ((0 + (room + 1) * 256) % 256)),
      ))

module _ (rounds : ℕ) (env : Environment) (l : Loader) where
  at_detection :
      env.boot_exists ≡ Attempt.returned true
      → initialize rounds env l
        ≡ detect_hardware rounds env (record l { stage = BootStage.hardware_detection })
  unfolding initialize
  at_detection boot = simp (boot, initialize)

  -- The run of the stages up to the exception, once the bus scan is too long.
  detect_hardware-exhausted :
      (hw : HardwareState) (found : Found)
      → detect_memory_capacity rounds env.memory (surveyed env l).hardware env.mbi
        ≡ some (hw, found)
      → env.device_room < length (scan env.pci_read rounds 0)
      → detect_hardware rounds env (record l { stage = BootStage.hardware_detection })
        ≡ some (exhausted rounds env l hw found, false)
  unfolding detect_hardware out_of_room handle_boot_error
  detect_hardware-exhausted hw found memory full =
      let scanned = probe_buses-scan env.pci_read rounds 0 [] (omega arith) in
      rw (detect_hardware, memory, scanned, lt→ltb _ _ full) refl

  -- Without a device the probing goes on.
  pub initialize-unfinished :
      env.boot_exists ≡ Attempt.returned true
      → scan env.pci_read rounds 0 ≡ []
      → initialize rounds env l ≡ none
  unfolding detect_hardware
  initialize-unfinished boot empty =
      let scanned = probe_buses-scan env.pci_read rounds 0 [] (omega arith) in
      let room : ltb env.device_room 0 ≡ false = ground arith in
      at_detection boot
      ∙ elim (Option-cases
          (detect_memory_capacity rounds env.memory (surveyed env l).hardware env.mbi)) [
            | inl e ↦ rw (detect_hardware, e) refl
            | inr (r, e) ↦ rw (detect_hardware, e, scanned, empty, room) refl
          ]

-- Where the walk over the memory map comes to its end, there is a device on some bus, and the
-- rounds are 256 more than 256 for each device that there is room for, `initialize` returns false.
-- If /boot exists it is in the stage of the hardware detection, the memory and as many devices as
-- there is room for are listed, over and over, and the error of the failed detection is the last
-- one, whatever the kernel and the file systems are; if /boot does not exist or cannot be looked
-- at, it is in the first stage and has logged one error.
pub initialize_fails :
    (rounds : ℕ) (env : Environment) (l : Loader) (hw : HardwareState) (found : Found)
    → detect_memory_capacity rounds env.memory (surveyed env l).hardware env.mbi ≡ some (hw, found)
    → 1 ≤ length (scan env.pci_read 256 0)
    → (env.device_room + 1) * 256 ≤ rounds
    → ((env.boot_exists ≡ Attempt.returned true)
        × (initialize rounds env l ≡ some (exhausted rounds env l hw found, false))
        × ((exhausted rounds env l hw found).stage ≡ BootStage.hardware_detection))
      ⊎ ((env.boot_exists ≢ Attempt.returned true)
          × ((e : BootError) × (initialize rounds env l ≡ some (stopped l e, false))))
initialize_fails rounds env l hw found memory device enough = elim (Attempt-cases env.boot_exists) [
  | inl e ↦ inr ((λ h. cc), (BootError.initialization_failed, no_answer rounds env l e))
  | inr (false, e) ↦ inr ((λ h. cc), (BootError.boot_missing, no_directory rounds env l e))
  | inr (true, e) ↦ inl (
    e,
    at_detection rounds env l e
        ∙ detect_hardware-exhausted rounds env l hw found memory
            (scan-full env.pci_read rounds env.device_room device enough),
    with_memory_error-stage env _ ∙ with_cpu-stage env _,
  )
]
