-- ===== src/Boot/Cpu/Leaves.antt =====
-- Which leaves of CPUID the detection looks at.
use kernelc_moderne.Prelude.{ℕ, ◌≡◌, ◌≢◌, refl, true, false, arith}
use kernelc_moderne.Boot.MemoryMap.{HardwareState}
use kernelc_moderne.Boot.Cpu.{Registers, CpuFeatures, bit, brand, features, detect_cpu}

-- Two processors that differ at most in leaf 1, and there in `eax`, `ecx` and `edx`, give the same
-- report: the features that leaf 1 tells are not looked at. Without the bit of the long mode in
-- leaf 0x80000001, the error is logged and the features stay; with it, the processor counts as
-- detected and the features are the bits of that leaf.
pub detect_cpu-leaf :
    (cpuid cpuid' : ℕ → Registers) (hw : HardwareState) (old : CpuFeatures)
    → ((leaf : ℕ) → leaf ≢ 1 → cpuid leaf ≡ cpuid' leaf)
    → (cpuid 1).ebx ≡ (cpuid' 1).ebx
    → (detect_cpu cpuid hw old ≡ detect_cpu cpuid' hw old)
      × (bit 29 (cpuid 0x80000001).edx ≡ false
          → ((detect_cpu cpuid hw old).no_long_mode ≡ true)
            × ((detect_cpu cpuid hw old).cpu_features ≡ old))
      × (bit 29 (cpuid 0x80000001).edx ≡ true
          → ((detect_cpu cpuid hw old).hardware.cpu_detected ≡ true)
            × ((detect_cpu cpuid hw old).cpu_features ≡ features (cpuid 0x80000001)))
unfolding detect_cpu brand
detect_cpu-leaf cpuid cpuid' hw old same cores = (
  rw
      (
        same 0 (omega arith),
        same 0x80000001 (omega arith),
        same 0x80000002 (omega arith),
        same 0x80000003 (omega arith),
        same 0x80000004 (omega arith),
        cores,
      )
      refl,
  λ e. rw e (refl, refl),
  λ e. rw e (refl, refl),
)
