-- ===== src/Boot/Cpu.antt =====
-- boot/bootloader.cpp, `detectCPU`. The instruction CPUID is the argument `cpuid`, from what
-- stands in `eax` to the four registers of 32 bits; a string is the list of its bytes. The log is
-- left out, but for the error.
pub mod Leaves
use kernelc_moderne.Prelude.{
  ℕ, zero, suc, ◌+◌, ◌/◌, ◌%◌, ◌^◌, Bool, true, false, not, List, [], ◌∷◌, ◌++◌, ◌==◌,
  if◌then◌else◌,
}
use kernelc_moderne.Boot.MemoryMap.{HardwareState}

pub record Registers : Type 0 where
  pub eax : ℕ
  pub ebx : ℕ
  pub ecx : ℕ
  pub edx : ℕ

pub record CpuFeatures : Type 0 where
  pub has_sse : Bool
  pub has_sse2 : Bool
  pub has_avx : Bool
  pub has_vmx : Bool
  pub has_svm : Bool
  pub has_aes : Bool
  pub has_fpu : Bool
  pub has_tsc : Bool
  pub has_msr : Bool
  pub has_cx8 : Bool
  pub has_cmov : Bool
  pub has_clfsh : Bool
  pub has_mmx : Bool
  pub has_fxsr : Bool
  pub has_xsave : Bool
  pub has_pcid : Bool
  pub has_osxsave : Bool

-- `(register >> i) & 1`
pub bit : ℕ → ℕ → Bool
bit i register = (register / 2 ^ i) % 2 == 1

-- The bytes that `memcpy` takes from a register.
pub bytes_of : ℕ → List ℕ
bytes_of register =
    register % 256
    ∷ (register / 2 ^ 8) % 256
    ∷ (register / 2 ^ 16) % 256
    ∷ (register / 2 ^ 24) % 256
    ∷ []

-- `std::string` of an array: its bytes before the first zero.
pub c_string : List ℕ → List ℕ
c_string [] = []
c_string (b ∷ bytes) = let rest = c_string bytes in if b == 0 then [] else b ∷ rest

pub vendor : Registers → List ℕ
vendor r = c_string (bytes_of r.ebx ++ (bytes_of r.edx ++ bytes_of r.ecx))

-- One round of the loop over the brand.
pub brand_part : Registers → List ℕ
brand_part r = bytes_of r.eax ++ (bytes_of r.ebx ++ (bytes_of r.ecx ++ bytes_of r.edx))

pub brand : (ℕ → Registers) → List ℕ
brand cpuid = c_string (
    brand_part (cpuid 0x80000002)
    ++ (brand_part (cpuid 0x80000003) ++ brand_part (cpuid 0x80000004)))

pub features : Registers → CpuFeatures
features r = record {
  has_sse = bit 25 r.edx;
  has_sse2 = bit 26 r.edx;
  has_avx = bit 28 r.ecx;
  has_vmx = bit 5 r.ecx;
  has_svm = bit 2 r.ecx;
  has_aes = bit 25 r.ecx;
  has_fpu = bit 0 r.edx;
  has_tsc = bit 4 r.edx;
  has_msr = bit 5 r.edx;
  has_cx8 = bit 8 r.edx;
  has_cmov = bit 15 r.edx;
  has_clfsh = bit 19 r.edx;
  has_mmx = bit 23 r.edx;
  has_fxsr = bit 24 r.edx;
  has_xsave = bit 26 r.ecx;
  has_pcid = bit 17 r.ecx;
  has_osxsave = bit 27 r.ecx;
}

-- The part of the state that the processor fills, and whether an error was logged.
pub record CpuReport : Type 0 where
  pub hardware : HardwareState
  pub cpu_features : CpuFeatures
  pub no_long_mode : Bool

pub detect_cpu : (ℕ → Registers) → HardwareState → CpuFeatures → CpuReport
detect_cpu cpuid hw old =
    let named : HardwareState = record hw {
      cpu_vendor = vendor (cpuid 0);
      cpu_model = brand cpuid;
      cpu_cores = ((cpuid 1).ebx / 2 ^ 16) % 256;
    } in
    let r = cpuid 0x80000001 in
    if not (bit 29 r.edx)
    then record { hardware = named; cpu_features = old; no_long_mode = true }
    else record {
      hardware = record named { cpu_detected = true };
      cpu_features = features r;
      no_long_mode = false;
    }
