-- ===== src/Boot/Image.antt =====
-- boot/bootloader.cpp, `validateKernelImage`. A file is the list of its bytes. The layout of
-- `Elf64_Ehdr` is not in the repository: `read_header` reads the fields that the code uses, and
-- `header_size` is how many bytes the header takes.
pub mod Checksum
use kernelc_moderne.Prelude.{
  ℕ, zero, suc, ◌+◌, ◌%◌, ◌^◌, Bool, true, false, not, ◌&&◌, List, [], ◌∷◌, Option, none, some, ltb,
  ◌==◌, if◌then◌else◌, length,
}

pub record Header : Type 0 where
  pub mag0 : ℕ
  pub mag1 : ℕ
  pub mag2 : ℕ
  pub mag3 : ℕ
  pub machine : ℕ
  pub checksum : ℕ

pub data ImageError : Type 0 where
  cannot_open bad_magic bad_machine bad_checksum : ImageError

-- `EM_X86_64`
abbrev pub em_x86_64 : ℕ
em_x86_64 = 62

-- The bytes of `buffer`.
abbrev pub block_size : ℕ
block_size = 4096

pub take : ℕ → List ℕ → List ℕ
take zero bytes = []
take (suc n) [] = []
take (suc n) (b ∷ bytes) = b ∷ take n bytes

pub drop : ℕ → List ℕ → List ℕ
drop zero bytes = bytes
drop (suc n) [] = []
drop (suc n) (b ∷ bytes) = drop n bytes

-- The loop over the bytes of the buffer.
pub add_bytes : ℕ → List ℕ → ℕ
add_bytes checksum [] = checksum
add_bytes checksum (b ∷ bytes) = add_bytes ((checksum + b) % 2 ^ 32) bytes

-- The loop over the file, with the rounds that are left: `read` succeeds only on a whole buffer.
pub sum_blocks : ℕ → ℕ → List ℕ → ℕ
sum_blocks zero checksum bytes = checksum
sum_blocks (suc rounds) checksum bytes =
    let rest =
      sum_blocks rounds (add_bytes checksum (take block_size bytes)) (drop block_size bytes) in
    if ltb (length bytes) block_size then checksum else rest

pub is_elf : Header → Bool
is_elf h = h.mag0 == 127 && h.mag1 == 69 && h.mag2 == 76 && h.mag3 == 70

pub validate_kernel_image : (List ℕ → Header) → ℕ → Option (List ℕ) → Option ImageError
validate_kernel_image read_header header_size none = some ImageError.cannot_open
validate_kernel_image read_header header_size (some bytes) =
    let h = read_header bytes in
    let body = drop header_size bytes in
    if not (is_elf h)
    then some ImageError.bad_magic
    else if not (h.machine == em_x86_64)
    then some ImageError.bad_machine
    else if not (sum_blocks (length body) 0 body == h.checksum)
    then some ImageError.bad_checksum
    else none
