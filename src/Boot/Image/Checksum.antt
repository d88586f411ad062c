-- ===== src/Boot/Image/Checksum.antt =====
-- The checksum of an image against the sum of its bytes.
use kernelc_moderne.Prelude.{
  ℕ, zero, suc, ◌≡◌, ◌≤◌, ◌<◌, refl, sym, ◌∙◌, ap, subst, inl, inr, ◌+◌, ◌-◌, ◌*◌, ◌/◌, ◌%◌, ◌^◌,
  Bool, true, false, not, List, [], ◌∷◌, Option, none, some, ltb, ltb→lt, ◌==◌, if◌then◌else◌,
  length, Bool-cases, ◌↔◌, arith,
}
use kernelc_moderne.Boot.Image.{
  Header, ImageError, em_x86_64, block_size, take, drop, add_bytes, sum_blocks, is_elf,
  validate_kernel_image,
}

unfoldable pub sum : List ℕ → ℕ
sum [] = 0
sum (b ∷ bytes) = b + sum bytes

add_bytes-sum :
    (checksum : ℕ) (bytes : List ℕ)
    → checksum < 2 ^ 32
    → add_bytes checksum bytes ≡ (checksum + sum bytes) % 2 ^ 32
unfolding add_bytes sum
add_bytes-sum checksum [] h = omega (arith, h)
add_bytes-sum checksum (b ∷ bytes) h =
    add_bytes-sum ((checksum + b) % 2 ^ 32) bytes (omega arith) ∙ omega arith

length-drop : (n : ℕ) (bytes : List ℕ) → length (drop n bytes) ≡ length bytes - n
unfolding drop
length-drop zero bytes = omega arith
length-drop (suc n) [] = omega arith
length-drop (suc n) (b ∷ bytes) = length-drop n bytes ∙ omega arith

take-nil : (n : ℕ) → take n [] ≡ []
unfolding take
take-nil zero = refl
take-nil (suc n) = refl

drop-nil : (n : ℕ) → drop n [] ≡ []
unfolding drop
drop-nil zero = refl
drop-nil (suc n) = refl

sum-take_add :
    (m n : ℕ) (bytes : List ℕ)
    → sum (take (m + n) bytes) ≡ sum (take m bytes) + sum (take n (drop m bytes))
unfolding sum take drop
sum-take_add zero n bytes = let same : 0 + n ≡ n = omega arith in rw same (omega arith)
sum-take_add (suc m) n [] = rw (take-nil (suc m + n), take-nil n) refl
sum-take_add (suc m) n (b ∷ bytes) =
    let next : suc m + n ≡ suc (m + n) = omega arith in
    rw (next, sum-take_add m n bytes) (omega arith)

-- The bytes that the loop reads: those of the whole blocks.
unfoldable pub whole : List ℕ → ℕ
whole bytes = block_size * (length bytes / block_size)

-- The sum of those bytes.
unfoldable pub whole_sum : List ℕ → ℕ
whole_sum bytes = sum (take (whole bytes) bytes)

whole_sum-short : (bytes : List ℕ) → length bytes < block_size → whole_sum bytes ≡ 0
unfolding whole_sum whole sum take
whole_sum-short bytes h =
    let none_whole : block_size * (length bytes / block_size) ≡ 0 = omega (arith, h) in
    rw none_whole refl

whole_sum-long :
    (bytes : List ℕ)
    → block_size ≤ length bytes
    → whole_sum bytes ≡ sum (take block_size bytes) + whole_sum (drop block_size bytes)
unfolding whole_sum whole
whole_sum-long bytes h =
    let rest = drop block_size bytes in
    let more : block_size * (length bytes / block_size)
        ≡ block_size + block_size * (length rest / block_size) =
      omega (arith, h, length-drop block_size bytes) in
    ap (λ n. sum (take n bytes)) more
    ∙ sum-take_add block_size (block_size * (length rest / block_size)) bytes

sum_blocks-sum :
    (rounds checksum : ℕ) (bytes : List ℕ)
    → length bytes ≤ rounds
    → checksum < 2 ^ 32
    → sum_blocks rounds checksum bytes ≡ (checksum + whole_sum bytes) % 2 ^ 32
unfolding sum_blocks
sum_blocks-sum zero checksum bytes h small =
    omega (arith, small, whole_sum-short bytes (omega (arith, h)))
sum_blocks-sum (suc rounds) checksum bytes h small =
    elim (Bool-cases (ltb (length bytes) block_size)) [
      | inl e ↦ rw e (omega (arith, small, whole_sum-short bytes (ltb→lt _ _ e)))
      | inr e ↦
          let long : block_size ≤ length bytes = ltb-false (length bytes) block_size e in
          let next = add_bytes-sum checksum (take block_size bytes) small in
          rw e (
            sum_blocks-sum rounds (add_bytes checksum (take block_size bytes))
              (drop block_size bytes) (omega (arith, h, long, length-drop block_size bytes))
              (omega (arith, next))
            ∙ omega (arith, next, whole_sum-long bytes long))
    ]
  where
    ltb-false : (a b : ℕ) → ltb a b ≡ false → b ≤ a
    ltb-false a b h = ground arith

-- The chain of tests, on what it tests.
chain : Bool → ℕ → ℕ → ℕ → Option ImageError
chain elf machine total checksum =
    if not elf
    then some ImageError.bad_magic
    else if not (machine == em_x86_64)
    then some ImageError.bad_machine
    else if not (total == checksum)
    then some ImageError.bad_checksum
    else none

chain-none :
    (elf : Bool) (machine total checksum : ℕ)
    → (chain elf machine total checksum ≡ none)
      ↔ ((elf ≡ true) × (machine ≡ em_x86_64) × (total ≡ checksum))
unfolding chain
chain-none elf machine total checksum = (
  λ h. (ground (arith, h), ground (arith, h), ground (arith, h)),
  λ (a, b, c). ground (arith, a, b, c),
)

-- A file is accepted exactly if it can be opened, its header names an ELF file for x86-64, and
-- the checksum of the header is the sum modulo 2^32 of the bytes after the header up to the last
-- whole block of 4096: the bytes after that block do not count.
pub validate_kernel_image-accepted :
    (read_header : List ℕ → Header) (header_size : ℕ) (bytes : List ℕ)
    → let h = read_header bytes in
      (validate_kernel_image read_header header_size none ≡ some ImageError.cannot_open)
      × ((validate_kernel_image read_header header_size (some bytes) ≡ none) ↔ (
          (is_elf h ≡ true)
          × (h.machine ≡ em_x86_64)
          × (whole_sum (drop header_size bytes) % 2 ^ 32 ≡ h.checksum)))
unfolding validate_kernel_image chain
validate_kernel_image-accepted read_header header_size bytes =
    let h = read_header bytes in
    let body = drop header_size bytes in
    let total : sum_blocks (length body) 0 body ≡ whole_sum body % 2 ^ 32 =
      omega (arith, sum_blocks-sum (length body) 0 body (omega arith) (omega arith)) in
    (
      refl,
      subst
          (λ n. (chain (is_elf h) h.machine n h.checksum ≡ none) ↔ (
            (is_elf h ≡ true) × (h.machine ≡ em_x86_64) × (whole_sum body % 2 ^ 32 ≡ h.checksum)))
          (sym total) (chain-none (is_elf h) h.machine (whole_sum body % 2 ^ 32) h.checksum),
    )
