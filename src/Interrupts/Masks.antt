-- ===== src/Interrupts/Masks.antt =====
-- Masking and unmasking an interrupt line.
use Prim.Native.Nat.{bit_and}
use kernelc_moderne.Prelude.{
  ℕ, ◌%◌, ◌^◌, ◌<◌, ◌≡◌, refl, Bool, true, false, not, List, [], ◌∷◌, arith, lt→ltb, ◌==◌,
  if◌then◌else◌,
}
use kernelc_moderne.Memory.PageAllocator.Bitmap.{read-write}
use kernelc_moderne.Interrupts.{data_port, mask_irq, unmask_irq}

-- Bit `j` of a byte.
abbrev pub bit : ℕ → ℕ → Bool
bit byte j = not (bit_and byte (2 ^ j) == 0)

-- One byte is written, to the port of the line's controller: bit `irq % 8` of it is `value`, and
-- its other seven bits are as they were read.
pub record Wrote (inb : ℕ → ℕ) (irq : ℕ) (value : Bool) (writes : List (ℕ × ℕ)) : Type 0 where
  pub byte : ℕ
  pub only : writes ≡ (data_port irq, byte) ∷ []
  pub bits :
      (j : ℕ) → j < 8 → bit byte j ≡ (if irq % 8 == j then value else bit (inb (data_port irq)) j)

-- Where the port reads as a byte and the line is below 16, `maskIRQ` writes one byte, to the
-- controller of the line, in which the line's bit is set and the others are as they were read,
-- and `unmaskIRQ` one in which the line's bit is clear and the others are as they were read.
pub mask_irq-Wrote :
    (inb : ℕ → ℕ) (irq : ℕ)
    → inb (data_port irq) < 256
    → irq < 16
    → Wrote inb irq true (mask_irq inb irq) × Wrote inb irq false (unmask_irq inb irq)
unfolding mask_irq unmask_irq
mask_irq-Wrote inb irq is_byte is_line = rw (lt→ltb irq 16 is_line) (
  record {
    byte = _;
    only = refl;
    bits = λ j j_small.
        read-write true (inb (data_port irq)) (irq % 8) j is_byte (omega arith) j_small;
  },
  record {
    byte = _;
    only = refl;
    bits = λ j j_small.
        read-write false (inb (data_port irq)) (irq % 8) j is_byte (omega arith) j_small;
  },
)
