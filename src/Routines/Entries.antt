-- ===== src/Routines/Entries.antt =====
-- What an entry of the descriptor table keeps of a handler.
use kernelc_moderne.Prelude.{ℕ, ◌≡◌, ◌↔◌, ◌+◌, ◌*◌, ◌/◌, ◌%◌, ◌^◌, arith}
use kernelc_moderne.Routines.{idt_flags, create_idt_entry}

-- The address that an entry names.
unfoldable pub handler_of : ℕ → ℕ
handler_of entry = entry % 2 ^ 16 + ((entry / 2 ^ 48) % 2 ^ 16) * 2 ^ 16

-- An entry has 64 bits, the code segment 8 and the flags of a present interrupt gate. Of the address of
-- the handler it keeps the low 32 bits: two handlers have the same entry exactly if their addresses
-- agree in these.
pub handler_of-create_idt_entry :
    (address other : ℕ)
    → (handler_of (create_idt_entry address) ≡ address % 2 ^ 32)
      × ((create_idt_entry address / 2 ^ 16) % 2 ^ 16 ≡ 8)
      × ((create_idt_entry address / 2 ^ 32) % 2 ^ 16 ≡ idt_flags)
      × (create_idt_entry address / 2 ^ 64 ≡ 0)
      × ((create_idt_entry address ≡ create_idt_entry other) ↔ (address % 2 ^ 32 ≡ other % 2 ^ 32))
unfolding handler_of create_idt_entry
handler_of-create_idt_entry address other = (
  omega arith,
  omega arith,
  omega arith,
  omega arith,
  ((λ h. omega (arith, h)), λ h. omega (arith, h)),
)
