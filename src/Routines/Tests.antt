-- ===== src/Routines/Tests.antt =====
-- The theorems at concrete inputs.
use kernelc_moderne.Prelude.{◌≡◌, ◌↔◌, ◌%◌, ◌/◌, ◌^◌}
use kernelc_moderne.Routines.{idt_flags, create_idt_entry}
use kernelc_moderne.Routines.Entries.{handler_of, handler_of-create_idt_entry}

handler_of-create_idt_entry_example :
    (handler_of (create_idt_entry 0xFFFFFFFF80001000) ≡ 0xFFFFFFFF80001000 % 2 ^ 32)
    × ((create_idt_entry 0xFFFFFFFF80001000 / 2 ^ 16) % 2 ^ 16 ≡ 8)
    × ((create_idt_entry 0xFFFFFFFF80001000 / 2 ^ 32) % 2 ^ 16 ≡ idt_flags)
    × (create_idt_entry 0xFFFFFFFF80001000 / 2 ^ 64 ≡ 0)
    × ((create_idt_entry 0xFFFFFFFF80001000 ≡ create_idt_entry 0x80001000)
        ↔ (0xFFFFFFFF80001000 % 2 ^ 32 ≡ 0x80001000 % 2 ^ 32))
handler_of-create_idt_entry_example = handler_of-create_idt_entry 0xFFFFFFFF80001000 0x80001000
