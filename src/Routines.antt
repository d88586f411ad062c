-- ===== src/Routines.antt =====
-- interrupt/InterruptHandler.hpp: the service routines and the descriptor table. Handlers are addresses,
-- names numbers; the table of the routines has 256 places. A result is `none` where the code writes
-- past the end of a vector. The instructions and the body of `defaultHandler` are left out.
pub mod Entries
pub mod Bounds
mod Tests
use kernelc_moderne.Prelude.{
  ℕ, zero, suc, ◌+◌, ◌*◌, ◌/◌, ◌%◌, ◌^◌, Bool, true, false, List, [], ◌∷◌, ◌++◌, Option, none, some,
  length, ltb, replicate, set, get_or, if◌then◌else◌,
}

pub record Routine : Type 0 where
  pub handler : Option ℕ
  pub number : ℕ
  pub name : ℕ

pub record InterruptHandler : Type 0 where
  pub isr_table : List Routine
  pub priority_levels : List ℕ
  pub interrupts_enabled : Bool

abbrev pub no_routine : Routine
no_routine = record { handler = none; number = 0; name = 0 }

unfoldable pub new_handler : InterruptHandler
new_handler = record {
  isr_table = replicate 256 no_routine;
  priority_levels = [];
  interrupts_enabled = false;
}

-- The handler that is called, if there is one.
unfoldable pub handle_interrupt : ℕ → InterruptHandler → Option ℕ
handle_interrupt vector h =
    if h.interrupts_enabled then (get_or h.isr_table vector no_routine).handler else none

unfoldable pub register_isr : ℕ → ℕ → ℕ → ℕ → InterruptHandler → Option InterruptHandler
register_isr vector handler name priority h =
    let routine : Routine = record { handler = some handler; number = vector; name = name } in
    if ltb vector (length h.priority_levels)
    then some (record {
      isr_table = set h.isr_table vector routine;
      priority_levels = set h.priority_levels vector priority;
      interrupts_enabled = h.interrupts_enabled;
    })
    else none

unfoldable pub enable_interrupts : InterruptHandler → InterruptHandler
enable_interrupts h = record h { interrupts_enabled = true }

unfoldable pub disable_interrupts : InterruptHandler → InterruptHandler
disable_interrupts h = record h { interrupts_enabled = false }

pub record InterruptManager : Type 0 where
  pub handler : InterruptHandler
  pub idt : List ℕ
  pub initialized : Bool

unfoldable pub new_manager : InterruptManager
new_manager = record { handler = new_handler; idt = replicate 256 0; initialized = false }

-- `IDT_PRESENT | IDT_DPL0 | IDT_INTERRUPT`
abbrev pub idt_flags : ℕ
idt_flags = 0x8000 + 0x0000 + 0x0E00

-- The fields stand in different bits, so that `|=` adds them.
unfoldable pub create_idt_entry : ℕ → ℕ
create_idt_entry address =
    address % 2 ^ 16 + 0x08 * 2 ^ 16 + idt_flags * 2 ^ 32 + ((address / 2 ^ 16) % 2 ^ 16) * 2 ^ 48

unfoldable pub setup_idt_entry : ℕ → ℕ → InterruptManager → InterruptManager
setup_idt_entry vector address m = record m { idt = set m.idt vector (create_idt_entry address) }

-- The loop of `setupIDT`, with the rounds that are left.
unfoldable pub setup_idt : ℕ → ℕ → ℕ → InterruptManager → InterruptManager
setup_idt zero i default_handler m = m
setup_idt (suc rounds) i default_handler m =
    setup_idt rounds (i + 1) default_handler (setup_idt_entry i default_handler m)

unfoldable pub initialize : ℕ → InterruptManager → InterruptManager
initialize default_handler m =
    let m' = setup_idt 256 0 default_handler m in
    if m.initialized
    then m
    else record m' { handler = enable_interrupts m'.handler; initialized = true }

-- `stub` is the address of the function that calls `handleInterrupt`.
unfoldable pub register_interrupt_handler :
    ℕ → ℕ → ℕ → ℕ → ℕ → InterruptManager → Option InterruptManager
register_interrupt_handler stub vector handler name priority m =
    elim (register_isr vector handler name priority m.handler) [
      | none ↦ none
      | some h ↦ some (setup_idt_entry vector stub (record m { handler = h }))
    ]
