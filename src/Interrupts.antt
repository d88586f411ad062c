-- ===== src/Interrupts.antt =====
-- src/InterruptManager.cpp: the table of interrupt handlers and the masks of the two interrupt
-- controllers. Handlers are named by numbers. Reading a port is an argument, writes to ports are
-- a list of port and byte, in order. The instructions `sti`, `cli` and the fences are left out.
pub mod Table
pub mod Masks
mod Tests
use Prim.Native.Nat.{bit_and, bit_or}
use kernelc_moderne.Prelude.{
  ℕ, zero, suc, ◌+◌, ◌-◌, ◌%◌, ◌^◌, Bool, true, false, not, ◌&&◌, List, [], ◌∷◌, Option, none, some,
  ltb, if◌then◌else◌, length, get_or, set,
}

pub record InterruptDescriptor : Type 0 where
  pub handler : Option ℕ
  pub enabled : Bool

abbrev pub empty_descriptor : InterruptDescriptor
empty_descriptor = record { handler = none; enabled = false }

pub record InterruptManager : Type 0 where
  pub interrupt_handlers : List InterruptDescriptor
  pub interrupts_enabled : Bool

-- `interruptHandlers.resize(n)`
pub resize : ℕ → List InterruptDescriptor → List InterruptDescriptor
resize zero ds = []
resize (suc n) [] = empty_descriptor ∷ resize n []
resize (suc n) (d ∷ ds) = d ∷ resize n ds

abbrev pub master_data : ℕ
master_data = 33

abbrev pub slave_data : ℕ
slave_data = 161

-- The writes of `setupPIC`: 0x20, 0xA0 are the command ports.
abbrev pub setup_pic : List (ℕ × ℕ)
setup_pic =
    (32, 17)
    ∷ (160, 17)
    ∷ (master_data, 32)
    ∷ (slave_data, 40)
    ∷ (master_data, 4)
    ∷ (slave_data, 2)
    ∷ (master_data, 1)
    ∷ (slave_data, 1)
    ∷ (master_data, 255)
    ∷ (slave_data, 255)
    ∷ []

-- `setupIDT` has an empty body.
pub initialize : InterruptManager → InterruptManager × List (ℕ × ℕ)
initialize m = (
  record { interrupt_handlers = resize 256 m.interrupt_handlers; interrupts_enabled = false },
  setup_pic,
)

pub shutdown : InterruptManager → InterruptManager
shutdown m = record { interrupt_handlers = []; interrupts_enabled = false }

-- A handler is a shared pointer: `none` is the null pointer.
pub register_handler : InterruptManager → ℕ → Option ℕ → InterruptManager × Bool
register_handler m number handler =
    if not (ltb number (length m.interrupt_handlers)) then (m, false) else (
      record m {
        interrupt_handlers =
            set m.interrupt_handlers number (record { handler = handler; enabled = true });
      },
      true,
    )

pub unregister_handler : InterruptManager → ℕ → InterruptManager × Bool
unregister_handler m number =
    if not (ltb number (length m.interrupt_handlers))
    then (m, false)
    else (record m { interrupt_handlers = set m.interrupt_handlers number empty_descriptor }, true)

pub enable_interrupts : InterruptManager → InterruptManager
enable_interrupts m = record m { interrupts_enabled = true }

pub disable_interrupts : InterruptManager → InterruptManager
disable_interrupts m = record m { interrupts_enabled = false }

-- The handler that is called, if any.
pub handle_interrupt : InterruptManager → ℕ → Option ℕ
handle_interrupt m number =
    if ltb number (length m.interrupt_handlers)
    then (let d = get_or m.interrupt_handlers number empty_descriptor in
        if d.enabled then d.handler else none)
    else none

pub data_port : ℕ → ℕ
data_port irq = if ltb irq 8 then master_data else slave_data

-- The values are bytes: `~(1 << n)` is cut to eight bits by the assignment.
pub mask_irq : (ℕ → ℕ) → ℕ → List (ℕ × ℕ)
mask_irq inb irq =
    if ltb irq 16 then (data_port irq, bit_or (inb (data_port irq)) (2 ^ (irq % 8))) ∷ [] else []

pub unmask_irq : (ℕ → ℕ) → ℕ → List (ℕ × ℕ)
unmask_irq inb irq =
    if ltb irq 16
    then (data_port irq, bit_and (inb (data_port irq)) (255 - 2 ^ (irq % 8))) ∷ []
    else []
