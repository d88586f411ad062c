-- ===== src/Routines/Bounds.antt =====
-- The vector of the priorities.
use kernelc_moderne.Prelude.{
  ℕ, zero, suc, ◌≡◌, refl, ◌∙◌, ap, ◌+◌, [], none, arith, inl, inr, Bool-cases,
}
use kernelc_moderne.Routines.{
  InterruptHandler, new_handler, register_isr, enable_interrupts, InterruptManager, new_manager,
  setup_idt_entry, setup_idt, initialize, register_interrupt_handler,
}

setup_idt-handler :
    (rounds i address : ℕ) (m : InterruptManager)
    → (setup_idt rounds i address m).handler ≡ m.handler
unfolding setup_idt setup_idt_entry
setup_idt-handler zero i address m = refl
setup_idt-handler (suc rounds) i address m = setup_idt-handler rounds (i + 1) address _

initialize-levels :
    (address : ℕ) (m : InterruptManager)
    → (initialize address m).handler.priority_levels ≡ m.handler.priority_levels
unfolding initialize enable_interrupts
initialize-levels address m = elim (Bool-cases m.initialized) [
  | inl e ↦ simp e refl
  | inr e ↦ simp e (ap (λ h. h.priority_levels) (setup_idt-handler 256 0 address m))
]

register_isr-empty :
    (vector handler name priority : ℕ) (h : InterruptHandler)
    → h.priority_levels ≡ []
    → register_isr vector handler name priority h ≡ none
unfolding register_isr
register_isr-empty vector handler name priority h e = simp e (ground arith)

new-levels : new_manager.handler.priority_levels ≡ []
unfolding new_manager new_handler
new-levels = refl

-- No handler can be registered: the vector of the priorities is empty when the manager is made, and
-- `initialize` leaves it so; `registerInterruptHandler` then writes past its end for every vector.
pub register_interrupt_handler-out_of_bounds :
    (address stub vector handler name priority : ℕ)
    → (register_interrupt_handler stub vector handler name priority new_manager ≡ none)
      × (register_interrupt_handler stub vector handler name priority
            (initialize address new_manager)
          ≡ none)
unfolding register_interrupt_handler
register_interrupt_handler-out_of_bounds address stub vector handler name priority = (
  rw
      (
        register_interrupt_handler,
        register_isr-empty vector handler name priority new_manager.handler new-levels,
      )
      refl,
  rw
      (
        register_interrupt_handler,
        register_isr-empty vector handler name priority (initialize address new_manager).handler
            (initialize-levels address new_manager ∙ new-levels),
      )
      refl,
)
