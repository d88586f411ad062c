-- ===== src/Interrupts/Tests.antt =====
-- A table of 256 handlers and controllers whose lines are all masked.
use kernelc_moderne.Prelude.{◌≡◌, refl, false, [], ◌∷◌, List, none, some, ltb, if◌then◌else◌}
use kernelc_moderne.Interrupts.{InterruptManager, initialize, handle_interrupt}
use kernelc_moderne.Interrupts.Table.{
  Change, registered, apply, last_handler, handle_interrupt-apply,
}

abbrev unused : InterruptManager
unused = record { interrupt_handlers = []; interrupts_enabled = false }

abbrev changes : List Change
changes = registered 33 (some 7) ∷ registered 300 (some 8) ∷ registered 33 (some 9) ∷ []

handle_interrupt-apply_example :
    handle_interrupt (apply (initialize unused).0 changes) 33
    ≡ (if ltb 33 256 then last_handler 33 none changes else none)
handle_interrupt-apply_example = handle_interrupt-apply unused changes 33 refl
