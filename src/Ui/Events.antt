-- ===== src/Ui/Events.antt =====
-- ui/EventQueue.hpp, and the loop of `processEvents` in ui/WindowManager.cpp that empties it. The
-- lock makes each operation one step. `none` is a call that waits: it has no result until
-- another thread pushes or stops. What the display adds to the queue, and the calls to the
-- windows at the end of `processEvents`, are outside.
pub mod Drain
mod Tests
use kernelc_moderne.Prelude.{
  ℕ, zero, suc, Bool, true, false, not, ◌&&◌, ◌||◌, List, [], ◌∷◌, ◌++◌, Option, none, some,
  if◌then◌else◌, length, ℤ,
}
use kernelc_moderne.Ui.Windows.{
  WindowManager, Call, handle_mouse_move, handle_mouse_button, handle_key_event, handle_resize,
}

pub data EventType : Type 0 where
  mouse_moved button_changed key_press key_release window_resize window_close focused blurred :
      EventType

pub record Event : Type 0 where
  pub type : EventType
  pub x : ℤ
  pub y : ℤ
  pub button : ℕ
  pub keycode : ℕ

pub record EventQueue : Type 0 where
  pub events : List Event
  pub is_shutdown : Bool

pub new_queue : EventQueue
new_queue = record { events = []; is_shutdown = false }

pub push : EventQueue → Event → EventQueue
push q e = record q { events = q.events ++ (e ∷ []) }

pub is_empty : EventQueue → Bool
is_empty q = elim q.events [ [] ↦ true | _ ∷ _ ↦ false ]

-- `front` and `pop` of the queue, for a queue that is not shut down.
pub take : EventQueue → EventQueue × Option Event
take q = elim q.events [ [] ↦ (q, none) | e ∷ es ↦ (record q { events = es }, some e) ]

-- The event, if `pop` returns true. The outer `none` is a call that waits.
pub pop : EventQueue → Bool → Option (EventQueue × Option Event)
pop q wait =
    if wait && (is_empty q && not q.is_shutdown)
    then none
    else if q.is_shutdown
    then some (q, none)
    else some (take q)

pub clear : EventQueue → EventQueue
clear q = record q { events = [] }

pub stop : EventQueue → EventQueue
stop q = record q { is_shutdown = true }

module _ (mouse_left : ℕ) (hotkey : ℕ → Bool → Bool) where
  -- The `switch` on one event. A button event is always handled as a press.
  pub dispatch : WindowManager → Event → WindowManager × List Call
  dispatch m e = elim e.type [
    | mouse_moved ↦ (m, handle_mouse_move m e.x e.y)
    | button_changed ↦ handle_mouse_button mouse_left m e.button true e.x e.y
    | key_press ↦ (m, handle_key_event hotkey m e.keycode true)
    | key_release ↦ (m, handle_key_event hotkey m e.keycode false)
    | window_resize ↦ handle_resize m e.x e.y
    | window_close ↦ (m, [])
    | focused ↦ (m, [])
    | blurred ↦ (m, [])
  ]

  -- `while (pop(event, false))`, with fuel.
  pub drain : ℕ → EventQueue → WindowManager → List Call → EventQueue × WindowManager × List Call
  drain zero q m calls = (q, m, calls)
  drain (suc fuel) q m calls = elim (pop q false) [
    | none ↦ (q, m, calls)
    | some (q', none) ↦ (q', m, calls)
    | some (q', some e) ↦ let (m', more) = dispatch m e in drain fuel q' m' (calls ++ more)
  ]

  -- The queue is the one that the display's `processEvents` leaves.
  pub process_events : EventQueue → WindowManager → EventQueue × WindowManager × List Call
  process_events q m =
      if not m.is_initialized then (q, m, []) else drain (suc (length q.events)) q m []
