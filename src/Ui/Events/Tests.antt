-- ===== src/Ui/Events/Tests.antt =====
-- A queue with a press inside the one window and a release outside.
use kernelc_moderne.Prelude.{ℕ, ◌≡◌, refl, Bool, true, false, [], ◌∷◌, none, pos, if◌then◌else◌}
use kernelc_moderne.Ui.Windows.{WindowManager}
use kernelc_moderne.Ui.Events.{Event, EventType, EventQueue, process_events}
use kernelc_moderne.Ui.Events.Drain.{run_all, process_events-run_all}

abbrev click : ℕ → Event
click at = record {
  type = EventType.button_changed;
  x = pos at;
  y = pos at;
  button = 0;
  keycode = 0;
}

abbrev two_clicks : EventQueue
two_clicks = record { events = click 5 ∷ click 50 ∷ []; is_shutdown = false }

abbrev one_window : WindowManager
one_window = record {
  windows = record { handle = 0; x = pos 0; y = pos 0; width = pos 10; height = pos 10 } ∷ [];
  widgets = [];
  active_window = none;
  focused_widget = none;
  is_initialized = true;
  next_handle = 1;
}

abbrev no_hotkey : ℕ → Bool → Bool
no_hotkey keycode pressed = false

process_events-run_all_example : process_events 0 no_hotkey two_clicks one_window ≡ (
    if two_clicks.is_shutdown then (two_clicks, one_window, []) else (
      record { events = []; is_shutdown = false },
      (run_all 0 no_hotkey one_window two_clicks.events).0,
      (run_all 0 no_hotkey one_window two_clicks.events).1,
    ))
process_events-run_all_example = process_events-run_all 0 no_hotkey two_clicks one_window refl
