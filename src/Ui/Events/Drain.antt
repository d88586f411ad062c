-- ===== src/Ui/Events/Drain.antt =====
-- `processEvents` empties the queue, in order, unless the queue was stopped.
use mathlib.Core.List.{append_assoc, append-nil}
use kernelc_moderne.Prelude.{
  ℕ, zero, suc, ◌≡◌, refl, sym, ◌∙◌, ap, inl, inr, Bool, true, false, List, [], ◌∷◌, ◌++◌,
  if◌then◌else◌, length, Bool-cases, All-append, subst, ℤ,
}
use kernelc_moderne.Ui.Windows.{WindowManager, Call}
use kernelc_moderne.Ui.Windows.Calls.{
  KeepDrag, handle_mouse_move-KeepDrag, handle_mouse_button-KeepDrag, handle_key_event-KeepDrag,
  handle_resize-KeepDrag,
}
use kernelc_moderne.Ui.Events.{
  Event, EventType, EventQueue, take, pop, dispatch, drain, process_events,
}

module _ (mouse_left : ℕ) (hotkey : ℕ → Bool → Bool) where
  -- The events handled one after another.
  pub run_all : WindowManager → List Event → WindowManager × List Call
  run_all m [] = (m, [])
  run_all m (e ∷ es) =
      let (m', first) = dispatch mouse_left hotkey m e in
      let (m'', rest) = run_all m' es in (m'', first ++ rest)

  drain_stopped :
      (fuel : ℕ) (es : List Event) (m : WindowManager) (calls : List Call)
      → drain mouse_left hotkey fuel (record { events = es; is_shutdown = true }) m calls
        ≡ (record { events = es; is_shutdown = true }, m, calls)
  unfolding drain pop
  drain_stopped zero es m calls = refl
  drain_stopped (suc fuel) es m calls = refl

  drain_open :
      (es : List Event) (m : WindowManager) (calls : List Call)
      → drain mouse_left hotkey
          (suc (length es))
          (record { events = es; is_shutdown = false })
          m
          calls
        ≡ (record { events = []; is_shutdown = false }, (run_all m es).0, calls ++ (run_all m es).1)
  unfolding drain pop take run_all
  drain_open [] m calls =
      ap (λ cs. (record { events = []; is_shutdown = false }, m, cs)) (sym (append-nil calls))
  drain_open (e ∷ es) m calls =
      let m' = (dispatch mouse_left hotkey m e).0 in
      let first = (dispatch mouse_left hotkey m e).1 in
      drain_open es m' (calls ++ first)
      ∙ ap (λ cs. (record { events = []; is_shutdown = false }, (run_all m' es).0, cs))
          (append_assoc calls first (run_all m' es).1)

  drain_both :
      (es : List Event) (stopped : Bool) (m : WindowManager)
      → drain mouse_left hotkey
          (suc (length es))
          (record { events = es; is_shutdown = stopped })
          m
          []
        ≡ (if stopped
            then (record { events = es; is_shutdown = stopped }, m, [])
            else (record { events = []; is_shutdown = false }, (run_all m es).0, (run_all m es).1))
  drain_both es true m = drain_stopped (suc (length es)) es m []
  drain_both es false m = drain_open es m []

  initialized_drain :
      (q : EventQueue) (m : WindowManager)
      → m.is_initialized ≡ true
      → process_events mouse_left hotkey q m
        ≡ drain mouse_left hotkey (suc (length q.events)) q m []
  unfolding process_events
  initialized_drain q m on = simp (on, process_events)

  -- On an initialised manager, `processEvents` handles every event of a queue that is not stopped,
  -- oldest first, and leaves it empty; it handles none of a queue that is stopped, and leaves
  -- queue and manager as they were.
  pub process_events-run_all :
      (q : EventQueue) (m : WindowManager)
      → m.is_initialized ≡ true
      → process_events mouse_left hotkey q m ≡ (
          if q.is_shutdown then (q, m, []) else (
            record { events = []; is_shutdown = false },
            (run_all m q.events).0,
            (run_all m q.events).1,
          ))
  process_events-run_all q m on = initialized_drain q m on ∙ drain_both q.events q.is_shutdown m

  typed-KeepDrag :
      (m : WindowManager) (t : EventType) (x y : ℤ) (button keycode : ℕ)
      → KeepDrag
          (dispatch mouse_left hotkey m
            (record { type = t; x = x; y = y; button = button; keycode = keycode })).1
  unfolding dispatch
  typed-KeepDrag m EventType.mouse_moved x y b k = handle_mouse_move-KeepDrag m x y
  typed-KeepDrag m EventType.button_changed x y b k =
      handle_mouse_button-KeepDrag mouse_left m b x y
  typed-KeepDrag m EventType.key_press x y b k = handle_key_event-KeepDrag hotkey m k true
  typed-KeepDrag m EventType.key_release x y b k = handle_key_event-KeepDrag hotkey m k false
  typed-KeepDrag m EventType.window_resize x y b k = handle_resize-KeepDrag m x y
  typed-KeepDrag m EventType.window_close x y b k = tt
  typed-KeepDrag m EventType.focused x y b k = tt
  typed-KeepDrag m EventType.blurred x y b k = tt

  run_all-KeepDrag : (es : List Event) (m : WindowManager) → KeepDrag (run_all m es).1
  unfolding run_all
  run_all-KeepDrag [] m = tt
  run_all-KeepDrag (e ∷ es) m =
      All-append _ (dispatch mouse_left hotkey m e).1
        (run_all (dispatch mouse_left hotkey m e).0 es).1
        (typed-KeepDrag m e.type e.x e.y e.button e.keycode)
        (run_all-KeepDrag es (dispatch mouse_left hotkey m e).0)

  if-KeepDrag :
      (stopped : Bool) (q q' : EventQueue) (m m' : WindowManager) (calls : List Call)
      → KeepDrag calls
      → KeepDrag
          (if◌then◌else◌ {A = EventQueue × WindowManager × List Call} stopped
            (q, m, [])
            (q', m', calls)).2
  if-KeepDrag true q q' m m' calls keep = tt
  if-KeepDrag false q q' m m' calls keep = keep

  idle :
      (q : EventQueue) (m : WindowManager)
      → m.is_initialized ≡ false
      → process_events mouse_left hotkey q m ≡ (q, m, [])
  unfolding process_events
  idle q m off = simp (off, process_events)

  -- Whatever the events are, `processEvents` never calls `endDrag`.
  pub process_events-KeepDrag :
      (q : EventQueue) (m : WindowManager) → KeepDrag (process_events mouse_left hotkey q m).2
  process_events-KeepDrag q m = elim (Bool-cases m.is_initialized) [
    | inr off ↦ subst (λ r. KeepDrag r.2) (sym (idle q m off)) tt
    | inl on ↦
        subst (λ r. KeepDrag r.2) (sym (process_events-run_all q m on))
          (if-KeepDrag q.is_shutdown _ _ _ _ _ (run_all-KeepDrag q.events m))
  ]
