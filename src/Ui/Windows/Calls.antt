-- ===== src/Ui/Windows/Calls.antt =====
-- Which calls the handlers make: none but a release ends a drag.
use kernelc_moderne.Prelude.{
  ℕ, ◌≡◌, refl, inl, inr, Bool, true, false, List, [], ◌∷◌, ◌++◌, Option, none, some, ◌==◌, ℤ, All,
  All-append, Bool-cases, Option-cases,
}
use kernelc_moderne.Ui.Windows.{
  WindowManager, Window, Call, topmost, handle_mouse_move, unfocus_calls, focus_window,
  button_calls, press, handle_mouse_button, handle_key_event, resize_windows, handle_resize,
}

-- Every call but `endDrag`.
pub keeps_drag : Call → Bool
keeps_drag (Call.end_drag h) = false
keeps_drag (Call.focus h) = true
keeps_drag (Call.unfocus h) = true
keeps_drag (Call.resized h) = true
keeps_drag (Call.widget_focus h) = true
keeps_drag (Call.widget_blur h) = true
keeps_drag (Call.start_drag h x y) = true
keeps_drag (Call.hover h x y) = true
keeps_drag (Call.mouse_move h x y) = true
keeps_drag (Call.mouse_button h b p x y) = true
keeps_drag (Call.key_event h k p) = true
keeps_drag (Call.widget_key_event h k p) = true
keeps_drag (Call.set_resolution x y) = true

abbrev pub KeepDrag : List Call → Type 0
KeepDrag = All (λ c. keeps_drag c ≡ true)

pub handle_mouse_move-KeepDrag : (m : WindowManager) (x y : ℤ) → KeepDrag (handle_mouse_move m x y)
unfolding handle_mouse_move keeps_drag
handle_mouse_move-KeepDrag m x y = elim (Option-cases (topmost x y m.windows)) [
  | inl e ↦ rw (e, handle_mouse_move) tt
  | inr (w, e) ↦ rw (e, handle_mouse_move) (refl, (refl, tt))
]

unfocus_calls-KeepDrag : (o : Option ℕ) → KeepDrag (unfocus_calls o)
unfolding unfocus_calls keeps_drag
unfocus_calls-KeepDrag none = tt
unfocus_calls-KeepDrag (some h) = (refl, tt)

button_calls-KeepDrag :
    (mouse_left : ℕ) (w : Window) (button : ℕ) (x y : ℤ)
    → KeepDrag (button_calls mouse_left w button true x y)
unfolding button_calls keeps_drag
button_calls-KeepDrag mouse_left w button x y = elim (Bool-cases (button == mouse_left)) [
  | inl e ↦ rw e (refl, (refl, tt))
  | inr e ↦ rw e (refl, tt)
]

pub handle_mouse_button-KeepDrag :
    (mouse_left : ℕ) (m : WindowManager) (button : ℕ) (x y : ℤ)
    → KeepDrag (handle_mouse_button mouse_left m button true x y).1
unfolding handle_mouse_button press focus_window keeps_drag
handle_mouse_button-KeepDrag mouse_left m button x y = elim (Option-cases (topmost x y m.windows)) [
  | inl e ↦ rw (e, handle_mouse_button) tt
  | inr (w, e) ↦
      rw (e, handle_mouse_button)
        (All-append _ (unfocus_calls m.active_window ++ (Call.focus w.handle ∷ []))
          (button_calls mouse_left w button true x y)
          (All-append _ (unfocus_calls m.active_window) (Call.focus w.handle ∷ [])
            (unfocus_calls-KeepDrag m.active_window) (refl, tt))
          (button_calls-KeepDrag mouse_left w button x y))
]

pub handle_key_event-KeepDrag :
    (hotkey : ℕ → Bool → Bool) (m : WindowManager) (keycode : ℕ) (pressed : Bool)
    → KeepDrag (handle_key_event hotkey m keycode pressed)
unfolding handle_key_event keeps_drag
handle_key_event-KeepDrag hotkey m keycode pressed = elim (Option-cases m.active_window) [
  | inl e ↦ rw (e, handle_key_event) tt
  | inr (h, e) ↦ elim (Bool-cases (hotkey keycode pressed)) [
    | inl e' ↦ rw (e, handle_key_event, e') tt
    | inr e' ↦ elim (Option-cases m.focused_widget) [
      | inl e'' ↦ rw (e, handle_key_event, e', e'') (refl, tt)
      | inr (w, e'') ↦ rw (e, handle_key_event, e', e'') (refl, (refl, tt))
    ]
  ]
]

resize_windows-KeepDrag :
    (width height : ℤ) (ws : List Window) → KeepDrag (resize_windows width height ws).1
unfolding resize_windows keeps_drag
resize_windows-KeepDrag width height [] = tt
resize_windows-KeepDrag width height (w ∷ ws) = (refl, resize_windows-KeepDrag width height ws)

pub handle_resize-KeepDrag :
    (m : WindowManager) (width height : ℤ) → KeepDrag (handle_resize m width height).1
unfolding handle_resize keeps_drag
handle_resize-KeepDrag m width height = elim (Bool-cases m.is_initialized) [
  | inl e ↦ rw e (refl, resize_windows-KeepDrag width height m.windows)
  | inr e ↦ rw e tt
]
