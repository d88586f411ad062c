-- ===== src/Ui/Windows/Tests.antt =====
-- Two windows that overlap, the one in front active, and its handle 1 the last one given.
use kernelc_moderne.Prelude.{ℕ, ◌≡◌, refl, true, [], ◌∷◌, none, some, ℤ, pos, negsuc, ◌+ℤ◌}
use kernelc_moderne.Ui.Windows.{
  Window, WindowManager, create_window, destroy_window, remove, find_window, bring_to_front,
  focus_window, handle_mouse_button, contains, topmost,
}
use kernelc_moderne.Ui.Windows.Stack.{count}

abbrev at : ℕ → ℤ → Window
at h x = record { handle = h; x = x; y = pos 0; width = pos 10; height = pos 10 }

abbrev two_windows : WindowManager
two_windows = record {
  windows = at 0 (negsuc 4) ∷ at 1 (pos 3) ∷ [];
  widgets = [];
  active_window = some 1;
  focused_widget = none;
  is_initialized = true;
  next_handle = 2;
}

-- The window at the back is focused, a press lands on it, and then a window is made.
abbrev after : WindowManager
after =
    (create_window
      (handle_mouse_button 1 (focus_window two_windows (some 0)).0 1 true (pos 1) (pos 5)).0 (pos 1)
      (pos 1) (pos 2) (pos 2)).0

-- A destroyed window that is focused becomes the active one, outside the stack.
abbrev dangling : WindowManager
dangling = (focus_window (destroy_window two_windows 0) (some 0)).0

outside : (count 0 dangling.windows ≡ 0) × (dangling.active_window ≡ some 0)
unfolding count destroy_window focus_window remove find_window bring_to_front
outside = (refl, refl)

-- The window at the back is the one that a press at (1, 5) reaches.
reached : topmost (pos 1) (pos 5) two_windows.windows ≡ some (at 0 (negsuc 4))
unfolding topmost contains ◌+ℤ◌
reached = refl
