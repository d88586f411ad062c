-- ===== src/Ui/Windows/Histories.antt =====
-- Histories of the window manager: which calls keep the active window in the stack.
use kernelc_moderne.Prelude.{ℕ, Bool, true, false, ◌||◌, none, some, ◌==◌, ℤ}
use kernelc_moderne.Ui.Windows.{
  WindowManager, create_window, destroy_window, send_to_back, focus_window, handle_mouse_button,
  handle_resize, shutdown,
}
use kernelc_moderne.Ui.Windows.Stack.{count}

-- The histories from `m`, of any calls with any arguments. The flag tells whether a call of
-- `focusWindow` named a window outside the stack, or `shutdown` was called.
pub data History (m : WindowManager) : Bool → WindowManager → Type 0 where
  start : History m false m
  create :
      {lost : Bool} {n : WindowManager} (x y width height : ℤ)
      → History m lost n
      → History m lost (create_window n x y width height).0
  destroy :
      {lost : Bool} {n : WindowManager} (h : ℕ)
      → History m lost n
      → History m lost (destroy_window n h)
  unfocus :
      {lost : Bool} {n : WindowManager} → History m lost n → History m lost (focus_window n none).0
  focus :
      {lost : Bool} {n : WindowManager} (h : ℕ)
      → History m lost n
      → History m (lost || (count h n.windows == 0)) (focus_window n (some h)).0
  lower :
      {lost : Bool} {n : WindowManager} (h : ℕ)
      → History m lost n
      → History m lost (record n { windows = send_to_back h n.windows })
  click :
      {lost : Bool} {n : WindowManager} (mouse_left button : ℕ) (pressed : Bool) (x y : ℤ)
      → History m lost n
      → History m lost (handle_mouse_button mouse_left n button pressed x y).0
  resize :
      {lost : Bool} {n : WindowManager} (width height : ℤ)
      → History m lost n
      → History m lost (handle_resize n width height).0
  stop : {lost : Bool} {n : WindowManager} → History m lost n → History m true (shutdown n)
