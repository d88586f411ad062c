-- ===== src/Ui/Windows/Resize.antt =====
-- `handleResize` keeps the windows inside the work area.
use kernelc_moderne.Prelude.{
  ◌≡◌, refl, ap, true, List, [], ◌∷◌, ℤ, pos, ◌+ℤ◌, ◌≤ℤ◌, arith, +ℤ_balance, -ℤ_balance, map, subst,
  sym,
}
use kernelc_moderne.Ui.Windows.{Window, WindowManager, Call, clamp, resize_windows, handle_resize}

-- An interval inside [0, extent].
pub clamp-IsInside :
    (position extent size : ℤ)
    → (pos 0 ≤ℤ clamp position extent size)
      × (size ≤ℤ extent → clamp position extent size +ℤ size ≤ℤ extent)
unfolding clamp
clamp-IsInside position extent size = (
  ground arith,
  λ fits.
      ground (arith, fits, -ℤ_balance extent size, +ℤ_balance (clamp position extent size) size),
)

pub clamp_fixed :
    (position extent size : ℤ)
    → pos 0 ≤ℤ position
    → position +ℤ size ≤ℤ extent
    → clamp position extent size ≡ position
unfolding clamp
clamp_fixed position extent size low high =
    ground (arith, low, high, -ℤ_balance extent size, +ℤ_balance position size)

-- What a resize of the display promises for the window `w` that stands where `v` stood.
pub record Resized (width height : ℤ) (v w : Window) : Type 0 where
  pub same_handle : w.handle ≡ v.handle
  pub same_width : w.width ≡ v.width
  pub same_height : w.height ≡ v.height
  pub left_inside : pos 0 ≤ℤ w.x
  pub top_inside : pos 0 ≤ℤ w.y
  pub right_inside : v.width ≤ℤ width → w.x +ℤ v.width ≤ℤ width
  pub bottom_inside : v.height ≤ℤ height → w.y +ℤ v.height ≤ℤ height
  pub unmoved_x : pos 0 ≤ℤ v.x → v.x +ℤ v.width ≤ℤ width → w.x ≡ v.x
  pub unmoved_y : pos 0 ≤ℤ v.y → v.y +ℤ v.height ≤ℤ height → w.y ≡ v.y

-- Two lists of the same length whose elements are related in pairs.
abbrev pub Pairs : (Window → Window → Type 0) → List Window → List Window → Type 0
Pairs R [] [] = Unit
Pairs R [] (w ∷ ws) = ⊥
Pairs R (v ∷ vs) [] = ⊥
Pairs R (v ∷ vs) (w ∷ ws) = R v w × Pairs R vs ws

resize_windows-Resized :
    (width height : ℤ) (ws : List Window)
    → Pairs (Resized width height) ws (resize_windows width height ws).0
unfolding resize_windows
resize_windows-Resized width height [] = tt
resize_windows-Resized width height (w ∷ ws) = (
  record {
    same_handle = refl;
    same_width = refl;
    same_height = refl;
    left_inside = (clamp-IsInside w.x width w.width).0;
    top_inside = (clamp-IsInside w.y height w.height).0;
    right_inside = (clamp-IsInside w.x width w.width).1;
    bottom_inside = (clamp-IsInside w.y height w.height).1;
    unmoved_x = clamp_fixed w.x width w.width;
    unmoved_y = clamp_fixed w.y height w.height;
  },
  resize_windows-Resized width height ws,
)

calls-resize_windows :
    (width height : ℤ) (ws : List Window)
    → (resize_windows width height ws).1 ≡ map (λ w. Call.resized w.handle) ws
unfolding resize_windows
calls-resize_windows width height [] = refl
calls-resize_windows width height (w ∷ ws) =
    ap (λ cs. Call.resized w.handle ∷ cs) (calls-resize_windows width height ws)

-- On an initialised manager a resize keeps the windows, their order and their sizes. Afterwards
-- no window starts left of or above the display, a window that is not wider (higher) than the
-- display ends inside it, and a window that was already inside has not moved. The display is
-- told first, then every window from back to front.
pub handle_resize-Resized :
    (m : WindowManager) (width height : ℤ)
    → m.is_initialized ≡ true
    → Pairs (Resized width height) m.windows (handle_resize m width height).0.windows
      × ((handle_resize m width height).1
          ≡ Call.set_resolution width height ∷ map (λ w. Call.resized w.handle) m.windows)
unfolding handle_resize
handle_resize-Resized m width height on =
    subst
      (λ r.
        Pairs (Resized width height) m.windows r.0.windows
        × (r.1 ≡ Call.set_resolution width height ∷ map (λ w. Call.resized w.handle) m.windows))
      (sym opened)
      (
        resize_windows-Resized width height m.windows,
        ap (λ cs. Call.set_resolution width height ∷ cs)
            (calls-resize_windows width height m.windows),
      )
  where
    opened : handle_resize m width height ≡ (
      record m { windows = (resize_windows width height m.windows).0 },
      Call.set_resolution width height ∷ (resize_windows width height m.windows).1,
    )
    opened = simp (on, handle_resize)
