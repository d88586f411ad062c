-- ===== src/Ui/Windows/Stack.antt =====
-- The handles in the stack: each window stands there once, and the active one is there unless it
-- may be lost.
use mathlib.Core.Option.{some-injective}
use kernelc_moderne.Prelude.{
  ℕ, ◌+◌, ◌-◌, ◌≤◌, ◌≡◌, refl, sym, ◌∙◌, subst, inl, inr, true, false, List, [], ◌∷◌, ◌++◌, Option,
  none, some, arith, ◌==◌, ==_iff, if◌then◌else◌, Bool, ◌||◌, Bool-cases, Option-cases, ℤ,
}
use kernelc_moderne.Ui.Windows.{
  Window, WindowManager, create_window, find_window, remove, same_handle, destroy_window,
  bring_to_front, send_to_back, focus_window,
}

-- How often a handle stands in the stack.
unfoldable pub count : ℕ → List Window → ℕ
count k [] = 0
count k (w ∷ ws) = let rest = count k ws in if w.handle == k then 1 + rest else rest

pub count-append : (k : ℕ) (ws vs : List Window) → count k (ws ++ vs) ≡ count k ws + count k vs
unfolding count
count-append k [] vs = omega arith
count-append k (w ∷ ws) vs = ground (arith, count-append k ws vs)

pub count-remove :
    (k h : ℕ) (ws : List Window)
    → count k (remove h ws) ≡ (if h == k then count k ws - 1 else count k ws)
unfolding count remove
count-remove k h [] = ground arith
count-remove k h (w ∷ ws) = ground (arith, count-remove k h ws)

find_here :
    (h : ℕ) (v : Window) (ws : List Window)
    → (v.handle == h) ≡ true
    → find_window h (v ∷ ws) ≡ some v
unfolding find_window
find_here h v ws hit = rw hit refl

find_later :
    (h : ℕ) (v : Window) (ws : List Window)
    → (v.handle == h) ≡ false
    → find_window h (v ∷ ws) ≡ find_window h ws
unfolding find_window
find_later h v ws miss = rw miss refl

pub count-find_window :
    (h : ℕ) (ws : List Window) (w : Window)
    → find_window h ws ≡ some w
    → (w.handle ≡ h) × (1 ≤ count h ws)
unfolding count find_window
count-find_window h [] w e = absurd (cc e)
count-find_window h (v ∷ ws) w e = elim (Bool-cases (v.handle == h)) [
  | inl hit ↦ (
    subst (λ u. u.handle ≡ h) (some-injective _ _ (sym (find_here h v ws hit) ∙ e))
        ((==_iff v.handle h).0 hit),
    ground (arith, hit),
  )
  | inr miss ↦
      let rest = count-find_window h ws w (sym (find_later h v ws miss) ∙ e) in
      (rest.0, ground (arith, miss, rest.1))
]

-- Raising or lowering a window loses no window and doubles none.
pub count-bring_to_front : (k h : ℕ) (ws : List Window) → count k (bring_to_front h ws) ≡ count k ws
unfolding bring_to_front count
count-bring_to_front k h ws = elim (Option-cases (find_window h ws)) [
  | inl e ↦ rw (e, bring_to_front) refl
  | inr (w, e) ↦
      let found = count-find_window h ws w e in
      rw (e, bring_to_front)
        (ground
          (arith, found.0, found.1, count-append k (remove h ws) (w ∷ []), count-remove k h ws))
]

pub count-send_to_back : (k h : ℕ) (ws : List Window) → count k (send_to_back h ws) ≡ count k ws
unfolding send_to_back count
count-send_to_back k h ws = elim (Option-cases (find_window h ws)) [
  | inl e ↦ rw (e, send_to_back) refl
  | inr (w, e) ↦
      let found = count-find_window h ws w e in
      rw (e, send_to_back) (ground (arith, found.0, found.1, count-remove k h ws))
]

-- Handles are fresh and no window stands in the stack twice; and unless the active window may be
-- `lost`, it stands there.
pub record IsValid (lost : Bool) (m : WindowManager) : Type 0 where
  pub once : (k : ℕ) → count k m.windows ≤ 1
  pub fresh : (k : ℕ) → m.next_handle ≤ k → count k m.windows ≡ 0
  pub active : lost ≡ false → (k : ℕ) → same_handle m.active_window k ≡ true → count k m.windows ≡ 1

pub create_window-IsValid :
    (lost : Bool) (m : WindowManager) (x y width height : ℤ)
    → IsValid lost m
    → IsValid lost (create_window m x y width height).0
unfolding create_window count
create_window-IsValid lost m x y width height v =
    let w : Window = record {
      handle = m.next_handle;
      x = x;
      y = y;
      width = width;
      height = height;
    } in
    record {
      once = λ k. ground (arith, count-append k m.windows (w ∷ []), v.once k, v.fresh k);
      fresh = λ k le. ground (arith, le, count-append k m.windows (w ∷ []), v.fresh k);
      active = λ kept k is_active.
          ground (arith, is_active, count-append k m.windows (w ∷ []), v.fresh k, v.active kept k);
    }

survives :
    (a : Option ℕ) (h k : ℕ)
    → same_handle (if same_handle a h then none else a) k ≡ true
    → (same_handle a k ≡ true) × ((h == k) ≡ false)
unfolding same_handle
survives none h k e = absurd (cc e)
survives (some j) h k e = ground (arith, e)

pub destroy_window-IsValid :
    (lost : Bool) (m : WindowManager) (h : ℕ) → IsValid lost m → IsValid lost (destroy_window m h)
unfolding destroy_window same_handle
destroy_window-IsValid lost m h v = record {
  once = λ k. ground (arith, count-remove k h m.windows, v.once k);
  fresh = λ k le. ground (arith, le, count-remove k h m.windows, v.fresh k);
  active = λ kept k is_active.
      let rest = survives m.active_window h k is_active in
      ground (arith, count-remove k h m.windows, rest.1, v.active kept k rest.0);
}

pub focus_window-IsValid :
    (lost : Bool) (m : WindowManager) (h : ℕ)
    → IsValid lost m
    → IsValid (lost || (count h m.windows == 0)) (focus_window m (some h)).0
unfolding focus_window same_handle
focus_window-IsValid lost m h v = record {
  once = λ k. rw (count-bring_to_front k h m.windows) (v.once k);
  fresh = λ k le. rw (count-bring_to_front k h m.windows) (v.fresh k le);
  active = λ kept k is_active. rw (count-bring_to_front k h m.windows) (
      subst (λ j. count j m.windows ≡ 1) ((==_iff h k).0 is_active)
        (ground (arith, kept, v.once h)));
}

pub send_to_back-IsValid :
    (lost : Bool) (m : WindowManager) (h : ℕ)
    → IsValid lost m
    → IsValid lost (record m { windows = send_to_back h m.windows })
send_to_back-IsValid lost m h v = record {
  once = λ k. rw (count-send_to_back k h m.windows) (v.once k);
  fresh = λ k le. rw (count-send_to_back k h m.windows) (v.fresh k le);
  active = λ kept k is_active. rw (count-send_to_back k h m.windows) (v.active kept k is_active);
}
