-- ===== src/Ui/Windows/Click.antt =====
-- A click: the window that it reaches, and what happens to it.
use mathlib.Core.List.{append_assoc}
use kernelc_moderne.Prelude.{
  ℕ, ◌≡◌, refl, ◌∙◌, ap, ◌⊎◌, inl, inr, Bool, true, false, List, [], ◌∷◌, ◌++◌, none, some, arith,
  ◌==◌, ==_refl, Bool-cases, ℤ, All,
}
use kernelc_moderne.Ui.Windows.{
  Window, WindowManager, Call, find_window, remove, bring_to_front, focus_window, contains, topmost,
  press, button_calls, handle_mouse_button, unfocus_calls,
}
use kernelc_moderne.Ui.Windows.Stack.{count, count-append, IsValid}

-- `w` contains the point and every window in front of it does not.
pub record IsTop (x y : ℤ) (ws : List Window) (w : Window) : Type 0 where
  pub behind : List Window
  pub front : List Window
  pub split : ws ≡ behind ++ (w ∷ front)
  pub hit : contains x y w ≡ true
  pub clear : All (λ v. contains x y v ≡ false) front

abbrev pub Hit : ℤ → ℤ → List Window → Type 0
Hit x y ws =
    ((topmost x y ws ≡ none) × All (λ v. contains x y v ≡ false) ws)
    ⊎ ((w : Window) × (topmost x y ws ≡ some w) × IsTop x y ws w)

pub topmost-Hit : (x y : ℤ) (ws : List Window) → Hit x y ws
unfolding topmost
topmost-Hit x y [] = inl (refl, tt)
topmost-Hit x y (w ∷ ws) = elim (topmost-Hit x y ws) [
  | inr (v, e, top) ↦ inr (
    v,
    rw e refl,
    record {
      behind = w ∷ top.behind;
      front = top.front;
      split = ap (λ l. w ∷ l) top.split;
      hit = top.hit;
      clear = top.clear;
    },
  )
  | inl (e, miss) ↦ elim (Bool-cases (contains x y w)) [
    | inl hit ↦ inr (
      w,
      rw (e, topmost, hit) refl,
      record { behind = []; front = ws; split = refl; hit = hit; clear = miss },
    )
    | inr no_hit ↦ inl (rw (e, topmost, no_hit) refl, (no_hit, miss))
  ]
]

absent_head :
    (h : ℕ) (v : Window) (ws : List Window) → count h (v ∷ ws) ≡ 0 → (v.handle == h) ≡ false
unfolding count
absent_head h v ws none_ = ground (arith, none_)

absent_tail : (h : ℕ) (v : Window) (ws : List Window) → count h (v ∷ ws) ≡ 0 → count h ws ≡ 0
unfolding count
absent_tail h v ws none_ = ground (arith, none_)

find_window_split :
    (behind front : List Window) (w : Window)
    → count w.handle behind ≡ 0
    → find_window w.handle (behind ++ (w ∷ front)) ≡ some w
unfolding find_window
find_window_split [] front w absent = rw (==_refl w.handle) refl
find_window_split (v ∷ behind) front w absent =
    rw (absent_head w.handle v behind absent)
      (find_window_split behind front w (absent_tail w.handle v behind absent))

remove_split :
    (behind front : List Window) (w : Window)
    → count w.handle behind ≡ 0
    → remove w.handle (behind ++ (w ∷ front)) ≡ behind ++ front
unfolding remove
remove_split [] front w absent = rw (==_refl w.handle) refl
remove_split (v ∷ behind) front w absent =
    rw (absent_head w.handle v behind absent)
      (ap (λ l. v ∷ l) (remove_split behind front w (absent_tail w.handle v behind absent)))

-- A window that stands once is taken out of its place and put in front.
pub bring_to_front_split :
    (behind front : List Window) (w : Window)
    → count w.handle behind ≡ 0
    → bring_to_front w.handle (behind ++ (w ∷ front)) ≡ behind ++ (front ++ (w ∷ []))
unfolding bring_to_front
bring_to_front_split behind front w absent =
    rw (find_window_split behind front w absent, bring_to_front, remove_split behind front w absent)
      (append_assoc behind front (w ∷ []))

once_behind :
    (lost : Bool) (m : WindowManager)
    → IsValid lost m
    → (w : Window) (behind front : List Window) → m.windows ≡ behind ++ (w ∷ front)
    → count w.handle behind ≡ 0
unfolding count
once_behind lost m v w behind front split =
    let whole = ap (count w.handle) split in
    ground
      (arith, v.once w.handle, whole, count-append w.handle behind (w ∷ front), ==_refl w.handle)

-- A press that reaches the window `w`, on a manager whose active window was `active`.
pub record Pressed (mouse_left : ℕ) (m m' : WindowManager) (calls : List Call) (button : ℕ)
    (x y : ℤ) : Type 0 where
  pub target : Window
  pub top : IsTop x y m.windows target
  pub raised : m'.windows ≡ top.behind ++ (top.front ++ (target ∷ []))
  pub active : m'.active_window ≡ some target.handle
  pub told :
      calls
      ≡ (unfocus_calls m.active_window ++ (Call.focus target.handle ∷ []))
        ++ button_calls mouse_left target button true x y

-- A press of a button, on a valid manager, reaches the frontmost window that contains the
-- point: that window is moved to the front, the others keep their order, it becomes the active
-- one, the window that was active before is told that it lost the focus, and then the target
-- is told of the focus, of a possible drag and of the press, in its own coordinates. Where no
-- window contains the point, nothing happens.
pub handle_mouse_button-Pressed :
    (mouse_left : ℕ) (lost : Bool) (m : WindowManager) (button : ℕ) (x y : ℤ)
    → IsValid lost m
    → let (m', calls) = handle_mouse_button mouse_left m button true x y in
      (All (λ v. contains x y v ≡ false) m.windows × (m' ≡ m) × (calls ≡ []))
      ⊎ Pressed mouse_left m m' calls button x y
unfolding handle_mouse_button press focus_window
handle_mouse_button-Pressed mouse_left lost m button x y v = elim (topmost-Hit x y m.windows) [
  | inl (e, miss) ↦ rw (e, handle_mouse_button) (inl (miss, refl, refl))
  | inr (w, e, top) ↦
      rw (e, handle_mouse_button)
        (inr (record {
          target = w;
          top = top;
          raised =
              ap (bring_to_front w.handle) top.split
              ∙ bring_to_front_split top.behind top.front w
                  (once_behind lost m v w top.behind top.front top.split);
          active = refl;
          told = refl;
        }))
]
