-- ===== src/Ui/Windows.antt =====
-- ui/WindowManager.cpp: the stack of windows, the focus and the routing of events. Windows are
-- shared objects, named by a handle that `createWindow` takes fresh; `windows` goes from back to
-- front. The methods of a window, of a widget and of the display have no body in the repository:
-- an operation gives the calls that it makes, in order. Coordinates are integers without bounds,
-- since the source does not define the overflow of an `int`. Rendering is left out.
pub mod Stack
pub mod Click
pub mod Histories
pub mod Resize
pub mod Calls
mod Tests
use kernelc_moderne.Prelude.{
  ℕ, ◌+◌, Bool, true, false, not, ◌&&◌, List, [], ◌∷◌, ◌++◌, Option, none, some, ◌==◌,
  if◌then◌else◌, ℤ, pos, ◌+ℤ◌, ◌-ℤ◌, leb_ℤ, ltb_ℤ, min_ℤ, max_ℤ, lookup, insert, erase,
}

pub record Window : Type 0 where
  pub handle : ℕ
  pub x : ℤ
  pub y : ℤ
  pub width : ℤ
  pub height : ℤ

pub record WindowManager : Type 0 where
  pub windows : List Window
  pub widgets : List (ℕ × ℕ)
  pub active_window : Option ℕ
  pub focused_widget : Option ℕ
  pub is_initialized : Bool
  pub next_handle : ℕ

-- The calls to the objects outside.
pub data Call : Type 0 where
  focus unfocus end_drag resized widget_focus widget_blur : ℕ → Call
  start_drag hover mouse_move : ℕ → ℤ → ℤ → Call
  mouse_button : ℕ → ℕ → Bool → ℤ → ℤ → Call
  key_event widget_key_event : ℕ → ℕ → Bool → Call
  set_resolution : ℤ → ℤ → Call

-- MOUSE_LEFT has no definition in the repository: it is an argument where it is read.
pub create_window : WindowManager → ℤ → ℤ → ℤ → ℤ → WindowManager × ℕ
create_window m x y width height = (
  record m {
    windows =
        m.windows
        ++ (record { handle = m.next_handle; x = x; y = y; width = width; height = height } ∷ []);
    next_handle = m.next_handle + 1;
  },
  m.next_handle,
)

-- `std::find` by the pointer
pub find_window : ℕ → List Window → Option Window
find_window h [] = none
find_window h (w ∷ ws) = let rest = find_window h ws in if w.handle == h then some w else rest

-- `windows.erase(it)` for what `std::find` gives; a window that is not there changes nothing.
pub remove : ℕ → List Window → List Window
remove h [] = []
remove h (w ∷ ws) = let rest = remove h ws in if w.handle == h then ws else w ∷ rest

pub same_handle : Option ℕ → ℕ → Bool
same_handle none h = false
same_handle (some k) h = k == h

pub destroy_window : WindowManager → ℕ → WindowManager
destroy_window m h = record m {
  windows = remove h m.windows;
  active_window = if same_handle m.active_window h then none else m.active_window;
}

pub bring_to_front : ℕ → List Window → List Window
bring_to_front h ws = elim (find_window h ws) [ none ↦ ws | some w ↦ remove h ws ++ (w ∷ []) ]

pub send_to_back : ℕ → List Window → List Window
send_to_back h ws = elim (find_window h ws) [ none ↦ ws | some w ↦ w ∷ remove h ws ]

-- `if (activeWindow) activeWindow->unfocus();`
pub unfocus_calls : Option ℕ → List Call
unfocus_calls none = []
unfocus_calls (some h) = Call.unfocus h ∷ []

-- `none` is the null pointer.
pub focus_window : WindowManager → Option ℕ → WindowManager × List Call
focus_window m none = (record m { active_window = none }, unfocus_calls m.active_window)
focus_window m (some h) = (
  record m { active_window = some h; windows = bring_to_front h m.windows },
  unfocus_calls m.active_window ++ (Call.focus h ∷ []),
)

-- The widget that is made and its id come from outside.
pub create_widget : WindowManager → ℕ → ℕ → WindowManager
create_widget m id widget = record m { widgets = insert id widget m.widgets }

-- `widgets[id] == focusedWidget`, where a missing id gives the null pointer.
pub same_widget : Option ℕ → Option ℕ → Bool
same_widget none none = true
same_widget none (some w) = false
same_widget (some v) none = false
same_widget (some v) (some w) = v == w

pub destroy_widget : WindowManager → ℕ → WindowManager
destroy_widget m id = record m {
  focused_widget =
      if same_widget (lookup id m.widgets) m.focused_widget then none else m.focused_widget;
  widgets = erase id m.widgets;
}

pub set_focused_widget : WindowManager → Option ℕ → WindowManager × List Call
set_focused_widget m widget = (
  record m { focused_widget = widget },
  (elim m.focused_widget [ none ↦ [] | some old ↦ Call.widget_blur old ∷ [] ])
      ++ (elim widget [ none ↦ [] | some new ↦ Call.widget_focus new ∷ [] ]),
)

-- The bounds test of `handleMouseMove` and `handleMouseButton`.
pub contains : ℤ → ℤ → Window → Bool
contains x y w =
    (leb_ℤ w.x x && ltb_ℤ x (w.x +ℤ w.width)) && (leb_ℤ w.y y && ltb_ℤ y (w.y +ℤ w.height))

-- The loop from `rbegin`: the last window that contains the point.
pub topmost : ℤ → ℤ → List Window → Option Window
topmost x y [] = none
topmost x y (w ∷ ws) = elim (topmost x y ws) [
  | some v ↦ some v
  | none ↦ if contains x y w then some w else none
]

pub handle_mouse_move : WindowManager → ℤ → ℤ → List Call
handle_mouse_move m x y = elim (topmost x y m.windows) [
  | none ↦ []
  | some w ↦
      Call.hover w.handle (x -ℤ w.x) (y -ℤ w.y)
      ∷ Call.mouse_move w.handle (x -ℤ w.x) (y -ℤ w.y)
      ∷ []
]

module _ (mouse_left : ℕ) where
  -- The calls of the hit window after the focus.
  pub button_calls : Window → ℕ → Bool → ℤ → ℤ → List Call
  button_calls w button pressed x y =
      (if button == mouse_left
        then (if pressed
            then Call.start_drag w.handle (x -ℤ w.x) (y -ℤ w.y)
            else Call.end_drag w.handle)
          ∷ []
        else [])
      ++ (Call.mouse_button w.handle button pressed (x -ℤ w.x) (y -ℤ w.y) ∷ [])

  pub press : WindowManager → Window → ℕ → ℤ → ℤ → WindowManager × List Call
  press m w button x y =
      let (m', calls) = focus_window m (some w.handle) in
      (m', calls ++ button_calls w button true x y)

  pub handle_mouse_button : WindowManager → ℕ → Bool → ℤ → ℤ → WindowManager × List Call
  handle_mouse_button m button pressed x y = elim (topmost x y m.windows) [
    | none ↦ (m, [])
    | some w ↦ if pressed then press m w button x y else (m, button_calls w button false x y)
  ]

-- `hotkey` is `handleGlobalHotkey`, which has no body in the repository.
pub handle_key_event : (ℕ → Bool → Bool) → WindowManager → ℕ → Bool → List Call
handle_key_event hotkey m keycode pressed = elim m.active_window [
  | none ↦ []
  | some h ↦
      if hotkey keycode pressed
      then []
      else (Call.key_event h keycode pressed ∷ (elim m.focused_widget [
        | none ↦ []
        | some widget ↦ Call.widget_key_event widget keycode pressed ∷ []
      ]))
]

-- `std::max(0, std::min(position, extent - size))`
pub clamp : ℤ → ℤ → ℤ → ℤ
clamp position extent size = max_ℤ (pos 0) (min_ℤ position (extent -ℤ size))

-- The loop of `handleResize`.
pub resize_windows : ℤ → ℤ → List Window → List Window × List Call
resize_windows width height [] = ([], [])
resize_windows width height (w ∷ ws) =
    let (rest, calls) = resize_windows width height ws in
    (
      record w { x = clamp w.x width w.width; y = clamp w.y height w.height } ∷ rest,
      Call.resized w.handle ∷ calls,
    )

pub handle_resize : WindowManager → ℤ → ℤ → WindowManager × List Call
handle_resize m width height = if not m.is_initialized then (m, []) else (
  record m { windows = (resize_windows width height m.windows).0 },
  Call.set_resolution width height ∷ (resize_windows width height m.windows).1,
)

-- The windows go; the active window and the focused widget stay.
pub shutdown : WindowManager → WindowManager
shutdown m = record m { windows = []; widgets = []; is_initialized = false }
