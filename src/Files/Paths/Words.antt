-- ===== src/Files/Paths/Words.antt =====
-- The components that `normalizePath` keeps are names, and printing them loses nothing.
use mathlib.Core.List.{append_assoc, append-nil}
use kernelc_moderne.Prelude.{
  ℕ, ◌≡◌, refl, sym, ◌∙◌, ap, inl, inr, Bool, true, false, not, ◌&&◌, ◌||◌, List, [], ◌∷◌, ◌++◌,
  arith, ◌==◌, Bool-cases, All, All-append, Text, eq_text, has_byte,
}
use kernelc_moderne.Files.Paths.{
  slash, dot, dot_dot, push_front, split, pop_back, add_item, add_items, join,
}

-- Not empty, not `.`, not `..`, and without a slash.
unfoldable pub is_name : Text → Bool
is_name w =
    not (eq_text w [])
    && (not (eq_text w dot) && (not (eq_text w dot_dot) && not (has_byte slash w)))

abbrev pub AreNames : List Text → Type 0
AreNames = All (λ w. is_name w ≡ true)

abbrev pub NoSlash : Text → Type 0
NoSlash w = has_byte slash w ≡ false

push_front-NoSlash :
    (c : ℕ) (ws : List Text) → (c == slash) ≡ false → All NoSlash ws → All NoSlash (push_front c ws)
unfolding push_front has_byte
push_front-NoSlash c [] h all = (rw h refl, tt)
push_front-NoSlash c (w ∷ ws) h all = (rw h all.0, all.1)

pub split-NoSlash : (t : Text) → All NoSlash (split t)
unfolding split has_byte
split-NoSlash [] = tt
split-NoSlash (c ∷ t) = elim (Bool-cases (c == slash)) [
  | inl e ↦ rw e (refl, split-NoSlash t)
  | inr e ↦ rw e (push_front-NoSlash c (split t) e (split-NoSlash t))
]

pop_back-AreNames : (ws : List Text) → AreNames ws → AreNames (pop_back ws)
unfolding pop_back
pop_back-AreNames [] all = tt
pop_back-AreNames (w ∷ []) all = tt
pop_back-AreNames (w ∷ (v ∷ ws)) all = (all.0, pop_back-AreNames (v ∷ ws) all.1)

is_name-kept :
    (item : Text)
    → NoSlash item
    → (eq_text item [] || eq_text item dot) ≡ false
    → eq_text item dot_dot ≡ false
    → is_name item ≡ true
unfolding is_name
is_name-kept item clean e e' = ground (arith, clean, e, e')

add_item-AreNames :
    (ws : List Text) (item : Text) → NoSlash item → AreNames ws → AreNames (add_item ws item)
unfolding add_item
add_item-AreNames ws item clean all = elim (Bool-cases (eq_text item [] || eq_text item dot)) [
  | inl e ↦ rw e all
  | inr e ↦ elim (Bool-cases (eq_text item dot_dot)) [
    | inl e' ↦ rw (e, e') (pop_back-AreNames ws all)
    | inr e' ↦ rw (e, e') (All-append _ ws (item ∷ []) all (is_name-kept item clean e e', tt))
  ]
]

pub add_items-AreNames :
    (ws items : List Text) → All NoSlash items → AreNames ws → AreNames (add_items ws items)
unfolding add_items
add_items-AreNames ws [] clean all = all
add_items-AreNames ws (item ∷ items) clean all =
    add_items-AreNames (add_item ws item) items clean.1 (add_item-AreNames ws item clean.0 all)

-- What a name says of itself, test by test.
pub name_tests :
    (w : Text)
    → is_name w ≡ true
    → NoSlash w
      × ((eq_text w [] || eq_text w dot) ≡ false)
      × (eq_text w dot_dot ≡ false)
      × (eq_text w [] ≡ false)
unfolding is_name
name_tests w h = ground (arith, h)

add_item-name : (ws : List Text) (w : Text) → is_name w ≡ true → add_item ws w ≡ ws ++ (w ∷ [])
unfolding add_item
add_item-name ws w h = let t = name_tests w h in rw (t.1, t.2) refl

pub add_items-names : (ws items : List Text) → AreNames items → add_items ws items ≡ ws ++ items
unfolding add_items
add_items-names ws [] all = sym (append-nil ws)
add_items-names ws (w ∷ items) all =
    ap (λ l. add_items l items) (add_item-name ws w all.0)
    ∙ add_items-names (ws ++ (w ∷ [])) items all.1
    ∙ append_assoc ws (w ∷ []) items

NoSlash-head : (c : ℕ) (w : Text) → NoSlash (c ∷ w) → (c == slash) ≡ false
unfolding has_byte
NoSlash-head c w h = ground (arith, h)

NoSlash-tail : (c : ℕ) (w : Text) → NoSlash (c ∷ w) → NoSlash w
unfolding has_byte
NoSlash-tail c w h = ground (arith, h)

split-append-slash : (w t : Text) → NoSlash w → split (w ++ (slash ∷ t)) ≡ w ∷ split t
unfolding split has_byte push_front
split-append-slash [] t h = refl
split-append-slash (c ∷ w) t h =
    rw (NoSlash-head c w h) (ap (push_front c) (split-append-slash w t (NoSlash-tail c w h)))

split_alone : (c : ℕ) (w : Text) → NoSlash (c ∷ w) → split (c ∷ w) ≡ (c ∷ w) ∷ []
unfolding split push_front
split_alone c [] h = rw (NoSlash-head c [] h) refl
split_alone c (d ∷ w) h =
    rw (NoSlash-head c (d ∷ w) h) (ap (push_front c) (split_alone d w (NoSlash-tail c (d ∷ w) h)))

split-name : (w : Text) → is_name w ≡ true → split w ≡ w ∷ []
unfolding is_name eq_text
split-name [] h = cc
split-name (c ∷ w) h = split_alone c w (name_tests (c ∷ w) h).0

split_nothing : split [] ≡ []
unfolding split
split_nothing = refl

pub split-join : (ws : List Text) → AreNames ws → split (join ws) ≡ ws
unfolding join
split-join [] all = split_nothing
split-join (w ∷ []) all = split-name w all.0
split-join (w ∷ (v ∷ ws)) all =
    split-append-slash w (join (v ∷ ws)) (name_tests w all.0).0
    ∙ ap (λ l. w ∷ l) (split-join (v ∷ ws) all.1)

-- The text of one name or more starts with a byte that is no slash.
pub join-first :
    (w : Text) (ws : List Text)
    → is_name w ≡ true
    → (c : ℕ) × (t : Text) × (join (w ∷ ws) ≡ c ∷ t) × ((c == slash) ≡ false)
unfolding join is_name eq_text
join-first [] ws h = cc
join-first (c ∷ w) [] h = (c, w, refl, NoSlash-head c w (name_tests (c ∷ w) h).0)
join-first (c ∷ w) (v ∷ ws) h = (c, _, refl, NoSlash-head c w (name_tests (c ∷ w) h).0)
