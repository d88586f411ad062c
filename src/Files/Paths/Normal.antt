-- ===== src/Files/Paths/Normal.antt =====
-- `normalizePath` gives the text of some names, and is idempotent.
use kernelc_moderne.Prelude.{
  ◌≡◌, refl, sym, ◌∙◌, ap, ap₂, Bool, true, false, List, [], ◌∷◌, Text, eq_text,
}
use kernelc_moderne.Files.Paths.{
  slash, split, add_item, add_items, join, is_absolute, print, normalize_path,
}
use kernelc_moderne.Files.Paths.Words.{
  is_name, AreNames, add_items-AreNames, add_items-names, split-join, join-first, split-NoSlash,
}

-- A path in normal form: the text of some names, absolute or not.
pub record IsNormal (path : Text) : Type 0 where
  pub absolute : Bool
  pub names : List Text
  pub are_names : AreNames names
  pub printed : path ≡ print absolute names

normal : (path : Text) → IsNormal (normalize_path path)
unfolding normalize_path
normal path = record {
  absolute = is_absolute path;
  names = add_items [] (split path);
  are_names = add_items-AreNames [] (split path) (split-NoSlash path) tt;
  printed = refl;
}

normalize-absolute :
    (ws : List Text) → AreNames ws → normalize_path (slash ∷ join ws) ≡ slash ∷ join ws
unfolding normalize_path split is_absolute add_items add_item print eq_text
normalize-absolute ws all =
    ap (λ l. slash ∷ join (add_items [] l)) (split-join ws all)
    ∙ ap (λ l. slash ∷ join l) (add_items-names [] ws all)

pub print-true : (ws : List Text) → print true ws ≡ slash ∷ join ws
unfolding print eq_text
print-true ws = refl

pub print_nothing : print false [] ≡ slash ∷ join []
unfolding print eq_text join
print_nothing = refl

pub print-false :
    (w : Text) (ws : List Text) → is_name w ≡ true → print false (w ∷ ws) ≡ join (w ∷ ws)
unfolding print eq_text
print-false w ws h = let (c, t, first, _) = join-first w ws h in rw first refl

is_absolute-join :
    (w : Text) (ws : List Text) → is_name w ≡ true → is_absolute (join (w ∷ ws)) ≡ false
unfolding is_absolute
is_absolute-join w ws h = let (c, t, first, other) = join-first w ws h in rw first other

normalize-relative :
    (w : Text) (ws : List Text)
    → AreNames (w ∷ ws)
    → normalize_path (join (w ∷ ws)) ≡ print false (w ∷ ws)
unfolding normalize_path
normalize-relative w ws all =
    ap₂ print (is_absolute-join w ws all.0)
      (ap (add_items []) (split-join (w ∷ ws) all) ∙ add_items-names [] (w ∷ ws) all)

-- A normal path is its own normal form.
normalize-print :
    (absolute : Bool) (ws : List Text)
    → AreNames ws
    → normalize_path (print absolute ws) ≡ print absolute ws
normalize-print true ws all =
    ap normalize_path (print-true ws) ∙ normalize-absolute ws all ∙ sym (print-true ws)
normalize-print false [] all =
    ap normalize_path print_nothing ∙ normalize-absolute [] all ∙ sym print_nothing
normalize-print false (w ∷ ws) all =
    ap normalize_path (print-false w ws all.0) ∙ normalize-relative w ws all

-- The result of `normalizePath` is the text of components that are neither empty nor `.` nor
-- `..` and hold no slash, and it is its own normal form.
pub normalize_path-IsNormal :
    (path : Text)
    → IsNormal (normalize_path path) × (normalize_path (normalize_path path) ≡ normalize_path path)
normalize_path-IsNormal path =
    let n = normal path in
    (
      n,
      ap normalize_path n.printed ∙ normalize-print n.absolute n.names n.are_names ∙ sym n.printed,
    )
