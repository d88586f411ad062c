-- ===== src/Files/Paths/Valid.antt =====
-- What a path that `validatePath` accepts is like.
use kernelc_moderne.Prelude.{
  ◌≡◌, ◌≤◌, ◌∙◌, ap, subst, Bool, true, false, List, [], ◌∷◌, arith, length, map, All, Text,
  eq_text, has_byte, contains_text,
}
use kernelc_moderne.Files.Paths.{
  split, join, slash, print, normalize_path, to_upper, reserved, is_member, invalid_bytes, has_any,
  valid_items, validate_normalized, validate_path, is_within_boundaries, Drivers, parent_step,
}
use kernelc_moderne.Files.Paths.Words.{AreNames, name_tests, split-join}
use kernelc_moderne.Files.Paths.Normal.{normalize_path-IsNormal, print-true, print-false}

-- At most 255 bytes, and no reserved name, in upper or lower case.
abbrev pub IsAllowed : Text → Type 0
IsAllowed w = (length w ≤ 255) × (is_member (map to_upper w) reserved ≡ false)

abbrev IsEmptyOrAllowed : Text → Type 0
IsEmptyOrAllowed w = eq_text w [] ≡ false → IsAllowed w

valid_items-All : (items : List Text) → valid_items items ≡ true → All IsEmptyOrAllowed items
unfolding valid_items
valid_items-All [] h = tt
valid_items-All (w ∷ items) h =
    (λ some_byte. ground (arith, h, some_byte), valid_items-All items (rest w items h))
  where
    rest :
        (w : Text) (items : List Text) → valid_items (w ∷ items) ≡ true → valid_items items ≡ true
    rest w items h = ground (arith, h)

absolute_rest :
    (ws : List Text)
    → All IsEmptyOrAllowed (split (slash ∷ join ws))
    → All IsEmptyOrAllowed (split (join ws))
unfolding split
absolute_rest ws good = good.1

-- The names of a normal path are among the items of its text.
names_allowed :
    (absolute : Bool) (ws : List Text)
    → AreNames ws
    → All IsEmptyOrAllowed (split (print absolute ws))
    → All IsEmptyOrAllowed ws
unfolding split
names_allowed true ws all good =
    subst (All IsEmptyOrAllowed) (split-join ws all)
      (absolute_rest ws (subst (λ t. All IsEmptyOrAllowed (split t)) (print-true ws) good))
names_allowed false [] all good = tt
names_allowed false (w ∷ ws) all good =
    subst (All IsEmptyOrAllowed) (ap split (print-false w ws all.0) ∙ split-join (w ∷ ws) all) good

both : (ws : List Text) → AreNames ws → All IsEmptyOrAllowed ws → All IsAllowed ws
both [] all good = tt
both (w ∷ ws) all good = (good.0 (name_tests w all.0).3, both ws all.1 good.1)

module _ (permitted : Text → Bool) (drivers : Drivers) (path : Text) where
  -- The tests of `validatePath` that an accepted path has passed.
  passed :
      validate_path permitted drivers path ≡ true
      → (has_byte 0 path ≡ false)
        × (length path ≤ 4096)
        × (has_any invalid_bytes path ≡ false)
        × (valid_items (split (normalize_path path)) ≡ true)
        × (contains_text parent_step (normalize_path path) ≡ true
            → is_within_boundaries permitted drivers (normalize_path path) ≡ true)
  unfolding validate_path validate_normalized
  passed h = ground (arith, h)

-- A path that `validatePath` accepts.
pub record IsAccepted (permitted : Text → Bool) (drivers : Drivers) (path : Text) : Type 0 where
  pub no_null : has_byte 0 path ≡ false
  pub short : length path ≤ 4096
  pub no_invalid : has_any invalid_bytes path ≡ false
  pub absolute : Bool
  pub names : List Text
  pub normal_form : normalize_path path ≡ print absolute names
  pub are_names : AreNames names
  pub allowed : All IsAllowed names

-- A path that `validatePath` accepts has at most 4096 bytes, none of them 0 or one of the invalid
-- ones, and its normal form is the text of names of at most 255 bytes, none of them reserved in
-- any mixture of upper and lower case.
pub validate_path-IsAccepted :
    (permitted : Text → Bool) (drivers : Drivers) (path : Text)
    → validate_path permitted drivers path ≡ true
    → IsAccepted permitted drivers path
validate_path-IsAccepted permitted drivers path h =
    let p = passed permitted drivers path h in
    let n = (normalize_path-IsNormal path).0 in
    record {
      no_null = p.0;
      short = p.1;
      no_invalid = p.2;
      absolute = n.absolute;
      names = n.names;
      normal_form = n.printed;
      are_names = n.are_names;
      allowed = both n.names n.are_names (
          names_allowed n.absolute n.names n.are_names (
            subst (λ t. All IsEmptyOrAllowed (split t)) n.printed
              (valid_items-All (split (normalize_path path)) p.3)));
    }
