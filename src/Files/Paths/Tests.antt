-- ===== src/Files/Paths/Tests.antt =====
-- Paths with dots and doubled slashes, and two orders of one table of mount points.
use kernelc_moderne.Prelude.{
  ℕ, ◌≡◌, refl, true, false, [], ◌∷◌, Text, contains_text, starts_with, eq_text, has_byte,
}
use kernelc_moderne.Files.Paths.{
  Drivers, normalize_path, validate_path, get_mount_point, parent_step, split, print, is_absolute,
  join, add_items, push_front, add_item, pop_back, has_any, validate_normalized, valid_items,
  is_member, reserved, to_upper, is_within_boundaries,
}
use kernelc_moderne.Files.Paths.Normal.{IsNormal, normalize_path-IsNormal}
use kernelc_moderne.Files.Paths.Mounts.{Mounted, here, there, IsLongest, get_mount_point-IsLongest}
use kernelc_moderne.Files.Paths.Valid.{IsAccepted, validate_path-IsAccepted}

program : Unit {0}
unfolding normalize_path print eq_text is_absolute join add_items split push_front add_item pop_back
    contains_text starts_with validate_path has_byte has_any validate_normalized valid_items
    is_member reserved to_upper is_within_boundaries
program = tt

-- "/a/../b//c/."
abbrev messy : Text
messy = 47 ∷ 97 ∷ 47 ∷ 46 ∷ 46 ∷ 47 ∷ 98 ∷ 47 ∷ 47 ∷ 99 ∷ 47 ∷ 46 ∷ []

-- "/b/c"
tidied : normalize_path messy ≡ 47 ∷ 98 ∷ 47 ∷ 99 ∷ []
unfolding program
tidied = refl

normalize_path-IsNormal_example :
    IsNormal (normalize_path messy) × (normalize_path (normalize_path messy) ≡ normalize_path messy)
normalize_path-IsNormal_example = normalize_path-IsNormal messy

-- "/" and "/mnt"
abbrev table : Drivers
table = (47 ∷ [], 0) ∷ (47 ∷ 109 ∷ 110 ∷ 116 ∷ [], 1) ∷ []

abbrev turned : Drivers
turned = (47 ∷ 109 ∷ 110 ∷ 116 ∷ [], 1) ∷ (47 ∷ [], 0) ∷ []

-- "/mnt/a"
abbrev mounted : Text
mounted = 47 ∷ 109 ∷ 110 ∷ 116 ∷ 47 ∷ 97 ∷ []

get_mount_point-IsLongest_example : IsLongest table mounted (get_mount_point table mounted)
get_mount_point-IsLongest_example = get_mount_point-IsLongest table mounted

turn : (d e : Text × ℕ) (m : Text) → Mounted m (d ∷ e ∷ []) → Mounted m (e ∷ d ∷ [])
turn d e m (here k rest) = there e (here k [])
turn d e m (there _ (here k rest)) = here k _
turn d e m (there _ (there _ k)) = elim k [ ]

validate_path-IsAccepted_example : IsAccepted (λ p. false) table messy
unfolding program
validate_path-IsAccepted_example = validate_path-IsAccepted (λ p. false) table messy refl

-- "/a../b", a path without a component `..`, holds the text `../`.
harmless : contains_text parent_step (normalize_path (47 ∷ 97 ∷ 46 ∷ 46 ∷ 47 ∷ 98 ∷ [])) ≡ true
unfolding program
harmless = refl
