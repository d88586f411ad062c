-- ===== src/Files/Paths.antt =====
-- filesystem/VirtualFileSystem.hpp: `normalizePath`, `validatePath` and `getMountPoint`. A path is
-- the list of its bytes. The access check of the security manager has no body in the
-- repository: it is the argument `permitted`.
pub mod Words
pub mod Normal
pub mod Mounts
pub mod Valid
mod Tests
use kernelc_moderne.Prelude.{
  ℕ, ◌-◌, Bool, true, false, not, ◌&&◌, ◌||◌, List, [], ◌∷◌, ◌++◌, ltb, leb, ◌==◌, if◌then◌else◌,
  length, map, Text, eq_text, starts_with, contains_text, has_byte,
}

abbrev pub slash : ℕ
slash = 47

abbrev pub dot : Text
dot = 46 ∷ []

abbrev pub dot_dot : Text
dot_dot = 46 ∷ 46 ∷ []

-- A byte in front of the first item.
pub push_front : ℕ → List Text → List Text
push_front c [] = (c ∷ []) ∷ []
push_front c (w ∷ ws) = (c ∷ w) ∷ ws

-- The items that `getline(ss, item, '/')` gives.
pub split : Text → List Text
split [] = []
split (c ∷ t) = if c == slash then [] ∷ split t else push_front c (split t)

-- `components.pop_back()`, which the source guards by `!components.empty()`.
pub pop_back : List Text → List Text
pop_back [] = []
pop_back (w ∷ []) = []
pop_back (w ∷ (v ∷ ws)) = w ∷ pop_back (v ∷ ws)

-- The body of the loop on one item.
pub add_item : List Text → Text → List Text
add_item components item =
    if eq_text item [] || eq_text item dot
    then components
    else if eq_text item dot_dot
    then pop_back components
    else components ++ (item ∷ [])

pub add_items : List Text → List Text → List Text
add_items components [] = components
add_items components (item ∷ items) = add_items (add_item components item) items

-- The components with a slash between two of them.
pub join : List Text → Text
join [] = []
join (w ∷ []) = w
join (w ∷ (v ∷ ws)) = w ++ (slash ∷ join (v ∷ ws))

-- `path[0] == '/'`; the byte at the end of a text is 0.
pub is_absolute : Text → Bool
is_absolute [] = false
is_absolute (c ∷ t) = c == slash

-- The text of some components.
pub print : Bool → List Text → Text
print absolute components =
    let result = (if absolute then slash ∷ [] else []) ++ join components in
    if eq_text result [] then slash ∷ [] else result

pub normalize_path : Text → Text
normalize_path path = print (is_absolute path) (add_items [] (split path))

-- `::toupper` in the "C" locale.
pub to_upper : ℕ → ℕ
to_upper c = if leb 97 c && leb c 122 then c - 32 else c

pub reserved : List Text
reserved =
    (67 ∷ 79 ∷ 78 ∷ [])
    ∷ (80 ∷ 82 ∷ 78 ∷ [])
    ∷ (65 ∷ 85 ∷ 88 ∷ [])
    ∷ (78 ∷ 85 ∷ 76 ∷ [])
    ∷ (67 ∷ 79 ∷ 77 ∷ 49 ∷ [])
    ∷ (67 ∷ 79 ∷ 77 ∷ 50 ∷ [])
    ∷ (67 ∷ 79 ∷ 77 ∷ 51 ∷ [])
    ∷ (76 ∷ 80 ∷ 84 ∷ 49 ∷ [])
    ∷ (76 ∷ 80 ∷ 84 ∷ 50 ∷ [])
    ∷ (76 ∷ 80 ∷ 84 ∷ 51 ∷ [])
    ∷ (67 ∷ 76 ∷ 79 ∷ 67 ∷ 75 ∷ 36 ∷ [])
    ∷ []

pub is_member : Text → List Text → Bool
is_member w [] = false
is_member w (v ∷ vs) = let rest = is_member w vs in if eq_text v w then true else rest

-- `<>:"|?*`
abbrev pub invalid_bytes : Text
invalid_bytes = 60 ∷ 62 ∷ 58 ∷ 34 ∷ 124 ∷ 63 ∷ 42 ∷ []

-- `path.find_first_of(bytes) != npos`
pub has_any : Text → Text → Bool
has_any bytes [] = false
has_any bytes (c ∷ t) = let rest = has_any bytes t in if has_byte c bytes then true else rest

-- The loop over the components: none is too long or reserved.
pub valid_items : List Text → Bool
valid_items [] = true
valid_items (item ∷ items) =
    let rest = valid_items items in
    if eq_text item []
    then rest
    else if ltb 255 (length item)
    then false
    else if is_member (map to_upper item) reserved
    then false
    else rest

-- `../`
abbrev pub parent_step : Text
parent_step = 46 ∷ 46 ∷ slash ∷ []

-- The mount points, in the order in which the map is walked, with the number of their driver.
abbrev pub Drivers : Type 0
Drivers = List (Text × ℕ)

-- The first mount point walked that starts the path decides.
pub is_within_boundaries : (Text → Bool) → Drivers → Text → Bool
is_within_boundaries permitted [] path = false
is_within_boundaries permitted ((mount, d) ∷ rest) path =
    let later = is_within_boundaries permitted rest path in
    if starts_with mount path then permitted path else later

-- The checks on the normalised path.
pub validate_normalized : (Text → Bool) → Drivers → Text → Bool
validate_normalized permitted drivers normalized =
    if not (valid_items (split normalized))
    then false
    else if contains_text parent_step normalized
    then is_within_boundaries permitted drivers normalized
    else true

pub validate_path : (Text → Bool) → Drivers → Text → Bool
validate_path permitted drivers path =
    if has_byte 0 path
    then false
    else if ltb 4096 (length path)
    then false
    else if has_any invalid_bytes path
    then false
    else validate_normalized permitted drivers (normalize_path path)

-- The loop of `getMountPoint`: `best` is the longest match so far.
pub longest_mount : Text → Drivers → Text → Text
longest_mount path [] best = best
longest_mount path ((mount, d) ∷ rest) best =
    longest_mount path rest
      (if starts_with mount path && ltb (length best) (length mount) then mount else best)

pub get_mount_point : Drivers → Text → Text
get_mount_point drivers path = longest_mount path drivers []
