-- ===== src/Files/Cache.antt =====
-- filesystem/VirtualFileSystem.cpp, MultiLevelCache. Keys are only compared, so numbers; the
-- clock's reading is an argument. `promoteToHigherLevel` has no body in the repository: it is
-- the argument `promote`. The hit ratios, which are floating point numbers, are left out.
pub mod Laws
pub mod Tuning
mod Tests
use kernelc_moderne.Prelude.{
  ℕ, zero, suc, ◌+◌, ◌*◌, Bool, false, List, [], ◌∷◌, ◌++◌, Option, none, some, lookup, insert,
}

pub record CacheEntry : Type 0 where
  pub bytes : List ℕ
  pub timestamp : ℕ
  pub dirty : Bool

pub record CacheLevel : Type 0 where
  pub size : ℕ
  pub entries : List (ℕ × CacheEntry)
  pub hit_count : ℕ
  pub miss_count : ℕ

pub add_level : List CacheLevel → ℕ → List CacheLevel
add_level levels size =
    levels ++ (record { size = size; entries = []; hit_count = 0; miss_count = 0 } ∷ [])

abbrev pub megabyte : ℕ
megabyte = 1024 * 1024

pub new_cache : List CacheLevel
new_cache = add_level (add_level (add_level [] (1 * megabyte)) (8 * megabyte)) (32 * megabyte)

-- The loop of `get`, with the index of the first of the levels: the levels with the counters and
-- the time brought up to date, and the level and bytes that were found.
pub probe : ℕ → ℕ → ℕ → List CacheLevel → List CacheLevel × Option (ℕ × List ℕ)
probe now key i [] = ([], none)
probe now key i (level ∷ levels) = elim (lookup key level.entries) [
  | some e ↦ (
    record level {
      entries = insert key (record e { timestamp = now }) level.entries;
      hit_count = level.hit_count + 1;
    }
        ∷ levels,
    some (i, e.bytes),
  )
  | none ↦
      let (rest, found) = probe now key (i + 1) levels in
      (record level { miss_count = level.miss_count + 1 } ∷ rest, found)
]

-- The levels, the key, the bytes and the level in which they were found.
abbrev pub Promotion : Type 0
Promotion = List CacheLevel → ℕ → List ℕ → ℕ → List CacheLevel

unfoldable pub get : Promotion → ℕ → List CacheLevel → ℕ → List CacheLevel × Option (List ℕ)
get promote now levels key =
    let (levels', found) = probe now key 0 levels in
    elim found [
      | none ↦ (levels', none)
      | some (i, bytes) ↦ (promote levels' key bytes i, some bytes)
    ]

-- The loop of `put`: the levels with the entry of the key replaced, if one has it.
pub replace : ℕ → ℕ → List ℕ → Bool → List CacheLevel → Option (List CacheLevel)
replace now key bytes dirty [] = none
replace now key bytes dirty (level ∷ levels) = elim (lookup key level.entries) [
  | some e ↦ some (
      record level {
        entries =
            insert key (record { bytes = bytes; timestamp = now; dirty = dirty }) level.entries;
      }
      ∷ levels)
  | none ↦ elim (replace now key bytes dirty levels) [
    | none ↦ none
    | some levels' ↦ some (level ∷ levels')
  ]
]

-- `levels[0].data[key] = entry`; the constructor has made the first level.
pub put_first : ℕ → ℕ → List ℕ → Bool → List CacheLevel → List CacheLevel
put_first now key bytes dirty [] = []
put_first now key bytes dirty (level ∷ levels) =
    record level {
      entries = insert key (record { bytes = bytes; timestamp = now; dirty = dirty }) level.entries;
    }
    ∷ levels

unfoldable pub put : ℕ → List CacheLevel → ℕ → List ℕ → Bool → List CacheLevel
put now levels key bytes dirty = elim (replace now key bytes dirty levels) [
  | none ↦ put_first now key bytes dirty levels
  | some levels' ↦ levels'
]

-- `levels[level].size += size`
pub expand_level : List CacheLevel → ℕ → ℕ → List CacheLevel
expand_level [] i size = []
expand_level (level ∷ levels) zero size = record level { size = level.size + size } ∷ levels
expand_level (level ∷ levels) (suc i) size = level ∷ expand_level levels i size

pub entries_in : List (ℕ × CacheEntry) → List CacheEntry
entries_in [] = []
entries_in ((key, e) ∷ rest) = e ∷ entries_in rest

pub get_all_entries : List CacheLevel → List CacheEntry
get_all_entries [] = []
get_all_entries (level ∷ levels) = entries_in level.entries ++ get_all_entries levels
