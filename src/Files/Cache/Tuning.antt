-- ===== src/Files/Cache/Tuning.antt =====
-- filesystem/VirtualFileSystem.cpp, `MultiLevelCache::optimizeCache`. The comparisons of floating
-- point numbers, the age of an entry and std::sort are arguments, the record `Platform`. The sizes
-- of what is in memory are not cut to 64 bits. The hit ratios and the log are left out.
pub mod Evicting
pub mod Levels
mod Tests
use kernelc_moderne.Prelude.{
  ℕ, zero, suc, ◌+◌, ◌-◌, Bool, true, false, not, ◌&&◌, ◌||◌, List, [], ◌∷◌, Option, none, some,
  length, ltb, leb, lookup, erase, map, if◌then◌else◌,
}
use kernelc_moderne.Files.Cache.{CacheEntry, CacheLevel}

pub record Platform : Type 0 where
  -- `used > total * 0.9`
  pub too_full : ℕ → ℕ → Bool
  -- `used < total * 0.7`
  pub is_settled : ℕ → ℕ → Bool
  -- Whether the time of the second is less than a minute before the first.
  pub is_recent : ℕ → ℕ → Bool
  -- std::sort by the second components.
  pub sort : List (ℕ × ℕ) → List (ℕ × ℕ)

-- `currentSize`
unfoldable pub used_size : List (ℕ × CacheEntry) → ℕ
used_size [] = 0
used_size ((key, e) ∷ rest) = length e.bytes + used_size rest

-- The keys with their times, before they are sorted.
unfoldable pub stamps : List (ℕ × CacheEntry) → List (ℕ × ℕ)
stamps [] = []
stamps ((key, e) ∷ rest) = (key, e.timestamp) ∷ stamps rest

-- `level.data[key].data.size()`
unfoldable pub size_of : ℕ → List (ℕ × CacheEntry) → ℕ
size_of key entries = elim (lookup key entries) [ none ↦ 0 | some e ↦ length e.bytes ]

-- The loop that removes the oldest entries.
unfoldable pub evict :
    Platform → ℕ → ℕ → ℕ → List (ℕ × ℕ) → List (ℕ × CacheEntry) → List (ℕ × CacheEntry)
evict p total used removed [] entries = entries
evict p total used removed ((key, time) ∷ rest) entries =
    let later = evict p total used (removed + size_of key entries) rest (erase key entries) in
    if p.is_settled (used - removed) total then entries else later

-- `accessPatterns[key].accessCount`: every level that holds the key counts once.
unfoldable pub access_count : ℕ → List CacheLevel → ℕ
access_count key [] = 0
access_count key (level ∷ levels) = elim (lookup key level.entries) [
  | none ↦ access_count key levels
  | some e ↦ suc (access_count key levels)
]

-- `accessPatterns[key].lastAccess`: the time in the last level that holds the key.
unfoldable pub last_access : ℕ → ℕ → List CacheLevel → ℕ
last_access time key [] = time
last_access time key (level ∷ levels) = elim (lookup key level.entries) [
  | none ↦ last_access time key levels
  | some e ↦ last_access e.timestamp key levels
]

unfoldable pub evicted : Platform → CacheLevel → CacheLevel
evicted p level =
    let used = used_size level.entries in
    if p.too_full used level.size
    then record level {
      entries = evict p level.size used 0 (p.sort (stamps level.entries)) level.entries;
    }
    else level

-- Whether the loop over these entries moves one of them to the level above. `start` are the levels
-- before the optimization, and `above` that level among them.
unfoldable pub moves : Platform → ℕ → List CacheLevel → CacheLevel → List (ℕ × CacheEntry) → Bool
moves p now start above [] = false
moves p now start above ((key, e) ∷ rest) =
    (ltb 100 (access_count key start)
      && (p.is_recent now (last_access 0 key start)
          && leb (used_size above.entries + length e.bytes) above.size))
    || moves p now start above rest

-- The loop over the levels. A move erases the entry on which the loop over the entries stands,
-- which leaves that loop undefined: then `none`.
unfoldable pub tune_levels :
    Platform → ℕ → List CacheLevel → Option CacheLevel → List CacheLevel → Option (List CacheLevel)
tune_levels p now start above [] = some []
tune_levels p now start above (level ∷ levels) =
    let level' = evicted p level in
    let moved : Bool = elim above [ none ↦ false | some a ↦ moves p now start a level'.entries ] in
    let rest = tune_levels p now start (some level) levels in
    if moved then none else (elim rest [ none ↦ none | some levels' ↦ some (level' ∷ levels') ])

unfoldable pub reset : CacheLevel → CacheLevel
reset level = record level { hit_count = 0; miss_count = 0 }

unfoldable pub optimize_cache : Platform → ℕ → List CacheLevel → Option (List CacheLevel)
optimize_cache p now levels = elim (tune_levels p now levels none levels) [
  | none ↦ none
  | some levels' ↦ some (map reset levels')
]
