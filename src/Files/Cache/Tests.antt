-- ===== src/Files/Cache/Tests.antt =====
-- A cache of two levels, with an entry in the second, and a promotion that does nothing.
use kernelc_moderne.Prelude.{◌≡◌, true, false, [], ◌∷◌, some, ◌==◌, if◌then◌else◌}
use kernelc_moderne.Files.Cache.{CacheLevel, Promotion, put}
use kernelc_moderne.Files.Cache.Laws.{contents, contents-put}

abbrev first : CacheLevel
first = record { size = 100; entries = []; hit_count = 0; miss_count = 0 }

abbrev second : CacheLevel
second = record {
  size = 800;
  entries = (5, record { bytes = 1 ∷ 2 ∷ []; timestamp = 3; dirty = false }) ∷ [];
  hit_count = 0;
  miss_count = 0;
}

abbrev stay : Promotion
stay levels key bytes i = levels

contents-put_example :
    contents (put 9 (first ∷ second ∷ []) 5 (7 ∷ []) true) 5
    ≡ (if 5 == 5 then some (7 ∷ []) else contents (first ∷ second ∷ []) 5)
contents-put_example = contents-put 9 5 (7 ∷ []) true first (second ∷ []) 5
