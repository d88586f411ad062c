-- ===== src/Memory/Resources/Tests.antt =====
-- A cache of two resources, and two resources of which one is out of use.
use kernelc_moderne.Prelude.{◌≡◌, refl, ◌-◌, true, false, [], ◌∷◌}
use kernelc_moderne.Memory.Resources.{word, ResourceTracker, ResourceManager, is_garbage, oldest}
use kernelc_moderne.Memory.Resources.Counting.{held, is_known, has_unique_keys}
use kernelc_moderne.Memory.Resources.Collecting.{staying, going, going_size}

abbrev old : ResourceTracker
old = record {
  resource = 1;
  last_use_time = 100;
  size = 40;
  is_in_use = false;
  is_priority = false;
}

abbrev used : ResourceTracker
used = record {
  resource = 2;
  last_use_time = 9000;
  size = 60;
  is_in_use = true;
  is_priority = false;
}

abbrev manager : ResourceManager
manager = record {
  gpu_cache = (7, old) ∷ (8, used) ∷ [];
  resources = old ∷ used ∷ [];
  current_cache_size = 100;
}

program : Unit {0}
unfolding held is_known has_unique_keys going_size is_garbage staying going oldest
program = tt

oldest_test : oldest manager.gpu_cache (word - 1) 0 ≡ 7
unfolding program
oldest_test = refl
