-- ===== src/Memory/Resources.antt =====
-- memory/GraphicsResourceManager.hpp: the cache of resources for the graphics processor and the
-- collection of resources that are out of use. Times and sizes are 64-bit values; the clock's
-- reading is an argument. The resources that are released are part of the result: releasing
-- calls the graphics interface.
pub mod Counting
pub mod Collecting
mod Tests
use kernelc_moderne.Prelude.{
  ℕ, ◌+◌, ◌-◌, ◌*◌, ◌%◌, ◌^◌, Bool, true, false, not, ◌&&◌, ◌||◌, List, [], ◌∷◌, Option, none, some,
  ltb, ◌==◌, if◌then◌else◌, lookup, insert, erase,
}

abbrev pub word : ℕ
word = 2 ^ 64

pub record ResourceTracker : Type 0 where
  pub resource : ℕ
  pub last_use_time : ℕ
  pub size : ℕ
  pub is_in_use : Bool
  pub is_priority : Bool

abbrev pub cache_size : ℕ
cache_size = 2048 * 1024 * 1024

abbrev pub resource_timeout : ℕ
resource_timeout = 5000

pub record ResourceManager : Type 0 where
  pub gpu_cache : List (ℕ × ResourceTracker)
  pub resources : List ResourceTracker
  pub current_cache_size : ℕ

pub set_cache_priority : ResourceManager → ℕ → Bool → ResourceManager
set_cache_priority m id priority = elim (lookup id m.gpu_cache) [
  | none ↦ m
  | some t ↦ record m { gpu_cache = insert id (record t { is_priority = priority }) m.gpu_cache }
]

-- The loop of `evictLeastUsed`, with the oldest time so far and the resource that has it.
pub oldest : List (ℕ × ResourceTracker) → ℕ → ℕ → ℕ
oldest [] time target = target
oldest ((id, t) ∷ rest) time target =
    let taken = oldest rest t.last_use_time id in
    let passed = oldest rest time target in
    if not t.is_priority && ltb t.last_use_time time then taken else passed

-- `gpuCache[id].size`
pub held_size : ℕ → List (ℕ × ResourceTracker) → ℕ
held_size id cache = elim (lookup id cache) [ none ↦ 0 | some t ↦ t.size ]

pub evict_least_used : ResourceManager → ResourceManager
evict_least_used m =
    let target = oldest m.gpu_cache (word - 1) 0 in
    if target == 0 then m else record m {
      current_cache_size = (m.current_cache_size + word - held_size target m.gpu_cache) % word;
      gpu_cache = erase target m.gpu_cache;
    }

-- The manager in which `preloadResource` has made room.
pub make_room : ResourceManager → ℕ → ResourceManager
make_room m size =
    if ltb cache_size ((m.current_cache_size + size) % word) then evict_least_used m else m

pub preload_resource : ResourceManager → ℕ → ℕ → ℕ → ℕ → ResourceManager
preload_resource m now id contents size =
    let m' = make_room m size in
    record m' {
      gpu_cache =
          insert id
            (record {
              resource = contents;
              last_use_time = now;
              size = size;
              is_in_use = true;
              is_priority = false;
            })
            m'.gpu_cache;
      current_cache_size = (m'.current_cache_size + size) % word;
    }

pub is_garbage : ℕ → ResourceTracker → Bool
is_garbage now t =
    not t.is_in_use
    && not t.is_priority
    && ltb resource_timeout ((now + word - t.last_use_time) % word)

-- The loop of `collectGarbage`: the resources that stay, the size, and what is released.
pub collect : ℕ → List ResourceTracker → ℕ → List ResourceTracker × ℕ × List ℕ
collect now [] size = ([], size, [])
collect now (t ∷ rest) size =
    let (stay, size', released) = collect now rest ((size + word - t.size) % word) in
    let (others, size'', freed) = collect now rest size in
    if is_garbage now t then (stay, size', t.resource ∷ released) else (t ∷ others, size'', freed)

pub collect_garbage : ℕ → ResourceManager → ResourceManager × List ℕ
collect_garbage now m =
    let (stay, size, released) = collect now m.resources m.current_cache_size in
    (record m { resources = stay; current_cache_size = size }, released)
