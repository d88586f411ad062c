-- ===== src/Memory/Game.antt =====
-- memory/EnhancedMemoryManager.hpp, the memory for games and the named resources. Pointers and names
-- are only compared, so numbers; what `_aligned_malloc` returns is an argument, `none` for a null
-- pointer. Sizes have 64 bits. The pool of video memory, the swap manager and the optimizer have no
-- body in the repository and are left out.
mod Sizes
pub mod Balance
pub mod RoundTrip
mod Tests
use kernelc_moderne.Prelude.{
  ℕ, ◌+◌, ◌-◌, ◌%◌, ◌^◌, max, Bool, true, false, List, [], ◌∷◌, Option, none, some, lookup, insert,
  erase,
}

-- The type of a resource is only stored, and is left out.
pub record Resource : Type 0 where
  pub content : ℕ
  pub size : ℕ
  pub is_locked : Bool

pub record GameMemory : Type 0 where
  pub allocations : List (ℕ × ℕ)
  pub memory_map : List (ℕ × ℕ)
  pub resources : List (ℕ × Resource)
  pub total_allocated : ℕ
  pub peak_usage : ℕ
  pub fragmentation_count : ℕ

abbrev pub word : ℕ
word = 2 ^ 64

abbrev pub new_memory : GameMemory
new_memory = record {
  allocations = [];
  memory_map = [];
  resources = [];
  total_allocated = 0;
  peak_usage = 0;
  fragmentation_count = 0;
}

pub allocate_aligned : Option ℕ → ℕ → GameMemory → GameMemory
allocate_aligned none size m = m
allocate_aligned (some ptr) size m = record m { allocations = insert ptr size m.allocations }

pub deallocate : ℕ → GameMemory → GameMemory
deallocate ptr m = elim (lookup ptr m.allocations) [
  | none ↦ m
  | some size ↦ record m { allocations = erase ptr m.allocations }
]

pub allocate_resource : Option ℕ → ℕ → ℕ → GameMemory → GameMemory × Bool
allocate_resource none name size m = (m, false)
allocate_resource (some content) name size m = (
  record m {
    resources =
        insert name (record { content = content; size = size; is_locked = false }) m.resources;
  },
  true,
)

pub lock_resource : ℕ → GameMemory → GameMemory × Option ℕ
lock_resource name m = elim (lookup name m.resources) [
  | none ↦ (m, none)
  | some r ↦ (
    record m { resources = insert name (record r { is_locked = true }) m.resources },
    some (r.content),
  )
]

pub unlock_resource : ℕ → GameMemory → GameMemory
unlock_resource name m = elim (lookup name m.resources) [
  | none ↦ m
  | some r ↦ record m { resources = insert name (record r { is_locked = false }) m.resources }
]

pub allocate_game_memory : Option ℕ → ℕ → GameMemory → GameMemory × Option ℕ
allocate_game_memory none size m = (allocate_aligned none size m, none)
allocate_game_memory (some ptr) size m =
    let m' = allocate_aligned (some ptr) size m in
    let total = (m'.total_allocated + size) % word in
    (
      record m' {
        memory_map = insert ptr size m'.memory_map;
        total_allocated = total;
        peak_usage = max m'.peak_usage total;
      },
      some ptr,
    )

pub free_game_memory : ℕ → GameMemory → GameMemory
free_game_memory ptr m = elim (lookup ptr m.memory_map) [
  | none ↦ m
  | some size ↦ deallocate ptr (record m {
    total_allocated = (m.total_allocated + (word - size % word)) % word;
    memory_map = erase ptr m.memory_map;
  })
]

pub defragment_memory : GameMemory → GameMemory
defragment_memory m = record m { fragmentation_count = 0 }
