-- ===== src/Memory/Game/Balance.antt =====
-- The accounts of the memory for games.
use kernelc_moderne.Prelude.{
  ℕ, ◌≡◌, ◌≤◌, ◌<◌, refl, ap, inl, inr, ◌+◌, ◌-◌, ◌%◌, Option, none, some, lookup, insert, erase,
  Option-cases, arith,
}
use kernelc_moderne.Memory.Game.{
  GameMemory, word, new_memory, allocate_aligned, deallocate, allocate_resource, lock_resource,
  unlock_resource, allocate_game_memory, free_game_memory, defragment_memory,
}
use kernelc_moderne.Memory.Game.Sizes.{
  total_size, Distinct, total_size-insert, total_size-erase, Distinct-insert, Distinct-erase,
}

-- What holds of the memory at all times.
pub record IsBalanced (m : GameMemory) : Type 0 where
  pub same_tables : m.allocations ≡ m.memory_map
  pub distinct : Distinct m.memory_map
  pub total : m.total_allocated ≡ total_size m.memory_map
  pub bounded : total_size m.memory_map < word
  pub peak : m.total_allocated ≤ m.peak_usage

-- A pointer from `_aligned_malloc` is not one that is still in use, and all that is in use fits
-- into the addresses of 64 bits.
abbrev pub Fresh : Option ℕ → ℕ → GameMemory → Type 0
Fresh none size m = Unit {0}
Fresh (some ptr) size m = (lookup ptr m.memory_map ≡ none) × (total_size m.memory_map + size < word)

pub data Step : GameMemory → GameMemory → Type 0 where
  allocating :
      {m : GameMemory} (ptr : Option ℕ) (size : ℕ)
      → Fresh ptr size m
      → Step m (allocate_game_memory ptr size m).0
  freeing : {m : GameMemory} (ptr : ℕ) → Step m (free_game_memory ptr m)
  making_resource :
      {m : GameMemory} (content : Option ℕ) (name size : ℕ)
      → Step m (allocate_resource content name size m).0
  locking : {m : GameMemory} (name : ℕ) → Step m (lock_resource name m).0
  unlocking : {m : GameMemory} (name : ℕ) → Step m (unlock_resource name m)
  defragmenting : {m : GameMemory} → Step m (defragment_memory m)

pub data Reach : GameMemory → Type 0 where
  start : Reach new_memory
  more : {m m' : GameMemory} → Reach m → Step m m' → Reach m'

pub allocate-IsBalanced :
    (ptr : Option ℕ) (size : ℕ) (m : GameMemory)
    → Fresh ptr size m
    → IsBalanced m
    → IsBalanced (allocate_game_memory ptr size m).0
unfolding allocate_game_memory allocate_aligned
allocate-IsBalanced none size m f b = b
allocate-IsBalanced (some ptr) size m f b = record {
  same_tables = ap (insert ptr size) b.same_tables;
  distinct = Distinct-insert ptr size m.memory_map f.0 b.distinct;
  total = omega (arith, b.total, total_size-insert ptr size m.memory_map f.0, f.1);
  bounded = omega (arith, total_size-insert ptr size m.memory_map f.0, f.1);
  peak = omega arith;
}

pub free_known :
    (ptr size : ℕ) (m : GameMemory)
    → IsBalanced m
    → lookup ptr m.memory_map ≡ some size
    → free_game_memory ptr m ≡ record m {
      allocations = erase ptr m.allocations;
      memory_map = erase ptr m.memory_map;
      total_allocated = (m.total_allocated + (word - size % word)) % word;
    }
unfolding free_game_memory deallocate
free_known ptr size m b e =
    let known : lookup ptr m.allocations ≡ some size = rw b.same_tables e in
    rw (free_game_memory, e, deallocate, known) refl

free_unknown :
    (ptr : ℕ) (m : GameMemory) → lookup ptr m.memory_map ≡ none → free_game_memory ptr m ≡ m
unfolding free_game_memory
free_unknown ptr m e = rw (free_game_memory, e) refl

free-IsBalanced : (ptr : ℕ) (m : GameMemory) → IsBalanced m → IsBalanced (free_game_memory ptr m)
free-IsBalanced ptr m b = elim (Option-cases (lookup ptr m.memory_map)) [
  | inl e ↦ rw (free_unknown ptr m e) b
  | inr (size, e) ↦
      let left = total_size-erase ptr size m.memory_map b.distinct e in
      let total : (m.total_allocated + (word - size % word)) % word
          ≡ total_size (erase ptr m.memory_map) =
        omega (arith, b.total, b.bounded, left) in
      simp (free_known ptr size m b e) (record {
        same_tables = ap (erase ptr) b.same_tables;
        distinct = Distinct-erase ptr m.memory_map b.distinct;
        total = total;
        bounded = omega (arith, b.bounded, left);
        peak = omega (arith, total, b.total, b.peak, left);
      })
]

resource-IsBalanced :
    (content : Option ℕ) (name size : ℕ) (m : GameMemory)
    → IsBalanced m
    → IsBalanced (allocate_resource content name size m).0
unfolding allocate_resource
resource-IsBalanced none name size m b = b
resource-IsBalanced (some content) name size m b = record {
  same_tables = b.same_tables;
  distinct = b.distinct;
  total = b.total;
  bounded = b.bounded;
  peak = b.peak;
}

lock-IsBalanced : (name : ℕ) (m : GameMemory) → IsBalanced m → IsBalanced (lock_resource name m).0
unfolding lock_resource
lock-IsBalanced name m b = elim (Option-cases (lookup name m.resources)) [
  | inl e ↦ rw (lock_resource, e) b
  | inr (r, e) ↦
      rw (lock_resource, e)
        (record {
          same_tables = b.same_tables;
          distinct = b.distinct;
          total = b.total;
          bounded = b.bounded;
          peak = b.peak;
        })
]

unlock-IsBalanced : (name : ℕ) (m : GameMemory) → IsBalanced m → IsBalanced (unlock_resource name m)
unfolding unlock_resource
unlock-IsBalanced name m b = elim (Option-cases (lookup name m.resources)) [
  | inl e ↦ rw (unlock_resource, e) b
  | inr (r, e) ↦
      rw (unlock_resource, e)
        (record {
          same_tables = b.same_tables;
          distinct = b.distinct;
          total = b.total;
          bounded = b.bounded;
          peak = b.peak;
        })
]

defragment-IsBalanced : (m : GameMemory) → IsBalanced m → IsBalanced (defragment_memory m)
unfolding defragment_memory
defragment-IsBalanced m b = record {
  same_tables = b.same_tables;
  distinct = b.distinct;
  total = b.total;
  bounded = b.bounded;
  peak = b.peak;
}

step-IsBalanced : {m m' : GameMemory} → Step m m' → IsBalanced m → IsBalanced m'
step-IsBalanced {m} (Step.allocating ptr size f) b = allocate-IsBalanced ptr size m f b
step-IsBalanced {m} (Step.freeing ptr) b = free-IsBalanced ptr m b
step-IsBalanced {m} (Step.making_resource content name size) b =
    resource-IsBalanced content name size m b
step-IsBalanced {m} (Step.locking name) b = lock-IsBalanced name m b
step-IsBalanced {m} (Step.unlocking name) b = unlock-IsBalanced name m b
step-IsBalanced {m} Step.defragmenting b = defragment-IsBalanced m b

-- After any sequence of the operations of EnhancedMemoryManager, with fresh pointers from the
-- allocator: the two tables of pointers are the same and hold each pointer once, `totalAllocated` is
-- the sum of the sizes of what is in use, and `peakUsage` is not less.
pub Reach-IsBalanced : (m : GameMemory) → Reach m → IsBalanced m
unfolding Distinct total_size
Reach-IsBalanced m Reach.start = record {
  same_tables = refl;
  distinct = tt;
  total = refl;
  bounded = omega arith;
  peak = omega arith;
}
Reach-IsBalanced m (Reach.more r s) = step-IsBalanced s (Reach-IsBalanced _ r)
