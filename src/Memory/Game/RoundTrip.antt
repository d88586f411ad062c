-- ===== src/Memory/Game/RoundTrip.antt =====
-- Allocating and freeing again.
use kernelc_moderne.Prelude.{
  ℕ, ◌≡◌, refl, ◌∙◌, ◌+◌, ◌-◌, ◌%◌, max, none, some, ==_refl, lookup, insert, lookup-insert, arith,
}
use kernelc_moderne.Memory.Game.{
  GameMemory, word, allocate_aligned, allocate_game_memory, free_game_memory,
}
use kernelc_moderne.Memory.Game.Sizes.{erase-insert}
use kernelc_moderne.Memory.Game.Balance.{IsBalanced, Fresh, allocate-IsBalanced, free_known}

-- In a balanced memory, freeing the pointer that was just allocated brings back the tables and the
-- total, and the peak stays at the larger of the old one and the total in between.
pub free_game_memory-allocate_game_memory :
    (ptr size : ℕ) (m : GameMemory)
    → IsBalanced m
    → Fresh (some ptr) size m
    → free_game_memory ptr (allocate_game_memory (some ptr) size m).0
      ≡ record m { peak_usage = max m.peak_usage (m.total_allocated + size) }
unfolding allocate_game_memory allocate_aligned
free_game_memory-allocate_game_memory ptr size m b f =
    let known : lookup ptr (insert ptr size m.memory_map) ≡ some size =
      lookup-insert ptr ptr size m.memory_map ∙ rw (==_refl ptr) refl in
    let fresh : lookup ptr m.allocations ≡ none = rw b.same_tables f.0 in
    let sum : (m.total_allocated + size) % word ≡ m.total_allocated + size =
      omega (arith, b.total, f.1) in
    let back : (m.total_allocated + size + (word - size % word)) % word ≡ m.total_allocated =
      omega (arith, b.total, f.1) in
    free_known ptr size (allocate_game_memory (some ptr) size m).0
      (allocate-IsBalanced (some ptr) size m f b) known
    ∙ simp
        (
          sum,
          back,
          erase-insert ptr size m.allocations fresh,
          erase-insert ptr size m.memory_map f.0,
        )
        refl
