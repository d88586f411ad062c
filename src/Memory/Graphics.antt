-- ===== src/Memory/Graphics.antt =====
-- memory/GraphicsResourceManager.hpp: the blocks of the dedicated video memory, their
-- reservation and the defragmentation. Addresses and sizes are 64-bit values. The bytes that a
-- defragmentation moves are part of its result.
pub mod Merging
pub mod Compacting
pub mod Reserving
mod Tests
use kernelc_moderne.Prelude.{
  ℕ, zero, suc, ◌+◌, ◌-◌, ◌%◌, ◌^◌, Bool, true, false, not, ◌&&◌, List, [], ◌∷◌, ◌++◌, Option, none,
  some, ltb, leb, ◌==◌, if◌then◌else◌, length, get_or, set,
}

abbrev pub word : ℕ
word = 2 ^ 64

pub record MemoryBlock : Type 0 where
  pub address : ℕ
  pub size : ℕ
  pub is_free : Bool

-- `sizeof(MemoryBlock)`
abbrev pub block_bytes : ℕ
block_bytes = 24

pub record MemoryPool : Type 0 where
  pub total_size : ℕ
  pub used_size : ℕ
  pub blocks : List MemoryBlock

-- `std::sort` by address
pub insert_block : MemoryBlock → List MemoryBlock → List MemoryBlock
insert_block b [] = b ∷ []
insert_block b (c ∷ blocks) =
    let later = insert_block b blocks in
    if leb b.address c.address then b ∷ c ∷ blocks else c ∷ later

pub sort_blocks : List MemoryBlock → List MemoryBlock
sort_blocks [] = []
sort_blocks (b ∷ blocks) = insert_block b (sort_blocks blocks)

-- The loop that merges, from block `b` on: a block that took its neighbour is looked at again.
pub merge_from : MemoryBlock → List MemoryBlock → List MemoryBlock
merge_from b [] = b ∷ []
merge_from b (c ∷ blocks) =
    let merged = merge_from (record b { size = (b.size + c.size) % word }) blocks in
    let kept = merge_from c blocks in if b.is_free && c.is_free then merged else b ∷ kept

-- `none` where the list is empty: `blocks.size() - 1` wraps, and the loop reads outside.
pub merge_free : List MemoryBlock → Option (List MemoryBlock)
merge_free [] = none
merge_free (b ∷ blocks) = some (merge_from b blocks)

abbrev pub no_block : MemoryBlock
no_block = record { address = 0; size = 0; is_free = true }

-- The loop that compacts, with the rounds that are left: the blocks, and what is moved, as from, to
-- and size.
pub compact : ℕ → ℕ → ℕ → List MemoryBlock → List MemoryBlock × List (ℕ × ℕ × ℕ)
compact zero read write blocks = (blocks, [])
compact (suc rounds) read write blocks =
    let b = get_or blocks read no_block in
    let passed = compact rounds (read + 1) write blocks in
    let kept = compact rounds (read + 1) (write + 1) blocks in
    let (blocks', moves) = compact rounds (read + 1) (write + 1) (set blocks write b) in
    if b.is_free
    then passed
    else if write == read
    then kept
    else (blocks', (b.address, (get_or blocks write no_block).address, b.size) ∷ moves)

pub defragment : List MemoryBlock → Option (List MemoryBlock × List (ℕ × ℕ × ℕ))
defragment blocks = elim (merge_free (sort_blocks blocks)) [
  | none ↦ none
  | some merged ↦ some (compact (length merged) 0 0 merged)
]

-- `find_if` and what is done to the block that it finds.
pub reserve_in : ℕ → List MemoryBlock → Option (List MemoryBlock)
reserve_in size [] = none
reserve_in size (b ∷ blocks) = elim (b.is_free && leb size b.size) [
  | true ↦ some (
      if ltb ((size + block_bytes) % word) b.size
      then record b { size = size; is_free = false }
        ∷ record { address = (b.address + size) % word; size = b.size - size; is_free = true }
        ∷ blocks
      else record b { is_free = false } ∷ blocks)
  | false ↦ elim (reserve_in size blocks) [ none ↦ none | some rest ↦ some (b ∷ rest) ]
]

pub data Reservation : Type 0 where
  reserved : MemoryPool → Reservation
  out_of_bounds running : Reservation

-- `reserveMemoryBlock` calls itself after each defragmentation: `running` where these rounds do not
-- bring it to an end.
pub reserve_memory_block : ℕ → ℕ → MemoryPool → Reservation
reserve_memory_block zero size pool = running
reserve_memory_block (suc rounds) size pool = elim (reserve_in size pool.blocks) [
  | some blocks ↦
      reserved (record pool { used_size = (pool.used_size + size) % word; blocks = blocks })
  | none ↦ elim (defragment pool.blocks) [
    | none ↦ out_of_bounds
    | some (blocks, moves) ↦ reserve_memory_block rounds size (record pool { blocks = blocks })
  ]
]
