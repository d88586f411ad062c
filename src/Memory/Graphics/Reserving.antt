-- ===== src/Memory/Graphics/Reserving.antt =====
-- Reserving a block: a request for more than the free blocks hold together.
use kernelc_moderne.Prelude.{
  ℕ, zero, suc, ◌≡◌, ◌≤◌, ◌<◌, refl, sym, ◌∙◌, ap, inl, inr, ◌+◌, ◌%◌, Bool, true, false, ◌&&◌,
  List, [], ◌∷◌, ◌++◌, none, some, leb, leb→le, if◌then◌else◌, length, Bool-cases, and_left,
  and_right, arith,
}
use kernelc_moderne.Memory.Graphics.{
  word, MemoryBlock, MemoryPool, insert_block, sort_blocks, merge_from, merge_free, compact,
  defragment, reserve_in, Reservation, reserve_memory_block,
}
use kernelc_moderne.Memory.Graphics.Merging.{
  used_blocks, free_size, free_size-sort_blocks, free_size-merge_from,
}
use kernelc_moderne.Memory.Graphics.Compacting.{drop, compact-used_blocks}

unfoldable pub is_nonempty : List MemoryBlock → Bool
is_nonempty [] = false
is_nonempty (b ∷ blocks) = true

is_nonempty-insert_block :
    (b : MemoryBlock) (blocks : List MemoryBlock) → is_nonempty (insert_block b blocks) ≡ true
unfolding is_nonempty insert_block
is_nonempty-insert_block b [] = refl
is_nonempty-insert_block b (c ∷ blocks) = elim (Bool-cases (leb b.address c.address)) [
  | inl e ↦ rw e refl
  | inr e ↦ rw e refl
]

is_nonempty-merge_from :
    (b : MemoryBlock) (blocks : List MemoryBlock) → is_nonempty (merge_from b blocks) ≡ true
unfolding is_nonempty merge_from
is_nonempty-merge_from b [] = refl
is_nonempty-merge_from b (c ∷ blocks) = elim (Bool-cases (b.is_free && c.is_free)) [
  | inl e ↦ rw e (is_nonempty-merge_from (record b { size = (b.size + c.size) % word }) blocks)
  | inr e ↦ rw e refl
]

free_size-append : (xs ys : List MemoryBlock) → free_size (xs ++ ys) ≡ free_size xs + free_size ys
unfolding free_size
free_size-append [] ys = omega arith
free_size-append (b ∷ xs) ys =
    ap (λ n. (if b.is_free then b.size else 0) + n) (free_size-append xs ys) ∙ omega arith

free_size-used_blocks : (blocks : List MemoryBlock) → free_size (used_blocks blocks) ≡ 0
unfolding free_size used_blocks
free_size-used_blocks [] = refl
free_size-used_blocks (b ∷ blocks) = elim (Bool-cases b.is_free) [
  | inl e ↦ rw e (free_size-used_blocks blocks)
  | inr e ↦ rw e (omega (arith, free_size-used_blocks blocks))
]

free_size-drop : (n : ℕ) (blocks : List MemoryBlock) → free_size (drop n blocks) ≤ free_size blocks
unfolding free_size drop
free_size-drop zero blocks = omega arith
free_size-drop (suc n) [] = omega arith
free_size-drop (suc n) (b ∷ blocks) = omega (arith, free_size-drop n blocks)

free_size-compact :
    (blocks : List MemoryBlock)
    → free_size (compact (length blocks) 0 0 blocks).0 ≤ free_size blocks
free_size-compact blocks =
    rw
      (
        compact-used_blocks blocks,
        free_size-append (used_blocks blocks) (drop (length (used_blocks blocks)) blocks),
        free_size-used_blocks blocks,
      )
      (omega (arith, free_size-drop (length (used_blocks blocks)) blocks))

is_nonempty-either :
    (xs ys : List MemoryBlock)
    → is_nonempty ys ≡ true
    → is_nonempty (xs ++ drop (length xs) ys) ≡ true
unfolding is_nonempty drop
is_nonempty-either [] ys h = h
is_nonempty-either (x ∷ xs) ys h = refl

is_nonempty-compact :
    (blocks : List MemoryBlock)
    → is_nonempty blocks ≡ true
    → is_nonempty (compact (length blocks) 0 0 blocks).0 ≡ true
is_nonempty-compact blocks h =
    rw (compact-used_blocks blocks) (is_nonempty-either (used_blocks blocks) blocks h)

-- A defragmentation of at least one block gives blocks, and no more free bytes.
abbrev Defragmented : List MemoryBlock → Type 0
Defragmented blocks =
    (blocks' : List MemoryBlock) × (moves : List (ℕ × ℕ × ℕ)) × (defragment blocks
      ≡ some (blocks', moves))
    × (is_nonempty blocks' ≡ true)
    × (free_size blocks' ≤ free_size blocks)

defragment_sorted :
    (blocks : List MemoryBlock) (b : MemoryBlock) (sorted : List MemoryBlock)
    → sort_blocks blocks ≡ b ∷ sorted
    → Defragmented blocks
unfolding defragment merge_free
defragment_sorted blocks b sorted e =
    let merged = merge_from b sorted in
    (
      (compact (length merged) 0 0 merged).0,
      (compact (length merged) 0 0 merged).1,
      rw (e, defragment) refl,
      is_nonempty-compact merged (is_nonempty-merge_from b sorted),
      omega (
        arith,
        free_size-compact merged,
        free_size-merge_from b sorted,
        sym (ap free_size e) ∙ free_size-sort_blocks blocks,
      ),
    )

defragment_some : (blocks : List MemoryBlock) → is_nonempty blocks ≡ true → Defragmented blocks
unfolding is_nonempty sort_blocks
defragment_some [] h = absurd (cc h)
defragment_some (b ∷ blocks) h =
    go (sort_blocks (b ∷ blocks)) refl (is_nonempty-insert_block b (sort_blocks blocks))
  where
    go :
        (sorted : List MemoryBlock)
        → sort_blocks (b ∷ blocks) ≡ sorted
        → is_nonempty sorted ≡ true
        → Defragmented (b ∷ blocks)
    go [] e full = absurd (cc full)
    go (c ∷ sorted) e full = defragment_sorted (b ∷ blocks) c sorted e

reserve_in-none :
    (size : ℕ) (blocks : List MemoryBlock) → free_size blocks < size → reserve_in size blocks ≡ none
unfolding free_size reserve_in
reserve_in-none size [] h = refl
reserve_in-none size (b ∷ blocks) h = elim (Bool-cases (b.is_free && leb size b.size)) [
  | inl e ↦ absurd (too_large (and_left _ _ e) (leb→le size b.size (and_right b.is_free _ e)))
  | inr e ↦ rw (e, reserve_in, reserve_in-none size blocks (omega (arith, h))) refl
]
  where
    too_large : b.is_free ≡ true → size ≤ b.size → ⊥
    too_large free le =
        let first : free_size (b ∷ blocks) ≡ b.size + free_size blocks = rw free refl in
        omega (arith, h, le, first)

-- A request for more bytes than the free blocks hold together, on a pool with at least one block:
-- whatever the number of rounds, `reserveMemoryBlock` has not come to an end after them. Each
-- call finds no block, and calls itself again after a defragmentation.
pub reserve_memory_block-running :
    (rounds size : ℕ) (pool : MemoryPool)
    → is_nonempty pool.blocks ≡ true
    → free_size pool.blocks < size
    → reserve_memory_block rounds size pool ≡ Reservation.running
unfolding reserve_memory_block
reserve_memory_block-running zero size pool full small = refl
reserve_memory_block-running (suc rounds) size pool full small =
    let (blocks, moves, e, still, fewer) = defragment_some pool.blocks full in
    rw (reserve_in-none size pool.blocks small, reserve_memory_block, e)
      (reserve_memory_block-running rounds size (record pool { blocks = blocks }) still
        (omega (arith, fewer, small)))
