-- ===== src/Memory/Graphics/Compacting.antt =====
-- Compacting: which list of blocks it leaves.
use kernelc_moderne.Prelude.{
  ℕ, zero, suc, ◌≡◌, refl, sym, ◌∙◌, ap, inl, inr, ◌+◌, true, false, List, [], ◌∷◌, ◌++◌, ◌==◌,
  ==_iff, ==_ne, length, length-append, append_assoc, get_or, set, Bool-cases, arith,
}
use kernelc_moderne.Memory.Graphics.{MemoryBlock, no_block, compact}
use kernelc_moderne.Memory.Graphics.Merging.{used_blocks}

-- The blocks after the first `n`.
unfoldable pub drop : ℕ → List MemoryBlock → List MemoryBlock
drop zero blocks = blocks
drop (suc n) [] = []
drop (suc n) (b ∷ blocks) = drop n blocks

get_or-append :
    (front back : List MemoryBlock) (b : MemoryBlock)
    → get_or (front ++ (b ∷ back)) (length front) no_block ≡ b
get_or-append [] back b = refl
get_or-append (f ∷ front) back b = get_or-append front back b

set-append :
    (front back : List MemoryBlock) (b c : MemoryBlock)
    → set (front ++ (b ∷ back)) (length front) c ≡ front ++ (c ∷ back)
set-append [] back b c = refl
set-append (f ∷ front) back b c = ap (λ l. f ∷ l) (set-append front back b c)

abbrev one : MemoryBlock → List MemoryBlock
one b = b ∷ []

module _ (rounds read write : ℕ) (blocks : List MemoryBlock) (b : MemoryBlock)
    (here : get_or blocks read no_block ≡ b) where
  compact-free :
      b.is_free ≡ true
      → (compact (suc rounds) read write blocks).0 ≡ (compact rounds (read + 1) write blocks).0
  unfolding compact
  compact-free free = rw (here, free) refl

  compact-kept :
      b.is_free ≡ false
      → (write == read) ≡ true
      → (compact (suc rounds) read write blocks).0
        ≡ (compact rounds (read + 1) (write + 1) blocks).0
  unfolding compact
  compact-kept used same = rw (here, used, same) refl

  compact-moved :
      b.is_free ≡ false
      → (write == read) ≡ false
      → (compact (suc rounds) read write blocks).0
        ≡ (compact rounds (read + 1) (write + 1) (set blocks write b)).0
  unfolding compact
  compact-moved used other = rw (here, used, other) refl

used_blocks-free :
    (b : MemoryBlock) (blocks : List MemoryBlock)
    → b.is_free ≡ true
    → used_blocks (b ∷ blocks) ≡ used_blocks blocks
unfolding used_blocks
used_blocks-free b blocks free = rw free refl

used_blocks-used :
    (b : MemoryBlock) (blocks : List MemoryBlock)
    → b.is_free ≡ false
    → used_blocks (b ∷ blocks) ≡ b ∷ used_blocks blocks
unfolding used_blocks
used_blocks-used b blocks used = rw used refl

get_or-read :
    (front middle rest : List MemoryBlock) (b : MemoryBlock) (read : ℕ)
    → read ≡ length front + length middle
    → get_or (front ++ (middle ++ (b ∷ rest))) read no_block ≡ b
get_or-read front middle rest b read at =
    ap (λ i. get_or (front ++ (middle ++ (b ∷ rest))) i no_block)
      (at ∙ sym (length-append front middle))
    ∙ ap (λ l. get_or l (length (front ++ middle)) no_block)
        (sym (append_assoc front middle (b ∷ rest)))
    ∙ get_or-append (front ++ middle) rest b

-- What the loop leaves behind the blocks that it has put in place.
unfoldable pub compacted : List MemoryBlock → List MemoryBlock → List MemoryBlock
compacted middle rest = used_blocks rest ++ drop (length (used_blocks rest)) (middle ++ rest)

-- A free block is passed.
pass_free :
    (front middle rest : List MemoryBlock) (b : MemoryBlock)
    → b.is_free ≡ true
    → front ++ compacted (middle ++ one b) rest ≡ front ++ compacted middle (b ∷ rest)
unfolding compacted
pass_free front middle rest b free = rw (used_blocks-free b rest free) (
    ap (λ l. front ++ (used_blocks rest ++ drop (length (used_blocks rest)) l))
      (append_assoc middle (one b) rest))

-- A block in use takes the place of the first of the middle.
take_place :
    (front middle rest : List MemoryBlock) (b x : MemoryBlock)
    → b.is_free ≡ false
    → (front ++ one b) ++ compacted (middle ++ one b) rest
      ≡ front ++ compacted (x ∷ middle) (b ∷ rest)
unfolding compacted drop
take_place front middle rest b x used =
    append_assoc front (one b) _
    ∙ rw (used_blocks-used b rest used) (
        ap (λ l. front ++ (b ∷ (used_blocks rest ++ drop (length (used_blocks rest)) l)))
          (append_assoc middle (one b) rest))

stay_in_place :
    (front rest : List MemoryBlock) (b : MemoryBlock)
    → b.is_free ≡ false
    → (front ++ one b) ++ compacted [] rest ≡ front ++ compacted [] (b ∷ rest)
unfolding compacted drop
stay_in_place front rest b used =
    append_assoc front (one b) _ ∙ rw (used_blocks-used b rest used) refl

-- The loop, once it has put `front` in place and stands behind `middle`.
compact_from :
    (front middle rest : List MemoryBlock) (read write : ℕ)
    → read ≡ length front + length middle
    → write ≡ length front
    → (compact (length rest) read write (front ++ (middle ++ rest))).0
      ≡ front ++ compacted middle rest
unfolding compacted compact used_blocks drop
compact_from front middle [] read write at to = refl
compact_from front [] (b ∷ rest) read write at to = elim (Bool-cases b.is_free) [
  | inl free ↦
      compact-free _ read write _ b (get_or-read front [] rest b read at) free
      ∙ compact_from front (one b) rest (read + 1) write (omega (arith, at)) to
      ∙ pass_free front [] rest b free
  | inr used ↦
      compact-kept _ read write _ b (get_or-read front [] rest b read at) used
        ((==_iff write read).1 (omega (arith, at, to)))
      ∙ ap (λ l. (compact (length rest) (read + 1) (write + 1) l).0)
          (sym (append_assoc front (one b) rest))
      ∙ compact_from (front ++ one b) [] rest (read + 1) (write + 1)
          (omega (arith, at, length-append front (one b)))
          (omega (arith, to, length-append front (one b)))
      ∙ stay_in_place front rest b used
]
compact_from front (x ∷ middle) (b ∷ rest) read write at to = elim (Bool-cases b.is_free) [
  | inl free ↦
      compact-free _ read write _ b (get_or-read front (x ∷ middle) rest b read at) free
      ∙ ap (λ l. (compact (length rest) (read + 1) write (front ++ (x ∷ l))).0)
          (sym (append_assoc middle (one b) rest))
      ∙ compact_from front ((x ∷ middle) ++ one b) rest (read + 1) write
          (omega (arith, at, length-append middle (one b))) to
      ∙ pass_free front (x ∷ middle) rest b free
  | inr used ↦
      compact-moved _ read write _ b (get_or-read front (x ∷ middle) rest b read at) used
        (==_ne write read (λ e. omega (arith, at, to, e)))
      ∙ ap (λ l. (compact (length rest) (read + 1) (write + 1) l).0)
          (ap (λ i. set (front ++ (x ∷ (middle ++ (b ∷ rest)))) i b) to
            ∙ set-append front (middle ++ (b ∷ rest)) x b
            ∙ sym (append_assoc front (one b) _)
            ∙ ap (λ l. (front ++ one b) ++ l) (sym (append_assoc middle (one b) rest)))
      ∙ compact_from (front ++ one b) (middle ++ one b) rest (read + 1) (write + 1)
          (omega (arith, at, length-append front (one b), length-append middle (one b)))
          (omega (arith, to, length-append front (one b)))
      ∙ take_place front middle rest b x used
]

-- Compacting a list of blocks leaves the blocks in use, in order, and behind them the old list from
-- that index on: a block in use that stood there is then in the list twice.
pub compact-used_blocks :
    (blocks : List MemoryBlock)
    → (compact (length blocks) 0 0 blocks).0
      ≡ used_blocks blocks ++ drop (length (used_blocks blocks)) blocks
unfolding compacted
compact-used_blocks blocks = compact_from [] [] blocks 0 0 (omega arith) refl
