-- ===== src/Memory/Graphics/Merging.antt =====
-- Sorting and merging: what they keep of the blocks.
use kernelc_moderne.Prelude.{
  ℕ, ◌≡◌, ◌≤◌, ◌<◌, refl, ◌∙◌, ap, inl, inr, ◌+◌, ◌%◌, Bool, true, false, not, ◌&&◌, List, [], ◌∷◌,
  some, leb, if◌then◌else◌, Bool-cases, and_left, and_right, arith,
}
use kernelc_moderne.Memory.Graphics.{
  word, MemoryBlock, insert_block, sort_blocks, merge_from, merge_free,
}

-- The bytes of the blocks, and those of the free ones.
unfoldable pub byte_count : List MemoryBlock → ℕ
byte_count [] = 0
byte_count (b ∷ blocks) = b.size + byte_count blocks

unfoldable pub free_size : List MemoryBlock → ℕ
free_size [] = 0
free_size (b ∷ blocks) = (if b.is_free then b.size else 0) + free_size blocks

-- The blocks in use, in order.
unfoldable pub used_blocks : List MemoryBlock → List MemoryBlock
used_blocks [] = []
used_blocks (b ∷ blocks) = let rest = used_blocks blocks in if b.is_free then rest else b ∷ rest

-- No free block stands behind another.
unfoldable pub is_merged : List MemoryBlock → Bool
is_merged [] = true
is_merged (b ∷ []) = true
is_merged (b ∷ (c ∷ blocks)) = not (b.is_free && c.is_free) && is_merged (c ∷ blocks)

free_size-insert_block :
    (b : MemoryBlock) (blocks : List MemoryBlock)
    → free_size (insert_block b blocks) ≡ free_size (b ∷ blocks)
unfolding free_size insert_block
free_size-insert_block b [] = refl
free_size-insert_block b (c ∷ blocks) = elim (Bool-cases (leb b.address c.address)) [
  | inl e ↦ rw e refl
  | inr e ↦ rw e (rw (free_size-insert_block b blocks) (omega arith))
]

pub free_size-sort_blocks :
    (blocks : List MemoryBlock) → free_size (sort_blocks blocks) ≡ free_size blocks
unfolding sort_blocks free_size
free_size-sort_blocks [] = refl
free_size-sort_blocks (b ∷ blocks) =
    free_size-insert_block b (sort_blocks blocks)
    ∙ ap (λ n. (if b.is_free then b.size else 0) + n) (free_size-sort_blocks blocks)

both_free :
    (b c : MemoryBlock) → (b.is_free && c.is_free) ≡ true → (b.is_free ≡ true) × (c.is_free ≡ true)
both_free b c e = (and_left b.is_free c.is_free e, and_right b.is_free c.is_free e)

joined_size :
    (f g : Bool) (x y n r : ℕ)
    → f ≡ true
    → g ≡ true
    → r ≤ (if f then (x + y) % word else 0) + n
    → r ≤ (if f then x else 0) + ((if g then y else 0) + n)
joined_size true true x y n r p q h = omega (arith, h)
joined_size true false x y n r p q h = absurd (cc q)
joined_size false g x y n r p q h = absurd (cc p)

first_of_both {ℓ} :
    {A : Type ℓ} (f g : Bool) (u x v w : A)
    → f ≡ true
    → g ≡ true
    → (if f then u else x) ≡ (if f then (if g then u else v) else w)
first_of_both true true u x v w p q = refl
first_of_both true false u x v w p q = absurd (cc q)
first_of_both false g u x v w p q = absurd (cc p)

pub free_size-merge_from :
    (b : MemoryBlock) (blocks : List MemoryBlock)
    → free_size (merge_from b blocks) ≤ free_size (b ∷ blocks)
unfolding free_size merge_from
free_size-merge_from b [] = omega arith
free_size-merge_from b (c ∷ blocks) = elim (Bool-cases (b.is_free && c.is_free)) [
  | inl e ↦
      let two = both_free b c e in
      rw e (
        joined_size b.is_free c.is_free b.size c.size _ _ two.0 two.1
          (free_size-merge_from (record b { size = (b.size + c.size) % word }) blocks))
  | inr e ↦ rw e (omega (arith, free_size-merge_from c blocks))
]

used_blocks-merge_from :
    (b : MemoryBlock) (blocks : List MemoryBlock)
    → used_blocks (merge_from b blocks) ≡ used_blocks (b ∷ blocks)
unfolding used_blocks merge_from
used_blocks-merge_from b [] = refl
used_blocks-merge_from b (c ∷ blocks) = elim (Bool-cases (b.is_free && c.is_free)) [
  | inl e ↦
      let two = both_free b c e in
      rw e (
        used_blocks-merge_from (record b { size = (b.size + c.size) % word }) blocks
        ∙ first_of_both b.is_free c.is_free _ _ _ _ two.0 two.1)
  | inr e ↦ rw (e, used_blocks-merge_from c blocks) refl
]

byte_count-merge_from :
    (b : MemoryBlock) (blocks : List MemoryBlock)
    → byte_count (b ∷ blocks) < word
    → byte_count (merge_from b blocks) ≡ byte_count (b ∷ blocks)
unfolding byte_count merge_from
byte_count-merge_from b [] h = refl
byte_count-merge_from b (c ∷ blocks) h = elim (Bool-cases (b.is_free && c.is_free)) [
  | inl e ↦ rw e (
      byte_count-merge_from (record b { size = (b.size + c.size) % word }) blocks (omega (arith, h))
      ∙ omega (arith, h))
  | inr e ↦ rw e (ap (λ n. b.size + n) (byte_count-merge_from c blocks (omega (arith, h))))
]

first_free : List MemoryBlock → Bool
first_free [] = false
first_free (b ∷ blocks) = b.is_free

first_free-merge_from :
    (b : MemoryBlock) (blocks : List MemoryBlock) → first_free (merge_from b blocks) ≡ b.is_free
unfolding first_free merge_from
first_free-merge_from b [] = refl
first_free-merge_from b (c ∷ blocks) = elim (Bool-cases (b.is_free && c.is_free)) [
  | inl e ↦ rw e (first_free-merge_from (record b { size = (b.size + c.size) % word }) blocks)
  | inr e ↦ rw e refl
]

is_merged-first :
    (b : MemoryBlock) (blocks : List MemoryBlock)
    → (b.is_free && first_free blocks) ≡ false
    → is_merged blocks ≡ true
    → is_merged (b ∷ blocks) ≡ true
unfolding is_merged first_free
is_merged-first b [] h rest = refl
is_merged-first b (c ∷ blocks) h rest = rw (h, rest) refl

is_merged-merge_from :
    (b : MemoryBlock) (blocks : List MemoryBlock) → is_merged (merge_from b blocks) ≡ true
unfolding merge_from is_merged
is_merged-merge_from b [] = refl
is_merged-merge_from b (c ∷ blocks) = elim (Bool-cases (b.is_free && c.is_free)) [
  | inl e ↦ rw e (is_merged-merge_from (record b { size = (b.size + c.size) % word }) blocks)
  | inr e ↦ rw e (
      is_merged-first b (merge_from c blocks)
        (ap (λ f. b.is_free && f) (first_free-merge_from c blocks) ∙ e)
        (is_merged-merge_from c blocks))
]

-- Merging at least one block, of which the sizes add up to less than the address space: no free
-- block stands behind a free block afterwards, the blocks in use are the same in the same order,
-- and the sizes add up to what they did.
pub merge_from-merged :
    (b : MemoryBlock) (blocks : List MemoryBlock)
    → byte_count (b ∷ blocks) < word
    → let merged = merge_from b blocks in
      (merge_free (b ∷ blocks) ≡ some merged)
      × (is_merged merged ≡ true)
      × (used_blocks merged ≡ used_blocks (b ∷ blocks))
      × (byte_count merged ≡ byte_count (b ∷ blocks))
unfolding merge_free
merge_from-merged b blocks h = (
  refl,
  is_merged-merge_from b blocks,
  used_blocks-merge_from b blocks,
  byte_count-merge_from b blocks h,
)
