-- ===== src/Memory/Compression/Inactive.antt =====
-- The pass over the blocks: what it calls `compressPage` on, and what a second pass does.
use kernelc_moderne.Prelude.{
  ℕ, ◌≡◌, refl, sym, ◌∙◌, ap, inl, inr, ◌+◌, Bool, true, false, not, ◌&&◌, List, [], ◌∷◌, Option,
  none, some, ◌==◌, ==_refl, if◌then◌else◌, All, lookup, insert, lookup-insert, Bool-cases,
  Option-cases, arith,
}
use kernelc_moderne.Memory.Compression.{
  PageInfo, MemoryBlock, Tracker, is_inactive, compress_block, compress_inactive_pages,
}

-- Whether the pass is to compress the page of the block, given what is known of the page.
abbrev is_due_for : ℕ → MemoryBlock → Option PageInfo → Bool
is_due_for now block none = false
is_due_for now block (some info) =
    not block.is_free && is_inactive now (some info) && not info.is_compressed

unfoldable pub is_due : ℕ → Tracker → MemoryBlock → Bool
is_due now t block = is_due_for now block (lookup block.address t.pages)

abbrev pub marked : Tracker → MemoryBlock → PageInfo → Tracker
marked t block info = record {
  pages = insert block.address (record info { is_compressed = true }) t.pages;
  compressed_memory = t.compressed_memory + block.size;
}

compress_block-due :
    (now : ℕ) (t : Tracker) (block : MemoryBlock)
    → is_due now t block ≡ true
    → (info : PageInfo) × (compress_block now t block ≡ (marked t block info, block.address ∷ []))
unfolding is_due compress_block
compress_block-due now t block due = elim (Option-cases (lookup block.address t.pages)) [
  | inl e ↦ absurd (cc (sym (ap (is_due_for now block) e) ∙ due))
  | inr (info, e) ↦ (info, rw (e, compress_block, sym (ap (is_due_for now block) e) ∙ due) refl)
]

compress_block-other :
    (now : ℕ) (t : Tracker) (block : MemoryBlock)
    → is_due now t block ≡ false
    → compress_block now t block ≡ (t, [])
unfolding is_due compress_block
compress_block-other now t block due = elim (Option-cases (lookup block.address t.pages)) [
  | inl e ↦ rw (e, compress_block) refl
  | inr (info, e) ↦ rw (e, compress_block, sym (ap (is_due_for now block) e) ∙ due) refl
]

not_due :
    (now : ℕ) (block : MemoryBlock) (info : PageInfo)
    → is_due_for now block (some (record info { is_compressed = true })) ≡ false
not_due now block info = ground arith

is_due-marked :
    (now : ℕ) (t : Tracker) (block other : MemoryBlock) (info : PageInfo)
    → is_due now (marked t block info) other
      ≡ (if block.address == other.address then false else is_due now t other)
unfolding is_due
is_due-marked now t block other info =
    ap (is_due_for now other) (lookup-insert block.address other.address _ t.pages)
    ∙ split (block.address == other.address)
  where
    split :
        (b : Bool)
        → is_due_for now other (
            if b then some (record info { is_compressed = true }) else lookup other.address t.pages)
          ≡ (if b then false else is_due_for now other (lookup other.address t.pages))
    split true = not_due now other info
    split false = refl

is_due-compress_block :
    (now : ℕ) (t : Tracker) (block other : MemoryBlock)
    → is_due now t other ≡ false
    → is_due now (compress_block now t block).0 other ≡ false
is_due-compress_block now t block other h = elim (Bool-cases (is_due now t block)) [
  | inl due ↦
      let (info, e) = compress_block-due now t block due in
      rw e (is_due-marked now t block other info ∙ either (block.address == other.address) _ h)
  | inr due ↦ rw (compress_block-other now t block due) h
]
  where
    either : (b c : Bool) → c ≡ false → (if b then false else c) ≡ false
    either true c e = refl
    either false c e = e

is_due-itself :
    (now : ℕ) (t : Tracker) (block : MemoryBlock)
    → is_due now (compress_block now t block).0 block ≡ false
is_due-itself now t block = elim (Bool-cases (is_due now t block)) [
  | inl due ↦
      let (info, e) = compress_block-due now t block due in
      rw e (is_due-marked now t block block info ∙ rw (==_refl block.address) refl)
  | inr due ↦ rw (compress_block-other now t block due) due
]

is_due-pass :
    (now : ℕ) (t : Tracker) (blocks : List MemoryBlock) (other : MemoryBlock)
    → is_due now t other ≡ false
    → is_due now (compress_inactive_pages now t blocks).0 other ≡ false
unfolding compress_inactive_pages
is_due-pass now t [] other h = h
is_due-pass now t (block ∷ blocks) other h =
    is_due-pass now (compress_block now t block).0 blocks other
      (is_due-compress_block now t block other h)

all_done :
    (now : ℕ) (t : Tracker) (blocks : List MemoryBlock)
    → All (λ b. is_due now (compress_inactive_pages now t blocks).0 b ≡ false) blocks
unfolding compress_inactive_pages
all_done now t [] = tt
all_done now t (block ∷ blocks) = (
  is_due-pass now (compress_block now t block).0 blocks block (is_due-itself now t block),
  all_done now (compress_block now t block).0 blocks,
)

nothing_due :
    (now : ℕ) (t : Tracker) (blocks : List MemoryBlock)
    → All (λ b. is_due now t b ≡ false) blocks
    → compress_inactive_pages now t blocks ≡ (t, [])
unfolding compress_inactive_pages
nothing_due now t [] all = refl
nothing_due now t (block ∷ blocks) all =
    rw (compress_block-other now t block all.0, nothing_due now t blocks all.1) refl

-- After a pass, no block is due: none in use has a page that is inactive and not marked as
-- compressed. A second pass at the same time calls `compressPage` on nothing and changes
-- nothing.
pub compress_inactive_pages-settled :
    (now : ℕ) (t : Tracker) (blocks : List MemoryBlock)
    → let t' = (compress_inactive_pages now t blocks).0 in
      All (λ b. is_due now t' b ≡ false) blocks × (compress_inactive_pages now t' blocks ≡ (t', []))
compress_inactive_pages-settled now t blocks =
    (all_done now t blocks, nothing_due now _ blocks (all_done now t blocks))
