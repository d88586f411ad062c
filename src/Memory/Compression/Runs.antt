-- ===== src/Memory/Compression/Runs.antt =====
-- The runs of a page, and reading them back.
use kernelc_moderne.Prelude.{
  ℕ, zero, suc, ◌≡◌, ◌≤◌, ◌<◌, refl, sym, ◌∙◌, ap, ap₂, inl, inr, ◌+◌, ◌-◌, List, [], ◌∷◌, ◌++◌,
  ◌==◌, ==_iff, ◌⊎◌, leb, ltb, length, replicate, All, All-append, All-replicate, length-append,
  length-replicate, Bool-cases, ltb→lt, leb→le, arith,
}
use kernelc_moderne.Memory.Compression.{page_size, run, rle, rewrite, compress_page}

-- The bytes that a compressed page stands for: a count of 0 ends the runs.
unfoldable pub expand : List ℕ → List ℕ
expand [] = []
expand (count ∷ []) = []
expand (zero ∷ (b ∷ rest)) = []
expand (suc count ∷ (b ∷ rest)) = replicate (suc count) b ++ expand rest

run-replicate :
    (limit current : ℕ) (bytes : List ℕ)
    → replicate (run limit current bytes).0 current ++ (run limit current bytes).1 ≡ bytes
unfolding run
run-replicate zero current bytes = refl
run-replicate (suc limit) current [] = refl
run-replicate (suc limit) current (b ∷ bytes) = elim (Bool-cases (b == current)) [
  | inl e ↦
      rw e (ap₂ (λ x l. x ∷ l) (sym ((==_iff b current).0 e)) (run-replicate limit current bytes))
  | inr e ↦ rw e refl
]

run-length :
    (limit current : ℕ) (bytes : List ℕ)
    → ((run limit current bytes).0 ≤ limit)
      × ((run limit current bytes).0 + length (run limit current bytes).1 ≡ length bytes)
unfolding run
run-length zero current bytes = (omega arith, omega arith)
run-length (suc limit) current [] = (omega arith, omega arith)
run-length (suc limit) current (b ∷ bytes) = elim (Bool-cases (b == current)) [
  | inl e ↦ rw e (
    omega (arith, (run-length limit current bytes).0),
    omega (arith, (run-length limit current bytes).1),
  )
  | inr e ↦ rw e (omega arith, omega arith)
]

run-All :
    (limit current : ℕ) (bytes : List ℕ)
    → All (λ b. b < 256) bytes
    → All (λ b. b < 256) (run limit current bytes).1
unfolding run
run-All zero current bytes all = all
run-All (suc limit) current [] all = all
run-All (suc limit) current (b ∷ bytes) all = elim (Bool-cases (b == current)) [
  | inl e ↦ rw e (run-All limit current bytes all.1)
  | inr e ↦ rw e all
]

expand-zeros : (n : ℕ) → expand (replicate n 0) ≡ []
unfolding expand
expand-zeros zero = refl
expand-zeros (suc zero) = refl
expand-zeros (suc (suc n)) = refl

-- Enough rounds: one for each byte.
expand-rle :
    (rounds n : ℕ) (bytes : List ℕ)
    → length bytes ≤ rounds
    → expand (rle rounds bytes ++ replicate n 0) ≡ bytes
unfolding rle expand
expand-rle zero n [] h = expand-zeros n
expand-rle zero n (b ∷ bytes) h = absurd (omega (arith, h))
expand-rle (suc rounds) n [] h = expand-zeros n
expand-rle (suc rounds) n (b ∷ bytes) h =
    let r = run-length 254 b bytes in
    ap (λ l. b ∷ (replicate (run 254 b bytes).0 b ++ l))
      (expand-rle rounds n (run 254 b bytes).1 (omega (arith, h, r.1)))
    ∙ ap (λ l. b ∷ l) (run-replicate 254 b bytes)

rle-All :
    (rounds : ℕ) (bytes : List ℕ) → All (λ b. b < 256) bytes → All (λ b. b < 256) (rle rounds bytes)
unfolding rle
rle-All zero bytes all = tt
rle-All (suc rounds) [] all = tt
rle-All (suc rounds) (b ∷ bytes) all = (
  omega (arith, (run-length 254 b bytes).0),
  (all.0, rle-All rounds (run 254 b bytes).1 (run-All 254 b bytes all.1)),
)

-- What `compressPage` may leave of a page: the page, or runs that stand for it.
abbrev pub Kept : List ℕ → List ℕ → Type 0
Kept page page' = (page' ≡ page) ⊎ (expand page' ≡ page)

rewrite-Kept :
    (page : List ℕ)
    → length page ≡ page_size
    → All (λ b. b < 256) page
    → (length (rewrite page) ≡ page_size)
      × All (λ b. b < 256) (rewrite page)
      × Kept page (rewrite page)
unfolding rewrite
rewrite-Kept page size all = elim (Bool-cases (ltb (length (rle (length page) page)) page_size)) [
  | inl e ↦ rw e (
    length-append (rle (length page) page) _
        ∙ ap (λ n. length (rle (length page) page) + n)
            (length-replicate (page_size - length (rle (length page) page)) 0)
        ∙ omega (arith, ltb→lt _ _ e),
    All-append (λ b. b < 256) (rle (length page) page) _ (rle-All (length page) page all)
        (All-replicate (λ b. b < 256) _ 0 (omega arith)),
    inr (expand-rle (length page) _ page (omega arith)),
  )
  | inr e ↦ rw e (size, all, inl refl)
]

-- On a page of 4096 bytes, `compressPage` keeps the result of lz4 after those it has, and leaves a
-- page of 4096 bytes that is the old one or, read as runs up to the first count of 0, stands for
-- exactly the old one. If lz4 made the page smaller, it is the old one.
pub compress_page-Kept :
    (lz4 : List ℕ → List ℕ) (compressed_pages : List (List ℕ)) (page : List ℕ)
    → length page ≡ page_size
    → All (λ b. b < 256) page
    → let (compressed_pages', page') = compress_page lz4 compressed_pages page in
      (compressed_pages' ≡ compressed_pages ++ (lz4 page ∷ []))
      × (length page' ≡ page_size)
      × All (λ b. b < 256) page'
      × Kept page page'
      × (length (lz4 page) < page_size → page' ≡ page)
unfolding compress_page
compress_page-Kept lz4 compressed_pages page size all =
    elim (Bool-cases (leb page_size (length (lz4 page)))) [
      | inl e ↦
          let r = rewrite-Kept page size all in
          rw e (refl, r.0, r.1, r.2, λ small. absurd (omega (arith, leb→le _ _ e, small)))
      | inr e ↦ rw e (refl, size, all, inl refl, λ small. refl)
    ]
