-- ===== src/Memory/Game/Sizes.antt =====
-- The sizes and keys of a table of pointers.
use kernelc_moderne.Prelude.{
  ℕ, ◌≡◌, refl, ◌∙◌, ap, inl, inr, ◌+◌, false, List, [], ◌∷◌, none, some, ◌==◌, ==_iff, ==_refl,
  lookup, insert, erase, lookup-insert, lookup-erase, Bool-cases, arith,
}

unfoldable pub total_size : List (ℕ × ℕ) → ℕ
total_size [] = 0
total_size ((ptr, size) ∷ rest) = size + total_size rest

-- Each key stands once.
unfoldable pub Distinct : List (ℕ × ℕ) → Type 0
Distinct [] = Unit {0}
Distinct ((ptr, size) ∷ rest) = (lookup ptr rest ≡ none) × Distinct rest

absent_head :
    (ptr ptr' size : ℕ) (rest : List (ℕ × ℕ))
    → lookup ptr ((ptr', size) ∷ rest) ≡ none
    → ((ptr == ptr') ≡ false) × (lookup ptr rest ≡ none)
unfolding lookup
absent_head ptr ptr' size rest h = (ground (arith, h), ground (arith, h))

erase-absent : (ptr : ℕ) (table : List (ℕ × ℕ)) → lookup ptr table ≡ none → erase ptr table ≡ table
unfolding erase
erase-absent ptr [] h = refl
erase-absent ptr ((ptr', size) ∷ rest) h =
    let (other, later) = absent_head ptr ptr' size rest h in
    rw (erase, other) (ap (λ l. (ptr', size) ∷ l) (erase-absent ptr rest later))

pub erase-insert :
    (ptr size : ℕ) (table : List (ℕ × ℕ))
    → lookup ptr table ≡ none
    → erase ptr (insert ptr size table) ≡ table
unfolding erase insert
erase-insert ptr size [] h = rw (erase, ==_refl ptr) refl
erase-insert ptr size ((ptr', size') ∷ rest) h =
    let (other, later) = absent_head ptr ptr' size' rest h in
    rw (insert, other, erase, other)
      (ap (λ l. (ptr', size') ∷ l) (erase-insert ptr size rest later))

pub total_size-insert :
    (ptr size : ℕ) (table : List (ℕ × ℕ))
    → lookup ptr table ≡ none
    → total_size (insert ptr size table) ≡ total_size table + size
unfolding insert total_size
total_size-insert ptr size [] h = omega arith
total_size-insert ptr size ((ptr', size') ∷ rest) h =
    let (other, later) = absent_head ptr ptr' size' rest h in
    rw (insert, other) (omega (arith, total_size-insert ptr size rest later))

pub total_size-erase :
    (ptr size : ℕ) (table : List (ℕ × ℕ))
    → Distinct table
    → lookup ptr table ≡ some size
    → total_size (erase ptr table) + size ≡ total_size table
unfolding lookup erase total_size Distinct
total_size-erase ptr size [] d h = absurd (cc h)
total_size-erase ptr size ((ptr', size') ∷ rest) d h = elim (Bool-cases (ptr == ptr')) [
  | inl e ↦
      let gone : lookup ptr rest ≡ none = rw ((==_iff ptr ptr').0 e) d.0 in
      let value : size' ≡ size = ground (arith, h, e) in
      rw (erase, e, erase-absent ptr rest gone) (omega (arith, value))
  | inr e ↦
      let later : lookup ptr rest ≡ some size = ground (arith, h, e) in
      rw (erase, e) (omega (arith, total_size-erase ptr size rest d.1 later))
]

pub Distinct-insert :
    (ptr size : ℕ) (table : List (ℕ × ℕ))
    → lookup ptr table ≡ none
    → Distinct table
    → Distinct (insert ptr size table)
unfolding insert Distinct
Distinct-insert ptr size [] h d = (h, tt)
Distinct-insert ptr size ((ptr', size') ∷ rest) h d =
    let (other, later) = absent_head ptr ptr' size' rest h in
    let same : lookup ptr' (insert ptr size rest) ≡ none =
      lookup-insert ptr ptr' size rest ∙ rw other d.0 in
    rw (insert, other) (same, Distinct-insert ptr size rest later d.1)

pub Distinct-erase : (ptr : ℕ) (table : List (ℕ × ℕ)) → Distinct table → Distinct (erase ptr table)
unfolding erase Distinct
Distinct-erase ptr [] d = d
Distinct-erase ptr ((ptr', size') ∷ rest) d = elim (Bool-cases (ptr == ptr')) [
  | inl e ↦ rw (erase, e) (Distinct-erase ptr rest d.1)
  | inr e ↦
      let same : lookup ptr' (erase ptr rest) ≡ none = lookup-erase ptr ptr' rest ∙ rw e d.0 in
      rw (erase, e) (same, Distinct-erase ptr rest d.1)
]
