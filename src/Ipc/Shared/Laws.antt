-- ===== src/Ipc/Shared/Laws.antt =====
-- Segments are counted references: unmapped by the last release, and by no other.
use kernelc_moderne.Prelude.{
  ℕ, ◌+◌, ◌-◌, ◌<◌, ◌≡◌, Bool, true, false, Option, none, some, arith, ◌==◌, ltb, leb,
  if◌then◌else◌, lookup, insert, erase, lookup-insert, lookup-erase, Option-cases, Bool-cases, inl,
  inr,
}
use kernelc_moderne.Ipc.Shared.{Segment, Segments, allocate, deallocate}

abbrev pub is_some {ℓ} : {A : Type ℓ} → Option A → Bool
is_some none = false
is_some (some a) = true

-- How many holders a name has.
pub holders : Segments → ℕ → ℕ
holders segments name = elim (lookup name segments) [ none ↦ 0 | some s ↦ s.ref_count ]

-- Every segment in the table has a holder.
abbrev pub IsCounted : Segments → Type 0
IsCounted segments = (name : ℕ) (s : Segment) → lookup name segments ≡ some s → 0 < s.ref_count

insert-IsCounted :
    (segments : Segments) (name : ℕ) (new : Segment)
    → IsCounted segments
    → 0 < new.ref_count
    → IsCounted (insert name new segments)
insert-IsCounted segments name new v pos other s e = elim (Bool-cases (name == other)) [
  | inl same ↦
      let new_eq : new ≡ s = cc (lookup-insert name other new segments, same) in rw (← new_eq) pos
  | inr differ ↦
      let old : lookup other segments ≡ some s =
        cc (lookup-insert name other new segments, differ) in
      v other s old
]

erase-IsCounted :
    (segments : Segments) (name : ℕ) → IsCounted segments → IsCounted (erase name segments)
erase-IsCounted segments name v other s e = elim (Bool-cases (name == other)) [
  | inl same ↦ absurd (ground (arith, lookup-erase name other segments))
  | inr differ ↦ v other s (ground (arith, lookup-erase name other segments))
]

pub allocate-IsCounted :
    (segments : Segments) (name size : ℕ) (mapped : Option ℕ)
    → IsCounted segments
    → IsCounted (allocate segments name size mapped).0
unfolding allocate
allocate-IsCounted segments name size mapped v = elim (Option-cases (lookup name segments)) [
  | inl new ↦ elim (Option-cases mapped) [
    | inl failed ↦ rw (new, allocate, failed) v
    | inr (a, got) ↦ rw (new, allocate, got) (insert-IsCounted segments name _ v (omega arith))
  ]
  | inr (s, e) ↦ rw (e, allocate) (insert-IsCounted segments name _ v (omega arith))
]

-- If every segment in the table has a holder, a release leaves it so.
pub deallocate-IsCounted :
    (segments : Segments) (name : ℕ) → IsCounted segments → IsCounted (deallocate segments name).0
unfolding deallocate
deallocate-IsCounted segments name v = elim (Option-cases (lookup name segments)) [
  | inl absent ↦ rw (absent, deallocate) v
  | inr (s, e) ↦ elim (Bool-cases (leb s.ref_count 1)) [
    | inl last ↦ rw (e, deallocate, last) (erase-IsCounted segments name v)
    | inr shared ↦ rw (e, deallocate, shared) (insert-IsCounted segments name _ v (ground arith))
  ]
]

holders-insert :
    (segments : Segments) (name other : ℕ) (s : Segment)
    → holders (insert name s segments) other
      ≡ (if name == other then s.ref_count else holders segments other)
unfolding holders
holders-insert segments name other s = ground (arith, lookup-insert name other s segments)

holders-erase :
    (segments : Segments) (name other : ℕ)
    → holders (erase name segments) other ≡ (if name == other then 0 else holders segments other)
unfolding holders
holders-erase segments name other = ground (arith, lookup-erase name other segments)

holders-none :
    (segments : Segments) (name : ℕ) → lookup name segments ≡ none → holders segments name ≡ 0
unfolding holders
holders-none segments name e = rw (e, holders)

holders-some :
    (segments : Segments) (name : ℕ) (s : Segment)
    → lookup name segments ≡ some s
    → holders segments name ≡ s.ref_count
unfolding holders
holders-some segments name s e = rw (e, holders)

holders-same :
    (segments : Segments) (name other : ℕ)
    → (name == other) ≡ true
    → holders segments other ≡ holders segments name
holders-same segments name other e = let eq : name ≡ other = ground arith in rw eq

-- The number of holders of `other` after a request for `name` with the given result.
abbrev pub one_more : ℕ → ℕ → ℕ → Option ℕ → ℕ
one_more name other count none = count
one_more name other count (some address) = if name == other then count + 1 else count

-- A request that succeeds adds one holder of its name and of no other; one that fails, nothing.
pub allocate-holders :
    (segments : Segments) (name size other : ℕ) (mapped : Option ℕ)
    → let (segments', result) = allocate segments name size mapped in
      holders segments' other ≡ one_more name other (holders segments other) result
unfolding allocate
allocate-holders segments name size other mapped = elim (Option-cases (lookup name segments)) [
  | inl new ↦ elim (Option-cases mapped) [
    | inl failed ↦ rw (new, allocate, failed)
    | inr (a, got) ↦
        rw (new, allocate, got)
          (ground (
            arith,
            holders-insert segments name other (record { address = a; size = size; ref_count = 1 }),
            holders-none segments name new,
            holders-same segments name other,
          ))
  ]
  | inr (s, e) ↦
      rw (e, allocate)
        (ground (
          arith,
          holders-insert segments name other (record s { ref_count = s.ref_count + 1 }),
          holders-some segments name s e,
          holders-same segments name other,
        ))
]

-- Where every segment in the table has a holder, a release succeeds exactly when the name has one,
-- and takes one holder away, from no other name. The block is unmapped exactly when that holder
-- was the last.
pub deallocate-holders :
    (segments : Segments) (name other : ℕ)
    → IsCounted segments
    → let (segments', done, unmapped) = deallocate segments name in
      (holders segments' other
        ≡ (if name == other then holders segments other - 1 else holders segments other))
      × (done ≡ ltb 0 (holders segments name))
      × (is_some unmapped ≡ (holders segments name == 1))
unfolding deallocate
deallocate-holders segments name other v = elim (Option-cases (lookup name segments)) [
  | inl absent ↦
      rw (absent, deallocate)
        (ground (arith, holders-none segments name absent, holders-same segments name other))
  | inr (s, e) ↦ elim (Bool-cases (leb s.ref_count 1)) [
    | inl last ↦
        rw (e, deallocate, last)
          (ground (
            arith,
            v name s e,
            holders-some segments name s e,
            holders-same segments name other,
            holders-erase segments name other,
          ))
    | inr shared ↦
        rw (e, deallocate, shared)
          (ground (
            arith,
            holders-some segments name s e,
            holders-same segments name other,
            holders-insert segments name other (record s { ref_count = s.ref_count - 1 }),
          ))
  ]
]
