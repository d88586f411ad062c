-- ===== src/Memory/Unified/Pools.antt =====
-- The pools: which block an allocation takes, and what a release makes of the next one.
use kernelc_moderne.Prelude.{
  ℕ, zero, suc, ◌≡◌, ◌≤◌, ◌<◌, inl, inr, refl, sym, ◌∙◌, ap, subst, ◌+◌, ◌*◌, ◌%◌, List, [], ◌∷◌,
  Bool, true, false, ◌&&◌, Option, none, some, leb, All, length, get_or, set, Bool-cases, and_right,
  leb→le, arith,
}
use kernelc_moderne.Memory.Unified.{word, WorkloadType, same_workload, MemoryPool, pool_allocate}
use kernelc_moderne.Memory.Unified.Freeing.{empty_pool}

-- The pool is for this workload and has room at its end.
unfoldable pub fits : WorkloadType → ℕ → MemoryPool → Bool
fits workload size pool =
    same_workload pool.optimized_for workload && leb (pool.used + size) pool.size

-- At most the whole pool is in use, and it is smaller than half of the address space.
pub record IsSound (pool : MemoryPool) : Type 0 where
  pub within : pool.used ≤ pool.size
  pub small : 2 * pool.size < word
  pub addressed : pool.start + pool.size < word

abbrev pub with_used : MemoryPool → ℕ → MemoryPool
with_used pool size = record pool { used = pool.used + size }

room-eq :
    (used size total : ℕ)
    → used ≤ total
    → 2 * total < word
    → (leb size total && leb ((used + size) % word) total) ≡ leb (used + size) total
room-eq used size total h small = elim (Bool-cases (leb size total)) [
  | inl e ↦ rw e (ap (λ n. leb n total) (no_wrap (leb→le _ _ e)))
  | inr e ↦ rw e (sym (too_large e))
]
  where
    no_wrap : size ≤ total → (used + size) % word ≡ used + size
    no_wrap le = omega (arith, le, h, small)

    too_large : leb size total ≡ false → leb (used + size) total ≡ false
    too_large more = ground (arith, more)

fits-eq :
    (workload : WorkloadType) (size : ℕ) (pool : MemoryPool)
    → IsSound pool
    → (same_workload pool.optimized_for workload
        && (leb size pool.size && leb ((pool.used + size) % word) pool.size))
      ≡ fits workload size pool
unfolding fits
fits-eq workload size pool sound =
    ap (λ b. same_workload pool.optimized_for workload && b)
      (room-eq pool.used size pool.size sound.within sound.small)

fits-room :
    (workload : WorkloadType) (size : ℕ) (pool : MemoryPool)
    → fits workload size pool ≡ true
    → pool.used + size ≤ pool.size
unfolding fits
fits-room workload size pool h =
    leb→le (pool.used + size) pool.size
      (and_right (same_workload pool.optimized_for workload) (leb (pool.used + size) pool.size) h)

-- The numbers of a pool that fits do not wrap.
unwrapped :
    (workload : WorkloadType) (size : ℕ) (pool : MemoryPool)
    → IsSound pool
    → fits workload size pool ≡ true
    → ((pool.used + size) % word ≡ pool.used + size)
      × ((pool.start + pool.used) % word ≡ pool.start + pool.used)
unwrapped workload size pool sound h = (
  omega (arith, fits-room workload size pool h, sound.small),
  omega (arith, fits-room workload size pool h, sound.addressed),
)

-- What the loop over the pools gives, where the first has the index `i`: no pool fits; or the first
-- that does, of which the block is the bytes after those in use.
abbrev pub Taken :
    WorkloadType → ℕ → ℕ → List MemoryPool → Option (List MemoryPool × ℕ × ℕ) → Type 0
Taken workload size i pools none =
    (j : ℕ) → j < length pools → fits workload size (get_or pools j empty_pool) ≡ false
Taken workload size i pools (some (pools', address, index)) =
    (k : ℕ) × (index ≡ i + k)
    × (k < length pools)
    × (fits workload size (get_or pools k empty_pool) ≡ true)
    × ((j : ℕ) → j < k → fits workload size (get_or pools j empty_pool) ≡ false)
    × (pools' ≡ set pools k (with_used (get_or pools k empty_pool) size))
    × (address ≡ (get_or pools k empty_pool).start + (get_or pools k empty_pool).used)

lower :
    (workload : WorkloadType) (size bound : ℕ) (pool : MemoryPool) (pools : List MemoryPool)
    → fits workload size pool ≡ false
    → ((j : ℕ) → j < bound → fits workload size (get_or pools j empty_pool) ≡ false)
    → (j : ℕ) → j < suc bound
    → fits workload size (get_or (pool ∷ pools) j empty_pool) ≡ false
lower workload size bound pool pools h below zero k = h
lower workload size bound pool pools h below (suc j) k = below j (omega arith)

pub pool_allocate-here :
    (workload : WorkloadType) (size i : ℕ) (pool : MemoryPool) (pools : List MemoryPool)
    → IsSound pool
    → fits workload size pool ≡ true
    → pool_allocate i workload size (pool ∷ pools)
      ≡ some (with_used pool size ∷ pools, pool.start + pool.used, i)
unfolding pool_allocate
pool_allocate-here workload size i pool pools sound e =
    let u = unwrapped workload size pool sound e in
    rw (fits-eq workload size pool sound ∙ e, pool_allocate, u.0, u.1) refl

in_front : MemoryPool → Option (List MemoryPool × ℕ × ℕ) → Option (List MemoryPool × ℕ × ℕ)
in_front pool none = none
in_front pool (some (pools', address, index)) = some (pool ∷ pools', address, index)

pool_allocate-later :
    (workload : WorkloadType) (size i : ℕ) (pool : MemoryPool) (pools : List MemoryPool)
    → IsSound pool
    → fits workload size pool ≡ false
    → pool_allocate i workload size (pool ∷ pools)
      ≡ in_front pool (pool_allocate (i + 1) workload size pools)
unfolding pool_allocate in_front
pool_allocate-later workload size i pool pools sound e =
    rw (fits-eq workload size pool sound ∙ e, pool_allocate)
      (same (pool_allocate (i + 1) workload size pools))
  where
    same :
        (o : Option (List MemoryPool × ℕ × ℕ))
        → (elim o [
          | none ↦ none
          | some (pools', address, index) ↦ some (pool ∷ pools', address, index)
        ])
          ≡ in_front pool o
    same none = refl
    same (some (pools', address, index)) = refl

-- Over pools of which at most the whole is in use and whose ends do not wrap: a request is refused
-- by all of them, or it is given the first bytes not in use of the first pool for its workload
-- with room for it, whose use grows by the request alone.
pub pool_allocate-Taken :
    (workload : WorkloadType) (size i : ℕ) (pools : List MemoryPool)
    → All IsSound pools
    → Taken workload size i pools (pool_allocate i workload size pools)
unfolding in_front pool_allocate
pool_allocate-Taken workload size i [] sound = λ j h. elim h [ ]
pool_allocate-Taken workload size i (pool ∷ pools) sound =
    elim (Bool-cases (fits workload size pool)) [
      | inl e ↦
          subst (Taken workload size i (pool ∷ pools))
            (sym (pool_allocate-here workload size i pool pools sound.0 e))
            (0, omega arith, omega arith, e, λ j h. elim h [ ], refl, refl)
      | inr e ↦
          subst (Taken workload size i (pool ∷ pools))
            (sym (pool_allocate-later workload size i pool pools sound.0 e))
            (later (pool_allocate (i + 1) workload size pools) e
              (pool_allocate-Taken workload size (i + 1) pools sound.1))
    ]
  where
    later :
        (o : Option (List MemoryPool × ℕ × ℕ))
        → fits workload size pool ≡ false
        → Taken workload size (i + 1) pools o
        → Taken workload size i (pool ∷ pools) (in_front pool o)
    later none e all = lower workload size (length pools) pool pools e all
    later (some (pools', address, index)) e (k, at, inside, fit, below, same, first) = (
      suc k,
      omega arith,
      omega arith,
      fit,
      lower workload size k pool pools e below,
      ap (λ l. pool ∷ l) same,
      first,
    )
