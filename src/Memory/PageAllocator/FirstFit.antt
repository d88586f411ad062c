-- ===== src/Memory/PageAllocator/FirstFit.antt =====
-- The search loop of `allocate`: it finds the lowest run of free pages that is long enough.
use kernelc_moderne.Prelude.{
  ℕ, zero, suc, ◌+◌, ◌-◌, ◌≤◌, ◌<◌, ◌≡◌, ◌≢◌, sym, ◌∙◌, inl, inr, true, false, List, some, arith,
  ◌==◌, if◌then◌else◌, Bool-cases,
}
use kernelc_moderne.Memory.PageAllocator.{get_bit, find_run}

-- `n` pages from page `start` on are free.
abbrev pub IsFreeRun : List ℕ → ℕ → ℕ → Type 0
IsFreeRun b start n = (j : ℕ) → start ≤ j → j < start + n → get_bit b j ≡ false

-- What the loop has seen when it reaches page `i`.
pub record Scanned (b : List ℕ) (i consecutive start : ℕ) : Type 0 where
  pub behind : consecutive ≤ i
  pub starts : 0 < consecutive → start + consecutive ≡ i
  pub run : IsFreeRun b (i - consecutive) consecutive

module _ (b : List ℕ) (i c s : ℕ) (h : Scanned b i c s) where
  after_used : Scanned b (i + 1) 0 s
  after_used = record {
    behind = omega arith;
    starts = λ p. absurd (omega arith);
    run = λ j p q. absurd (omega arith);
  }

  start_eq : (if c == 0 then i else s) ≡ i - c
  start_eq = ground (arith, h.starts, h.behind)

  longer_run : get_bit b i ≡ false → IsFreeRun b (i - c) (c + 1)
  longer_run e j p q = elim (Bool-cases (j == i)) [
    | inl same ↦ let eq : j ≡ i = ground arith in rw eq e
    | inr other ↦
        let below : j < i - c + c = omega (arith, h.behind, differ j other) in h.run j p below
  ]
    where
      differ : (j : ℕ) → (j == i) ≡ false → j ≢ i
      differ j x = ground arith

  after_free : get_bit b i ≡ false → Scanned b (i + 1) (c + 1) (if c == 0 then i else s)
  after_free e = record {
    behind = omega (arith, h.behind);
    starts = λ _. omega (arith, start_eq, h.behind);
    run = let eq : i + 1 - (c + 1) ≡ i - c = omega arith in rw eq (longer_run e);
  }

module _ (n : ℕ) (b : List ℕ) (count i c s : ℕ) where
  step_used : get_bit b i ≡ true → find_run (suc n) b count i c s ≡ find_run n b count (i + 1) 0 s
  unfolding find_run
  step_used e = rw (e, find_run)

  step_full :
      get_bit b i ≡ false
      → ((c + 1) == count) ≡ true
      → find_run (suc n) b count i c s ≡ some (if c == 0 then i else s)
  unfolding find_run
  step_full e f = rw (e, find_run) (ground arith)

  step_more :
      get_bit b i ≡ false
      → ((c + 1) == count) ≡ false
      → find_run (suc n) b count i c s
        ≡ find_run n b count (i + 1) (c + 1) (if c == 0 then i else s)
  unfolding find_run
  step_more e f = rw (e, find_run) (ground arith)

-- A run that is found is free and lies below the end.
pub find_run_sound :
    (n : ℕ) (b : List ℕ) (count i c s p : ℕ)
    → Scanned b i c s
    → find_run n b count i c s ≡ some p
    → IsFreeRun b p count × (p + count ≤ i + n)
unfolding find_run
find_run_sound zero b count i c s p h e = cc
find_run_sound (suc n) b count i c s p h e = elim (Bool-cases (get_bit b i)) [
  | inl used ↦
      let (run, le) =
        find_run_sound n b count (i + 1) 0 s p (after_used b i c s h)
          (sym (step_used n b count i c s used) ∙ e) in
      (run, omega arith)
  | inr unused ↦ elim (Bool-cases ((c + 1) == count)) [
    | inl full ↦
        let eq : p ≡ i - c = cc (step_full n b count i c s unused full, start_eq b i c s h) in
        let size : c + 1 ≡ count = ground arith in
        (rw (eq, ← size) (longer_run b i c s h unused), omega (arith, h.behind))
    | inr more ↦
        let (run, le) =
          find_run_sound n b count (i + 1) (c + 1) (if c == 0 then i else s) p
            (after_free b i c s h unused) (sym (step_more n b count i c s unused more) ∙ e) in
        (run, omega arith)
  ]
]

-- Every free run that is long enough and not yet passed is at or above the one that is found.
pub find_run_complete :
    (n : ℕ) (b : List ℕ) (count i c s q : ℕ)
    → Scanned b i c s
    → c < count
    → IsFreeRun b q count
    → i ≤ q + c
    → q + count ≤ i + n
    → (p : ℕ) × (find_run n b count i c s ≡ some p) × (p ≤ q)
unfolding find_run
find_run_complete zero b count i c s q h lt run ahead fits = absurd (omega arith)
find_run_complete (suc n) b count i c s q h lt run ahead fits = elim (Bool-cases (get_bit b i)) [
  | inl used ↦
      let passed : i < q = passed_used used in
      let (p, found, le) =
        find_run_complete n b count (i + 1) 0 s q (after_used b i c s h) (omega arith) run
          (omega arith) (omega arith) in
      (p, step_used n b count i c s used ∙ found, le)
  | inr unused ↦ elim (Bool-cases ((c + 1) == count)) [
    | inl full ↦ (
      if c == 0 then i else s,
      step_full n b count i c s unused full,
      omega (arith, start_eq b i c s h),
    )
    | inr more ↦
        let (p, found, le) =
          find_run_complete n b count (i + 1) (c + 1) (if c == 0 then i else s) q
            (after_free b i c s h unused) (ground arith) run (omega arith) (omega arith) in
        (p, step_more n b count i c s unused more ∙ found, le)
  ]
]
  where
    passed_used : get_bit b i ≡ true → i < q
    passed_used used = grind (arith, run i)

-- The loop as `allocate` starts it.
pub Scanned-start : (b : List ℕ) → Scanned b 0 0 0
Scanned-start b = record {
  behind = omega arith;
  starts = λ p. absurd (omega arith);
  run = λ j p q. absurd (omega arith);
}
