-- ===== src/Scheduler/Gaming/Threads.antt =====
-- What `OptimizeForGaming` does to the threads of the system.
use native.Mathlib.Nat.{div-eq_of_lt, two-pow-succ}
use mathlib.Core.List.{append-nil}
use kernelc_moderne.Prelude.{
  ℕ, zero, suc, ◌≡◌, refl, sym, ◌∙◌, ap, ap₂, subst, inl, inr, ◌+◌, ◌-◌, ◌/◌, ◌^◌, List, [], ◌∷◌,
  ◌++◌, append_assoc, map, none, some, Option-cases, arith,
}
use kernelc_moderne.Scheduler.Gaming.{
  PriorityClass, Call, GameProcess, ThreadEntry, System, optimize_threads, or_bit, affinity_mask,
  tune_thread, tune_threads, tune_snapshot, keep_affinity, optimize_game, set_priority,
}

-- The threads of a snapshot that can be opened; which process owns them does not count.
unfoldable pub opened : System → ℕ → List ThreadEntry → List ℕ
opened sys i [] = []
opened sys i ((id, owner) ∷ rest) = elim (sys.open_thread i id) [
  | none ↦ opened sys i rest
  | some thread ↦ thread ∷ opened sys i rest
]

-- The calls for one of them, with the mask of the lower half of the processors.
unfoldable pub tuned_calls : ℕ → List ℕ → List Call
tuned_calls mask [] = []
tuned_calls mask (thread ∷ rest) =
    Call.raise_thread thread
    ∷ Call.set_thread_affinity thread mask
    ∷ Call.set_thread_boost thread
    ∷ Call.set_ideal_processor thread
    ∷ tuned_calls mask rest

or_bit-new : (i mask : ℕ) → mask + 1 ≡ 2 ^ i → or_bit i mask + 1 ≡ 2 ^ (i + 1)
unfolding or_bit
or_bit-new i mask h =
    let small : mask / 2 ^ i ≡ 0 = div-eq_of_lt (omega (arith, h)) in
    let next : suc i ≡ i + 1 = omega arith in
    let double : 2 ^ (i + 1) ≡ 2 ^ i + 2 ^ i =
      subst (λ k. 2 ^ k ≡ 2 ^ i + 2 ^ i) next (two-pow-succ i) in
    rw (small, double) (omega (arith, h))

affinity_mask-half : (n i mask : ℕ) → mask + 1 ≡ 2 ^ i → affinity_mask n i mask + 1 ≡ 2 ^ (i + n)
unfolding affinity_mask
affinity_mask-half zero i mask h = h ∙ ap (λ k. 2 ^ k) (omega arith)
affinity_mask-half (suc n) i mask h =
    affinity_mask-half n (i + 1) (or_bit i mask) (or_bit-new i mask h)
    ∙ ap (λ k. 2 ^ k) (omega arith)

tune_threads-opened :
    (sys : System) (i : ℕ) (entries : List ThreadEntry) (threads : List ℕ) (calls : List Call)
    → tune_threads sys i entries threads calls ≡ (
      threads ++ opened sys i entries,
      calls ++ tuned_calls (affinity_mask (sys.processors / 2) 0 0) (opened sys i entries),
    )
unfolding tune_threads opened tuned_calls tune_thread
tune_threads-opened sys i [] threads calls =
    ap₂ (λ a b. (a, b)) (sym (append-nil threads)) (sym (append-nil calls))
tune_threads-opened sys i ((id, owner) ∷ rest) threads calls =
    elim (Option-cases (sys.open_thread i id)) [
      | inl e ↦ rw (tune_threads, opened, e) (tune_threads-opened sys i rest threads calls)
      | inr (thread, e) ↦
          rw (tune_threads, opened, e)
            (tune_threads-opened sys i rest _ _
              ∙ ap₂ (λ a b. (a, b)) (append_assoc threads _ _) (append_assoc calls _ _))
    ]

lower_half : (n : ℕ) → affinity_mask n 0 0 ≡ 2 ^ n - 1
lower_half n =
    let same : 0 + n ≡ n = omega arith in
    let all : affinity_mask n 0 0 + 1 ≡ 2 ^ n =
      subst (λ k. affinity_mask n 0 0 + 1 ≡ 2 ^ k) same (affinity_mask-half n 0 0 (omega arith)) in
    omega (arith, all)

-- The same snapshot without its owners.
unfoldable pub without_owners : List ThreadEntry → List ThreadEntry
without_owners [] = []
without_owners ((id, owner) ∷ rest) = (id, 0) ∷ without_owners rest

opened-without_owners :
    (sys : System) (i : ℕ) (entries : List ThreadEntry)
    → opened sys i entries ≡ opened sys i (without_owners entries)
unfolding opened without_owners
opened-without_owners sys i [] = refl
opened-without_owners sys i ((id, owner) ∷ rest) = elim (Option-cases (sys.open_thread i id)) [
  | inl e ↦ rw (opened, e) (opened-without_owners sys i rest)
  | inr (thread, e) ↦ rw (opened, e) (ap (λ l. thread ∷ l) (opened-without_owners sys i rest))
]

tune_snapshot-opened :
    (sys : System) (i handle : ℕ) (entries : List ThreadEntry) (threads : List ℕ)
    → sys.snapshot i ≡ some (handle, entries)
    → tune_snapshot sys i threads ≡ (
      threads ++ opened sys i entries,
      tuned_calls (2 ^ (sys.processors / 2) - 1) (opened sys i entries)
          ++ (Call.close_handle handle ∷ []),
    )
unfolding tune_snapshot
tune_snapshot-opened sys i handle entries threads h =
    rw
      (
        tune_snapshot,
        h,
        tune_threads-opened sys i entries threads [],
        lower_half (sys.processors / 2),
      )
      refl

-- If there is a snapshot of the threads of the system, one round of `OptimizeForGaming` gives the game
-- high priority and adds to its threads every thread of the snapshot that can be opened, whichever
-- process owns it. Each of these is raised to the highest priority and bound to the lower half of
-- the processors, and at the end all threads in the list are raised once more.
pub optimize_game-opened :
    (sys : System) (i handle : ℕ) (entries : List ThreadEntry) (game : GameProcess)
    → sys.snapshot i ≡ some (handle, entries)
    → let ts = opened sys i entries in
      let g' : GameProcess = record game {
        priority = PriorityClass.high;
        threads = game.threads ++ ts;
      } in
      (ts ≡ opened sys i (without_owners entries))
      × (optimize_game sys i game ≡ (
        g',
        Call.set_priority_class game.process_handle PriorityClass.high
            ∷ (map Call.raise_thread game.threads
                ++ ((tuned_calls (2 ^ (sys.processors / 2) - 1) ts
                      ++ (Call.close_handle handle ∷ []))
                    ++ (keep_affinity sys game.process_handle
                        ++ (Call.set_priority_boost game.process_handle
                            ∷ Call.set_priority_class game.process_handle PriorityClass.high
                            ∷ map Call.raise_thread (game.threads ++ ts))))),
      ))
unfolding optimize_game optimize_threads set_priority
optimize_game-opened sys i handle entries game h = (
  opened-without_owners sys i entries,
  rw (optimize_game, tune_snapshot-opened sys i handle entries game.threads h) refl,
)
