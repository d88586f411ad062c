-- ===== src/Scheduler/Enhanced/Safety.antt =====
-- Histories of the scheduler, and what a switch does to the two processes.
use kernelc_moderne.Prelude.{
  ℕ, ◌≡◌, ◌≢◌, ◌↔◌, refl, sym, ap, ◌∙◌, inl, inr, List, [], ◌∷◌, ◌++◌, none, some, arith, length,
  All, Bool-cases,
}
use kernelc_moderne.Scheduler.Enhanced.{
  max_threads, ProcessState, Process, ThreadContext, Scheduler, Order, initial, start, stop,
  add_process, create_process, set_state, terminate_process, switch_to, schedule,
}
use kernelc_moderne.Scheduler.Enhanced.Invariant.{
  IsValid, create_process-IsValid, terminate_process-IsValid, schedule-IsValid, schedule_cases,
  set_state-All, set_state-Numbered,
}

-- One operation: what happens to the scheduler when it does not fault.
pub data Step (s : Scheduler) : Scheduler → Type 0 where
  creates :
      {t : Scheduler} (priority pid : ℕ) → create_process s priority ≡ some (t, pid) → Step s t
  terminates : (pid : ℕ) → Step s (terminate_process s pid)
  schedules : (order : Order) → Step s (schedule order s)
  starts : Step s (start s)
  stops : Step s (stop s)

pub data Reach (s : Scheduler) : Scheduler → Type 0 where
  here : Reach s s
  next : {t u : Scheduler} → Reach s t → Step t u → Reach s u

start-IsValid : (s : Scheduler) → IsValid s → IsValid (start s)
unfolding start
start-IsValid s v = elim (Bool-cases s.is_running) [
  | inl on ↦
      rw (on, start)
        (record {
          stored = v.stored;
          paired = v.paired;
          threaded = v.threaded;
          room = v.room;
          numbered = v.numbered;
          one_runs = v.one_runs;
        })
  | inr off ↦
      rw (off, start)
        (record {
          stored = v.stored;
          paired = v.paired;
          threaded = v.threaded;
          room = v.room;
          numbered = v.numbered;
          one_runs = v.one_runs;
        })
]

stop-IsValid : (s : Scheduler) → IsValid s → IsValid (stop s)
unfolding stop
stop-IsValid s v = elim (Bool-cases s.is_running) [
  | inl on ↦
      rw (on, stop)
        (record {
          stored = v.stored;
          paired = v.paired;
          threaded = v.threaded;
          room = v.room;
          numbered = v.numbered;
          one_runs = v.one_runs;
        })
  | inr off ↦
      rw (off, stop)
        (record {
          stored = v.stored;
          paired = v.paired;
          threaded = v.threaded;
          room = v.room;
          numbered = v.numbered;
          one_runs = v.one_runs;
        })
]

Step-IsValid : {s t : Scheduler} → Step s t → IsValid s → IsValid t
Step-IsValid {s} (creates {t = t} priority pid e) v = elim (create_process-IsValid s priority v) [
  | inl (lt, made, valid) ↦
      let same : t ≡ add_process s priority =
        ap (λ o. elim o [ none ↦ t | some r ↦ r.0 ]) (sym e ∙ made) in
      rw same valid
  | inr (full, fault) ↦ cc
]
Step-IsValid {s} (terminates pid) v = terminate_process-IsValid s pid v
Step-IsValid {s} (schedules order) v = schedule-IsValid order s v
Step-IsValid {s} starts v = start-IsValid s v
Step-IsValid {s} stops v = stop-IsValid s v

Reach-from : {s t : Scheduler} → IsValid s → Reach s t → IsValid t
Reach-from v here = v
Reach-from v (next r st) = Step-IsValid st (Reach-from v r)

initial-IsValid :
    (threads : List ThreadContext) → length threads ≡ max_threads → IsValid (initial threads)
unfolding initial
initial-IsValid threads h = record {
  stored = h;
  paired = refl;
  threaded = tt;
  room = omega arith;
  numbered = tt;
  one_runs = tt;
}

faults :
    (s : Scheduler) (priority : ℕ)
    → IsValid s
    → (create_process s priority ≡ none) ↔ (length s.processes ≡ max_threads)
faults s priority v = elim (create_process-IsValid s priority v) [
  | inl (lt, made, valid) ↦ (λ fault. absurd (cc), λ full. absurd (omega arith))
  | inr (full, fault) ↦ (λ _. full, λ _. fault)
]

-- After any history of operations from the initial scheduler with 256 threads, up to the first
-- write past the array, ids are 1, 2, 3, ... in order of creation, the thread at each position has
-- the context of the process at that position, no process but the current one is RUNNING, and the
-- next creation writes past the thread array exactly if there are 256 processes.
pub Reach-IsValid :
    {s : Scheduler} (threads : List ThreadContext)
    → length threads ≡ max_threads
    → Reach (initial threads) s
    → IsValid s
      × ((priority : ℕ) → (create_process s priority ≡ none) ↔ (length s.processes ≡ max_threads))
Reach-IsValid {s} threads h r =
    let v = Reach-from (initial-IsValid threads h) r in (v, λ priority. faults s priority v)

-- Process `new` is RUNNING and process `old` is READY.
abbrev pub Switched : ℕ → ℕ → Process → Type 0
Switched old new p =
    (p.id ≡ new → p.state ≡ ProcessState.running) × (p.id ≡ old → p.state ≡ ProcessState.ready)

module _ (s : Scheduler) (i pid old : ℕ) (v : IsValid s) (e : s.current_process ≡ some old) where
  switch_states :
      pid ≢ old
      → All (Switched old pid) (switch_to s i pid).processes
        × ((switch_to s i pid).ready_queue ≡ s.ready_queue ++ (old ∷ []))
  unfolding switch_to
  switch_states differ =
      let waiting : All (λ p. p.id ≡ old → p.state ≡ ProcessState.ready)
          (set_state old ProcessState.ready s.processes) =
        set_state-All _ _ old ProcessState.ready 1 s.processes v.numbered
          (λ p other _ h. absurd (other h)) (λ p _ _ _. refl) v.one_runs in
      rw (e, switch_to)
        (
          set_state-All _ _ pid ProcessState.running 1
              (set_state old ProcessState.ready s.processes)
              (set_state-Numbered old 1 ProcessState.ready s.processes v.numbered)
              (λ p other h. (λ q. absurd (other q), h))
              (λ p eq _. (λ _. refl, λ h. absurd (differ (sym eq ∙ h)))) waiting,
          refl,
        )

  switch_current : (switch_to s i pid).current_process ≡ some pid
  unfolding switch_to
  switch_current = rw (e, switch_to)

-- When a scheduling step of a valid scheduler replaces the current process by another, the new one
-- becomes RUNNING and the old one READY and queued, whatever state the old one was in; the other
-- processes keep their states.
pub schedule-Switched :
    (order : Order) (s : Scheduler) (old new : ℕ)
    → IsValid s
    → s.current_process ≡ some old
    → (schedule order s).current_process ≡ some new
    → new ≢ old
    → All (Switched old new) (schedule order s).processes
      × ((schedule order s).ready_queue ≡ s.ready_queue ++ (old ∷ []))
schedule-Switched order s old new v e after differ = elim (schedule_cases order s) [
  | inl same ↦
      let stays : some new ≡ some old =
        sym after ∙ ap (λ (x : Scheduler). x.current_process) same ∙ e in
      absurd (differ (ground arith))
  | inr (i, t, picked, switched) ↦
      let now : some new ≡ some t.process_context =
        sym after
        ∙ ap (λ (x : Scheduler). x.current_process) switched
        ∙ switch_current s i t.process_context old v e in
      let eq : new ≡ t.process_context = ground arith in
      rw (switched, eq) (switch_states s i t.process_context old v e (λ q. differ (eq ∙ q)))
]
