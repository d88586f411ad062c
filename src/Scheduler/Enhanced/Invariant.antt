-- ===== src/Scheduler/Enhanced/Invariant.antt =====
-- The process table under every operation: ids are handed out in order, each process has its
-- own thread, and at most one process is RUNNING, the current one.
use kernelc_moderne.Prelude.{
  ℕ, zero, suc, ◌+◌, ◌≤◌, ◌<◌, ◌≡◌, ◌≢◌, refl, sym, ap, subst, ◌∙◌, ◌⊎◌, inl, inr, List, [], ◌∷◌,
  ◌++◌, Option, none, some, arith, ltb, ltb→lt, ◌==◌, length, set, false, if◌then◌else◌,
  length-append, length-set, Bool-cases, Option-cases, All, All-map, All-append,
}
use kernelc_moderne.Scheduler.Enhanced.{
  max_threads, ProcessState, Process, ThreadContext, Scheduler, Order, main_thread, add_process,
  create_process, set_state, has_process, deactivate, terminate_process, pick, switch_to, dispatch,
  schedule,
}

-- The ids count up from `k`.
abbrev pub Numbered : ℕ → List Process → Type 0
Numbered k [] = Unit {0}
Numbered k (p ∷ ps) = (p.id ≡ k) × Numbered (k + 1) ps

-- The first `n` threads are there, and their contexts are those of the processes `k`, `k + 1`, ...
abbrev pub Threaded : ℕ → ℕ → List ThreadContext → Type 0
Threaded k zero ts = Unit {0}
Threaded k (suc n) [] = ⊥
Threaded k (suc n) (t ∷ ts) = (t.process_context ≡ k) × Threaded (k + 1) n ts

-- Only the current process is RUNNING.
abbrev pub OneRuns : Option ℕ → List Process → Type 0
OneRuns current = All (λ p. p.state ≡ ProcessState.running → current ≡ some p.id)

pub record IsValid (s : Scheduler) : Type 0 where
  pub stored : length s.threads ≡ max_threads
  pub paired : s.active_thread_count ≡ length s.processes
  pub threaded : Threaded 1 s.active_thread_count s.threads
  pub room : length s.processes ≤ max_threads
  pub numbered : Numbered 1 s.processes
  pub one_runs : OneRuns s.current_process s.processes

Numbered-ge : (k : ℕ) (ps : List Process) → Numbered k ps → All (λ p. k ≤ p.id) ps
Numbered-ge k [] h = tt
Numbered-ge k (p ∷ ps) h = (
  omega arith,
  All-map _ _ (λ q (le : k + 1 ≤ q.id). omega arith) ps (Numbered-ge (k + 1) ps h.1),
)

Numbered-append :
    (k : ℕ) (ps : List Process) (p : Process)
    → Numbered k ps
    → p.id ≡ k + length ps
    → Numbered k (ps ++ (p ∷ []))
Numbered-append k [] p h e = (omega arith, tt)
Numbered-append k (q ∷ ps) p h e = (h.0, Numbered-append (k + 1) ps p h.1 (omega arith))

pub set_state-Numbered :
    (pid k : ℕ) (st : ProcessState) (ps : List Process)
    → Numbered k ps
    → Numbered k (set_state pid st ps)
unfolding set_state
set_state-Numbered pid k st [] h = tt
set_state-Numbered pid k st (p ∷ ps) h = ground (arith, set_state-Numbered pid (k + 1) st ps)

length-set_state :
    (pid : ℕ) (st : ProcessState) (ps : List Process) → length (set_state pid st ps) ≡ length ps
unfolding set_state
length-set_state pid st [] = refl
length-set_state pid st (p ∷ ps) = ground (arith, length-set_state pid st ps)

length-deactivate :
    (n context : ℕ) (ts : List ThreadContext) → length (deactivate n context ts) ≡ length ts
unfolding deactivate
length-deactivate zero context ts = refl
length-deactivate (suc n) context [] = refl
length-deactivate (suc n) context (t ∷ ts) = ap suc (length-deactivate n context ts)

set-Threaded :
    (k n : ℕ) (ts : List ThreadContext) (t : ThreadContext)
    → Threaded k n ts
    → n < length ts
    → t.process_context ≡ k + n
    → Threaded k (suc n) (set ts n t)
set-Threaded k zero [] t h lt e = absurd (omega arith)
set-Threaded k zero (u ∷ ts) t h lt e = (omega arith, tt)
set-Threaded k (suc n) [] t h lt e = absurd h
set-Threaded k (suc n) (u ∷ ts) t h lt e =
    (h.0, set-Threaded (k + 1) n ts t h.1 (omega arith) (omega arith))

deactivate-Threaded :
    (k n m context : ℕ) (ts : List ThreadContext)
    → Threaded k n ts
    → Threaded k n (deactivate m context ts)
unfolding deactivate
deactivate-Threaded k n zero context ts h = h
deactivate-Threaded k n (suc m) context [] h = h
deactivate-Threaded k zero (suc m) context (t ∷ ts) h = tt
deactivate-Threaded k (suc n) (suc m) context (t ∷ ts) h =
    (kept, deactivate-Threaded (k + 1) n m context ts h.1)
  where
    kept :
        (if t.process_context == context then record t { is_active = false } else t).process_context
        ≡ k
    kept = elim (Bool-cases (t.process_context == context)) [ inl e ↦ rw e h.0 | inr e ↦ rw e h.0 ]

-- A change of state touches the process with the id and no other.
module _ {κ μ} (P : Process → Type κ) (Q : Process → Type μ) (pid : ℕ) (st : ProcessState) where
  pub set_state-All :
      (k : ℕ) (ps : List Process)
      → Numbered k ps
      → ((p : Process) → p.id ≢ pid → P p → Q p)
      → ((p : Process) → p.id ≡ pid → P p → Q (record p { state = st }))
      → All P ps
      → All Q (set_state pid st ps)
  unfolding set_state
  set_state-All k [] h f g a = tt
  set_state-All k (p ∷ ps) h f g a = elim (Bool-cases (p.id == pid)) [
    | inl hit ↦
        let eq : p.id ≡ pid = ground arith in
        rw hit (g p eq a.0, others (Numbered-ge (k + 1) ps h.1) eq)
    | inr miss ↦ rw miss (f p (ground arith) a.0, set_state-All (k + 1) ps h.1 f g a.1)
  ]
    where
      others : All (λ q. k + 1 ≤ q.id) ps → p.id ≡ pid → All Q ps
      others ge eq = go ps ge a.1
        where
          go : (qs : List Process) → All (λ q. k + 1 ≤ q.id) qs → All P qs → All Q qs
          go [] _ _ = tt
          go (q ∷ qs) le b = (f q (omega arith) b.0, go qs le.1 b.1)

OneRuns-append :
    (current : Option ℕ) (ps : List Process) (pid : ℕ)
    → OneRuns current ps
    → OneRuns current (ps ++ (record { id = pid; state = ProcessState.ready } ∷ []))
OneRuns-append current ps pid h = All-append _ ps _ h ((λ e. cc), tt)

add_process-IsValid :
    (s : Scheduler) (priority : ℕ)
    → IsValid s
    → length s.processes < max_threads
    → IsValid (add_process s priority)
unfolding add_process main_thread
add_process-IsValid s priority v lt = record {
  stored = length-set s.threads s.active_thread_count _ ∙ v.stored;
  paired = omega (arith, v.paired, length-append s.processes (new ∷ []));
  threaded =
      let next : suc s.active_thread_count ≡ s.active_thread_count + 1 = omega arith in
      subst (λ n. Threaded 1 n (set s.threads s.active_thread_count own)) next
        (set-Threaded 1 s.active_thread_count s.threads own v.threaded
          (omega (arith, v.paired, v.stored)) (omega (arith, v.paired)));
  room = omega (arith, length-append s.processes (new ∷ []));
  numbered = Numbered-append 1 s.processes new v.numbered (omega arith);
  one_runs = OneRuns-append s.current_process s.processes (length s.processes + 1) v.one_runs;
}
  where
    own : ThreadContext
    own = main_thread (length s.processes + 1) priority

    new : Process
    new = record { id = length s.processes + 1; state = ProcessState.ready }

-- On a valid scheduler a creation succeeds exactly while there are fewer than 256 processes: then
-- the new process gets the next id and the scheduler stays valid. At 256 processes it writes past
-- the end of the thread array.
pub create_process-IsValid :
    (s : Scheduler) (priority : ℕ)
    → IsValid s
    → ((length s.processes < max_threads)
        × (create_process s priority ≡ some (add_process s priority, length s.processes + 1))
        × IsValid (add_process s priority))
      ⊎ ((length s.processes ≡ max_threads) × (create_process s priority ≡ none))
unfolding create_process
create_process-IsValid s priority v = elim (Bool-cases (ltb (length s.processes) max_threads)) [
  | inl fits ↦
      let lt : length s.processes < max_threads = ltb→lt _ _ fits in
      inl (lt, ground (arith, v.paired, v.stored), add_process-IsValid s priority v lt)
  | inr full ↦ inr (ground (arith, v.room), ground (arith, v.paired, v.stored, v.room))
]

pub terminate_process-IsValid :
    (s : Scheduler) (pid : ℕ) → IsValid s → IsValid (terminate_process s pid)
unfolding terminate_process
terminate_process-IsValid s pid v = elim (Bool-cases (has_process pid s.processes)) [
  | inl here ↦ rw here (record {
    stored = length-deactivate s.active_thread_count pid s.threads ∙ v.stored;
    paired = omega (arith, v.paired, length-set_state pid ProcessState.terminated s.processes);
    threaded =
        deactivate-Threaded 1 s.active_thread_count s.active_thread_count pid s.threads v.threaded;
    room = omega (arith, v.room, length-set_state pid ProcessState.terminated s.processes);
    numbered = set_state-Numbered pid 1 ProcessState.terminated s.processes v.numbered;
    one_runs =
        set_state-All _ _ pid ProcessState.terminated 1 s.processes v.numbered (λ p _ h. h)
          (λ p _ _ e. cc) v.one_runs;
  })
  | inr absent ↦ rw absent v
]

module _ (s : Scheduler) (i pid : ℕ) where
  switch_first : s.current_process ≡ none → IsValid s → IsValid (switch_to s i pid)
  unfolding switch_to
  switch_first e v =
      rw (e, switch_to)
        (record {
          stored = v.stored;
          paired = omega (arith, v.paired, length-set_state pid ProcessState.running s.processes);
          threaded = v.threaded;
          room = omega (arith, v.room, length-set_state pid ProcessState.running s.processes);
          numbered = set_state-Numbered pid 1 ProcessState.running s.processes v.numbered;
          one_runs =
              set_state-All _ _ pid ProcessState.running 1 s.processes v.numbered
                (λ p _ h on. cc (h on)) (λ p eq _ _. ap some (sym eq)) v.one_runs;
        })

  switch_over : (old : ℕ) → s.current_process ≡ some old → IsValid s → IsValid (switch_to s i pid)
  unfolding switch_to
  switch_over old e v =
      let waiting = set_state old ProcessState.ready s.processes in
      let numbered' = set_state-Numbered old 1 ProcessState.ready s.processes v.numbered in
      let count = length-set_state old ProcessState.ready s.processes in
      let idle : All (λ p. p.state ≢ ProcessState.running) waiting =
        set_state-All _ _ old ProcessState.ready 1 s.processes v.numbered
          (λ p other h on. absurd (other (ground (arith, h on)))) (λ p _ _ on. cc) v.one_runs in
      rw (e, switch_to)
        (record {
          stored = v.stored;
          paired =
              omega (arith, v.paired, count, length-set_state pid ProcessState.running waiting);
          threaded = v.threaded;
          room = omega (arith, v.room, count, length-set_state pid ProcessState.running waiting);
          numbered = set_state-Numbered pid 1 ProcessState.running waiting numbered';
          one_runs =
              set_state-All _ _ pid ProcessState.running 1 waiting numbered'
                (λ p _ h on. absurd (h on)) (λ p eq _ _. ap some (sym eq)) idle;
        })

switch_to-IsValid : (s : Scheduler) (i pid : ℕ) → IsValid s → IsValid (switch_to s i pid)
switch_to-IsValid s i pid v = elim (Option-cases s.current_process) [
  | inl e ↦ switch_first s i pid e v
  | inr (old, e) ↦ switch_over s i pid old e v
]

dispatch_cases :
    (s : Scheduler) (i : ℕ) (t : ThreadContext)
    → (dispatch s i t ≡ s) ⊎ (dispatch s i t ≡ switch_to s i t.process_context)
unfolding dispatch
dispatch_cases s i t = ground arith

schedule_picked :
    (order : Order) (s : Scheduler) (i : ℕ) (t : ThreadContext)
    → pick order s.threads (λ w. 0) none ≡ some (i, t)
    → (schedule order s ≡ s) ⊎ (schedule order s ≡ dispatch s i t)
unfolding schedule
schedule_picked order s i t e = rw (e, schedule) (ground arith)

schedule_idle :
    (order : Order) (s : Scheduler)
    → pick order s.threads (λ w. 0) none ≡ none
    → schedule order s ≡ s
unfolding schedule
schedule_idle order s e = rw (e, schedule) (ground arith)

-- A scheduling step either changes nothing or switches to a thread that the loop picked.
pub schedule_cases :
    (order : Order) (s : Scheduler)
    → (schedule order s ≡ s)
      ⊎ ((i : ℕ) × (t : ThreadContext) × (pick order s.threads (λ w. 0) none ≡ some (i, t))
          × (schedule order s ≡ switch_to s i t.process_context))
schedule_cases order s = elim (Option-cases (pick order s.threads (λ w. 0) none)) [
  | inl e ↦ inl (schedule_idle order s e)
  | inr ((i, t), e) ↦ elim (schedule_picked order s i t e) [
    | inl same ↦ inl same
    | inr run ↦ elim (dispatch_cases s i t) [
      | inl same ↦ inl (run ∙ same)
      | inr switched ↦ inr (i, t, e, run ∙ switched)
    ]
  ]
]

pub schedule-IsValid : (order : Order) (s : Scheduler) → IsValid s → IsValid (schedule order s)
schedule-IsValid order s v = elim (schedule_cases order s) [
  | inl same ↦ rw same v
  | inr (i, t, e, switched) ↦ rw switched (switch_to-IsValid s i t.process_context v)
]
