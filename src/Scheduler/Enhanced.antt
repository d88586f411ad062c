-- ===== src/Scheduler/Enhanced.antt =====
-- scheduler/scheduler.cpp, EnhancedScheduler. A process's context pointer is named by the process's
-- id: each process owns one context. Threads are positions in the array, the ready queue holds
-- process ids. `none` stands for a write past the end of the thread array, which the source does
-- not define. The priority loop is a parallel one: the order in which its iterations write
-- is an argument, the schedule of the workers. Saving and loading registers and the timer's port
-- writes are left out.
pub mod Picking
pub mod Invariant
pub mod Safety
mod Tests
use kernelc_moderne.Prelude.{
  ℕ, zero, suc, ◌+◌, ◌*◌, ◌/◌, Bool, true, false, not, ◌&&◌, List, [], ◌∷◌, ◌++◌, Option, none,
  some, ltb, leb, ◌==◌, if◌then◌else◌, length, get_elem?, set,
}

abbrev pub max_processes : ℕ
max_processes = 1024

abbrev pub max_threads : ℕ
max_threads = 256

pub data ProcessState : Type 0 where
  created ready running blocked terminated : ProcessState

pub record Process : Type 0 where
  pub id : ℕ
  pub state : ProcessState

pub record ThreadContext : Type 0 where
  pub priority : ℕ
  pub cpu_time : ℕ
  pub is_game_thread : Bool
  pub is_active : Bool
  pub process_context : ℕ

pub record Scheduler : Type 0 where
  pub threads : List ThreadContext
  pub active_thread_count : ℕ
  pub processes : List Process
  pub ready_queue : List ℕ
  pub current_process : Option ℕ
  pub current_thread : Option ℕ
  pub is_running : Bool
  pub timer_enabled : Bool

pub start : Scheduler → Scheduler
start s = if s.is_running then s else record s { is_running = true; timer_enabled = true }

pub stop : Scheduler → Scheduler
stop s = if not s.is_running then s else record s { is_running = false; timer_enabled = false }

-- The scheduler as it is initialised, over whatever the thread array holds.
pub initial : List ThreadContext → Scheduler
initial threads = record {
  threads = threads;
  active_thread_count = 0;
  processes = [];
  ready_queue = [];
  current_process = none;
  current_thread = none;
  is_running = false;
  timer_enabled = false;
}

-- The thread that `createProcess` writes.
pub main_thread : ℕ → ℕ → ThreadContext
main_thread pid priority = record {
  priority = priority;
  cpu_time = 0;
  is_game_thread = ltb 10 priority;
  is_active = true;
  process_context = pid;
}

pub add_process : Scheduler → ℕ → Scheduler
add_process s priority =
    let pid = length s.processes + 1 in
    record s {
      threads = set s.threads s.active_thread_count (main_thread pid priority);
      active_thread_count = s.active_thread_count + 1;
      processes = s.processes ++ (record { id = pid; state = ProcessState.ready } ∷ []);
      ready_queue = s.ready_queue ++ (pid ∷ []);
    }

pub create_process : Scheduler → ℕ → Option (Scheduler × ℕ)
create_process s priority =
    if leb max_processes (length s.processes)
    then some (s, 0)
    else if ltb s.active_thread_count (length s.threads)
    then some (add_process s priority, length s.processes + 1)
    else none

-- `process->setState(state)` on the first process with the id.
pub set_state : ℕ → ProcessState → List Process → List Process
set_state pid state [] = []
set_state pid state (p ∷ ps) =
    if p.id == pid then record p { state = state } ∷ ps else p ∷ set_state pid state ps

pub has_process : ℕ → List Process → Bool
has_process pid [] = false
has_process pid (p ∷ ps) = let rest = has_process pid ps in if p.id == pid then true else rest

-- The loop over the first `n` threads that clears `isActive` for a context.
pub deactivate : ℕ → ℕ → List ThreadContext → List ThreadContext
deactivate zero context threads = threads
deactivate (suc n) context [] = []
deactivate (suc n) context (t ∷ ts) =
    (if t.process_context == context then record t { is_active = false } else t)
    ∷ deactivate n context ts

pub terminate_process : Scheduler → ℕ → Scheduler
terminate_process s pid =
    if has_process pid s.processes
    then record s {
      processes = set_state pid ProcessState.terminated s.processes;
      threads = deactivate s.active_thread_count pid s.threads;
    }
    else s

pub dynamic_priority : ThreadContext → ℕ
dynamic_priority t =
    (if t.is_game_thread then t.priority * 2 else t.priority) + 1000000 / (t.cpu_time + 1)

-- An order of execution of the iterations of a parallel loop: the worker and the index of each.
abbrev pub Order : Type 0
Order = List (ℕ × ℕ)

-- `maxPriority`, which `reduction(max:maxPriority)` makes private to each worker, after one of them
-- has assigned to its own.
unfoldable pub assigned : (ℕ → ℕ) → ℕ → ℕ → ℕ → ℕ
assigned best worker priority w = if worker == w then priority else best w

-- The loop of `schedule`, whose `nextThread` all workers share: its iterations in the order in
-- which they are executed.
pub pick :
    Order → List ThreadContext → (ℕ → ℕ) → Option (ℕ × ThreadContext) → Option (ℕ × ThreadContext)
pick [] threads best next = next
pick ((worker, i) ∷ order) threads best next = elim (get_elem? threads i) [
  | none ↦ pick order threads best next
  | some t ↦
      let better = t.is_active && ltb (best worker) (dynamic_priority t) in
      pick order threads (if better then assigned best worker (dynamic_priority t) else best)
        (if better then some (i, t) else next)
]

pub same_thread : Option ℕ → ℕ → Bool
same_thread none i = false
same_thread (some j) i = j == i

-- The switch from the current process, if any, to process `pid` on thread `i`.
pub switch_to : Scheduler → ℕ → ℕ → Scheduler
switch_to s i pid = elim s.current_process [
  | none ↦ record s {
    processes = set_state pid ProcessState.running s.processes;
    current_process = some pid;
    current_thread = some i;
  }
  | some old ↦ record s {
    processes = set_state pid ProcessState.running (set_state old ProcessState.ready s.processes);
    ready_queue = s.ready_queue ++ (old ∷ []);
    current_process = some pid;
    current_thread = some i;
  }
]

-- The tests of `schedule` on the selected thread.
pub dispatch : Scheduler → ℕ → ThreadContext → Scheduler
dispatch s i t =
    if same_thread s.current_thread i
    then s
    else if not (has_process t.process_context s.processes)
    then s
    else if same_thread s.current_process t.process_context
    then s
    else switch_to s i t.process_context

-- `order` is an order of the iterations for the first `active_thread_count` threads.
pub schedule : Order → Scheduler → Scheduler
schedule order s =
    if not s.is_running
    then s
    else (elim (pick order s.threads (λ w. 0) none) [ none ↦ s | some (i, t) ↦ dispatch s i t ])
