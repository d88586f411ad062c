-- ===== src/Scheduler/Gaming/Monitoring.antt =====
-- scheduler/GameAwareScheduler.hpp: `MonitorPerformance`, `setProcessPriority`, `reserveMemory` and
-- `GetGameThreads`. The loop of `MonitorPerformance` is over constant games, whose priority it sets
-- nevertheless; here it sets it.
use kernelc_moderne.Prelude.{
  ℕ, ◌+◌, ◌*◌, ◌%◌, ◌^◌, Bool, true, ◌||◌, List, [], ◌∷◌, ◌++◌, Option, none, some, ltb, leb, ◌==◌,
  if◌then◌else◌,
}
use kernelc_moderne.Scheduler.Gaming.{PriorityClass, Call, GameProcess, ThreadEntry, set_priority}

abbrev gigabyte : ℕ
gigabyte = 1024 * 1024 * 1024

-- What the operating system tells of a process, by its handle.
pub record Counters : Type 0 where
  pub working_set : ℕ → Option ℕ
  -- The time in the kernel and outside of it, in units of 100 ns.
  pub times : ℕ → Option (ℕ × ℕ)
  -- The reads, the writes and the bytes that were read.
  pub io : ℕ → Option (ℕ × (ℕ × ℕ))
  pub token : ℕ → Option ℕ

pub limit_memory : Counters → ℕ → List Call
limit_memory c handle = elim (c.working_set handle) [
  | none ↦ []
  | some size ↦
      if ltb (8 * gigabyte) size
      then (Call.empty_working_set handle
          ∷ Call.free_working_set handle
          ∷ Call.limit_working_set handle (4 * gigabyte) (12 * gigabyte)
          ∷ [])
      else []
]

-- The time is more than 80 seconds if it is more than 800000000 of its units.
pub is_busy : ℕ → ℕ → Bool
is_busy kernel user = ltb (80 * 10000000) ((kernel + user) % 2 ^ 64)

pub adjust_priority : Counters → GameProcess → GameProcess × List Call
adjust_priority c game = elim (c.times game.process_handle) [
  | none ↦ (game, [])
  | some (kernel, user) ↦
      if is_busy kernel user
      then set_priority PriorityClass.high game
      else set_priority PriorityClass.above_normal game
]

-- The calls that need the token of the process.
pub raise_io : Counters → ℕ → List Call
raise_io c handle = elim (c.token handle) [
  | none ↦ []
  | some token ↦
      Call.set_io_priority handle true
      ∷ Call.shrink_file_cache
      ∷ Call.prefetch_files handle
      ∷ Call.close_handle token
      ∷ []
]

pub tune_io : Counters → ℕ → List Call
tune_io c handle = elim (c.io handle) [
  | none ↦ []
  | some (reads, (writes, bytes)) ↦
      if ltb 1000 reads || ltb 1000 writes
      then (Call.set_priority_class handle PriorityClass.high_in_background
          ∷ (raise_io c handle
              ++ ((if ltb (100 * 1024 * 1024) bytes then Call.read_ahead handle ∷ [] else [])
                  ++ (Call.set_async_io handle 8 4096 ∷ []))))
      else []
]

-- One round of the loop.
pub monitor_game : Counters → GameProcess → GameProcess × List Call
monitor_game c game =
    let (g, adjusted) = adjust_priority c game in
    elim (c.working_set game.process_handle) [
      | none ↦ (game, [])
      | some size ↦
          (g, limit_memory c game.process_handle ++ (adjusted ++ tune_io c game.process_handle))
    ]

pub monitor_performance : Counters → List GameProcess → List GameProcess × List Call
monitor_performance c [] = ([], [])
monitor_performance c (game ∷ games) =
    let (g, calls) = monitor_game c game in
    let (gs, more) = monitor_performance c games in (g ∷ gs, calls ++ more)

pub class_of : ℕ → PriorityClass
class_of priority =
    if priority == 10
    then PriorityClass.realtime
    else if priority == 8
    then PriorityClass.high
    else if priority == 6
    then PriorityClass.above_normal
    else PriorityClass.normal

-- For the current process and its token.
pub set_process_priority : ℕ → Option ℕ → ℕ → List Call
set_process_priority process token priority =
    Call.set_priority_class process (class_of priority) ∷ (elim token [
      | none ↦ []
      | some t ↦ Call.set_io_priority process (leb 8 priority) ∷ Call.close_handle t ∷ []
    ])

-- With what `VirtualAlloc` returns and the token of the current process: the pool and the calls.
pub reserve_memory : ℕ → Option ℕ → Option ℕ → ℕ → List ℕ → List ℕ × List Call
reserve_memory process token none amount pool = (pool, [])
reserve_memory process token (some reserved) amount pool =
    let large : List Call = elim token [
      | none ↦ []
      | some t ↦ Call.enable_large_pages t ∷ Call.close_handle t ∷ []
    ] in
    (
      pool ++ (reserved ∷ []),
      Call.lock_pages reserved amount
          ∷ ((if leb (2 * 1024 * 1024) amount then large else [])
              ++ (Call.limit_working_set process amount ((amount * 2) % 2 ^ 64) ∷ [])),
    )

-- The loop of `GetGameThreads`: the threads of the process that can be opened and whose ideal
-- processor is among the first ones.
pub get_game_threads : ℕ → (ℕ → Option ℕ) → (ℕ → ℕ) → ℕ → List ThreadEntry → List ℕ
get_game_threads process open_thread ideal_processor cores [] = []
get_game_threads process open_thread ideal_processor cores ((id, owner) ∷ rest) =
    let later = get_game_threads process open_thread ideal_processor cores rest in
    if owner == process
    then (elim (open_thread id) [
      | none ↦ later
      | some thread ↦ if ltb (ideal_processor thread) cores then thread ∷ later else later
    ])
    else later
