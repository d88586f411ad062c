-- ===== src/Scheduler/Gaming.antt =====
-- scheduler/GameAwareScheduler.hpp. The calls of the operating system that only change its state are
-- collected in order, as a list of `Call`; what the others answer is the record `System`. Handles are
-- numbers, names texts. The profiles of the games, the services, the power profile and what the
-- helper classes without a body do are left out.
pub mod Threads
pub mod Monitoring
mod Tests
use kernelc_moderne.Prelude.{
  ℕ, zero, suc, ◌+◌, ◌*◌, ◌/◌, ◌%◌, ◌^◌, Bool, true, false, ◌&&◌, ◌||◌, List, [], ◌∷◌, ◌++◌, map,
  Option, none, some, ltb, leb, ◌==◌, if◌then◌else◌, eq_text, Text,
}

pub data PriorityClass : Type 0 where
  realtime high above_normal normal high_in_background : PriorityClass

pub data Call : Type 0 where
  set_priority_class : ℕ → PriorityClass → Call
  set_priority_boost : ℕ → Call
  set_process_affinity : ℕ → ℕ → Call
  raise_thread : ℕ → Call
  set_thread_affinity : ℕ → ℕ → Call
  set_thread_boost : ℕ → Call
  set_ideal_processor : ℕ → Call
  empty_working_set : ℕ → Call
  free_working_set : ℕ → Call
  limit_working_set : ℕ → ℕ → ℕ → Call
  set_io_priority : ℕ → Bool → Call
  shrink_file_cache : Call
  prefetch_files : ℕ → Call
  read_ahead : ℕ → Call
  set_async_io : ℕ → ℕ → ℕ → Call
  close_handle : ℕ → Call
  lock_pages : ℕ → ℕ → Call
  enable_large_pages : ℕ → Call

pub record GameProcess : Type 0 where
  pub process_handle : ℕ
  pub name : Text
  pub priority : PriorityClass
  pub threads : List ℕ

-- A thread of a snapshot: its id and the process that owns it.
abbrev pub ThreadEntry : Type 0
ThreadEntry = ℕ × ℕ

pub record System : Type 0 where
  -- The names and ids of the processes, if there is a snapshot.
  pub processes : Option (List (Text × ℕ))
  pub open_process : ℕ → ℕ
  -- The snapshots of the threads of the system, by their number, with their handles.
  pub snapshot : ℕ → Option (ℕ × List ThreadEntry)
  pub open_thread : ℕ → ℕ → Option ℕ
  pub processors : ℕ
  pub process_affinity : ℕ → Option ℕ

-- The set that the constructor fills.
unfoldable pub known_game_executables : List Text
known_game_executables =
    -- TS4_x64.exe
    (84 ∷ 83 ∷ 52 ∷ 95 ∷ 120 ∷ 54 ∷ 52 ∷ 46 ∷ 101 ∷ 120 ∷ 101 ∷ [])
    -- Sims4.exe
    ∷ (83 ∷ 105 ∷ 109 ∷ 115 ∷ 52 ∷ 46 ∷ 101 ∷ 120 ∷ 101 ∷ [])
    -- GTA5.exe
    ∷ (71 ∷ 84 ∷ 65 ∷ 53 ∷ 46 ∷ 101 ∷ 120 ∷ 101 ∷ [])
    -- RDR2.exe
    ∷ (82 ∷ 68 ∷ 82 ∷ 50 ∷ 46 ∷ 101 ∷ 120 ∷ 101 ∷ [])
    -- Cyberpunk2077.exe
    ∷ (67 ∷ 121 ∷ 98 ∷ 101 ∷ 114 ∷ 112 ∷ 117 ∷ 110 ∷ 107 ∷ 50 ∷ 48 ∷ 55 ∷ 55 ∷ 46 ∷ 101 ∷ 120 ∷ 101
        ∷ [])
    -- VALORANT.exe
    ∷ (86 ∷ 65 ∷ 76 ∷ 79 ∷ 82 ∷ 65 ∷ 78 ∷ 84 ∷ 46 ∷ 101 ∷ 120 ∷ 101 ∷ [])
    -- csgo.exe
    ∷ (99 ∷ 115 ∷ 103 ∷ 111 ∷ 46 ∷ 101 ∷ 120 ∷ 101 ∷ [])
    -- Overwatch.exe
    ∷ (79 ∷ 118 ∷ 101 ∷ 114 ∷ 119 ∷ 97 ∷ 116 ∷ 99 ∷ 104 ∷ 46 ∷ 101 ∷ 120 ∷ 101 ∷ [])
    -- League of Legends.exe
    ∷ (76 ∷ 101 ∷ 97 ∷ 103 ∷ 117 ∷ 101 ∷ 32 ∷ 111 ∷ 102 ∷ 32 ∷ 76 ∷ 101 ∷ 103 ∷ 101 ∷ 110 ∷ 100
        ∷ 115 ∷ 46 ∷ 101 ∷ 120 ∷ 101 ∷ [])
    -- FortniteLauncher.exe
    ∷ (70 ∷ 111 ∷ 114 ∷ 116 ∷ 110 ∷ 105 ∷ 116 ∷ 101 ∷ 76 ∷ 97 ∷ 117 ∷ 110 ∷ 99 ∷ 104 ∷ 101 ∷ 114
        ∷ 46 ∷ 101 ∷ 120 ∷ 101 ∷ [])
    ∷ []

unfoldable pub is_known : Text → List Text → Bool
is_known name [] = false
is_known name (game ∷ games) = eq_text name game || is_known name games

unfoldable pub is_game_process : Text → Bool
is_game_process name = is_known name known_game_executables

-- The loop over the snapshot of the processes, which is closed again afterwards. The fields that the code leaves as they are, `priority`,
-- are an argument.
unfoldable pub scan_entries :
    System → PriorityClass → List (Text × ℕ) → List GameProcess → List GameProcess
scan_entries sys p [] games = games
scan_entries sys p ((name, pid) ∷ rest) games =
    let found = scan_entries sys p rest (
      games
      ++ (record { process_handle = sys.open_process pid; name = name; priority = p; threads = [] }
          ∷ [])) in
    let skipped = scan_entries sys p rest games in if is_game_process name then found else skipped

unfoldable pub scan_for_games : System → PriorityClass → List GameProcess → List GameProcess
scan_for_games sys p games = elim sys.processes [
  | none ↦ games
  | some entries ↦ scan_entries sys p entries games
]

-- `GameProcess::OptimizeThreads`
unfoldable pub optimize_threads : GameProcess → List Call
optimize_threads game = map Call.raise_thread game.threads

-- `GameProcess::SetPriority`
unfoldable pub set_priority : PriorityClass → GameProcess → GameProcess × List Call
set_priority p game =
    (record game { priority = p }, Call.set_priority_class game.process_handle p ∷ [])

-- `mask |= (1ULL << i)`; the shift is defined for up to 128 processors.
unfoldable pub or_bit : ℕ → ℕ → ℕ
or_bit i mask = if (mask / 2 ^ i) % 2 == 1 then mask else mask + 2 ^ i

-- The loop over the processors, with the rounds that are left.
unfoldable pub affinity_mask : ℕ → ℕ → ℕ → ℕ
affinity_mask zero i mask = mask
affinity_mask (suc rounds) i mask = affinity_mask rounds (i + 1) (or_bit i mask)

-- What the loop over the threads does to one that can be opened.
unfoldable pub tune_thread : System → ℕ → List Call
tune_thread sys thread =
    Call.raise_thread thread
    ∷ Call.set_thread_affinity thread (affinity_mask (sys.processors / 2) 0 0)
    ∷ Call.set_thread_boost thread
    ∷ Call.set_ideal_processor thread
    ∷ []

-- The loop over the threads of a snapshot: the list of the game's threads, and the calls.
unfoldable pub tune_threads :
    System → ℕ → List ThreadEntry → List ℕ → List Call → List ℕ × List Call
tune_threads sys i [] threads calls = (threads, calls)
tune_threads sys i ((id, owner) ∷ rest) threads calls = elim (sys.open_thread i id) [
  | none ↦ tune_threads sys i rest threads calls
  | some thread ↦
      tune_threads sys i rest (threads ++ (thread ∷ [])) (calls ++ tune_thread sys thread)
]

-- The part with the snapshot of the threads, which is the `i`th.
unfoldable pub tune_snapshot : System → ℕ → List ℕ → List ℕ × List Call
tune_snapshot sys i threads = elim (sys.snapshot i) [
  | none ↦ (threads, [])
  | some (handle, entries) ↦
      let (threads', calls) = tune_threads sys i entries threads [] in
      (threads', calls ++ (Call.close_handle handle ∷ []))
]

-- The part with the mask of the process.
unfoldable pub keep_affinity : System → ℕ → List Call
keep_affinity sys handle = elim (sys.process_affinity handle) [
  | none ↦ []
  | some mask ↦ Call.set_process_affinity handle mask ∷ []
]

-- One round of the loop of `OptimizeForGaming`.
unfoldable pub optimize_game : System → ℕ → GameProcess → GameProcess × List Call
optimize_game sys i game =
    let (g, first) = set_priority PriorityClass.high game in
    let (threads, tuned) = tune_snapshot sys i g.threads in
    let g' : GameProcess = record g { threads = threads } in
    (
      g',
      first
          ++ (optimize_threads g
              ++ (tuned
                  ++ (keep_affinity sys g.process_handle
                      ++ (Call.set_priority_boost g.process_handle
                          ∷ Call.set_priority_class g.process_handle PriorityClass.high
                          ∷ optimize_threads g')))),
    )

unfoldable pub optimize_for_gaming : System → ℕ → List GameProcess → List GameProcess × List Call
optimize_for_gaming sys i [] = ([], [])
optimize_for_gaming sys i (game ∷ games) =
    let (g, calls) = optimize_game sys i game in
    let (gs, more) = optimize_for_gaming sys (i + 1) games in (g ∷ gs, calls ++ more)
