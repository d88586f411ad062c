-- ===== src/Scheduler/Gaming/Tests.antt =====
-- The theorem at a concrete input: two threads, one of another process, on eight processors.
use kernelc_moderne.Prelude.{◌≡◌, refl, ◌-◌, ◌/◌, ◌^◌, List, [], ◌∷◌, ◌++◌, map, none, some}
use kernelc_moderne.Scheduler.Gaming.{
  PriorityClass, Call, GameProcess, ThreadEntry, System, keep_affinity, optimize_game,
}
use kernelc_moderne.Scheduler.Gaming.Threads.{
  opened, tuned_calls, without_owners, optimize_game-opened,
}

abbrev two_threads : List ThreadEntry
two_threads = (11, 4) ∷ (12, 5) ∷ []

abbrev system : System
system = record {
  processes = none;
  open_process = λ pid. pid;
  snapshot = λ i. some (99, two_threads);
  open_thread = λ i id. some id;
  processors = 8;
  process_affinity = λ handle. none;
}

abbrev game : GameProcess
game = record { process_handle = 4; name = []; priority = PriorityClass.normal; threads = 7 ∷ [] }

optimize_game-opened_example :
    (opened system 0 two_threads ≡ opened system 0 (without_owners two_threads))
    × (optimize_game system 0 game ≡ (
      record game {
        priority = PriorityClass.high;
        threads = (7 ∷ []) ++ opened system 0 two_threads;
      },
      Call.set_priority_class 4 PriorityClass.high
          ∷ (map Call.raise_thread (7 ∷ [])
              ++ ((tuned_calls (2 ^ (8 / 2) - 1) (opened system 0 two_threads)
                    ++ (Call.close_handle 99 ∷ []))
                  ++ (keep_affinity system 4
                      ++ (Call.set_priority_boost 4
                          ∷ Call.set_priority_class 4 PriorityClass.high
                          ∷ map Call.raise_thread ((7 ∷ []) ++ opened system 0 two_threads))))),
    ))
optimize_game-opened_example = optimize_game-opened system 0 99 two_threads game refl
