-- ===== src/Scheduler/Enhanced/Tests.antt =====
-- Two processes; the second is a game thread.
use kernelc_moderne.Prelude.{
  ℕ, ◌≡◌, ◌↔◌, refl, none, some, List, [], ◌∷◌, length, replicate, length-replicate,
}
use kernelc_moderne.Scheduler.Enhanced.{
  max_threads, ThreadContext, Scheduler, Order, initial, start, main_thread, add_process,
  create_process, set_state, has_process, terminate_process, deactivate, assigned, pick,
  dynamic_priority, same_thread, dispatch, switch_to, schedule,
}
use kernelc_moderne.Scheduler.Enhanced.Picking.{Picked, pick-Picked}
use kernelc_moderne.Scheduler.Enhanced.Invariant.{IsValid}
use kernelc_moderne.Scheduler.Enhanced.Safety.{
  creates, terminates, schedules, starts, Reach, here, next, Reach-IsValid,
}

program : Unit {0}
unfolding initial start main_thread add_process create_process set_state has_process
    terminate_process deactivate assigned pick dynamic_priority same_thread dispatch switch_to
    schedule
program = tt

abbrev blank : List ThreadContext
blank = replicate max_threads (main_thread 0 0)

-- One worker executes the iterations for two threads.
abbrev in_turn : Order
in_turn = (0, 0) ∷ (0, 1) ∷ []

-- A worker for each of the two.
abbrev at_once : Order
at_once = (1, 1) ∷ (0, 0) ∷ []

abbrev one : Scheduler
one = add_process (start (initial blank)) 5

-- Process 1 runs, process 2 with its higher priority is ready, and process 1 is terminated.
abbrev two : Scheduler
two = terminate_process (add_process (schedule in_turn one) 20) 1

history : Reach (initial blank) two
unfolding program
history =
    next
      (next (next (next (next here starts) (creates 5 1 refl)) (schedules in_turn))
        (creates 20 2 refl))
      (terminates 1)

switched : (two.current_process ≡ some 1) × ((schedule in_turn two).current_process ≡ some 2)
unfolding program
switched = (refl, refl)

-- Thread 1 has the higher priority, but the worker of thread 0 writes last.
abbrev three : Scheduler
three = add_process one 20

lower_selected :
    (pick at_once three.threads (λ w. 0) none ≡ some (0, main_thread 1 5))
    × (pick in_turn three.threads (λ w. 0) none ≡ some (1, main_thread 2 20))
unfolding program
lower_selected = (refl, refl)

Reach-IsValid_example :
    IsValid two
    × ((priority : ℕ) → (create_process two priority ≡ none) ↔ (length two.processes ≡ max_threads))
Reach-IsValid_example = Reach-IsValid blank (length-replicate max_threads (main_thread 0 0)) history

pick-Picked_example :
    Picked two.threads at_once (λ w. 0) none (pick at_once two.threads (λ w. 0) none)
pick-Picked_example = pick-Picked at_once two.threads
