-- ===== src/Performance/Life.antt =====
-- The life of PerformanceMetrics, from its construction to its destruction.
use kernelc_moderne.Prelude.{
  ℕ, ◌≡◌, refl, inl, inr, true, false, List, [], ◌∷◌, lookup, Option-cases,
}
use kernelc_moderne.Performance.{
  Resources, CpuTimes, PerformanceMetrics, new_metrics, start_monitoring_thread,
  initialize_performance_counters, initialize_profiles, save_game_metrics, shutdown, destroy,
  get_cpu_utilization,
}

-- The calls between the construction and the destruction.
pub data Use : Type 0 where
  making_profile : ℕ → Resources → Use
  saving : ℕ → Use
  measuring : CpuTimes → Use
  shutting_down : Use

module _ {Metric : Type 0} where
  unfoldable pub run : Use → PerformanceMetrics Metric → PerformanceMetrics Metric
  run (Use.making_profile name resources) p = initialize_profiles name resources p
  run (Use.saving pid) p = save_game_metrics pid p
  run (Use.measuring now) p = (get_cpu_utilization now p).0
  run Use.shutting_down p = shutdown p

  unfoldable pub run_all : List Use → PerformanceMetrics Metric → PerformanceMetrics Metric
  run_all [] p = p
  run_all (u ∷ us) p = run_all us (run u p)

  -- Not initialized, with a thread that runs.
  record IsAlive (p : PerformanceMetrics Metric) : Type 0 where
    uninitialized : p.initialized ≡ false
    active : p.monitoring_thread_active ≡ true
    joinable : p.monitoring_thread_joinable ≡ true

  new-IsAlive : (now : CpuTimes) → IsAlive (new_metrics now)
  unfolding new_metrics start_monitoring_thread initialize_performance_counters
  new-IsAlive now = record { uninitialized = refl; active = refl; joinable = refl }

  shutdown-same : (p : PerformanceMetrics Metric) → p.initialized ≡ false → shutdown p ≡ p
  unfolding shutdown
  shutdown-same p h = simp h refl

  save-IsAlive :
      (pid : ℕ) (p : PerformanceMetrics Metric) → IsAlive p → IsAlive (save_game_metrics pid p)
  unfolding save_game_metrics
  save-IsAlive pid p a = elim (Option-cases (lookup pid p.game_metrics)) [
    | inl e ↦
        rw (save_game_metrics, e)
          (record { uninitialized = a.uninitialized; active = a.active; joinable = a.joinable })
    | inr ([], e) ↦ rw (save_game_metrics, e) a
    | inr (m ∷ ms, e) ↦
        rw (save_game_metrics, e)
          (record { uninitialized = a.uninitialized; active = a.active; joinable = a.joinable })
  ]

  run-IsAlive : (u : Use) (p : PerformanceMetrics Metric) → IsAlive p → IsAlive (run u p)
  unfolding run initialize_profiles get_cpu_utilization
  run-IsAlive (Use.making_profile name resources) p a = record {
    uninitialized = a.uninitialized;
    active = a.active;
    joinable = a.joinable;
  }
  run-IsAlive (Use.saving pid) p a = save-IsAlive pid p a
  run-IsAlive (Use.measuring now) p a = record {
    uninitialized = a.uninitialized;
    active = a.active;
    joinable = a.joinable;
  }
  run-IsAlive Use.shutting_down p a = rw (shutdown-same p a.uninitialized) a

  run_all-IsAlive :
      (us : List Use) (p : PerformanceMetrics Metric) → IsAlive p → IsAlive (run_all us p)
  unfolding run_all
  run_all-IsAlive [] p a = a
  run_all-IsAlive (u ∷ us) p a = run_all-IsAlive us (run u p) (run-IsAlive u p a)

  destroy-alive : (p : PerformanceMetrics Metric) → IsAlive p → destroy p ≡ (p, true)
  unfolding destroy
  destroy-alive p a = simp (a.uninitialized, a.joinable) refl

-- After the construction and any calls: `shutdown` changes nothing, it neither saves the metrics nor
-- stops the thread; and the destruction ends the program, since the thread can still be joined.
pub destroy-run_all :
    {Metric : Type 0} (now : CpuTimes) (us : List Use)
    → let p : PerformanceMetrics Metric = run_all us (new_metrics now) in
      (shutdown p ≡ p) × (p.monitoring_thread_active ≡ true) × (destroy p ≡ (p, true))
destroy-run_all now us =
    let a = run_all-IsAlive us (new_metrics now) (new-IsAlive now) in
    (shutdown-same _ a.uninitialized, a.active, destroy-alive _ a)
