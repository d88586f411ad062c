-- ===== src/Performance/Tests.antt =====
-- The theorems at concrete inputs.
use kernelc_moderne.Prelude.{ℕ, ◌≡◌, ◌-◌, ◌^◌, true, List, [], ◌∷◌}
use kernelc_moderne.Performance.{CpuTimes, PerformanceMetrics, new_metrics, shutdown, destroy}
use kernelc_moderne.Performance.Life.{Use, run_all, destroy-run_all}

abbrev start : CpuTimes
start = record { idle = 5; kernel = 2 ^ 64 - 1; user = 7 }

abbrev uses : List Use
uses = Use.saving 3 ∷ Use.measuring start ∷ Use.shutting_down ∷ []

abbrev used : PerformanceMetrics ℕ
used = run_all uses (new_metrics start)

destroy-run_all_example :
    (shutdown used ≡ used) × (used.monitoring_thread_active ≡ true) × (destroy used ≡ (used, true))
destroy-run_all_example = destroy-run_all start uses
