-- ===== src/Performance.antt =====
-- core/performance_metrics.h: the life of the singleton, the use of the processor and of the memory,
-- and the limits of a game. A metric is only saved, so its type is an argument; names and processes
-- are numbers. What Windows answers is an argument. The graphics device, DirectStorage and the
-- functions with an empty body are left out.
pub mod Life
pub mod Usage
mod Tests
use kernelc_moderne.Prelude.{
  ℕ, ◌+◌, ◌-◌, ◌*◌, ◌/◌, ◌%◌, ◌^◌, min, Bool, true, false, not, List, [], ◌∷◌, ◌++◌, Option, none,
  some, ◌==◌, lookup, insert, if◌then◌else◌,
}

abbrev pub word : ℕ
word = 2 ^ 64

-- The part of `Resources` that `allocateResources` reads here.
pub record Resources : Type 0 where
  pub ram_allocation : ℕ
  pub cpu_priority : ℕ

-- The counters of the last measurement.
pub record CpuTimes : Type 0 where
  pub idle : ℕ
  pub kernel : ℕ
  pub user : ℕ

module _ (Metric : Type 0) where
  pub record PerformanceMetrics : Type 0 where
    pub initialized : Bool
    pub monitoring_thread_active : Bool
    pub monitoring_thread_joinable : Bool
    pub game_metrics : List (ℕ × List Metric)
    -- The files that were written: the process and its metrics.
    pub saved : List (ℕ × List Metric)
    pub game_profiles : List (ℕ × Resources)
    pub last : CpuTimes

module _ {Metric : Type 0} where
  unfoldable pub start_monitoring_thread : PerformanceMetrics Metric → PerformanceMetrics Metric
  start_monitoring_thread p = record p {
    monitoring_thread_active = true;
    monitoring_thread_joinable = true;
  }

  unfoldable pub initialize_performance_counters :
      CpuTimes → PerformanceMetrics Metric → PerformanceMetrics Metric
  initialize_performance_counters now p = record p { last = now }

  -- The constructor.
  unfoldable pub new_metrics : CpuTimes → PerformanceMetrics Metric
  new_metrics now = start_monitoring_thread (
      initialize_performance_counters now (record {
        initialized = false;
        monitoring_thread_active = false;
        monitoring_thread_joinable = false;
        game_metrics = [];
        saved = [];
        game_profiles = [];
        last = record { idle = 0; kernel = 0; user = 0 };
      }))

  -- The profile that the code writes down is an argument, since its sizes overflow `int`.
  unfoldable pub initialize_profiles :
      ℕ → Resources → PerformanceMetrics Metric → PerformanceMetrics Metric
  initialize_profiles name resources p = record p {
    game_profiles = insert name resources p.game_profiles;
  }

  unfoldable pub save_game_metrics : ℕ → PerformanceMetrics Metric → PerformanceMetrics Metric
  save_game_metrics pid p = elim (lookup pid p.game_metrics) [
    | none ↦ record p { game_metrics = insert pid [] p.game_metrics }
    | some [] ↦ p
    | some (m ∷ ms) ↦ record p { saved = p.saved ++ ((pid, m ∷ ms) ∷ []) }
  ]

  -- The loop of `shutdown` that saves the metrics.
  unfoldable pub save_all :
      List (ℕ × List Metric) → PerformanceMetrics Metric → PerformanceMetrics Metric
  save_all [] p = p
  save_all ((pid, ms) ∷ rest) p = save_all rest (save_game_metrics pid p)

  -- The end of `shutdown`.
  unfoldable pub join_thread : PerformanceMetrics Metric → PerformanceMetrics Metric
  join_thread p =
      if p.monitoring_thread_joinable
      then record p { monitoring_thread_active = false; monitoring_thread_joinable = false }
      else p

  unfoldable pub shutdown : PerformanceMetrics Metric → PerformanceMetrics Metric
  shutdown p =
      if not p.initialized
      then p
      else join_thread (record (save_all p.game_metrics (record p { initialized = false })) {
        game_metrics = [];
      })

  -- The destructor, and then that of the thread: whether it ends the program, as it does for a
  -- thread that can still be joined.
  unfoldable pub destroy : PerformanceMetrics Metric → PerformanceMetrics Metric × Bool
  destroy p =
      let p' = if p.initialized then shutdown p else p in (p', p'.monitoring_thread_joinable)

  -- `getCPUUtilization`: the active and the total time since the last measurement, of which the code
  -- returns the quotient in percent.
  unfoldable pub get_cpu_utilization :
      CpuTimes → PerformanceMetrics Metric → PerformanceMetrics Metric × (ℕ × ℕ)
  get_cpu_utilization now p =
      let idle_diff = (now.idle + (word - p.last.idle)) % word in
      let kernel_diff = (now.kernel + (word - p.last.kernel)) % word in
      let user_diff = (now.user + (word - p.last.user)) % word in
      let total_diff = (kernel_diff + user_diff) % word in
      let active_diff = (total_diff + (word - idle_diff)) % word in
      (record p { last = now }, (active_diff, total_diff))

-- `getProcessMemoryUsage`, with the handle, the working set and the bytes of the page file, and the
-- size of a page.
pub get_process_memory_usage : Option ℕ → Option (ℕ × ℕ) → Option ℕ → ℕ
get_process_memory_usage none counters page_size = 0
get_process_memory_usage (some handle) none page_size = 0
get_process_memory_usage (some handle) (some (working_set, page_file)) none = working_set
get_process_memory_usage (some handle) (some (working_set, page_file)) (some page_size) =
    (working_set + (page_file * page_size) % word) % word

pub data Priority : Type 0 where
  high above_normal normal below_normal : Priority

-- The first part of `allocateResources`: the priority and the limits of the working set. `most` is
-- four fifths of the physical memory, if Windows tells it.
pub allocate_resources : Option ℕ → Resources → Priority × Option (ℕ × ℕ)
allocate_resources most r =
    let priority : Priority =
      if r.cpu_priority == 8
      then Priority.high
      else if r.cpu_priority == 6
      then Priority.above_normal
      else if r.cpu_priority == 4
      then Priority.normal
      else Priority.below_normal in
    (
      priority,
      elim most [
        | none ↦ none
        | some m ↦ some (min r.ram_allocation m / 2, min r.ram_allocation m)
      ],
    )
