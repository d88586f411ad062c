-- ===== src/Latency.antt =====
-- src/latency_analyzer.cpp and core/latency_analyzer.h. Names are texts, lists of the codes of their
-- characters. The floating point numbers `D`, with what the code computes on them, are the argument
-- `Doubles`; each reading of the clock is an argument. The mutex is not recursive: to lock it where it is already held never returns, and the
-- result is then `none`. The log is left out, and `getLatencyHistory` has no body in the repository.
pub mod Report
pub mod Measuring
mod Tests
use kernelc_moderne.Prelude.{
  ℕ, ◌+◌, ◌-◌, Bool, true, false, not, List, [], ◌∷◌, ◌++◌, Option, none, some, length, map, get_or,
  if◌then◌else◌, eq_text, Text,
}

pub record Doubles (D : Type 0) : Type 0 where
  pub zero_latency : D
  pub add : D → D → D
  pub divide : D → ℕ → D
  pub larger : D → D → D
  pub exceeds : D → D → Bool
  -- The duration from one reading of the clock to another, divided by 1000.
  pub elapsed : ℕ → ℕ → D
  -- `percentile * (n - 1) / 100`, cut to a whole number.
  pub index_at : D → ℕ → ℕ
  -- std::sort
  pub sort : List D → List D

module _ {V : Type 0} where
  unfoldable pub find : Text → List (Text × V) → Option V
  find key [] = none
  find key ((key', v) ∷ rest) = if eq_text key key' then some v else find key rest

  unfoldable pub store : Text → V → List (Text × V) → List (Text × V)
  store key v [] = (key, v) ∷ []
  store key v ((key', old) ∷ rest) =
      let others = store key v rest in
      if eq_text key key' then (key, v) ∷ rest else (key', old) ∷ others

  unfoldable pub remove : Text → List (Text × V) → List (Text × V)
  remove key [] = []
  remove key ((key', old) ∷ rest) =
      let others = remove key rest in if eq_text key key' then others else (key', old) ∷ others

pub record LatencyMeasurement (D : Type 0) : Type 0 where
  pub timestamp : ℕ
  pub latency : D
  pub component : Text
  pub operation : Text

pub record LatencyAnalyzer (D : Type 0) : Type 0 where
  pub is_locked : Bool
  pub initialized : Bool
  pub measurements : List (Text × ℕ)
  pub history : List (Text × List (LatencyMeasurement D))
  pub thresholds : List (Text × D)

-- "::"
unfoldable pub generate_measurement_key : Text → Text → Text
generate_measurement_key component operation = component ++ (58 ∷ 58 ∷ operation)

module _ {D : Type 0} where
  -- `std::lock_guard` around a body: the mutex is free again where the body has returned.
  unfoldable pub locking :
      {A : Type 0}
      → LatencyAnalyzer D
      → (LatencyAnalyzer D → Option (LatencyAnalyzer D × A))
      → Option (LatencyAnalyzer D × A)
  locking a body = if a.is_locked then none else (elim (body (record a { is_locked = true })) [
    | none ↦ none
    | some (a', x) ↦ some (record a' { is_locked = false }, x)
  ])

  unfoldable pub initialize : LatencyAnalyzer D → Option (LatencyAnalyzer D × Bool)
  initialize a = locking a (λ l. some (
    (if l.initialized
        then l
        else record l { measurements = []; history = []; thresholds = []; initialized = true }),
    true,
  ))

  unfoldable pub shutdown : LatencyAnalyzer D → Option (LatencyAnalyzer D × Bool)
  shutdown a = locking a (λ l. some (
    (if not l.initialized
        then l
        else record l { measurements = []; history = []; thresholds = []; initialized = false }),
    true,
  ))

  unfoldable pub start_measurement :
      ℕ → Text → Text → LatencyAnalyzer D → Option (LatencyAnalyzer D × Bool)
  start_measurement now component operation a =
      if not a.initialized
      then some (a, true)
      else locking a (λ l. some (
        record l {
          measurements = store (generate_measurement_key component operation) now l.measurements;
        },
        true,
      ))

  -- The measurements of a component; `operator[]` makes an empty vector.
  unfoldable pub history_of : Text → LatencyAnalyzer D → List (LatencyMeasurement D)
  history_of component a = elim (find component a.history) [ none ↦ [] | some ms ↦ ms ]

  unfoldable pub latencies : List (LatencyMeasurement D) → List D
  latencies ms = map (λ m. m.latency) ms

module _ {D : Type 0} (d : Doubles D) where
  unfoldable pub sum : D → List (LatencyMeasurement D) → D
  sum total [] = total
  sum total (m ∷ ms) = sum (d.add total m.latency) ms

  unfoldable pub maximum : D → List (LatencyMeasurement D) → D
  maximum best [] = best
  maximum best (m ∷ ms) = maximum (d.larger best m.latency) ms

  -- The rest of `endMeasurement`, where `find` is done.
  unfoldable pub measured :
      ℕ → ℕ → Text → Text → LatencyAnalyzer D → Option ℕ → LatencyAnalyzer D × D
  measured now later component operation l none = (l, d.zero_latency)
  measured now later component operation l (some begun) =
      let latency = d.elapsed begun now in
      let m : LatencyMeasurement D = record {
        timestamp = later;
        latency = latency;
        component = component;
        operation = operation;
      } in
      (
        record l {
          history = store component (history_of component l ++ (m ∷ [])) l.history;
          measurements = remove (generate_measurement_key component operation) l.measurements;
        },
        latency,
      )

  unfoldable pub end_measurement :
      ℕ → ℕ → Text → Text → LatencyAnalyzer D → Option (LatencyAnalyzer D × D)
  end_measurement now later component operation a =
      if not a.initialized
      then some (a, d.zero_latency)
      else locking a (λ l. some (
          measured now later component operation l
            (find (generate_measurement_key component operation) l.measurements)))

  unfoldable pub get_average_latency : Text → LatencyAnalyzer D → Option (LatencyAnalyzer D × D)
  get_average_latency component a = locking a (λ l. some (
    l,
    elim (history_of component l) [
      | [] ↦ d.zero_latency
      | m ∷ ms ↦ d.divide (sum d.zero_latency (m ∷ ms)) (length (m ∷ ms))
    ],
  ))

  unfoldable pub get_max_latency : Text → LatencyAnalyzer D → Option (LatencyAnalyzer D × D)
  get_max_latency component a =
      locking a (λ l. some (l, maximum d.zero_latency (history_of component l)))

  unfoldable pub set_latency_threshold :
      Text → D → LatencyAnalyzer D → Option (LatencyAnalyzer D × Bool)
  set_latency_threshold component threshold a =
      locking a (λ l. some (record l { thresholds = store component threshold l.thresholds }, true))

  unfoldable pub last : D → List (LatencyMeasurement D) → D
  last latest [] = latest
  last latest (m ∷ ms) = last m.latency ms

  unfoldable pub is_latency_exceeded : Text → LatencyAnalyzer D → Bool
  is_latency_exceeded component a = elim (find component a.thresholds) [
    | none ↦ false
    | some threshold ↦ elim (history_of component a) [
      | [] ↦ false
      | m ∷ ms ↦ d.exceeds (last m.latency ms) threshold
    ]
  ]

  -- For a percentile of at most 100, whose index lies in the vector.
  unfoldable pub get_percentile : Text → D → LatencyAnalyzer D → Option (LatencyAnalyzer D × D)
  get_percentile component percentile a = locking a (λ l. some (
    l,
    elim (history_of component l) [
      | [] ↦ d.zero_latency
      | m ∷ ms ↦
          let sorted = d.sort (latencies (m ∷ ms)) in
          get_or sorted (d.index_at percentile (length sorted)) d.zero_latency
    ],
  ))

  -- The loop of the report, whose numbers are written to the log.
  unfoldable pub report_components :
      D
      → D
      → List (Text × List (LatencyMeasurement D))
      → LatencyAnalyzer D
      → Option (LatencyAnalyzer D × Bool)
  report_components p95 p99 [] a = some (a, true)
  report_components p95 p99 ((component, ms) ∷ rest) a = elim (get_average_latency component a) [
    | none ↦ none
    | some (a1, average) ↦ elim (get_max_latency component a1) [
      | none ↦ none
      | some (a2, most) ↦ elim (get_percentile component p95 a2) [
        | none ↦ none
        | some (a3, high) ↦ elim (get_percentile component p99 a3) [
          | none ↦ none
          | some (a4, highest) ↦ report_components p95 p99 rest a4
        ]
      ]
    ]
  ]

  -- `p95` and `p99` are the constants 95.0 and 99.0.
  unfoldable pub generate_latency_report :
      D → D → LatencyAnalyzer D → Option (LatencyAnalyzer D × Bool)
  generate_latency_report p95 p99 a = locking a (λ l. report_components p95 p99 l.history l)
