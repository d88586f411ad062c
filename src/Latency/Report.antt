-- ===== src/Latency/Report.antt =====
-- Which operations return.
use kernelc_moderne.Prelude.{ℕ, ◌≡◌, refl, true, false, List, [], ◌∷◌, Option, none, some, Text}
use kernelc_moderne.Latency.{
  Doubles, LatencyAnalyzer, locking, initialize, shutdown, start_measurement, end_measurement,
  get_average_latency, get_max_latency, set_latency_threshold, get_percentile,
}

-- The operations but for the report.
pub data Operation (D : Type 0) : Type 0 where
  initializing shutting_down : Operation D
  starting : ℕ → Text → Text → Operation D
  ending : ℕ → ℕ → Text → Text → Operation D
  averaging : Text → Operation D
  taking_maximum : Text → Operation D
  limiting : Text → D → Operation D
  taking_percentile : Text → D → Operation D

module _ {D : Type 0} where
  unfoldable pub state_of :
      {A : Type 0} → Option (LatencyAnalyzer D × A) → Option (LatencyAnalyzer D)
  state_of none = none
  state_of (some (a, x)) = some a

  unfoldable pub run : Doubles D → Operation D → LatencyAnalyzer D → Option (LatencyAnalyzer D)
  run d Operation.initializing a = state_of (initialize a)
  run d Operation.shutting_down a = state_of (shutdown a)
  run d (Operation.starting now component operation) a =
      state_of (start_measurement now component operation a)
  run d (Operation.ending now later component operation) a =
      state_of (end_measurement d now later component operation a)
  run d (Operation.averaging component) a = state_of (get_average_latency d component a)
  run d (Operation.taking_maximum component) a = state_of (get_max_latency d component a)
  run d (Operation.limiting component threshold) a =
      state_of (set_latency_threshold d component threshold a)
  run d (Operation.taking_percentile component percentile) a =
      state_of (get_percentile d component percentile a)

  -- The operations one after the other.
  unfoldable pub run_all :
      Doubles D → List (Operation D) → LatencyAnalyzer D → Option (LatencyAnalyzer D)
  run_all d [] a = some a
  run_all d (o ∷ os) a = elim (run d o a) [ none ↦ none | some a' ↦ run_all d os a' ]

  abbrev Returns : Option (LatencyAnalyzer D) → Type 0
  Returns o = (a' : LatencyAnalyzer D) × (o ≡ some a') × (a'.is_locked ≡ false)

  pub locking-some :
      {A : Type 0} (a a' : LatencyAnalyzer D) (x : A)
      (body : LatencyAnalyzer D → Option (LatencyAnalyzer D × A))
      → a.is_locked ≡ false
      → body (record a { is_locked = true }) ≡ some (a', x)
      → locking a body ≡ some (record a' { is_locked = false }, x)
  unfolding locking
  locking-some a a' x body h e = rw (locking, h, e) refl
