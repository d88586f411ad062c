-- ===== src/Latency/Tests.antt =====
-- The theorems at concrete inputs, with latencies in whole numbers.
use kernelc_moderne.Prelude.{
  ℕ, ◌≡◌, refl, ◌+◌, ◌-◌, ◌*◌, ◌/◌, max, true, false, List, [], ◌∷◌, ◌++◌, none, some, Text,
  eq_text, ltb,
}
use kernelc_moderne.Latency.{
  Doubles, LatencyMeasurement, LatencyAnalyzer, generate_measurement_key, find, start_measurement,
  history_of, end_measurement,
}
use kernelc_moderne.Latency.Report.{Operation}
use kernelc_moderne.Latency.Measuring.{end_measurement-start_measurement}

abbrev whole : Doubles ℕ
whole = record {
  zero_latency = 0;
  add = λ a b. a + b;
  divide = λ a b. a / b;
  larger = λ a b. max a b;
  exceeds = λ a b. ltb b a;
  elapsed = λ begun now. (now - begun) / 1000;
  index_at = λ p n. p * (n - 1) / 100;
  sort = λ l. l;
}

abbrev ready : LatencyAnalyzer ℕ
ready = record {
  is_locked = false;
  initialized = true;
  measurements = [];
  history = [];
  thresholds = [];
}

abbrev operations : List (Operation ℕ)
operations =
    Operation.starting 1000 (65 ∷ []) (66 ∷ [])
    ∷ Operation.ending 9000 9001 (65 ∷ []) (66 ∷ [])
    ∷ []

abbrev ended : LatencyMeasurement ℕ
ended = record {
  timestamp = 9001;
  latency = (9000 - 1000) / 1000;
  component = 65 ∷ [];
  operation = 66 ∷ [];
}

end_measurement-start_measurement_example :
    (a1 : LatencyAnalyzer ℕ) × (a2 : LatencyAnalyzer ℕ) × (start_measurement 1000
        (65 ∷ [])
        (66 ∷ [])
        ready
      ≡ some (a1, true))
    × (end_measurement whole 9000 9001 (65 ∷ []) (66 ∷ []) a1 ≡ some (a2, (9000 - 1000) / 1000))
    × (history_of (65 ∷ []) a2 ≡ history_of (65 ∷ []) ready ++ (ended ∷ []))
    × (find (generate_measurement_key (65 ∷ []) (66 ∷ [])) a2.measurements ≡ none)
    × ((other : Text)
        → eq_text other (generate_measurement_key (65 ∷ []) (66 ∷ [])) ≡ false
        → find other a2.measurements ≡ find other [])
end_measurement-start_measurement_example =
    end_measurement-start_measurement whole 1000 9000 9001 (65 ∷ []) (66 ∷ []) ready refl refl
