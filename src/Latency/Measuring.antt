-- ===== src/Latency/Measuring.antt =====
-- A measurement, from its start to its end.
use kernelc_moderne.Prelude.{
  ℕ, ◌≡◌, refl, sym, ap, inl, inr, true, false, List, [], ◌∷◌, ◌++◌, none, some, Text, eq_text,
  eq_text_sound, eq_text_refl, if◌then◌else◌, Bool-cases,
}
use kernelc_moderne.Latency.{
  Doubles, LatencyMeasurement, LatencyAnalyzer, generate_measurement_key, locking, find, store,
  remove, start_measurement, history_of, measured, end_measurement,
}

module _ {V : Type 0} where
  find-store :
      (key : Text) (v : V) (table : List (Text × V)) → find key (store key v table) ≡ some v
  unfolding find store
  find-store key v [] = rw (eq_text_refl key) refl
  find-store key v ((key', old) ∷ rest) = elim (Bool-cases (eq_text key key')) [
    | inl e ↦ rw (store, e, eq_text_refl key) refl
    | inr e ↦ rw (store, e, find, e) (find-store key v rest)
  ]

  find-remove_ne :
      (key other : Text) (table : List (Text × V))
      → eq_text other key ≡ false
      → find other (remove key table) ≡ find other table
  unfolding find remove
  find-remove_ne key other [] h = refl
  find-remove_ne key other ((key', old) ∷ rest) h = elim (Bool-cases (eq_text key key')) [
    | inl e ↦ rw (remove, e, sym (eq_text_sound key key' e), h) (find-remove_ne key other rest h)
    | inr e ↦
        rw (remove, e, find)
          (ap (λ o. if eq_text other key' then some old else o) (find-remove_ne key other rest h))
  ]

  other-remove-store :
      (key other : Text) (v : V) (table : List (Text × V))
      → eq_text other key ≡ false
      → find other (remove key (store key v table)) ≡ find other table
  unfolding find store remove
  other-remove-store key other v [] h = rw (eq_text_refl key) refl
  other-remove-store key other v ((key', old) ∷ rest) h = elim (Bool-cases (eq_text key key')) [
    | inl e ↦
        let same = eq_text_sound key key' e in
        rw (store, e, remove, eq_text_refl key) (rw (sym same, h) (find-remove_ne key other rest h))
    | inr e ↦
        rw (store, e, remove, e, find)
          (ap (λ o. if eq_text other key' then some old else o)
            (other-remove-store key other v rest h))
  ]

  find-remove : (key : Text) (table : List (Text × V)) → find key (remove key table) ≡ none
  unfolding find remove
  find-remove key [] = refl
  find-remove key ((key', old) ∷ rest) = elim (Bool-cases (eq_text key key')) [
    | inl e ↦ rw (remove, e) (find-remove key rest)
    | inr e ↦ rw (remove, e, find, e) (find-remove key rest)
  ]

module _ {D : Type 0} where
  start-some :
      (begun : ℕ) (component operation : Text) (a : LatencyAnalyzer D)
      → a.initialized ≡ true
      → a.is_locked ≡ false
      → start_measurement begun component operation a
        ≡ some (
          record a {
            is_locked = false;
            measurements =
                store (generate_measurement_key component operation) begun a.measurements;
          },
          true,
        )
  unfolding start_measurement locking
  start-some begun component operation a h h' = simp (h, h') refl

  end-some :
      (d : Doubles D) (begun now later : ℕ) (component operation : Text) (a : LatencyAnalyzer D)
      → a.initialized ≡ true
      → a.is_locked ≡ false
      → find (generate_measurement_key component operation) a.measurements ≡ some begun
      → end_measurement d now later component operation a
        ≡ some (
          record (measured d now later component operation a (some begun)).0 { is_locked = false },
          d.elapsed begun now,
        )
  unfolding end_measurement locking measured history_of
  end-some d begun now later component operation a h h' e = simp (h, h', e) refl

  history_known :
      (component : Text) (a : LatencyAnalyzer D) (ms : List (LatencyMeasurement D))
      → find component a.history ≡ some ms
      → history_of component a ≡ ms
  unfolding history_of
  history_known component a ms e = rw (history_of, e) refl

-- In an initialized analyzer whose mutex is free: to start a measurement and then to end it returns the
-- time in between. The history of the component then ends with this latency, with the time of the end.
-- The measurement is no longer running; those under other keys still run.
pub end_measurement-start_measurement :
    {D : Type 0} (d : Doubles D) (begun now later : ℕ) (component operation : Text)
    (a : LatencyAnalyzer D)
    → a.initialized ≡ true
    → a.is_locked ≡ false
    → let key = generate_measurement_key component operation in
      let m : LatencyMeasurement D = record {
        timestamp = later;
        latency = d.elapsed begun now;
        component = component;
        operation = operation;
      } in
      (a1 : LatencyAnalyzer D) × (a2 : LatencyAnalyzer D) × (start_measurement begun component
          operation a
        ≡ some (a1, true))
      × (end_measurement d now later component operation a1 ≡ some (a2, d.elapsed begun now))
      × (history_of component a2 ≡ history_of component a ++ (m ∷ []))
      × (find key a2.measurements ≡ none)
      × ((other : Text)
          → eq_text other key ≡ false
          → find other a2.measurements ≡ find other a.measurements)
unfolding measured history_of
end_measurement-start_measurement {D} d begun now later component operation a h h' =
    let key = generate_measurement_key component operation in
    let m : LatencyMeasurement D = record {
      timestamp = later;
      latency = d.elapsed begun now;
      component = component;
      operation = operation;
    } in
    let started : LatencyAnalyzer D = record a {
      is_locked = false;
      measurements = store key begun a.measurements;
    } in
    (
      _,
      _,
      start-some begun component operation a h h',
      end-some d begun now later component operation _ h refl (find-store key begun a.measurements),
      history_known component (measured d now later component operation started (some begun)).0
          (history_of component a ++ (m ∷ []))
          (find-store component (history_of component a ++ (m ∷ [])) a.history),
      find-remove key _,
      λ other e. other-remove-store key other begun a.measurements e,
    )
