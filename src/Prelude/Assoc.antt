-- ===== src/Prelude/Assoc.antt =====
-- Dictionaries keyed by numbers, as association lists with at most one entry for a key.
use Prim.Native.Nat.{ℕ}
use mathlib.Core.Path.{◌≡◌}
use mathlib.Core.List.{List, [], ◌∷◌}
use mathlib.Core.Option.{Option, none, some}
use native.Mathlib.Omega.{arith}
use kernelc_moderne.Prelude.Tests.{◌==◌, if◌then◌else◌}

module _ {ℓ} {Value : Type ℓ} where
  -- `it = m.find(key)`
  unfoldable pub lookup : ℕ → List (ℕ × Value) → Option Value
  lookup key [] = none
  lookup key ((key', value) ∷ rest) = if key == key' then some value else lookup key rest

  -- `m[key] = value`
  unfoldable pub insert : ℕ → Value → List (ℕ × Value) → List (ℕ × Value)
  insert key value [] = (key, value) ∷ []
  insert key value ((key', old) ∷ rest) =
      let others = insert key value rest in
      if key == key' then (key, value) ∷ rest else (key', old) ∷ others

  -- `m.erase(key)`
  unfoldable pub erase : ℕ → List (ℕ × Value) → List (ℕ × Value)
  erase key [] = []
  erase key ((key', old) ∷ rest) =
      let others = erase key rest in if key == key' then others else (key', old) ∷ others

  pub lookup-insert :
      (key other : ℕ) (value : Value) (table : List (ℕ × Value))
      → lookup other (insert key value table)
        ≡ (if key == other then some value else lookup other table)
  unfolding lookup insert
  lookup-insert key other value [] = ground arith
  lookup-insert key other value ((key', old) ∷ rest) =
      ground (arith, lookup-insert key other value rest)

  pub lookup-erase :
      (key other : ℕ) (table : List (ℕ × Value))
      → lookup other (erase key table) ≡ (if key == other then none else lookup other table)
  unfolding lookup erase
  lookup-erase key other [] = ground arith
  lookup-erase key other ((key', old) ∷ rest) = ground (arith, lookup-erase key other rest)
