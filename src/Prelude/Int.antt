-- ===== src/Prelude/Int.antt =====
-- The integers of the `int` coordinates, over native numbers and under the library's names.
use Prim.Native.Nat.{ℕ, ◌+◌, ◌-◌, ◌≤◌}
use mathlib.Core.Path.{◌≡◌}
use mathlib.Core.Bool.{Bool}
use native.Mathlib.Omega.{arith}
use kernelc_moderne.Prelude.Tests.{leb, ltb, if◌then◌else◌}

infixl 65 ◌+ℤ◌ ◌-ℤ◌
infix 50 ◌≤ℤ◌
-- `negsuc n` stands for -(n + 1).
pub data ℤ : Type 0 where
  pos negsuc : ℕ → ℤ

-- What an integer has above and below 0.
abbrev pub above : ℤ → ℕ
above (negsuc n) = 0
above (pos n) = n

abbrev pub below : ℤ → ℕ
below (negsuc n) = n + 1
below (pos n) = 0

abbrev pub difference : ℕ → ℕ → ℤ
difference m n = if ltb m n then negsuc (n - m - 1) else pos (m - n)

unfoldable pub ◌+ℤ◌ : ℤ → ℤ → ℤ
i +ℤ j = difference (above i + above j) (below i + below j)

unfoldable pub ◌-ℤ◌ : ℤ → ℤ → ℤ
i -ℤ j = difference (above i + below j) (below i + above j)

abbrev pub ◌≤ℤ◌ : ℤ → ℤ → Type 0
i ≤ℤ j = above i + below j ≤ above j + below i

abbrev pub leb_ℤ : ℤ → ℤ → Bool
leb_ℤ i j = leb (above i + below j) (above j + below i)

abbrev pub ltb_ℤ : ℤ → ℤ → Bool
ltb_ℤ i j = ltb (above i + below j) (above j + below i)

-- `std::min` and `std::max`
abbrev pub min_ℤ : ℤ → ℤ → ℤ
min_ℤ i j = if ltb_ℤ j i then j else i

abbrev pub max_ℤ : ℤ → ℤ → ℤ
max_ℤ i j = if ltb_ℤ i j then j else i

pub +ℤ_balance :
    (i j : ℤ) → above (i +ℤ j) + (below i + below j) ≡ below (i +ℤ j) + (above i + above j)
unfolding ◌+ℤ◌
+ℤ_balance i j = ground arith

pub -ℤ_balance :
    (i j : ℤ) → above (i -ℤ j) + (below i + above j) ≡ below (i -ℤ j) + (above i + below j)
unfolding ◌-ℤ◌
-ℤ_balance i j = ground arith

pub ≤ℤ-antisym : (i j : ℤ) → i ≤ℤ j → j ≤ℤ i → i ≡ j
≤ℤ-antisym i j le ge = ground arith

pub ruleset int_laws = (arith, +ℤ_balance, -ℤ_balance, ≤ℤ-antisym)
