-- ===== src/Prelude/Decimal.antt =====
-- `std::to_string` of an unsigned number: its decimal digits.
use Prim.Native.Nat.{ℕ, zero, suc, ◌+◌, ◌/◌, ◌%◌, ◌≤◌}
use mathlib.Core.Logic.{inl, inr}
use mathlib.Core.List.{[], ◌∷◌}
use native.Mathlib.Omega.{arith}
use altas.Prelude.Tests.{Bool-cases, ltb, if◌then◌else◌}
use altas.Prelude.Text.{Bytes}

-- A number has no more digits than one more than itself.
decimal_from : ℕ → ℕ → Bytes → Bytes
decimal_from zero n rest = rest
decimal_from (suc fuel) n rest =
    let longer = decimal_from fuel (n / 10) ((n % 10 + b'0') ∷ rest) in
    if ltb n 10 then (n + b'0') ∷ rest else longer

unfoldable pub decimal : ℕ → Bytes
unfolding decimal_from
decimal n = decimal_from (suc n) n []

abbrev pub IsDigits : Bytes → Type 0
IsDigits [] = Unit {0}
IsDigits (c ∷ cs) = (b'0' ≤ c) × (c ≤ b'9') × IsDigits cs

decimal_from-IsDigits :
    (fuel n : ℕ) (rest : Bytes) → IsDigits rest → IsDigits (decimal_from fuel n rest)
unfolding decimal_from
decimal_from-IsDigits zero n rest h = h
decimal_from-IsDigits (suc fuel) n rest h = elim (Bool-cases (ltb n 10)) [
  | inl e ↦ rw e (ground arith, ground arith, h)
  | inr e ↦ rw e (decimal_from-IsDigits fuel (n / 10) _ (omega arith, omega arith, h))
]

pub decimal-IsDigits : (n : ℕ) → IsDigits (decimal n)
unfolding decimal
decimal-IsDigits n = decimal_from-IsDigits (suc n) n [] tt
