-- ===== src/Prelude/Decimal.antt =====
-- Numbers printed in decimal, as `format!("{n}")` does.
use Prim.Native.Nat.{ℕ, zero, suc, ◌+◌, ◌/◌, ◌%◌}
use mathlib.Core.List.{List, [], ◌∷◌}
use veyron.Prelude.Tests.{ltb, if◌then◌else◌}

-- A number is greater than its count of digits, so itself and one more is fuel enough.
unfoldable pub digits_before : ℕ → ℕ → List ℕ → List ℕ
digits_before zero n printed = printed
digits_before (suc fuel) n printed =
    let rest = digits_before fuel (n / 10) ((b'0' + n % 10) ∷ printed) in
    if ltb n 10 then (b'0' + n) ∷ printed else rest

unfoldable pub decimal : ℕ → List ℕ
unfolding digits_before
decimal n = digits_before (suc n) n []
