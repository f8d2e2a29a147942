-- ===== src/Base/Decimal.antt =====
-- `%d` of a number that is not negative.
use sharegres.Base.{ℕ, zero, suc, ◌+◌, ◌/◌, ◌%◌, [], ◌∷◌, ltb, if◌then◌else◌}
use sharegres.Base.Bytes.{Bytes}

-- The digits in front of `rest`, the last one first; each round takes one.
unfoldable pub digits_before : ℕ → ℕ → Bytes → Bytes
digits_before zero n rest = rest
digits_before (suc fuel) n rest =
    let digit = b'0' + n % 10 in
    let more = digits_before fuel (n / 10) (digit ∷ rest) in if ltb n 10 then digit ∷ rest else more

unfoldable pub decimal : ℕ → Bytes
unfolding digits_before
decimal n = digits_before (n + 1) n []
