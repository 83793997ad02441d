-- ===== src/Prelude/Decimal.antt =====
-- `int(s)` of a string of ASCII digits, and `str(n)`.
pub mod RoundTrip
use mathlib.Core.List.{List, [], ◌∷◌}
use Prim.Native.Nat.{ℕ, zero, suc, ◌+◌, ◌-◌, ◌*◌, ◌/◌, ◌%◌}
use versification_tool.Prelude.Tests.{if◌then◌else◌, nat_beq}
use versification_tool.Prelude.Texts.{Text}

-- The digits of `n` in front of `out`, at most one for each unit of fuel.
digits : ℕ → ℕ → Text → Text
digits zero n out = out
digits (suc fuel) n out =
    let more = digits fuel (n / 10) ((b'0' + n % 10) ∷ out) in if nat_beq n 0 then out else more

-- `str(n)`: a number has at most as many digits as units.
unfoldable pub show : ℕ → Text
unfolding digits
show n = if nat_beq n 0 then b'0' ∷ [] else digits n n []

-- The value of digits behind a number that was read already.
unfoldable pub read : Text → ℕ → ℕ
read [] n = n
read (c ∷ s) n = read s (n * 10 + (c - b'0'))

-- `int(s)`
abbrev pub int : Text → ℕ
int s = read s 0
