-- ===== src/Prelude/Decimal/RoundTrip.antt =====
-- `int(str(n))`.
use mathlib.Core.Path.{◌≡◌, refl}
use mathlib.Core.Logic.{◌≢◌}
use mathlib.Core.Bool.{Bool, true, ◌&&◌}
use mathlib.Core.List.{[], ◌∷◌, cons-ne-nil}
use Prim.Native.Nat.{ℕ, zero, suc, ◌+◌, ◌/◌, ◌%◌, ◌≤◌}
use native.Mathlib.Omega.{arith}
use versification_tool.Prelude.Texts.{Text, is_digit}
use versification_tool.Prelude.Decimal.{digits, show, read, int}

last_digit : (n : ℕ) (out : Text) → read ((b'0' + n % 10) ∷ out) (n / 10) ≡ read out n
unfolding read
last_digit n out = ground arith

read-digits : (f n : ℕ) (out : Text) → n ≤ f → read (digits f n out) 0 ≡ read out n
unfolding digits
read-digits zero n out h = ground arith
read-digits (suc f) n out h =
    ground (arith, last_digit n out, read-digits f (n / 10) ((b'0' + n % 10) ∷ out))

-- Every number is read back from its decimal print.
pub int-show : (n : ℕ) → int (show n) ≡ n
unfolding show read
int-show n = ground (arith, read-digits n n [])

-- `[0-9]*` matches the whole text
abbrev pub all_digits : Text → Bool
all_digits [] = true
all_digits (c ∷ s) = is_digit c && all_digits s

all_digits-digits :
    (f n : ℕ) (out : Text) → all_digits out ≡ true → all_digits (digits f n out) ≡ true
unfolding digits
all_digits-digits zero n out h = h
all_digits-digits (suc f) n out h =
    ground (arith, all_digits-digits f (n / 10) ((b'0' + n % 10) ∷ out))

digits-ne-nil : (f n : ℕ) (out : Text) → out ≢ [] → digits f n out ≢ []
unfolding digits
digits-ne-nil zero n out h = h
digits-ne-nil (suc f) n out h =
    ground
      (arith, digits-ne-nil f (n / 10) ((b'0' + n % 10) ∷ out) (cons-ne-nil (b'0' + n % 10) out))

first_digit : (n : ℕ) → n ≢ 0 → digits n n [] ≢ []
unfolding digits
first_digit zero h = absurd (h refl)
first_digit (suc n) h = ground (
  arith,
  digits-ne-nil n (suc n / 10) ((b'0' + suc n % 10) ∷ []) (cons-ne-nil (b'0' + suc n % 10) []),
)

pub show-ne-nil : (n : ℕ) → show n ≢ []
unfolding show
show-ne-nil n = ground (arith, first_digit n)

pub all_digits-show : (n : ℕ) → all_digits (show n) ≡ true
unfolding show
all_digits-show n = ground (arith, all_digits-digits n n [])
