-- ===== src/Base/Str/Decimal.antt =====
-- Decimal printing of unsigned numbers, and reading them back.
use Prim.Native.Nat.{ℕ, zero, suc, ◌+◌, ◌-◌, ◌*◌, ◌/◌, ◌%◌, ◌≤◌, ◌<◌}
use mathlib.Core.Path.{◌≡◌, ap}
use mathlib.Core.List.{[], ◌∷◌}
use native.Mathlib.Omega.{arith}
use xssh_rust_lib.Base.Tests.{ltb, if◌then◌else◌}
use xssh_rust_lib.Base.Lists.{All}
use xssh_rust_lib.Base.Str.{Text}

-- The last digit goes in front of those that follow it. A number below the fuel has enough of it.
digits : ℕ → ℕ → Text → Text
digits zero n out = out
digits (suc fuel) n out =
    let more = digits fuel (n / 10) ((b'0' + n % 10) ∷ out) in
    if ltb n 10 then (b'0' + n) ∷ out else more

unfoldable pub to_decimal : ℕ → Text
unfolding digits
to_decimal n = digits (suc n) n []

unfoldable pub read_decimal : ℕ → Text → ℕ
read_decimal n [] = n
read_decimal n (c ∷ t) = read_decimal (n * 10 + (c - b'0')) t

abbrev pub IsDigit : ℕ → Type 0
IsDigit c = (b'0' ≤ c) × (c ≤ b'9')

read-digits :
    (fuel n : ℕ) (out : Text) → n < fuel → read_decimal 0 (digits fuel n out) ≡ read_decimal n out
unfolding digits read_decimal
read-digits zero n out h = elim h [ ]
read-digits (suc fuel) n out h = ground (arith, read-digits fuel (n / 10) ((b'0' + n % 10) ∷ out))

-- A number is read back from its decimal print.
pub read-to_decimal : (n : ℕ) → read_decimal 0 (to_decimal n) ≡ n
read-to_decimal n = unfold to_decimal read_decimal in read-digits (suc n) n [] (omega arith)

pub to_decimal_injective : (m n : ℕ) → to_decimal m ≡ to_decimal n → m ≡ n
to_decimal_injective m n h =
    omega (arith, read-to_decimal m, read-to_decimal n, ap (read_decimal 0) h)

digits-IsDigit : (fuel n : ℕ) (out : Text) → All IsDigit out → All IsDigit (digits fuel n out)
unfolding digits
digits-IsDigit zero n out h = h
digits-IsDigit (suc fuel) n out h =
    ground (arith, digits-IsDigit fuel (n / 10) ((b'0' + n % 10) ∷ out))

pub to_decimal-IsDigit : (n : ℕ) → All IsDigit (to_decimal n)
to_decimal-IsDigit n = unfold to_decimal in digits-IsDigit (suc n) n [] tt
