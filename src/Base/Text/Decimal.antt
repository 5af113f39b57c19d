-- ===== src/Base/Text/Decimal.antt =====
-- The decimal print of a number, and its digits.
use cert_manager_essendi_xc.Base.Text.{Text, digits, decimal}
use Prim.Native.Nat.{ℕ, zero, suc, ◌+◌, ◌-◌, ◌*◌, ◌/◌, ◌%◌, ◌<◌}
use mathlib.Core.Path.{◌≡◌, sym, ◌∙◌, ap}
use mathlib.Core.Logic.{◌≢◌}
use mathlib.Core.List.{[], ◌∷◌}
use native.Mathlib.Omega.{arith}

-- The number that digits spell behind `n`.
value : ℕ → Text → ℕ
value n [] = n
value n (c ∷ s) = value (n * 10 + (c - b'0')) s

value-digits : (fuel n : ℕ) (out : Text) → n < fuel → value 0 (digits fuel n out) ≡ value n out
unfolding value digits
value-digits zero n out h = absurd (omega arith)
value-digits (suc fuel) n out h = ground (arith, value-digits fuel (n / 10) ((b'0' + n % 10) ∷ out))

decimal_value : (n : ℕ) → value 0 (decimal n) ≡ n
unfolding decimal value
decimal_value n = value-digits (suc n) n [] (omega arith)

-- Different numbers have different prints.
pub decimal_injective : (n m : ℕ) → decimal n ≡ decimal m → n ≡ m
decimal_injective n m h = sym (decimal_value n) ∙ ap (value 0) h ∙ decimal_value m

abbrev pub NoNewline : Text → Type 0
NoNewline [] = Unit
NoNewline (c ∷ s) = (c ≢ 10) × NoNewline s

digits-NoNewline : (fuel n : ℕ) (out : Text) → NoNewline out → NoNewline (digits fuel n out)
unfolding digits
digits-NoNewline zero n out h = h
digits-NoNewline (suc fuel) n out h =
    ground (arith, digits-NoNewline fuel (n / 10) ((b'0' + n % 10) ∷ out))

pub decimal-NoNewline : (n : ℕ) → NoNewline (decimal n)
unfolding decimal
decimal-NoNewline n = digits-NoNewline (suc n) n [] tt
