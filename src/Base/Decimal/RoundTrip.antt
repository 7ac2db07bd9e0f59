-- ===== src/Base/Decimal/RoundTrip.antt =====
-- Reading back what printf wrote.
use Prim.Native.Nat.{ℕ, zero, suc, ◌+◌, ◌-◌, ◌*◌, ◌/◌, ◌%◌, ◌<◌}
use mathlib.Core.Path.{◌≡◌, refl, ◌∙◌}
use mathlib.Core.Bool.{true}
use mathlib.Core.List.{[], ◌∷◌, ◌++◌}
use native.Mathlib.Omega.{arith}
use projeto_rc.Base.Tests.{if◌then◌else◌}
use projeto_rc.Base.Lists.{length, replicate, all}
use projeto_rc.Base.Text.{Bytes, is_digit}
use projeto_rc.Base.Decimal.{digits, print, print_padded}

-- atoi from an accumulator, on a text of digits.
abbrev pub digits_value : ℕ → Bytes → ℕ
digits_value n [] = n
digits_value n (c ∷ s) =
    let rest = digits_value (n * 10 + (c - b'0')) s in if is_digit c then rest else n

-- Reading the printed number from 0 is reading what stood behind it from the number.
value-digits :
    (rounds n : ℕ) (out : Bytes)
    → n < rounds
    → digits_value 0 (digits rounds n out) ≡ digits_value n out
unfolding digits
value-digits zero n out h = absurd (omega arith)
value-digits (suc rounds) n out h =
    ground (arith, value-digits rounds (n / 10) ((b'0' + n % 10) ∷ out))

-- The number is read back from its print.
pub value-print : (n : ℕ) → digits_value 0 (print n) ≡ n
unfolding print
value-print n = value-digits (suc n) n [] (omega arith)

value-zeros : (k : ℕ) (s : Bytes) → digits_value 0 (replicate k b'0' ++ s) ≡ digits_value 0 s
value-zeros zero s = refl
value-zeros (suc k) s = value-zeros k s

pub value-print_padded : (width n : ℕ) → digits_value 0 (print_padded width n) ≡ n
unfolding print_padded
value-print_padded width n = value-zeros (width - length (print n)) (print n) ∙ value-print n

digits-all :
    (rounds n : ℕ) (out : Bytes)
    → all is_digit out ≡ true
    → all is_digit (digits rounds n out) ≡ true
unfolding digits
digits-all zero n out h = h
digits-all (suc rounds) n out h = ground (arith, digits-all rounds (n / 10) ((b'0' + n % 10) ∷ out))

pub print-digits : (n : ℕ) → all is_digit (print n) ≡ true
unfolding print
print-digits n = digits-all (suc n) n [] refl

zeros_all :
    (k : ℕ) (s : Bytes) → all is_digit s ≡ true → all is_digit (replicate k b'0' ++ s) ≡ true
zeros_all zero s h = h
zeros_all (suc k) s h = zeros_all k s h

pub print_padded-digits : (width n : ℕ) → all is_digit (print_padded width n) ≡ true
unfolding print_padded
print_padded-digits width n = zeros_all (width - length (print n)) (print n) (print-digits n)
