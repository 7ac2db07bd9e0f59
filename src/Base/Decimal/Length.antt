-- ===== src/Base/Decimal/Length.antt =====
-- How long a printed number is, and how large a short one.
use Prim.Native.Nat.{ℕ, zero, suc, ◌+◌, ◌-◌, ◌*◌, ◌/◌, ◌%◌, ◌≤◌, ◌<◌}
use mathlib.Core.Path.{◌≡◌, refl, ap}
use mathlib.Core.Bool.{true}
use mathlib.Core.List.{[], ◌∷◌}
use native.Mathlib.Omega.{arith}
use projeto_rc.Base.Lists.{length, length-append, replicate, all}
use projeto_rc.Base.Text.{Bytes, is_digit}
use projeto_rc.Base.Decimal.{digits, print, print_padded}
use projeto_rc.Base.Decimal.RoundTrip.{digits_value}

length-replicate : (n c : ℕ) → length (replicate n c) ≡ n
length-replicate zero c = refl
length-replicate (suc n) c = ap suc (length-replicate n c)

pub print_padded-length : (width n : ℕ) → width ≤ length (print_padded width n)
unfolding print_padded
print_padded-length width n = omega (
  arith,
  length-append (replicate (width - length (print n)) b'0') (print n),
  length-replicate (width - length (print n)) b'0',
)

-- `b` with `k` zeros behind it.
abbrev pub tens : ℕ → ℕ → ℕ
tens zero b = b
tens (suc k) b = tens k (b * 10)

tens-above : (k b : ℕ) → b ≤ tens k b
tens-above zero b = omega arith
tens-above (suc k) b = omega (arith, tens-above k (b * 10))

tens-next : (k b : ℕ) → tens (suc k) b ≡ tens k b * 10
tens-next zero b = refl
tens-next (suc k) b = tens-next k (b * 10)

digits-length :
    (k rounds n : ℕ) (out : Bytes)
    → n < tens k 10
    → length (digits rounds n out) ≤ suc k + length out
unfolding digits
digits-length k zero n out h = omega arith
digits-length zero (suc rounds) n out h = ground arith
digits-length (suc k) (suc rounds) n out h =
    let small : n / 10 < tens k 10 = omega (arith, tens-next k 10) in
    ground (arith, digits-length k rounds (n / 10) ((b'0' + n % 10) ∷ out) small)

pub print_padded-exact : (k n : ℕ) → n < tens k 10 → length (print_padded (suc k) n) ≡ suc k
unfolding print print_padded
print_padded-exact k n h = omega (
  arith,
  digits-length k (suc n) n [] h,
  length-append (replicate (suc k - length (digits (suc n) n [])) b'0') (digits (suc n) n []),
  length-replicate (suc k - length (digits (suc n) n [])) b'0',
)

pub digits_value-bound :
    (k n b : ℕ) (s : Bytes)
    → length s ≤ k
    → all is_digit s ≡ true
    → n < b
    → digits_value n s < tens k b
digits_value-bound k n b [] l d h = omega (arith, tens-above k b)
digits_value-bound zero n b (c ∷ s) l d h = absurd (omega arith)
digits_value-bound (suc k) n b (c ∷ s) l d h = ground (
  arith,
  digits_value-bound k (n * 10 + (c - b'0')) (b * 10) s (omega arith) (ground arith) (ground arith),
)

pub print-length : (k n : ℕ) → n < tens k 10 → length (print n) ≤ suc k
unfolding print
print-length k n h = omega (arith, digits-length k (suc n) n [] h)

digits-longer : (rounds n : ℕ) (out : Bytes) → length out ≤ length (digits rounds n out)
unfolding digits
digits-longer zero n out = omega arith
digits-longer (suc rounds) n out =
    ground (arith, digits-longer rounds (n / 10) ((b'0' + n % 10) ∷ out))

pub print-some : (n : ℕ) → 1 ≤ length (print n)
unfolding print digits
print-some n = ground (arith, digits-longer n (n / 10) ((b'0' + n % 10) ∷ []))
