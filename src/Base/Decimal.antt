-- ===== src/Base/Decimal.antt =====
-- printf's `%d`, `%ld`, `%02d` and `%04ld` on natural numbers.
pub mod RoundTrip
pub mod Length
use Prim.Native.Nat.{ℕ, zero, suc, ◌+◌, ◌-◌, ◌/◌, ◌%◌}
use mathlib.Core.List.{[], ◌∷◌, ◌++◌}
use projeto_rc.Base.Tests.{◌==◌, if◌then◌else◌}
use projeto_rc.Base.Lists.{length, replicate}
use projeto_rc.Base.Text.{Bytes}

-- The digits of `n` in front of `out`; `n + 1` rounds are enough, as each divides `n` by ten.
unfoldable pub digits : ℕ → ℕ → Bytes → Bytes
digits zero n out = out
digits (suc rounds) n out =
    let out' = (b'0' + n % 10) ∷ out in
    let rest = digits rounds (n / 10) out' in if n / 10 == 0 then out' else rest

unfoldable pub print : ℕ → Bytes
unfolding digits
print n = digits (suc n) n []

unfoldable pub print_padded : ℕ → ℕ → Bytes
unfolding print
print_padded width n = replicate (width - length (print n)) b'0' ++ print n
