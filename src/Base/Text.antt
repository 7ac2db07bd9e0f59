-- ===== src/Base/Text.antt =====
-- C text: a string is the list of its bytes before the terminating NUL. `strcmp(a, b) == 0` is
-- `text_eq a b`, and `strcmp(a, b) > 0` is `text_gt a b`.
use Prim.Native.Nat.{ℕ}
use Prim.Native.Char.{code}
use Prim.Native.String.{String}
use mathlib.Core.Path.{◌≡◌, refl}
use mathlib.Core.Bool.{Bool, true, false, ◌&&◌, ◌||◌}
use mathlib.Core.List.{List, [], ◌∷◌}
use native.Mathlib.Omega.{arith}
use projeto_rc.Base.Tests.{◌==◌, leb, ltb}

abbrev pub Bytes : Type 0
Bytes = List ℕ

abbrev pub codes : String → Bytes
codes String.[] = []
codes (String.◌∷◌ c s) = code c ∷ codes s

abbrev pub nul : ℕ
nul = 0

abbrev pub newline : ℕ
newline = 10

abbrev pub space : ℕ
space = 32

abbrev pub text_eq : Bytes → Bytes → Bool
text_eq [] [] = true
text_eq [] (y ∷ ys) = false
text_eq (x ∷ xs) [] = false
text_eq (x ∷ xs) (y ∷ ys) = x == y && text_eq xs ys

-- The first byte that differs decides; a proper prefix is the smaller text.
abbrev pub text_gt : Bytes → Bytes → Bool
text_gt [] ys = false
text_gt (x ∷ xs) [] = true
text_gt (x ∷ xs) (y ∷ ys) = ltb y x || (x == y && text_gt xs ys)

pub text_eq_sound : (a b : Bytes) → text_eq a b ≡ true → a ≡ b
text_eq_sound [] [] h = refl
text_eq_sound [] (y ∷ ys) h = ground arith
text_eq_sound (x ∷ xs) [] h = ground arith
text_eq_sound (x ∷ xs) (y ∷ ys) h = ground (arith, text_eq_sound xs ys)

pub text_eq_refl : (a : Bytes) → text_eq a a ≡ true
text_eq_refl [] = refl
text_eq_refl (x ∷ xs) = ground (arith, text_eq_refl xs)

-- <ctype.h> in the C locale.
abbrev pub is_digit : ℕ → Bool
is_digit c = leb b'0' c && leb c b'9'

abbrev pub is_alpha : ℕ → Bool
is_alpha c = (leb b'a' c && leb c b'z') || (leb b'A' c && leb c b'Z')

abbrev pub is_space : ℕ → Bool
is_space c = c == space || (leb 9 c && leb c 13)
