-- ===== src/Server/Checks.antt =====
-- The field checks at the top of src/server/commands.c. A `char *` is an `Option Bytes`, NULL being
-- `none`; SUCCESS is `true` and FERROR `false`.
use projeto_rc.Base.Decimal.RoundTrip.{digits_value}
use projeto_rc.Base.{
  ℕ, Bool, false, not, ◌||◌, Option, none, some, Bytes, ◌==◌, ltb, is_digit, is_alpha, length, all,
  if◌then◌else◌,
}

-- atoi on a text that starts with its digits.
abbrev pub atoi : Bytes → ℕ
atoi = digits_value 0

unfoldable pub check_uid : Option Bytes → Bool
check_uid none = false
check_uid (some str) = if length str == 5 then all is_digit str else false

unfoldable pub check_pass : Option Bytes → Bool
check_pass none = false
check_pass (some str) = if length str == 8 then all (λ c. is_digit c || is_alpha c) str else false

unfoldable pub check_gid : Option Bytes → Bool
check_gid none = false
check_gid (some str) = if length str == 2 then all is_digit str else false

unfoldable pub check_gname : Option Bytes → Bool
check_gname none = false
check_gname (some str) =
    if ltb (length str) 24
    then all (λ c. is_digit c || is_alpha c || c == b'-' || c == b'_') str
    else false

unfoldable pub check_mid : Option Bytes → Bool
check_mid none = false
check_mid (some str) =
    if length str == 4 then (if all is_digit str then not (atoi str == 0) else false) else false
