-- ===== src/Joint/Checks.antt =====
-- The field checks of src/user/commands.c beside those of src/server/commands.c.
use projeto_rc.Base.{◌<◌, ◌≡◌, refl, true, Option, none, some, arith, Bytes}
use projeto_rc.Base.Decimal.{print_padded}
use projeto_rc.Base.Decimal.RoundTrip.{value-print_padded, print_padded-digits}
use projeto_rc.Base.Decimal.Length.{print_padded-exact, digits_value-bound}
use projeto_rc.Server.Checks.{check_uid, check_pass, check_gid, check_gname, check_mid, atoi}
use projeto_rc.User.Checks as UserChecks

pub check_uid-same : (str : Option Bytes) → UserChecks.check_uid str ≡ check_uid str
unfolding check_uid UserChecks.check_uid
check_uid-same none = refl
check_uid-same (some str) = refl

pub check_pass-same : (str : Option Bytes) → UserChecks.check_pass str ≡ check_pass str
unfolding check_pass UserChecks.check_pass
check_pass-same none = refl
check_pass-same (some str) = refl

pub check_gid-same : (str : Option Bytes) → UserChecks.check_gid str ≡ check_gid str
unfolding check_gid UserChecks.check_gid
check_gid-same none = refl
check_gid-same (some str) = refl

pub check_gname-same : (str : Option Bytes) → UserChecks.check_gname str ≡ check_gname str
unfolding check_gname UserChecks.check_gname
check_gname-same none = refl
check_gname-same (some str) = refl

-- A message number that the user's program accepts, written with four digits as `retrieve` sends
-- it, is one that the server accepts, and it reads as the same number.
pub print_padded-check_mid :
    (mid : Bytes)
    → UserChecks.check_mid (some mid) ≡ true
    → (check_mid (some (print_padded 4 (atoi mid))) ≡ true)
      × (atoi (print_padded 4 (atoi mid)) ≡ atoi mid)
unfolding check_mid UserChecks.check_mid
print_padded-check_mid mid h =
    let small : atoi mid < 10000 = ground (arith, digits_value-bound 4 0 1 mid) in
    (
      ground (
        arith,
        print_padded-exact 3 (atoi mid) small,
        print_padded-digits 4 (atoi mid),
        value-print_padded 4 (atoi mid),
      ),
      value-print_padded 4 (atoi mid),
    )
