-- ===== src/User/Checks.antt =====
-- The field checks at the top of src/user/commands.c, in the form of those of the server.
use projeto_rc.Base.{
  Bool, false, not, ◌&&◌, ◌||◌, Option, none, some, List, [], ◌∷◌, Bytes, codes, ◌==◌, ltb, leb,
  is_digit, is_alpha, length, all, if◌then◌else◌,
}
use projeto_rc.Server.Checks.{atoi}
use projeto_rc.User.Session.{Line, error}

unfoldable pub check_uid : Option Bytes → Bool
check_uid none = false
check_uid (some str) = if length str == 5 then all is_digit str else false

unfoldable pub check_pass : Option Bytes → Bool
check_pass none = false
check_pass (some str) = if length str == 8 then all (λ c. is_digit c || is_alpha c) str else false

unfoldable pub check_gid : Option Bytes → Bool
check_gid none = false
check_gid (some str) = if length str == 2 then all is_digit str else false

unfoldable pub check_gname : Option Bytes → Bool
check_gname none = false
check_gname (some str) =
    if ltb (length str) 24
    then all (λ c. is_digit c || is_alpha c || c == b'-' || c == b'_') str
    else false

-- One to four digits here, where the server wants four.
unfoldable pub check_mid : Option Bytes → Bool
check_mid none = false
check_mid (some str) =
    if leb (length str) 4 && leb 1 (length str)
    then (if all is_digit str then not (atoi str == 0) else false)
    else false

abbrev pub both_valid : Option Bytes → Option Bytes → Bool
both_valid uid pass = check_uid uid && check_pass pass

-- What a check prints: that there is no word, that its size is wrong, or that its characters are.
abbrev checked : Bytes → Bytes → Bool → Bool → List Line
checked size_text chars_text sized plain =
    if not sized then error size_text ∷ [] else if not plain then error chars_text ∷ [] else []

abbrev pub uid_lines : Option Bytes → List Line
uid_lines none = error (codes "Invalid user name") ∷ []
uid_lines (some str) =
    checked (codes "Invalid user name size") (codes "Invalid user name characters")
      (length str == 5) (all is_digit str)

abbrev pub pass_lines : Option Bytes → List Line
pass_lines none = error (codes "Invalid password") ∷ []
pass_lines (some str) =
    checked (codes "Invalid password size") (codes "Invalid password characters") (length str == 8)
      (all (λ c. is_digit c || is_alpha c) str)

abbrev pub gid_lines : Option Bytes → List Line
gid_lines none = error (codes "Invalid group id") ∷ []
gid_lines (some str) =
    checked (codes "Invalid group id size") (codes "Invalid group id chars") (length str == 2)
      (all is_digit str)

abbrev pub gname_lines : Option Bytes → List Line
gname_lines none = error (codes "Invalid group name") ∷ []
gname_lines (some str) =
    checked (codes "Invalid group name length") (codes "Invalid group name chars")
      (ltb (length str) 24) (all (λ c. is_digit c || is_alpha c || c == b'-' || c == b'_') str)

abbrev pub mid_lines : Option Bytes → List Line
mid_lines none = error (codes "Invalid message number") ∷ []
mid_lines (some str) =
    if leb (length str) 4 && leb 1 (length str)
    then checked (codes "Invalid message number chars") (codes "Invalid message number")
        (all is_digit str) (not (atoi str == 0))
    else error (codes "Invalid message number length") ∷ []

-- The second check is made when the first one holds.
abbrev pub credentials_lines : Option Bytes → Option Bytes → List Line
credentials_lines uid pass = if check_uid uid then pass_lines pass else uid_lines uid

abbrev pub group_lines : Option Bytes → Option Bytes → List Line
group_lines gid gname = if check_gid gid then gname_lines gname else gid_lines gid
