-- ===== src/Server/Accounts.antt =====
-- The account commands of src/server/commands.c: reg, unregister, login_ and logout_.
pub mod Unregister
pub mod Sessions
pub mod Refinement
pub mod Keeps
pub mod Spec
pub mod Credentials
use projeto_rc.Base.{
  ℕ, suc, ◌≡◌, Bool, true, false, not, ◌&&◌, Option, none, some, List, [], ◌∷◌, Bytes, codes, ◌==◌,
  ltb, leb, is_space, text_eq, length, if◌then◌else◌,
}
use projeto_rc.Base.Outcome.{Outcome, done, stop, null_file, out_of_bounds, uninitialised, ◌>>=◌}
use projeto_rc.Disk.{FilePath, Node, dir, file, Disk, lookup, depth, Os}
use projeto_rc.Files.{
  directory_exists, file_exists, create_directory_abs, create_file, delete_file, delete_directory,
  list_subdirectories,
}
use projeto_rc.Sll.{items}
use projeto_rc.Util.Word.{Cursor, get_word}
use projeto_rc.Server.Reply.{text_of, Answer, reply, open_read, scan_string}
use projeto_rc.Server.Checks.{check_uid, check_pass}
use projeto_rc.Server.Paths.{user_path, groups_path, group_path, pass_txt, login_name}

unfoldable pub check_credencials : Bytes → Bytes → Disk → Outcome ℕ
unfolding directory_exists open_read scan_string
check_credencials name pass fs =
    if directory_exists (user_path name) fs
    then (do
      text ← open_read (pass_txt ∷ user_path name) fs
      user_pass ← scan_string 9 text
      done (if text_eq user_pass pass then 0 else 2))
    else done 1

unfoldable pub is_logged_in : Bytes → Disk → Bool
unfolding file_exists
is_logged_in name fs = file_exists (user_path name) login_name fs

-- `check_uid(uid) == FERROR || check_pass(pass) == FERROR`
abbrev pub both_valid : Option Bytes → Option Bytes → Bool
both_valid uid pass = check_uid uid && check_pass pass

module _ (os : Os) where
  -- `reg` behind its checks.
  unfoldable pub register : Bytes → Bytes → Disk → Outcome Answer
  unfolding directory_exists create_directory_abs create_file
  register uid pass fs =
      if directory_exists (user_path uid) fs
      then reply fs (codes "RRG DUP\n") (some uid)
      else elim (create_directory_abs os (user_path uid) fs) [
        | none ↦ reply fs (codes "RRG NOK\n") none
        | some fs1 ↦ elim (create_file os (user_path uid) pass_txt (some pass) fs1) [
          | none ↦ reply fs1 (codes "RRG NOK\n") none
          | some fs2 ↦ reply fs2 (codes "RRG OK\n") (some uid)
        ]
      ]

  -- The loop of `unregister` over the groups: the file of the user goes from each.
  unfoldable pub leave_groups : Bytes → List Bytes → Disk → Disk × Bool
  unfolding file_exists delete_file
  leave_groups uid [] fs = (fs, true)
  leave_groups uid (group ∷ gs) fs = elim (file_exists (group_path group) uid fs) [
    | false ↦ leave_groups uid gs fs
    | true ↦ elim (delete_file os (group_path group) uid fs) [
      | none ↦ (fs, false)
      | some fs' ↦ leave_groups uid gs fs'
    ]
  ]

  abbrev pub left_groups : Bytes → Disk × Bool → Outcome Answer
  left_groups uid (fs, true) = reply fs (codes "RUN OK\n") (some uid)
  left_groups uid (fs, false) = reply fs (codes "RUN NOK\n") none

  abbrev pub deleted_user : Bytes → Disk × Bool → Outcome Answer
  deleted_user uid (fs, true) =
      left_groups uid (leave_groups uid (items (list_subdirectories os groups_path fs)) fs)
  deleted_user uid (fs, false) = reply fs (codes "RUN NOK\n") none

  -- `unregister` behind its checks. No recursion goes deeper than the longest path.
  unfoldable pub remove_user : Bytes → Bytes → Disk → Outcome Answer
  unfolding check_credencials delete_directory list_subdirectories items leave_groups
  remove_user uid pass fs = do
    c ← check_credencials uid pass fs
    if c == 0
        then delete_directory os (suc (depth fs)) (user_path uid) fs >>= deleted_user uid
        else reply fs (codes "RUN NOK\n") (some uid)

  -- `login_` behind its checks.
  unfoldable pub log_in : Bytes → Bytes → Disk → Outcome Answer
  unfolding check_credencials is_logged_in create_file
  log_in uid pass fs = do
    c ← check_credencials uid pass fs
    if c == 0
        then if is_logged_in uid fs
          then reply fs (codes "RLO OK\n") (some uid)
          else elim (create_file os (user_path uid) login_name none fs) [
            | none ↦ reply fs (codes "RLO NOK\n") none
            | some fs' ↦ reply fs' (codes "RLO OK\n") (some uid)
          ]
        else reply fs (codes "RLO NOK\n") (some uid)

  -- `logout_` behind its checks.
  unfoldable pub log_out : Bytes → Bytes → Disk → Outcome Answer
  unfolding check_credencials is_logged_in delete_file
  log_out uid pass fs = do
    c ← check_credencials uid pass fs
    if c == 0
        then if is_logged_in uid fs
          then elim (delete_file os (user_path uid) login_name fs) [
            | none ↦ reply fs (codes "ROU NOK\n") none
            | some fs' ↦ reply fs' (codes "ROU OK\n") (some uid)
          ]
          else reply fs (codes "ROU OK\n") (some uid)
        else reply fs (codes "ROU NOK\n") (some uid)

  -- The two words of the arguments, their checks, and the command; with the cursor, since the words
  -- are cut in the buffer.
  unfoldable pub with_credentials :
      Bytes → (Bytes → Bytes → Disk → Outcome Answer) → Cursor → Disk → Outcome (Answer × Cursor)
  unfolding get_word check_uid check_pass
  with_credentials refusal body args fs = do
    (uid, args1) ← get_word args
    (pass, args2) ← get_word args1
    answer ←
        if both_valid uid pass then body (text_of uid) (text_of pass) fs else reply fs refusal none
    done (answer, args2)

  unfoldable pub reg : Cursor → Disk → Outcome (Answer × Cursor)
  unfolding with_credentials register
  reg = with_credentials (codes "RRG NOK\n") register

  unfoldable pub unregister : Cursor → Disk → Outcome (Answer × Cursor)
  unfolding with_credentials remove_user
  unregister = with_credentials (codes "RUN NOK\n") remove_user

  unfoldable pub login_ : Cursor → Disk → Outcome (Answer × Cursor)
  unfolding with_credentials log_in
  login_ = with_credentials (codes "RLO NOK\n") log_in

  unfoldable pub logout_ : Cursor → Disk → Outcome (Answer × Cursor)
  unfolding with_credentials log_out
  logout_ = with_credentials (codes "ROU NOK\n") log_out
