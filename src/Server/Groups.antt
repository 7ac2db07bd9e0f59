-- ===== src/Server/Groups.antt =====
-- The group commands of src/server/commands.c: groups, subscribe, unsubscribe and my_groups.
pub mod Create
pub mod Keeps
pub mod New
pub mod Join
pub mod Leave
use mathlib.Core.List.{reverse}
use projeto_rc.Base.{
  ℕ, ◌+◌, ◌*◌, ◌-◌, Bool, true, false, not, Option, none, some, List, [], ◌∷◌, ◌++◌, Bytes, codes,
  ◌==◌, ltb, nul, text_eq, length, take, if◌then◌else◌,
}
use projeto_rc.Base.Outcome.{Outcome, done, stop, out_of_bounds, ◌>>=◌}
use projeto_rc.Base.Decimal.{print, print_padded}
use projeto_rc.Disk.{Disk, Os}
use projeto_rc.Files.{
  directory_exists, file_exists, create_directory, create_directory_abs, create_file, delete_file,
  list_subdirectories, list_subdirectories_ord,
}
use projeto_rc.Sll.{sll_size, items}
use projeto_rc.Util.Word.{Cursor, get_word}
use projeto_rc.Server.Reply.{Answer, reply, open_read, scan_string, text_of, uid_gid}
use projeto_rc.Server.Checks.{check_uid, check_gid, check_gname}
use projeto_rc.Server.Paths.{user_path, groups_path, group_path, name_txt, msg_name}
use projeto_rc.Server.Accounts.{is_logged_in}

-- `strcmp(gid, "00") == 0` asks for a new group.
abbrev pub new_gid : Bytes
new_gid = codes "00"

abbrev pub or_else : Option Bytes → Bytes → Bytes
or_else none text = text
or_else (some msg) text = msg

module _ (os : Os) where
  -- " GID GName MID" of one group, MID being the number of its messages.
  unfoldable pub group_line : Bytes → Disk → Outcome Bytes
  unfolding list_subdirectories sll_size open_read scan_string print_padded
  group_line group fs =
      let msg_list = list_subdirectories os (msg_name ∷ group_path group) fs in
      do
        text ← open_read (name_txt ∷ group_path group) fs
        name ← scan_string 25 text
        done (
            codes " "
            ++ (group
                ++ (codes " " ++ (name ++ (codes " " ++ print_padded 4 (sll_size msg_list))))))

  unfoldable pub group_lines : List Bytes → Disk → Outcome Bytes
  unfolding group_line
  group_lines [] fs = done []
  group_lines (group ∷ gs) fs = do
    line ← group_line group fs
    lines ← group_lines gs fs
    done (line ++ lines)

  -- The buffer has 33 bytes for each group and 5 for the rest but the number: the last two are the
  -- newline and the NUL.
  unfoldable pub groups : Cursor → Disk → Outcome (Answer × Cursor)
  unfolding list_subdirectories_ord sll_size items group_lines print
  groups args fs =
      let group_list = list_subdirectories_ord os groups_path fs in
      do
        lines ← group_lines (items group_list) fs
        answer ←
            if ltb (33 * sll_size group_list) (length lines + 1)
            then stop out_of_bounds
            else reply fs (codes "RGL " ++ (print (sll_size group_list) ++ (lines ++ codes "\n")))
                none
        done (answer, args)

  -- The directory, the message directory and the name of a new group; what was made before a failure
  -- stays.
  unfoldable pub create_group : Bytes → Bytes → Disk → Disk × Bool
  unfolding create_directory_abs create_directory create_file
  create_group gid gname fs = elim (create_directory_abs os (group_path gid) fs) [
    | none ↦ (fs, false)
    | some fs1 ↦ elim (create_directory os (group_path gid) msg_name fs1) [
      | none ↦ (fs1, false)
      | some fs2 ↦ elim (create_file os (group_path gid) name_txt (some gname) fs2) [
        | none ↦ (fs2, false)
        | some fs3 ↦ (fs3, true)
      ]
    ]
  ]

  -- The second half of `subscribe`: `msg` is the reply that the first half chose, if it did. The test
  -- is on the directory of all groups, as in the source. The last part is the buffer `gid`.
  unfoldable pub join_group : Bytes → Bytes → Bytes → Option Bytes → Disk → Outcome (Answer × Bytes)
  unfolding directory_exists open_read scan_string create_file
  join_group uid gid gname msg fs =
      if not (directory_exists groups_path fs)
      then (do
        answer ← reply fs (or_else msg (codes "RGS E_GRP\n")) (some (uid_gid uid gid))
        done (answer, gid))
      else (do
        text ← open_read (name_txt ∷ group_path gid) fs
        group_name ← scan_string 128 text
        answer ←
            if not (text_eq group_name gname)
            then reply fs (or_else msg (codes "RGS E_GNAME\n")) (some (uid_gid uid gid))
            else elim (create_file os (group_path gid) uid none fs) [
              | none ↦ reply fs (codes "RGS NOK\n") none
              | some fs' ↦ reply fs' (or_else msg (codes "RGS OK\n")) (some (uid_gid uid gid))
            ]
        done (answer, gid))

  abbrev pub created : Bytes → Bytes → Bytes → Disk × Bool → Outcome (Answer × Bytes)
  created uid gid gname (fs, false) = do
    answer ← reply fs (codes "RGS NOK\n") none
    done (answer, new_gid)
  created uid gid gname (fs, true) =
      join_group uid gid gname (some (codes "RGS NEW " ++ (gid ++ codes "\n"))) fs

  -- `subscribe` behind its checks.
  unfoldable pub subscribe_to : Bytes → Bytes → Bytes → Disk → Outcome (Answer × Bytes)
  unfolding directory_exists list_subdirectories sll_size join_group create_group print_padded
  subscribe_to uid gid gname fs =
      if not (directory_exists (user_path uid) fs)
      then (do answer ← reply fs (codes "RGS E_USR\n") (some (uid_gid uid gid)); done (answer, gid))
      else if text_eq gid new_gid
      then (let new_id = sll_size (list_subdirectories os groups_path fs) + 1 in
          if ltb 99 new_id
          then join_group uid gid gname (some (codes "RGS E_FULL\n")) fs
          else (let new = print_padded 2 new_id in
              created uid new gname (create_group new gname fs)))
      else join_group uid gid gname none fs

  -- `sprintf(gid, "%02d", new_id)` writes into the buffer of the message: the cursors stand behind
  -- the uid, the gid and the group name.
  abbrev pub overwrite_gid : Cursor → Cursor → Cursor → Bytes → Cursor
  overwrite_gid after_uid after_gid after_gname gid = record after_gname {
    behind =
        take (length after_gname.behind - length after_gid.behind) after_gname.behind
        ++ (nul ∷ (reverse gid ++ after_uid.behind));
  }

  unfoldable pub subscribe : Cursor → Disk → Outcome (Answer × Cursor)
  unfolding get_word check_uid check_gid check_gname subscribe_to
  subscribe args fs = do
    (uid, args1) ← get_word args
    (gid, args2) ← get_word args1
    (gname, args3) ← get_word args2
    if not (check_uid uid)
        then (do a ← reply fs (codes "RGS E_USR\n") none; done (a, args3))
        else if not (check_gid gid)
        then (do a ← reply fs (codes "RGS E_GRP\n") none; done (a, args3))
        else if not (check_gname gname)
        then (do a ← reply fs (codes "RGS E_GNAME\n") none; done (a, args3))
        else (do
          (a, gid') ← subscribe_to (text_of uid) (text_of gid) (text_of gname) fs
          done (a, overwrite_gid args1 args2 args3 gid'))

  -- `unsubscribe` behind its checks.
  unfoldable pub unsubscribe_from : Bytes → Bytes → Disk → Outcome Answer
  unfolding directory_exists file_exists delete_file
  unsubscribe_from uid gid fs =
      let ret = some (uid_gid uid gid) in
      if directory_exists (user_path uid) fs
      then if directory_exists (group_path gid) fs
        then if file_exists (group_path gid) uid fs
          then elim (delete_file os (group_path gid) uid fs) [
            | none ↦ reply fs (codes "RGU NOK\n") none
            | some fs' ↦ reply fs' (codes "RGU OK\n") ret
          ]
          else reply fs (codes "RGU OK\n") ret
        else reply fs (codes "RGU E_GRP\n") ret
      else reply fs (codes "RGU E_USR\n") ret

  unfoldable pub unsubscribe : Cursor → Disk → Outcome (Answer × Cursor)
  unfolding get_word check_uid check_gid unsubscribe_from
  unsubscribe args fs = do
    (uid, args1) ← get_word args
    (gid, args2) ← get_word args1
    answer ←
        if not (check_uid uid)
        then reply fs (codes "RGU E_USR\n") none
        else if not (check_gid gid)
        then reply fs (codes "RGU E_GRP\n") none
        else unsubscribe_from (text_of uid) (text_of gid) fs
    done (answer, args2)

  -- The groups that hold the user's file, with how many they are.
  unfoldable pub my_lines : Bytes → List Bytes → Disk → Outcome (ℕ × Bytes)
  unfolding file_exists group_line
  my_lines uid [] fs = done (0, [])
  my_lines uid (group ∷ gs) fs = elim (file_exists (group_path group) uid fs) [
    | false ↦ my_lines uid gs fs
    | true ↦ group_line group fs >>= λ line. my_lines uid gs fs >>= λ r. done (r.0 + 1, line ++ r.1)
  ]

  -- `my_groups` behind its check.
  unfoldable pub groups_of : Bytes → Disk → Outcome Answer
  unfolding directory_exists is_logged_in list_subdirectories_ord items my_lines print
  groups_of uid fs =
      if not (directory_exists (user_path uid) fs)
      then reply fs (codes "RGS E_USR\n") (some uid)
      else if not (is_logged_in uid fs)
      then reply fs (codes "RGS E_USR\n") (some uid)
      else (do
        (n, lines) ← my_lines uid (items (list_subdirectories_ord os groups_path fs)) fs
        if n == 0
            then reply fs (codes "RGM 0\n") (some uid)
            else reply fs (codes "RGM " ++ (print n ++ (lines ++ codes "\n"))) (some uid))

  unfoldable pub my_groups : Cursor → Disk → Outcome (Answer × Cursor)
  unfolding get_word check_uid groups_of
  my_groups args fs = do
    (uid, args1) ← get_word args
    answer ←
        if not (check_uid uid)
        then reply fs (codes "RGM E_USR\n") none
        else groups_of (text_of uid) fs
    done (answer, args1)
