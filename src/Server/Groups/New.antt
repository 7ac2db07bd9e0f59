-- ===== src/Server/Groups/New.antt =====
-- `subscribe` with the gid 00, from the numbering of the group to its first member.
use projeto_rc.Base.{
  ℕ, ◌+◌, ◌≡◌, refl, inl, inr, true, false, none, some, [], ◌∷◌, ◌++◌, arith, Bytes, codes, ltb,
  text_eq, text_eq_sound, text_eq_refl, Bool-cases,
}
use projeto_rc.Base.Outcome.{Outcome, done}
use projeto_rc.Base.Decimal.{print_padded}
use projeto_rc.Disk.{dir, file, Disk, lookup, put, is_dir, Os}
use projeto_rc.Disk.Laws.{lookup-put, lookup-put_self}
use projeto_rc.Files.{directory_exists, create_file, list_subdirectories}
use projeto_rc.Files.Allowed.{IsPermissive, write_file_allowed}
use projeto_rc.Sll.{sll_size}
use projeto_rc.Server.Checks.{check_uid, check_gname}
use projeto_rc.Server.Paths.{user_path, groups_path, group_path, name_txt}
use projeto_rc.Server.Reply.{Answer, udp, uid_gid, open_read, scan_string}
use projeto_rc.Server.Accounts.Spec.{HasAccounts}
use projeto_rc.Server.Accounts.Unregister.{member_not_dir}
use projeto_rc.Server.Groups.{new_gid, join_group, subscribe_to}
use projeto_rc.Server.Groups.Keeps.{group_entry-HasAccounts}
use projeto_rc.Server.Groups.Join.{HasGroup, scan_string-gname}
use projeto_rc.Server.Groups.Create.{
  with_group, create_group_lem, with_group-HasAccounts, with_group-HasGroup,
}

uid_not_name : (uid : Bytes) → check_uid (some uid) ≡ true → text_eq uid name_txt ≡ false
unfolding check_uid
uid_not_name uid h = elim (Bool-cases (text_eq uid name_txt)) [
  | inl e ↦ let k : false ≡ true = rw (text_eq_sound uid name_txt e) at h in absurd (ground arith)
  | inr e ↦ e
]

module _ {fs : Disk} (uid gid name : Bytes) (has : HasGroup gid name fs)
    (valid : check_uid (some uid) ≡ true) where
  -- A member's file leaves the group as it is.
  member-HasGroup : HasGroup gid name (put (uid ∷ group_path gid) (file []) fs)
  member-HasGroup = record {
    groups_dir =
        ground (arith, lookup-put fs (uid ∷ group_path gid) groups_path (file []), has.groups_dir);
    group_dir =
        ground
          (arith, lookup-put fs (uid ∷ group_path gid) (group_path gid) (file []), has.group_dir);
    name_file = ground (
      arith,
      lookup-put fs (uid ∷ group_path gid) (name_txt ∷ group_path gid) (file []),
      uid_not_name uid valid,
      has.name_file,
    );
    valid = has.valid;
    name_first = has.name_first;
  }

  -- With the name of the group, `subscribe` adds the member and keeps the reply that it has.
  join_group-same :
      (os : Os) (msg : Bytes)
      → IsPermissive os
      → HasAccounts fs
      → join_group os uid gid name (some msg) fs
        ≡ done (
          record {
            disk = put (uid ∷ group_path gid) (file []) fs;
            sent = udp msg ∷ [];
            value = some (uid_gid uid gid);
          },
          gid,
        )
  unfolding join_group open_read create_file directory_exists
  join_group-same os msg allowed ok =
      let (c, s, first) = has.name_first in
      let read : scan_string 128 name ≡ done name =
        rw first (scan_string-gname c s (rw first at has.valid)) in
      let free : is_dir (lookup fs (uid ∷ group_path gid)) ≡ false =
        member_not_dir uid gid ok valid in
      ground (
        arith,
        read,
        text_eq_refl name,
        has.groups_dir,
        has.name_file,
        write_file_allowed os allowed uid (group_path gid) [] fs has.group_dir free,
      )

-- The answer of a `subscribe` to a new group: its gid in the one reply, the group with the name, the
-- user in it, and the accounts in order.
abbrev pub Creates : Bytes → Bytes → Bytes → Outcome (Answer × Bytes) → Type 0
Creates uid gid name o =
    (a : Answer) × (o ≡ done (a, gid))
    × (a.sent ≡ udp (codes "RGS NEW " ++ (gid ++ codes "\n")) ∷ [])
    × HasGroup gid name a.disk
    × (lookup a.disk (uid ∷ group_path gid) ≡ some (file []))
    × HasAccounts a.disk

module _ (os : Os) (allowed : IsPermissive os) where
  -- Where the system refuses no call, the accounts are in order, the uid is valid and its user
  -- exists, the name is valid and not empty, the directory of the groups exists with fewer than
  -- 99 visible directories in it, and the gid of two digits that is one more than their number is
  -- free, `subscribe` behind its checks with the gid 00 sends the one reply RGS NEW with that
  -- gid, and leaves the group under it with the name, the user in it, and the accounts in order.
  pub subscribe_to-Creates :
      (uid name : Bytes) (c : ℕ) (s : Bytes) (fs : Disk)
      → HasAccounts fs
      → check_uid (some uid) ≡ true
      → directory_exists (user_path uid) fs ≡ true
      → lookup fs groups_path ≡ some dir
      → name ≡ c ∷ s
      → check_gname (some name) ≡ true
      → ltb 99 (sll_size (list_subdirectories os groups_path fs) + 1) ≡ false
      → lookup fs
          (group_path (print_padded 2 (sll_size (list_subdirectories os groups_path fs) + 1)))
        ≡ none
      → Creates uid
          (print_padded 2 (sll_size (list_subdirectories os groups_path fs) + 1))
          name
          (subscribe_to os uid new_gid name fs)
  unfolding subscribe_to
  subscribe_to-Creates uid name c s fs ok valid user groups first named room free =
      let gid : Bytes = print_padded 2 (sll_size (list_subdirectories os groups_path fs) + 1) in
      let gs : Disk = with_group gid name fs in
      let has : HasGroup gid name gs =
        with_group-HasGroup gid name ok groups free c s first named in
      let ok' : HasAccounts gs = with_group-HasAccounts gid name ok groups free in
      let vacant : is_dir (lookup gs (uid ∷ group_path gid)) ≡ false =
        member_not_dir uid gid ok' valid in
      let msg : Bytes = codes "RGS NEW " ++ (gid ++ codes "\n") in
      (
        record {
          disk = put (uid ∷ group_path gid) (file []) gs;
          sent = udp msg ∷ [];
          value = some (uid_gid uid gid);
        },
        rw (user, room, create_group_lem gid name ok groups free os allowed)
            (join_group-same uid gid name has valid os msg allowed ok'),
        refl,
        member-HasGroup uid gid name has valid,
        lookup-put_self gs (uid ∷ group_path gid) (file []),
        group_entry-HasAccounts uid gid (file []) ok' has.group_dir (inr vacant) (λ e. refl),
      )
