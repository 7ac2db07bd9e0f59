-- ===== src/Server/Groups/Join.antt =====
-- `subscribe` of src/server/commands.c to a group that is there, and to one that is not.
use projeto_rc.Base.{
  ℕ, ◌≡◌, refl, inl, inr, Bool, true, false, ◌||◌, none, some, [], ◌∷◌, arith, Bytes, codes, ◌==◌,
  text_eq, is_digit, is_alpha, all, Bool-cases, if◌then◌else◌,
}
use projeto_rc.Base.Outcome.{Outcome, done, stop, null_file}
use projeto_rc.Disk.{FilePath, path_eq, dir, file, Disk, lookup, put, is_dir, Os}
use projeto_rc.Disk.Laws.{lookup-put}
use projeto_rc.Files.{directory_exists, create_file}
use projeto_rc.Files.Allowed.{IsPermissive, write_file_allowed}
use projeto_rc.Files.Laws.{child_none}
use projeto_rc.Server.Checks.{check_uid, check_gname}
use projeto_rc.Server.Paths.{user_path, groups_path, group_path, name_txt}
use projeto_rc.Server.Reply.{Answer, udp, uid_gid, open_read, scan_string, take_word}
use projeto_rc.Server.Accounts.Spec.{HasAccounts}
use projeto_rc.Server.Accounts.Unregister.{member_not_dir}
use projeto_rc.Server.Groups.Keeps.{group_entry-HasAccounts}
use projeto_rc.Server.Groups.{new_gid, join_group, subscribe_to}

-- The group is there, with a name that `fscanf` reads.
pub record HasGroup (gid name : Bytes) (fs : Disk) : Type 0 where
  pub groups_dir : lookup fs groups_path ≡ some dir
  pub group_dir : lookup fs (group_path gid) ≡ some dir
  pub name_file : lookup fs (name_txt ∷ group_path gid) ≡ some (file name)
  pub valid : check_gname (some name) ≡ true
  pub name_first : (c : ℕ) × (s : Bytes) × (name ≡ c ∷ s)

is_name : ℕ → Bool
is_name c = is_digit c || is_alpha c || c == b'-' || c == b'_'

take_word_name : (s : Bytes) → all is_name s ≡ true → take_word s ≡ s
unfolding is_name
take_word_name [] h = refl
take_word_name (c ∷ s) h = ground (arith, take_word_name s)

-- The name of a group is read back as it was written.
pub scan_string-gname :
    (c : ℕ) (s : Bytes) → check_gname (some (c ∷ s)) ≡ true → scan_string 128 (c ∷ s) ≡ done (c ∷ s)
unfolding check_gname scan_string is_name
scan_string-gname c s h = ground (arith, take_word_name (c ∷ s))

pub scan_string-short :
    (c : ℕ) (s : Bytes) → check_gname (some (c ∷ s)) ≡ true → scan_string 25 (c ∷ s) ≡ done (c ∷ s)
unfolding check_gname scan_string is_name
scan_string-short c s h = ground (arith, take_word_name (c ∷ s))

-- The reply to a `subscribe`, from the name of the group and the name that the user gave.
abbrev pub subscribe_reply : Bool → Bytes
subscribe_reply true = codes "RGS OK\n"
subscribe_reply false = codes "RGS E_GNAME\n"

-- The answer of a `subscribe`: one reply; the file of the user in the group if the names agree, and
-- nothing else changed on the disk.
abbrev pub Joins : Bytes → Bytes → Bool → Disk → Outcome (Answer × Bytes) → Type 0
Joins uid gid same fs o =
    (a : Answer) × (o ≡ done (a, gid))
    × (a.sent ≡ udp (subscribe_reply same) ∷ [])
    × ((q : FilePath)
        → lookup a.disk q ≡ (
            if same
            then (if path_eq (uid ∷ group_path gid) q then some (file []) else lookup fs q)
            else lookup fs q))
    × HasAccounts a.disk

module _ (os : Os) (allowed : IsPermissive os) where
  -- Where the system refuses no call, the accounts are in order, the uid is valid, its user
  -- exists, and the group exists under a gid other than 00 with a name that is valid and not
  -- empty, `subscribe` behind its checks replies RGS OK and puts an empty file of the user into
  -- the group when the name given is the group's, and replies RGS E_GNAME otherwise; nothing else
  -- on the disk changes, and the accounts stay in order.
  pub subscribe_to-Joins :
      (uid gid gname name : Bytes) (fs : Disk)
      → HasAccounts fs
      → HasGroup gid name fs
      → check_uid (some uid) ≡ true
      → directory_exists (user_path uid) fs ≡ true
      → text_eq gid new_gid ≡ false
      → Joins uid gid (text_eq name gname) fs (subscribe_to os uid gid gname fs)
  unfolding subscribe_to join_group open_read create_file directory_exists
  subscribe_to-Joins uid gid gname name fs ok has valid user old =
      let (c, s, first) = has.name_first in
      let read : scan_string 128 name ≡ done name =
        rw first (scan_string-gname c s (rw first at has.valid)) in
      let free : is_dir (lookup fs (uid ∷ group_path gid)) ≡ false =
        member_not_dir uid gid ok valid in
      elim (Bool-cases (text_eq name gname)) [
        | inl e ↦ (
          record {
            disk = put (uid ∷ group_path gid) (file []) fs;
            sent = udp (codes "RGS OK\n") ∷ [];
            value = some (uid_gid uid gid);
          },
          ground (
            arith,
            read,
            has.groups_dir,
            has.name_file,
            write_file_allowed os allowed uid (group_path gid) [] fs has.group_dir free,
          ),
          rw e,
          λ q. rw e (lookup-put fs (uid ∷ group_path gid) q (file [])),
          group_entry-HasAccounts uid gid (file []) ok has.group_dir (inr free) (λ c. refl),
        )
        | inr e ↦ (
          record {
            disk = fs;
            sent = udp (codes "RGS E_GNAME\n") ∷ [];
            value = some (uid_gid uid gid);
          },
          ground (arith, read, has.groups_dir, has.name_file),
          rw e,
          λ q. rw e,
          ok,
        )
      ]

module _ (os : Os) where
  -- With the accounts in order, for a user who exists and a gid other than 00 whose group does
  -- not exist, while the directory of the groups does, `subscribe` behind its checks uses the
  -- NULL that fopen returns, instead of replying RGS E_GRP.
  pub subscribe_to-missing :
      (uid gid gname : Bytes) (fs : Disk)
      → HasAccounts fs
      → directory_exists (user_path uid) fs ≡ true
      → text_eq gid new_gid ≡ false
      → directory_exists groups_path fs ≡ true
      → directory_exists (group_path gid) fs ≡ false
      → subscribe_to os uid gid gname fs ≡ stop null_file
  unfolding subscribe_to join_group open_read
  subscribe_to-missing uid gid gname fs ok user old groups missing =
      let miss : lookup fs (name_txt ∷ group_path gid) ≡ none =
        child_none (group_path gid) name_txt ok.tree (unfold directory_exists in missing) in
      rw (user, old, join_group, groups) (ground (arith, miss))
