-- ===== src/Server/Groups/Create.antt =====
-- The directory and the name of a new group, as `subscribe` of src/server/commands.c makes them.
use projeto_rc.Base.{ℕ, ◌≡◌, refl, inl, inr, true, false, none, some, ◌∷◌, arith, Bytes}
use projeto_rc.Disk.{dir, file, Disk, lookup, put, is_dir, Os}
use projeto_rc.Disk.Laws.{lookup-put, lookup-put_self}
use projeto_rc.Files.{create_directory, create_directory_abs, create_file}
use projeto_rc.Files.Allowed.{IsPermissive, mkdir_allowed, write_file_allowed}
use projeto_rc.Files.Laws.{child_none}
use projeto_rc.Server.Checks.{check_uid, check_gname}
use projeto_rc.Server.Paths.{groups_path, group_path, name_txt, msg_name}
use projeto_rc.Server.Accounts.Spec.{HasAccounts}
use projeto_rc.Server.Groups.{create_group}
use projeto_rc.Server.Groups.Keeps.{group_dir-HasAccounts, group_entry-HasAccounts}
use projeto_rc.Server.Groups.Join.{HasGroup}

abbrev with_group_dir : Bytes → Disk → Disk
with_group_dir gid fs = put (group_path gid) dir fs

abbrev with_messages : Bytes → Disk → Disk
with_messages gid fs = put (msg_name ∷ group_path gid) dir (with_group_dir gid fs)

-- The disk with a new group, which has a directory of messages and a name.
abbrev pub with_group : Bytes → Bytes → Disk → Disk
with_group gid name fs = put (name_txt ∷ group_path gid) (file name) (with_messages gid fs)

module _ {fs : Disk} (gid name : Bytes) (ok : HasAccounts fs)
    (groups : lookup fs groups_path ≡ some dir) (free : lookup fs (group_path gid) ≡ none) where
  child_free : (n : Bytes) → lookup (with_group_dir gid fs) (n ∷ group_path gid) ≡ none
  child_free n = ground (
    arith,
    lookup-put fs (group_path gid) (n ∷ group_path gid) dir,
    child_none (group_path gid) n ok.tree,
  )

  messages_dir : lookup (with_messages gid fs) (group_path gid) ≡ some dir
  messages_dir = ground (
    arith,
    lookup-put (with_group_dir gid fs) (msg_name ∷ group_path gid) (group_path gid) dir,
    lookup-put_self fs (group_path gid) dir,
  )

  name_free : lookup (with_messages gid fs) (name_txt ∷ group_path gid) ≡ none
  name_free = ground (
    arith,
    lookup-put (with_group_dir gid fs) (msg_name ∷ group_path gid) (name_txt ∷ group_path gid) dir,
    child_free name_txt,
  )

  pub with_group-HasAccounts : HasAccounts (with_group gid name fs)
  with_group-HasAccounts =
      group_entry-HasAccounts name_txt gid (file name)
        (group_entry-HasAccounts msg_name gid dir (group_dir-HasAccounts gid ok groups)
          (lookup-put_self fs (group_path gid) dir) (inl refl)
          (λ c. absurd (unfold check_uid in ground arith)))
        messages_dir (inr (rw name_free)) (λ c. refl)

  pub with_group-HasGroup :
      (c : ℕ) (s : Bytes)
      → name ≡ c ∷ s
      → check_gname (some name) ≡ true
      → HasGroup gid name (with_group gid name fs)
  with_group-HasGroup c s first valid = record {
    groups_dir = ground (
      arith,
      lookup-put (with_messages gid fs) (name_txt ∷ group_path gid) groups_path (file name),
      lookup-put (with_group_dir gid fs) (msg_name ∷ group_path gid) groups_path dir,
      lookup-put fs (group_path gid) groups_path dir,
    );
    group_dir = ground (
      arith,
      lookup-put (with_messages gid fs) (name_txt ∷ group_path gid) (group_path gid) (file name),
      messages_dir,
    );
    name_file = lookup-put_self (with_messages gid fs) (name_txt ∷ group_path gid) (file name);
    valid = valid;
    name_first = (c, s, first);
  }

  module _ (os : Os) (allowed : IsPermissive os) where
    pub create_group_lem : create_group os gid name fs ≡ (with_group gid name fs, true)
    unfolding create_group create_directory_abs create_directory create_file
    create_group_lem =
        let unnamed : is_dir (lookup (with_messages gid fs) (name_txt ∷ group_path gid)) ≡ false =
          rw name_free in
        ground (
          arith,
          mkdir_allowed os allowed gid groups_path fs groups free,
          mkdir_allowed os allowed msg_name (group_path gid) (with_group_dir gid fs)
              (lookup-put_self fs (group_path gid) dir) (child_free msg_name),
          write_file_allowed os allowed name_txt (group_path gid) name (with_messages gid fs)
              messages_dir unnamed,
        )

-- Where the system refuses no call, the accounts are in order, the directory of the groups
-- exists, the gid is free, and the name is valid and not empty, the calls with which `subscribe`
-- makes a new group succeed and leave the group, with its directory and its name, and the
-- accounts in order.
pub create_group-HasGroup :
    (os : Os) (gid name : Bytes) (c : ℕ) (s : Bytes) (fs : Disk)
    → IsPermissive os
    → HasAccounts fs
    → lookup fs groups_path ≡ some dir
    → lookup fs (group_path gid) ≡ none
    → name ≡ c ∷ s
    → check_gname (some name) ≡ true
    → (fs' : Disk) × (create_group os gid name fs ≡ (fs', true))
      × HasGroup gid name fs'
      × HasAccounts fs'
create_group-HasGroup os gid name c s fs allowed ok groups free first valid = (
  with_group gid name fs,
  create_group_lem gid name ok groups free os allowed,
  with_group-HasGroup gid name ok groups free c s first valid,
  with_group-HasAccounts gid name ok groups free,
)
