-- ===== src/Server/Groups/Keeps.antt =====
-- New entries of the groups' directory, and the order of the accounts.
use projeto_rc.Base.{
  ◌≡◌, refl, sym, ◌∙◌, ◌⊎◌, inl, inr, true, false, some, ◌∷◌, arith, Bytes, text_eq_sound,
  Bool-cases,
}
use projeto_rc.Disk.{FilePath, path_eq, Node, dir, Disk, lookup, put, is_dir}
use projeto_rc.Disk.Laws.{lookup-put}
use projeto_rc.Files.{server_users_name, server_groups_name}
use projeto_rc.Files.Laws.{IsTree, put-IsTree}
use projeto_rc.Server.Checks.{check_uid}
use projeto_rc.Server.Paths.{server_path, user_path, users_path, groups_path, group_path, pass_txt}
use projeto_rc.Server.Paths.Apart.{
  path_eq_tail, group_file-user_file, group_file-user_dir, group_file-users,
}
use projeto_rc.Server.Accounts.Spec.{HasAccounts}

-- A new node at a path that is none of the users'.
module _ {fs : Disk} (p : FilePath) (x : Node) (ok : HasAccounts fs) (tree : IsTree (put p x fs))
    (no_users : path_eq p users_path ≡ false)
    (no_user : (u : Bytes) → path_eq p (user_path u) ≡ false)
    (no_file : (n u : Bytes) → path_eq p (n ∷ user_path u) ≡ false)
    (harmless : (g u : Bytes)
      → path_eq p (u ∷ group_path g) ≡ true
      → check_uid (some u) ≡ true
      → is_dir (some x) ≡ false) where
  same : (q : FilePath) → path_eq p q ≡ false → lookup (put p x fs) q ≡ lookup fs q
  same q h = rw (lookup-put fs p q x, h)

  apart-HasAccounts : HasAccounts (put p x fs)
  apart-HasAccounts = record {
    tree = tree;
    users = same users_path no_users ∙ ok.users;
    user_dir = λ u y e. ok.user_dir u y (sym (same (user_path u) (no_user u)) ∙ e);
    has_pass = λ u e.
        let (t, h, v) = ok.has_pass u (sym (same (user_path u) (no_user u)) ∙ e) in
        (t, same (pass_txt ∷ user_path u) (no_file pass_txt u) ∙ h, v);
    plain = λ u n y e. ok.plain u n y (sym (same (n ∷ user_path u) (no_file n u)) ∙ e);
    members = λ g u y c e. elim (Bool-cases (path_eq p (u ∷ group_path g))) [
      | inl here ↦ ground (arith, lookup-put fs p (u ∷ group_path g) x, harmless g u here c)
      | inr other ↦ ok.members g u y c (sym (same (u ∷ group_path g) other) ∙ e)
    ];
  }

pub group_entry-HasAccounts :
    {fs : Disk} (n gid : Bytes) (x : Node)
    → HasAccounts fs
    → lookup fs (group_path gid) ≡ some dir
    → (x ≡ dir) ⊎ (is_dir (lookup fs (n ∷ group_path gid)) ≡ false)
    → (check_uid (some n) ≡ true → is_dir (some x) ≡ false)
    → HasAccounts (put (n ∷ group_path gid) x fs)
group_entry-HasAccounts n gid x ok group free harmless =
    apart-HasAccounts (n ∷ group_path gid) x ok (put-IsTree n (group_path gid) x ok.tree group free)
      (group_file-users n gid) (λ u. group_file-user_dir n gid u)
      (λ m u. group_file-user_file n gid m u)
      (λ g u e c. harmless (ground (arith, text_eq_sound n u)))

pub group_dir-HasAccounts :
    {fs : Disk} (gid : Bytes)
    → HasAccounts fs
    → lookup fs groups_path ≡ some dir
    → HasAccounts (put (group_path gid) dir fs)
group_dir-HasAccounts gid ok groups =
    apart-HasAccounts (group_path gid) dir ok
      (put-IsTree gid groups_path dir ok.tree groups (inl refl))
      (path_eq_tail gid server_users_name groups_path server_path refl)
      (λ u. path_eq_tail gid u groups_path users_path refl)
      (λ n u.
        path_eq_tail gid n groups_path (user_path u)
          (path_eq_tail server_groups_name u server_path users_path refl))
      (λ g u e c. absurd (
        ground (
          arith,
          path_eq_tail gid u groups_path (group_path g)
              (path_eq_tail server_groups_name g server_path groups_path refl),
        )))
