-- ===== src/Server/Start.antt =====
-- The server's first start: `create_filesystem` on a disk without the server's directory.
use projeto_rc.Base.{◌≡◌, refl, inl, true, none, some, [], ◌∷◌, arith, Bytes, if◌then◌else◌}
use projeto_rc.Disk.{FilePath, path_eq, dir, Disk, lookup, put, Os}
use projeto_rc.Disk.Laws.{lookup-put, lookup-put_self}
use projeto_rc.Files.{
  create_filesystem, server_users_name, server_groups_name, server_directory_name,
}
use projeto_rc.Files.Allowed.{IsPermissive, mkdir_allowed}
use projeto_rc.Files.Laws.{IsTree, put-IsTree}
use projeto_rc.Files.Delete.{below, below-none}
use projeto_rc.Server.Paths.{server_path, user_path, users_path, groups_path, group_path}
use projeto_rc.Server.Paths.Apart.{path_eq_tail}
use projeto_rc.Server.Accounts.Spec.{HasAccounts}

abbrev with_server : Disk → Disk
with_server fs = put server_path dir fs

abbrev with_users : Disk → Disk
with_users fs = put users_path dir (with_server fs)

-- The disk with the server's directory and its two directories.
abbrev pub started : Disk → Disk
started fs = put groups_path dir (with_users fs)

module _ (fs : Disk) (t : IsTree fs) (free : lookup fs server_path ≡ none) where
  lookup-started :
      (q : FilePath)
      → lookup (started fs) q ≡ (
          if path_eq groups_path q
          then some dir
          else if path_eq users_path q
          then some dir
          else if path_eq server_path q
          then some dir
          else lookup fs q)
  lookup-started q = ground (
    arith,
    lookup-put (with_users fs) groups_path q dir,
    lookup-put (with_server fs) users_path q dir,
    lookup-put fs server_path q dir,
  )

  below_server : (q : FilePath) → below server_path q ≡ true → lookup fs q ≡ none
  below_server q b = below-none server_path q t free b

  below_two : (u d : Bytes) → below server_path (u ∷ d ∷ server_path) ≡ true
  below_two u d = ground arith

  -- Nothing is in the two directories yet.
  lookup-child : (u d : Bytes) → lookup (started fs) (u ∷ d ∷ server_path) ≡ none
  lookup-child u d =
      rw
        (
          lookup-started (u ∷ d ∷ server_path),
          path_eq_tail server_groups_name u server_path (d ∷ server_path)
              (path_eq_tail server_directory_name d [] server_path refl),
          path_eq_tail server_users_name u server_path (d ∷ server_path)
              (path_eq_tail server_directory_name d [] server_path refl),
          path_eq_tail server_directory_name u [] (d ∷ server_path) refl,
        )
        (below_server (u ∷ d ∷ server_path) (below_two u d))

  users_new : lookup (with_server fs) users_path ≡ none
  users_new = rw (lookup-put, below_server users_path refl)

  groups_new : lookup (with_users fs) groups_path ≡ none
  groups_new =
      rw (lookup-put, lookup-put fs server_path groups_path dir, below_server groups_path refl)

  server_still : lookup (with_users fs) server_path ≡ some dir
  server_still = rw (lookup-put, lookup-put_self)

  started-IsTree : IsTree (started fs)
  started-IsTree =
      put-IsTree server_groups_name server_path dir
        (put-IsTree server_users_name server_path dir
          (put-IsTree server_directory_name [] dir t t.root (inl refl))
          (lookup-put_self fs server_path dir) (inl refl))
        server_still (inl refl)

  pub started-HasAccounts : HasAccounts (started fs)
  started-HasAccounts = record {
    tree = started-IsTree;
    users = lookup-started users_path;
    user_dir = λ u x e. absurd (ground (arith, lookup-child u server_users_name));
    has_pass = λ u e. absurd (ground (arith, lookup-child u server_users_name));
    plain = λ u n x e. absurd (
        ground (arith, started-IsTree.above n (user_path u) x e, lookup-child u server_users_name));
    members = λ g u x c e. absurd (
        ground
          (arith, started-IsTree.above u (group_path g) x e, lookup-child g server_groups_name));
  }

-- On a tree without the server's directory, where the system refuses no call, `create_filesystem`
-- returns the path of the server's directory and leaves a disk with the accounts in order.
pub create_filesystem-HasAccounts :
    (os : Os) (fs : Disk)
    → IsPermissive os
    → IsTree fs
    → lookup fs server_path ≡ none
    → (fs' : Disk) × (create_filesystem os [] fs ≡ some (server_path, fs')) × HasAccounts fs'
unfolding create_filesystem
create_filesystem-HasAccounts os fs allowed t free = (
  started fs,
  rw (
    free,
    mkdir_allowed os allowed server_directory_name [] fs t.root free,
    mkdir_allowed os allowed server_users_name server_path (with_server fs)
        (lookup-put_self fs server_path dir) (users_new fs t free),
    mkdir_allowed os allowed server_groups_name server_path (with_users fs) (server_still fs t free)
        (groups_new fs t free),
  ),
  started-HasAccounts fs t free,
)
