-- ===== src/Examples.antt =====
-- The list, the words, the connections and the deletion at work on concrete inputs.
use projeto_rc.Base.{◌<◌, ◌≡◌, refl, Bool, true, none, some, if◌then◌else◌, arith, codes}
use projeto_rc.Base.Outcome.{done}
use projeto_rc.Disk.{Disk, FilePath, lookup, depth, dir, put, readdir}
use projeto_rc.Files.{delete_directory, list_subdirectories_ord}
use projeto_rc.Files.Flat.{delete_directory_plain}
use projeto_rc.Files.Below.{ends_hidden, lookup-shown}
use projeto_rc.Files.Clear.{delete_directory-clears}
use projeto_rc.Base.{All, ◌∷◌, false}
use projeto_rc.Files.Delete.{delete_directory-outside, below}
use projeto_rc.Files.Listing.{IsListing, visible, list_subdirectories_ord-IsListing}
use projeto_rc.Server.Paths.{server_path, users_path, user_path, groups_path}
use projeto_rc.Files.Depth.{delete_directory-Ends}
use projeto_rc.Server.Examples.{
  plain_os, plain_os-IsPermissive, one_user, one_user-HasAccounts, uid,
}
use projeto_rc.Sll.{Sll, null, node}

abbrev two_groups : Sll
two_groups = node (codes "01") 2 (node (codes "03") 1 null)

shallow : depth one_user < 6
unfolding depth put
shallow = omega arith

delete_directory-Ends_example :
    (r : Disk × Bool) × (delete_directory plain_os 6 users_path one_user ≡ done r)
delete_directory-Ends_example = delete_directory-Ends plain_os 6 users_path one_user shallow

users_dir : lookup one_user (user_path uid) ≡ some dir
unfolding lookup put
users_dir = refl

-- The deletion of the user's directory succeeds.
user_deletion :
    (fs' : Disk) × (delete_directory plain_os 6 (user_path uid) one_user ≡ done (fs', true))
user_deletion =
    delete_directory_plain plain_os plain_os-IsPermissive 5 uid users_path one_user
      one_user-HasAccounts.tree users_dir (one_user-HasAccounts.plain uid)

users_there : lookup one_user users_path ≡ some dir
unfolding lookup put
users_there = refl

one_user_shown : All (λ e. ends_hidden e.0 ≡ false) one_user
unfolding put
one_user_shown = (refl, (refl, (refl, (refl, (refl, (refl, tt))))))

-- The deletion of all users, each a directory with a file.
delete_directory-clears_example :
    (fs' : Disk) × (delete_directory plain_os 6 users_path one_user ≡ done (fs', true))
    × ((q : FilePath) → lookup fs' q ≡ (if below users_path q then none else lookup one_user q))
delete_directory-clears_example =
    delete_directory-clears plain_os plain_os-IsPermissive 6 (codes "USERS") server_path one_user
      one_user-HasAccounts.tree shallow users_there
      (λ n q x b e. lookup-shown one_user (n ∷ q) one_user_shown e)

delete_directory-outside_example : lookup user_deletion.0 groups_path ≡ lookup one_user groups_path
delete_directory-outside_example =
    delete_directory-outside plain_os 6 (user_path uid) groups_path one_user (user_deletion.0, true)
      one_user-HasAccounts.tree refl user_deletion.1

list_subdirectories_ord-IsListing_example :
    IsListing
      (visible (readdir plain_os server_path one_user))
      (list_subdirectories_ord plain_os server_path one_user)
list_subdirectories_ord-IsListing_example =
    list_subdirectories_ord-IsListing plain_os server_path one_user
