-- ===== src/Server/Paths/Apart.antt =====
-- The paths of the users against those of the groups.
use projeto_rc.Base.{◌≡◌, refl, false, [], ◌∷◌, Bytes, text_eq, Bool-cases, inl, inr}
use projeto_rc.Disk.{FilePath, path_eq}
use projeto_rc.Files.{server_users_name, server_directory_name}
use projeto_rc.Server.Paths.{server_path, user_path, users_path, groups_path, group_path}

pub path_eq_tail :
    (a b : Bytes) (p q : FilePath) → path_eq p q ≡ false → path_eq (a ∷ p) (b ∷ q) ≡ false
path_eq_tail a b p q h = elim (Bool-cases (text_eq a b)) [ inl e ↦ rw e h | inr e ↦ rw e ]

pub user_file-group_file : (a u b g : Bytes) → path_eq (a ∷ user_path u) (b ∷ group_path g) ≡ false
user_file-group_file a u b g =
    path_eq_tail a b (user_path u) (group_path g) (path_eq_tail u g users_path groups_path refl)

pub user_dir-group_file : (u b g : Bytes) → path_eq (user_path u) (b ∷ group_path g) ≡ false
user_dir-group_file u b g =
    path_eq_tail u b users_path (group_path g)
      (path_eq_tail server_users_name g server_path groups_path refl)

pub group_file-user_file : (a g b u : Bytes) → path_eq (a ∷ group_path g) (b ∷ user_path u) ≡ false
group_file-user_file a g b u =
    path_eq_tail a b (group_path g) (user_path u) (path_eq_tail g u groups_path users_path refl)

pub group_file-user_dir : (a g u : Bytes) → path_eq (a ∷ group_path g) (user_path u) ≡ false
group_file-user_dir a g u =
    path_eq_tail a u (group_path g) users_path
      (path_eq_tail g server_users_name groups_path server_path refl)

pub group_file-users : (a g : Bytes) → path_eq (a ∷ group_path g) users_path ≡ false
group_file-users a g =
    path_eq_tail a server_users_name (group_path g) server_path
      (path_eq_tail g server_directory_name groups_path [] refl)

pub user_file-user_dir : (a u v : Bytes) → path_eq (a ∷ user_path u) (user_path v) ≡ false
user_file-user_dir a u v =
    path_eq_tail a v (user_path u) users_path
      (path_eq_tail u server_users_name users_path server_path refl)

pub user_dir-user_file : (u b v : Bytes) → path_eq (user_path u) (b ∷ user_path v) ≡ false
user_dir-user_file u b v =
    path_eq_tail u b users_path (user_path v)
      (path_eq_tail server_users_name v server_path users_path refl)
