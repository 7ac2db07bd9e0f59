-- ===== src/Server/Paths.antt =====
-- The paths of the server's files, for the server's directory "./SERVER".
pub mod Apart
use projeto_rc.Base.{[], ◌∷◌, Bytes, codes}
use projeto_rc.Disk.{FilePath}
use projeto_rc.Files.{server_directory_name, server_groups_name, server_users_name}

abbrev pub server_path : FilePath
server_path = server_directory_name ∷ []

abbrev pub users_path : FilePath
users_path = server_users_name ∷ server_path

abbrev pub user_path : Bytes → FilePath
user_path uid = uid ∷ users_path

abbrev pub groups_path : FilePath
groups_path = server_groups_name ∷ server_path

abbrev pub group_path : Bytes → FilePath
group_path gid = gid ∷ groups_path

abbrev pub pass_txt : Bytes
pass_txt = codes "pass.txt"

abbrev pub login_name : Bytes
login_name = codes "login"

abbrev pub name_txt : Bytes
name_txt = codes "name.txt"

abbrev pub msg_name : Bytes
msg_name = codes "MSG"
