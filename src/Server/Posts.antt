-- ===== src/Server/Posts.antt =====
-- A message with a file at work on a server with one group.
use projeto_rc.Base.{◌≡◌, refl, true, some, none, ◌∷◌, ◌++◌, arith, Bytes, codes, space}
use projeto_rc.Base.Outcome.{done}
use projeto_rc.Disk.{FilePath, lookup, put, dir, file}
use projeto_rc.Server.Paths.{group_path, msg_name}
use projeto_rc.Server.Examples.{plain_os, plain_os-IsPermissive, one_user-HasAccounts}
use projeto_rc.Server.Requests.{gid, gname, one_group, groups_dir, group_free}
use projeto_rc.Server.Groups.Create.{with_group-HasAccounts}
use projeto_rc.Server.Messages.{size_of, store_file}
use projeto_rc.Server.Messages.File.{store_file_lem}

abbrev pub messages : FilePath
messages = msg_name ∷ group_path gid

abbrev pub file_name : Bytes
file_name = codes "a.c"

pub messages_there : lookup one_group messages ≡ some dir
unfolding lookup put
messages_there = refl

pub no_file_yet : lookup one_group (codes "FILE" ∷ messages) ≡ none
unfolding lookup put
no_file_yet = refl

size_read : size_of (codes "2") ≡ done 2
unfolding size_of
size_read = refl

store_file_lem_example :
    store_file plain_os messages
      (file_name ++ space ∷ (codes "2" ++ space ∷ (codes "hi" ++ codes "\n")))
      one_group
    ≡ done (
      put
          (file_name ∷ codes "FILE" ∷ messages)
          (file (codes "hi"))
          (put (codes "FILE" ∷ messages) dir one_group),
      true,
    )
store_file_lem_example =
    store_file_lem plain_os plain_os-IsPermissive messages file_name (codes "2") (codes "hi")
      (codes "\n") one_group
      (with_group-HasAccounts gid gname one_user-HasAccounts groups_dir group_free).tree
      messages_there no_file_yet ((refl, (refl, (refl, tt))), refl, refl, refl)
      (refl, (refl, (refl, tt))) (omega arith) (refl, tt) (omega arith) size_read
