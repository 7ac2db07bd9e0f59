-- ===== src/Server/Loop/Lasting.antt =====
-- The directories of the groups and of their messages stay: no command of src/server/commands.c takes
-- one away, whatever the processes of src/server/server.c do.
use projeto_rc.Base.{◌≡◌, refl, ◌∙◌, true, false, none, some, List, [], ◌∷◌, Bytes, codes, arith}
use projeto_rc.Disk.{FilePath, path_eq, dir, file, Disk, lookup, erase, Os, mkdir, write_file}
use projeto_rc.Disk.Laws.{path_eq_sound, lookup-put, lookup-erase}
use projeto_rc.Files.Laws.{
  IsTree, mkdir_lem, write_file_lem, remove_lem, mkdir-IsTree, write_file-IsTree, remove-IsTree,
  rmdir-IsTree,
}
use projeto_rc.Files.Delete.{below, rmdir-erase}
use projeto_rc.Server.Paths.{user_path, users_path, group_path, groups_path, msg_name}
use projeto_rc.Server.Paths.Apart.{path_eq_tail}
use projeto_rc.Base.Outcome.{done}
use projeto_rc.Files.{create_directory}
use projeto_rc.Server.Reply.{Message, udp}
use projeto_rc.Server.Loop.{Machine, Reach, Posting, numbered, make_directory, advance}
use projeto_rc.Server.Loop.Calls.{IsRemovable, in_user, in_group, IsKept}
use projeto_rc.Server.Loop.Kept.{Reach-keeps}

abbrev pub IsLasting : FilePath → Type 0
IsLasting q = (p : FilePath) → IsRemovable p → path_eq p q ≡ false

abbrev pub Holds : FilePath → Disk → Type 0
Holds q fs = IsTree fs × (lookup fs q ≡ some dir)

module _ (os : Os) (q : FilePath) (lasting : IsLasting q) where
  erased :
      (p : FilePath) (fs fs' : Disk) → IsRemovable p → fs' ≡ erase p fs → lookup fs' q ≡ lookup fs q
  erased p fs fs' c e = rw e (ground (arith, lookup-erase fs p q, lasting p c))

  made_still :
      (p : FilePath) (fs fs' : Disk)
      → mkdir os p fs ≡ some fs'
      → lookup fs q ≡ some dir
      → lookup fs' q ≡ some dir
  made_still [] fs fs' e h = absurd (unfold mkdir in cc)
  made_still (n ∷ p) fs fs' e h =
      rw (mkdir_lem os n p fs e).0 (ground (arith, lookup-put fs (n ∷ p) q dir))

  written_still :
      (p : FilePath) (b : Bytes) (fs fs' : Disk)
      → write_file os p b fs ≡ some fs'
      → lookup fs q ≡ some dir
      → lookup fs' q ≡ some dir
  written_still [] b fs fs' e h = absurd (unfold write_file in cc)
  written_still (n ∷ p) b fs fs' e h =
      let (same, free, _) = write_file_lem os n p b fs e in
      rw same (ground (arith, lookup-put fs (n ∷ p) q (file b), path_eq_sound (n ∷ p) q))

  Holds-IsKept : IsKept os (Holds q)
  Holds-IsKept = record {
    by_mkdir = λ p fs fs' (t, h) e. (mkdir-IsTree os p fs e t, made_still p fs fs' e h);
    by_write =
        λ p b fs fs' (t, h) e. (write_file-IsTree os p b fs e t, written_still p b fs fs' e h);
    by_remove = λ p fs fs' c (t, h) e.
        (remove-IsTree os p fs e t, erased p fs fs' c (remove_lem os p fs t e).0 ∙ h);
    by_rmdir = λ p fs fs' c (t, h) e.
        (rmdir-IsTree os p fs e t, erased p fs fs' c (rmdir-erase os p fs e) ∙ h);
  }

  pub lasts :
      {m n : Machine} {sent : List Message}
      → Reach os m sent n
      → IsTree m.disk
      → lookup m.disk q ≡ some dir
      → lookup n.disk q ≡ some dir
  lasts r t h = (Reach-keeps os (Holds q) Holds-IsKept r (t, h)).1

abbrev pub message_path : Bytes → Bytes → FilePath
message_path gid id = id ∷ msg_name ∷ group_path gid

-- A path that ends like those of the groups is not below a user's directory.
apart_group : (u g : Bytes) → below (user_path u) (group_path g) ≡ false
apart_group u g = ground (arith, path_eq_tail u g users_path groups_path refl)

apart_message : (u g id : Bytes) → below (user_path u) (message_path g id) ≡ false
apart_message u g id = ground (arith, apart_group u g)

not_below :
    (u : Bytes) (p q : FilePath)
    → below (user_path u) q ≡ false
    → below (user_path u) p ≡ true
    → path_eq p q ≡ false
not_below u p q a b = ground (arith, path_eq_sound p q)

group_path-IsLasting : (gid : Bytes) → IsLasting (group_path gid)
group_path-IsLasting gid p (in_user u b) = not_below u p (group_path gid) (apart_group u gid) b
group_path-IsLasting gid p (in_group g u v) = ground arith

message_path-IsLasting : (gid id : Bytes) → IsLasting (message_path gid id)
message_path-IsLasting gid id p (in_user u b) =
    not_below u p (message_path gid id) (apart_message u gid id) b
message_path-IsLasting gid id p (in_group g u v) = ground arith

pub group_path-lasts :
    (os : Os) (gid : Bytes) {m n : Machine} {sent : List Message}
    → Reach os m sent n
    → IsTree m.disk
    → lookup m.disk (group_path gid) ≡ some dir
    → lookup n.disk (group_path gid) ≡ some dir
group_path-lasts os gid = lasts os (group_path gid) (group_path-IsLasting gid)

-- From a disk that is a tree, whatever the system refuses and in whatever order the processes
-- take their steps, the directory of a message stays.
pub message_path-lasts :
    (os : Os) (gid id : Bytes) {m n : Machine} {sent : List Message}
    → Reach os m sent n
    → IsTree m.disk
    → lookup m.disk (message_path gid id) ≡ some dir
    → lookup n.disk (message_path gid id) ≡ some dir
message_path-lasts os gid id = lasts os (message_path gid id) (message_path-IsLasting gid id)

taken :
    (os : Os) (p : Posting) (fs : Disk)
    → lookup fs (message_path p.gid p.id) ≡ some dir
    → make_directory os p fs
      ≡ done (record { disk = fs; sent = udp (codes "RPT NOK\n") ∷ []; task = none })
unfolding make_directory
taken os p fs h =
    let no : create_directory os (msg_name ∷ group_path p.gid) p.id fs ≡ none =
      unfold create_directory mkdir in ground arith in
    rw (no, make_directory) refl

-- From a disk that is a tree, a `post` that has chosen the number of its message, while another
-- has made the directory of that number in the group, ends without a message however late it goes
-- on: the disk stays as it is, and the only message is RPT NOK by UDP.
pub advance-taken :
    (os : Os) (p : Posting) {m n : Machine} {sent : List Message}
    → Reach os m sent n
    → IsTree m.disk
    → lookup m.disk (message_path p.gid p.id) ≡ some dir
    → advance os (numbered p) n.disk
      ≡ done (record { disk = n.disk; sent = udp (codes "RPT NOK\n") ∷ []; task = none })
unfolding advance
advance-taken os p {n = n} r t h = taken os p n.disk (message_path-lasts os p.gid p.id r t h)
