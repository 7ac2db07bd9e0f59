-- ===== src/Server/Loop/Calls.antt =====
-- What every system call of the server keeps, each of its commands keeps, and each step of its
-- processes: the handlers of src/server/commands.c change the disk by mkdir, rmdir, remove and fopen only.
pub mod Accounts
pub mod Groups
pub mod Datagrams
pub mod Connections
use projeto_rc.Base.{◌≡◌, refl, Bool, true, Option, none, some, ◌∷◌, Bytes}
use projeto_rc.Base.Outcome.{Outcome, done, stop, ◌>>=◌, Ensures}
use projeto_rc.Disk.{FilePath, Disk, Os, mkdir, rmdir, remove, write_file}
use projeto_rc.Files.Delete.{below}
use projeto_rc.Util.Word.{Cursor}
use projeto_rc.Server.Reply.{Answer}
use projeto_rc.Server.Checks.{check_uid}
use projeto_rc.Server.Paths.{user_path, group_path}

-- The paths that the server removes: what is in the directory of a user, and the file of a member in a
-- group.
pub data IsRemovable : FilePath → Type 0 where
  in_user : (uid : Bytes) {p : FilePath} → below (user_path uid) p ≡ true → IsRemovable p
  in_group : (gid uid : Bytes) → check_uid (some uid) ≡ true → IsRemovable (uid ∷ group_path gid)

-- A property of the disk that the calls keep.
pub record IsKept (os : Os) (P : Disk → Type 0) : Type 0 where
  pub by_mkdir : (p : FilePath) (fs fs' : Disk) → P fs → mkdir os p fs ≡ some fs' → P fs'
  pub by_write :
      (p : FilePath) (t : Bytes) (fs fs' : Disk) → P fs → write_file os p t fs ≡ some fs' → P fs'
  pub by_remove :
      (p : FilePath) (fs fs' : Disk) → IsRemovable p → P fs → remove os p fs ≡ some fs' → P fs'
  pub by_rmdir :
      (p : FilePath) (fs fs' : Disk) → IsRemovable p → P fs → rmdir os p fs ≡ some fs' → P fs'

-- A call that may fail.
pub Ensures-option :
    {A B : Type 0} (Q : B → Type 0) (o : Option A) (x : Outcome B) (f : A → Outcome B)
    → Ensures Q x
    → ((a : A) → o ≡ some a → Ensures Q (f a))
    → Ensures Q (elim o as (λ _. Outcome B) [ none ↦ x | some a ↦ f a ])
Ensures-option Q none x f h k = h
Ensures-option Q (some a) x f h k = k a refl

pub ensured :
    {A : Type 0} {Q : A → Type 0} (m : Outcome A) → ((a : A) → m ≡ done a → Q a) → Ensures Q m
ensured (done a) h = h a refl
ensured (stop e) h = tt

abbrev pub Keeps : (Disk → Type 0) → Answer → Type 0
Keeps P a = P a.disk

abbrev pub KeepsBoth : (Disk → Type 0) → Answer × Cursor → Type 0
KeepsBoth P r = P r.0.disk

pub with_cursor :
    (P : Disk → Type 0) (m : Outcome Answer) (cur : Cursor)
    → Ensures (Keeps P) m
    → Ensures (KeepsBoth P) (m >>= λ a. done (a, cur))
with_cursor P (done a) cur h = h
with_cursor P (stop e) cur h = tt
