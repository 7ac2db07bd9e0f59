-- ===== src/Disk.antt =====
-- The file system as the server uses it (mkdir, rmdir, remove, fopen, opendir and readdir, stat and
-- access). It is a map from paths to nodes; what the operating system may choose is in `Os`.
pub mod Laws
pub mod Unique
use mathlib.Core.List.{Perm}
use Prim.Native.Nat.{max}
use projeto_rc.Base.{
  ℕ, length, ◌≡◌, Bool, true, false, not, ◌&&◌, ◌||◌, Option, none, some, List, [], ◌∷◌, Bytes,
  codes, text_eq, if◌then◌else◌,
}

-- A path from the working directory, its last component first.
abbrev pub FilePath : Type 0
FilePath = List Bytes

abbrev pub path_eq : FilePath → FilePath → Bool
path_eq [] [] = true
path_eq [] (b ∷ q) = false
path_eq (a ∷ p) [] = false
path_eq (a ∷ p) (b ∷ q) = text_eq a b && path_eq p q

pub data Node : Type 0 where
  dir : Node
  file : Bytes → Node

abbrev pub Disk : Type 0
Disk = List (FilePath × Node)

abbrev pub Entry : Type 0
Entry = Bytes × Node

unfoldable pub lookup : Disk → FilePath → Option Node
lookup [] q = none
lookup ((p, n) ∷ fs) q = if path_eq p q then some n else lookup fs q

unfoldable pub put : FilePath → Node → Disk → Disk
put p n [] = (p, n) ∷ []
put p n ((q, m) ∷ fs) = if path_eq q p then (q, n) ∷ fs else (q, m) ∷ put p n fs

unfoldable pub erase : FilePath → Disk → Disk
erase p [] = []
erase p ((q, m) ∷ fs) = let rest = erase p fs in if path_eq q p then rest else (q, m) ∷ rest

unfoldable pub entries : FilePath → Disk → List Entry
entries p [] = []
entries p (([], m) ∷ fs) = entries p fs
entries p ((n ∷ q, m) ∷ fs) = let rest = entries p fs in if path_eq q p then (n, m) ∷ rest else rest

-- The length of the longest path.
unfoldable pub depth : Disk → ℕ
depth [] = 0
depth ((p, n) ∷ fs) = max (length p) (depth fs)

pub data Call : Type 0 where
  make_dir remove_dir unlink open_write : Call

-- What the system decides: whether a call is refused for a reason outside the program (permissions,
-- space, limits), the order in which a directory is read, and how many of the bytes that are asked of
-- a connection one `read` gives.
pub record Os : Type 0 where
  pub denied : Call → FilePath → Disk → Bool
  pub order : FilePath → List Entry → List Entry
  pub chunk : ℕ → Bytes → ℕ
  pub order_perm : (p : FilePath) (es : List Entry) → Perm (order p es) es

abbrev pub is_dir : Option Node → Bool
is_dir none = false
is_dir (some dir) = true
is_dir (some (file b)) = false

abbrev pub is_none : Option Node → Bool
is_none none = true
is_none (some n) = false

abbrev is_empty : List Entry → Bool
is_empty [] = true
is_empty (e ∷ es) = false

-- Every directory has itself and the one above it among its entries.
abbrev pub dots : List Entry → List Entry
dots es = (codes ".", dir) ∷ (codes "..", dir) ∷ es

module _ (os : Os) where
  -- `none` is the result -1 (or NULL).
  unfoldable pub mkdir : FilePath → Disk → Option Disk
  mkdir [] fs = none
  mkdir (n ∷ p) fs =
      if not (os.denied make_dir (n ∷ p) fs) && is_dir (lookup fs p) && is_none (lookup fs (n ∷ p))
      then some (put (n ∷ p) dir fs)
      else none

  unfoldable pub rmdir : FilePath → Disk → Option Disk
  rmdir [] fs = none
  rmdir (n ∷ p) fs =
      let q = n ∷ p in
      if not (os.denied remove_dir q fs) && is_dir (lookup fs q) && is_empty (entries q fs)
      then some (erase q fs)
      else none

  -- remove(3): a file is unlinked, a directory goes to rmdir.
  unfoldable pub remove : FilePath → Disk → Option Disk
  unfolding rmdir
  remove p fs = elim (lookup fs p) [
    | none ↦ none
    | some dir ↦ rmdir p fs
    | some (file b) ↦ if os.denied unlink p fs then none else some (erase p fs)
  ]

  -- fopen(p, "w"), the text written, fclose.
  unfoldable pub write_file : FilePath → Bytes → Disk → Option Disk
  write_file [] text fs = none
  write_file (n ∷ p) text fs =
      if not (os.denied open_write (n ∷ p) fs)
        && is_dir (lookup fs p)
        && not (is_dir (lookup fs (n ∷ p)))
      then some (put (n ∷ p) (file text) fs)
      else none

  -- What readdir gives, with `.` and `..`; nothing if the directory cannot be opened.
  unfoldable pub readdir : FilePath → Disk → List Entry
  readdir p fs = if is_dir (lookup fs p) then os.order p (dots (entries p fs)) else []
