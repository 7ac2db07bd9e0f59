-- ===== src/Files.antt =====
-- src/server/file_management.c over the disk. A path `"%s/%s"` is the outer path with one component
-- more. FERROR is `none` or `false`. The text of a `DEBUG_MSG` or a `throw_error` is not modelled.
pub mod Laws
pub mod Delete
pub mod Depth
pub mod Allowed
pub mod Shown
pub mod Flat
pub mod Below
pub mod Clear
pub mod Listing
use projeto_rc.Base.{
  ℕ, zero, suc, ◌≡◌, Bool, true, false, not, Option, none, some, List, [], ◌∷◌, Bytes, codes, ◌==◌,
  drop, text_eq, text_gt, if◌then◌else◌,
}
use projeto_rc.Base.Outcome.{Outcome, done, stop, hang, ◌>>=◌}
use projeto_rc.Disk.{
  FilePath, Node, dir, file, Disk, Entry, lookup, is_dir, is_none, Os, mkdir, rmdir, remove,
  write_file, readdir,
}
use projeto_rc.Sll.{Sll, sll_create, sll_push, sll_append, sll_append_ord}

abbrev pub server_directory_name : Bytes
server_directory_name = codes "SERVER"

abbrev pub server_groups_name : Bytes
server_groups_name = codes "GROUPS"

abbrev pub server_users_name : Bytes
server_users_name = codes "USERS"

unfoldable pub directory_exists : FilePath → Disk → Bool
directory_exists path fs = is_dir (lookup fs path)

-- access(2) with F_OK: a file or a directory.
unfoldable pub file_exists : FilePath → Bytes → Disk → Bool
file_exists path name fs = not (is_none (lookup fs (name ∷ path)))

abbrev pub is_hidden : Bytes → Bool
is_hidden [] = false
is_hidden (c ∷ s) = c == b'.'

-- "path/name" for a name that readdir gives: `.` is the directory itself, `..` the one above it.
abbrev pub entry_path : FilePath → Bytes → FilePath
entry_path path name =
    if text_eq name (codes ".")
    then path
    else if text_eq name (codes "..")
    then drop 1 path
    else name ∷ path

module _ (os : Os) where
  unfoldable pub create_directory : FilePath → Bytes → Disk → Option Disk
  create_directory path name fs = mkdir os (name ∷ path) fs

  -- `create_directory(dir, "/")`, whose path names `dir` itself.
  unfoldable pub create_directory_abs : FilePath → Disk → Option Disk
  create_directory_abs path fs = mkdir os path fs

  -- A NULL text leaves the file empty.
  unfoldable pub create_file : FilePath → Bytes → Option Bytes → Disk → Option Disk
  create_file path name none fs = write_file os (name ∷ path) [] fs
  create_file path name (some text) fs = write_file os (name ∷ path) text fs

  unfoldable pub delete_file : FilePath → Bytes → Disk → Option Disk
  delete_file path name fs = remove os (name ∷ path) fs

  -- The loop of `delete_directory`, over what readdir gives; `del` is the recursive call. What was
  -- removed before a failure stays removed.
  unfoldable pub delete_entries :
      (FilePath → Disk → Outcome (Disk × Bool))
      → FilePath
      → List Entry
      → Disk
      → Outcome (Disk × Bool)
  delete_entries del path [] fs = done (fs, true)
  delete_entries del path ((name, node) ∷ es) fs = elim (is_hidden name) [
    | true ↦ delete_entries del path es fs
    | false ↦ elim node [
      | dir ↦ del (entry_path path name) fs >>= λ r. elim r.1 [
        | true ↦ delete_entries del path es r.0
        | false ↦ done (r.0, false)
      ]
      | file b ↦ elim (remove os (entry_path path name) fs) [
        | none ↦ done (fs, false)
        | some fs' ↦ delete_entries del path es fs'
      ]
    ]
  ]

  abbrev pub delete_self : FilePath → Disk × Bool → Outcome (Disk × Bool)
  delete_self path (fs, false) = done (fs, false)
  delete_self path (fs, true) = elim (rmdir os path fs) [
    | none ↦ done (fs, false)
    | some fs' ↦ done (fs', true)
  ]

  -- The number bounds the depth of the recursion.
  unfoldable pub delete_directory : ℕ → FilePath → Disk → Outcome (Disk × Bool)
  unfolding delete_entries
  delete_directory zero path fs = stop hang
  delete_directory (suc depth) path fs =
      delete_entries (delete_directory depth) path (readdir os path fs) fs >>= delete_self path

  subdirectories_ord : List Entry → Sll → Sll
  subdirectories_ord [] l = l
  subdirectories_ord ((name, node) ∷ es) l = subdirectories_ord es (
      if is_hidden name then l else if is_dir (some node) then sll_append_ord text_gt l name else l)

  unfoldable pub list_subdirectories_ord : FilePath → Disk → Sll
  unfolding subdirectories_ord
  list_subdirectories_ord path fs = subdirectories_ord (readdir os path fs) sll_create

  subdirectories : List Entry → Sll → Sll
  subdirectories [] l = l
  subdirectories ((name, node) ∷ es) l =
      subdirectories es
        (if is_hidden name then l else if is_dir (some node) then sll_push l name else l)

  unfoldable pub list_subdirectories : FilePath → Disk → Sll
  unfolding subdirectories
  list_subdirectories path fs = subdirectories (readdir os path fs) sll_create

  files : List Entry → Sll → Sll
  files [] l = l
  files ((name, node) ∷ es) l = files es (if is_dir (some node) then l else sll_append l name)

  unfoldable pub list_files : FilePath → Disk → Sll
  unfolding files
  list_files path fs = files (readdir os path fs) sll_create

  -- The path of the server's directory and the disk; `none` is `exit(1)`.
  unfoldable pub create_filesystem : FilePath → Disk → Option (FilePath × Disk)
  unfolding directory_exists create_directory
  create_filesystem path fs =
      let server_path = server_directory_name ∷ path in
      if directory_exists server_path fs
      then some (server_path, fs)
      else elim (mkdir os server_path fs) [
        | none ↦ none
        | some fs1 ↦ elim (create_directory server_path server_users_name fs1) [
          | none ↦ none
          | some fs2 ↦ elim (create_directory server_path server_groups_name fs2) [
            | none ↦ none
            | some fs3 ↦ some (server_path, fs3)
          ]
        ]
      ]
