-- ===== src/Server/Messages/File.antt =====
-- The file of a message, from the connection to the disk.
use projeto_rc.Base.{
  ◌<◌, ◌≡◌, refl, ap, true, false, none, some, ◌∷◌, ◌++◌, arith, Bytes, codes, space, length,
}
use projeto_rc.Base.Outcome.{done}
use projeto_rc.Disk.{FilePath, path_eq, dir, file, Disk, lookup, put, is_dir, Os}
use projeto_rc.Disk.Laws.{lookup-put, lookup-put_self, path_ne}
use projeto_rc.Files.{create_directory}
use projeto_rc.Files.Laws.{IsTree, child_none}
use projeto_rc.Files.Allowed.{IsPermissive, mkdir_allowed, write_file_allowed}
use projeto_rc.Util.Word.Laws.{IsWord}
use projeto_rc.Util.Stream.Laws.{get_word_fd-word, read_fd-append}
use projeto_rc.Server.Messages.{size_of, store_file}
use projeto_rc.Server.Messages.Paths.{IsFileName, resolve-IsFileName}

pub longer : (n : Bytes) (p : FilePath) → path_eq p (n ∷ p) ≡ false
longer n p =
    path_ne p (n ∷ p) (λ e. absurd (let k : length p ≡ length (n ∷ p) = ap length e in omega arith))

abbrev file_dir : FilePath → FilePath
file_dir msg_dir = codes "FILE" ∷ msg_dir

abbrev with_file_dir : FilePath → Disk → Disk
with_file_dir msg_dir fs = put (file_dir msg_dir) dir fs

module _ (os : Os) (allowed : IsPermissive os) where
  -- Where the system refuses no call, the disk is a tree, the directory of the message exists
  -- without a directory FILE, the name of the file is shorter than 24 bytes, holds no slash,
  -- space, newline or NUL and is not empty, a dot or two dots, and the size is a word shorter
  -- than 24 bytes that reads as the number of bytes of the content, less than 2^31 - 1, the part
  -- of `post` that reads a file from the connection makes the directory FILE with one file in it,
  -- of that name and with that content, and nothing else.
  pub store_file_lem :
      (msg_dir : FilePath) (name size content rest : Bytes) (fs : Disk)
      → IsTree fs
      → lookup fs msg_dir ≡ some dir
      → lookup fs (codes "FILE" ∷ msg_dir) ≡ none
      → IsFileName name
      → IsWord name
      → length name < 24
      → IsWord size
      → length size < 24
      → size_of size ≡ done (length content)
      → store_file os msg_dir (name ++ space ∷ (size ++ space ∷ (content ++ rest))) fs
        ≡ done (
          put (name ∷ codes "FILE" ∷ msg_dir) (file content) (put (codes "FILE" ∷ msg_dir) dir fs),
          true,
        )
  unfolding store_file create_directory
  store_file_lem msg_dir name size content rest fs t up free named word short digits fits sized =
      let made : is_dir (lookup (with_file_dir msg_dir fs) (name ∷ file_dir msg_dir)) ≡ false =
        ground (
          arith,
          lookup-put fs (file_dir msg_dir) (name ∷ file_dir msg_dir) dir,
          child_none (file_dir msg_dir) name t,
          longer name (file_dir msg_dir),
        ) in
      rw
        (
          get_word_fd-word 24 name space (size ++ space ∷ (content ++ rest)) word refl short,
          mkdir_allowed os allowed (codes "FILE") msg_dir fs up free,
          get_word_fd-word 24 size space (content ++ rest) digits refl fits,
          sized,
          read_fd-append os content rest,
          resolve-IsFileName (with_file_dir msg_dir fs) (file_dir msg_dir) name named,
        )
        (ground (
          arith,
          write_file_allowed os allowed name (file_dir msg_dir) content (with_file_dir msg_dir fs)
              (lookup-put_self fs (file_dir msg_dir) dir) made,
        ))
