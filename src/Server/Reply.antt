-- ===== src/Server/Reply.antt =====
-- What a command of src/server/commands.c sends and returns, and how it reads a file of one word.
use projeto_rc.Base.{
  ℕ, ◌++◌, codes, Option, none, some, List, [], ◌∷◌, Bytes, ltb, is_space, length, if◌then◌else◌,
}
use projeto_rc.Base.Outcome.{Outcome, done, stop, null_file, out_of_bounds, uninitialised}
use projeto_rc.Disk.{FilePath, dir, file, Disk, lookup}

-- What a command sends: by UDP to the last sender, or on the TCP connection.
pub data Message : Type 0 where
  udp tcp : Bytes → Message

-- What a command leaves: the disk, what it sent, and the text it returns for the log (NULL is
-- `none`).
pub record Answer : Type 0 where
  pub disk : Disk
  pub sent : List Message
  pub value : Option Bytes

abbrev pub reply : Disk → Bytes → Option Bytes → Outcome Answer
reply fs text value = done (record { disk = fs; sent = udp text ∷ []; value = value })

-- `fopen(path, "r")` and what the file holds; a directory is opened, and reading it fails.
unfoldable pub open_read : FilePath → Disk → Outcome Bytes
open_read path fs = elim (lookup fs path) [
  | none ↦ stop null_file
  | some dir ↦ done []
  | some (file text) ↦ done text
]

abbrev pub skip_space : Bytes → Bytes
skip_space [] = []
skip_space (c ∷ s) = let rest = skip_space s in if is_space c then rest else c ∷ s

abbrev pub take_word : Bytes → Bytes
take_word [] = []
take_word (c ∷ s) = let rest = take_word s in if is_space c then [] else c ∷ rest

abbrev pub stored : ℕ → Bytes → Outcome Bytes
stored size [] = stop uninitialised
stored size (c ∷ w) = if ltb (length (c ∷ w)) size then done (c ∷ w) else stop out_of_bounds

-- `fscanf(file, "%s", buffer)` into a buffer of `size` bytes, and the use of the buffer after it:
-- with no word in the file the buffer holds nothing.
unfoldable pub scan_string : ℕ → Bytes → Outcome Bytes
scan_string size text = stored size (take_word (skip_space text))

abbrev pub text_of : Option Bytes → Bytes
text_of none = []
text_of (some s) = s

-- `sprintf(uid_gid, "%s | %s", uid, gid)`
abbrev pub uid_gid : Bytes → Bytes → Bytes
uid_gid uid gid = uid ++ (codes " | " ++ gid)
