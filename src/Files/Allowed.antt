-- ===== src/Files/Allowed.antt =====
-- What the calls do when the system refuses nothing.
use projeto_rc.Base.{◌≡◌, false, none, some, ◌∷◌, arith, Bytes}
use projeto_rc.Disk.{
  FilePath, dir, file, Disk, lookup, put, erase, is_dir, Os, Call, mkdir, write_file, remove,
}

-- The system refuses nothing.
abbrev pub IsPermissive : Os → Type 0
IsPermissive os = (c : Call) (p : FilePath) (fs : Disk) → os.denied c p fs ≡ false

module _ (os : Os) (allowed : IsPermissive os) where
  pub mkdir_allowed :
      (n : Bytes) (p : FilePath) (fs : Disk)
      → lookup fs p ≡ some dir
      → lookup fs (n ∷ p) ≡ none
      → mkdir os (n ∷ p) fs ≡ some (put (n ∷ p) dir fs)
  unfolding mkdir
  mkdir_allowed n p fs up free = ground (arith, allowed Call.make_dir (n ∷ p) fs)

  pub write_file_allowed :
      (n : Bytes) (p : FilePath) (b : Bytes) (fs : Disk)
      → lookup fs p ≡ some dir
      → is_dir (lookup fs (n ∷ p)) ≡ false
      → write_file os (n ∷ p) b fs ≡ some (put (n ∷ p) (file b) fs)
  unfolding write_file
  write_file_allowed n p b fs up free = ground (arith, allowed Call.open_write (n ∷ p) fs)

  pub remove_plain :
      (p : FilePath) (fs : Disk) (b : Bytes)
      → lookup fs p ≡ some (file b)
      → remove os p fs ≡ some (erase p fs)
  unfolding remove
  remove_plain p fs b h = rw (h, remove) (rw (allowed Call.unlink p fs))
