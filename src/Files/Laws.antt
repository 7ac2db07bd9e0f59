-- ===== src/Files/Laws.antt =====
-- What each call of src/server/file_management.c does to the disk, and the disk as a tree.
use projeto_rc.Base.{
  ◌≡◌, refl, sym, ◌≢◌, false, none, some, [], ◌∷◌, arith, Bytes, text_eq_sound, inl, inr, ap, ◌∙◌,
  Option-cases, ◌⊎◌,
}
use projeto_rc.Disk.{
  FilePath, path_eq, Node, dir, file, Disk, lookup, put, erase, entries, is_dir, Os, mkdir, rmdir,
  remove, write_file,
}
use projeto_rc.Disk.Unique.{IsUnique, put-IsUnique, erase-IsUnique}
use projeto_rc.Disk.Laws.{path_eq_sound, lookup-put, lookup-erase, entry, entry-entries}

-- Everything hangs below a directory, from the working directory on, and no path stands twice.
pub record IsTree (fs : Disk) : Type 0 where
  pub root : lookup fs [] ≡ some dir
  pub above :
      (n : Bytes) (p : FilePath) (x : Node) → lookup fs (n ∷ p) ≡ some x → lookup fs p ≡ some dir
  pub unique : IsUnique fs

pub cons_ne : (n : Bytes) (p : FilePath) → path_eq (n ∷ p) p ≡ false
cons_ne n [] = refl
cons_ne n (m ∷ p) = ground (arith, text_eq_sound n m, cons_ne m p)

-- Nothing hangs below a path that is not a directory.
pub child_none :
    {fs : Disk} (p : FilePath) (m : Bytes)
    → IsTree fs
    → is_dir (lookup fs p) ≡ false
    → lookup fs (m ∷ p) ≡ none
child_none {fs} p m t h = elim (Option-cases (lookup fs (m ∷ p))) [
  | inl e ↦ e
  | inr (x, e) ↦ ground (arith, t.above m p x e)
]

pub childless :
    (fs : Disk) (p : FilePath) (m : Bytes) → entries p fs ≡ [] → lookup fs (m ∷ p) ≡ none
childless fs p m h = sym (entry-entries fs p m) ∙ ap (entry m) h

pub put-IsTree :
    {fs : Disk} (n : Bytes) (p : FilePath) (x : Node)
    → IsTree fs
    → lookup fs p ≡ some dir
    → (x ≡ dir) ⊎ (is_dir (lookup fs (n ∷ p)) ≡ false)
    → IsTree (put (n ∷ p) x fs)
put-IsTree {fs} n p x t hp hx = record {
  root = rw lookup-put t.root;
  above = λ m q y e. ground (
    arith,
    lookup-put fs (n ∷ p) (m ∷ q) x,
    lookup-put fs (n ∷ p) q x,
    text_eq_sound n m,
    path_eq_sound p q,
    path_eq_sound (n ∷ p) q,
    cons_ne n p,
    child_none (n ∷ p) m t,
    t.above m q y,
  );
  unique = put-IsUnique fs (n ∷ p) x t.unique;
}

pub erase-IsTree :
    {fs : Disk} (n : Bytes) (p : FilePath)
    → IsTree fs
    → ((m : Bytes) → lookup fs (m ∷ n ∷ p) ≡ none)
    → IsTree (erase (n ∷ p) fs)
erase-IsTree {fs} n p t free = record {
  root = rw lookup-erase t.root;
  above = λ m q y e. ground (
    arith,
    lookup-erase fs (n ∷ p) (m ∷ q),
    lookup-erase fs (n ∷ p) q,
    path_eq_sound (n ∷ p) q,
    free m,
    t.above m q y,
  );
  unique = erase-IsUnique fs (n ∷ p) t.unique;
}

module _ (os : Os) where
  pub mkdir_lem :
      (n : Bytes) (p : FilePath) (fs : Disk) {fs' : Disk}
      → mkdir os (n ∷ p) fs ≡ some fs'
      → (fs' ≡ put (n ∷ p) dir fs) × (lookup fs (n ∷ p) ≡ none) × (lookup fs p ≡ some dir)
  unfolding mkdir
  mkdir_lem n p fs h = ground arith

  pub write_file_lem :
      (n : Bytes) (p : FilePath) (t : Bytes) (fs : Disk) {fs' : Disk}
      → write_file os (n ∷ p) t fs ≡ some fs'
      → (fs' ≡ put (n ∷ p) (file t) fs)
        × (is_dir (lookup fs (n ∷ p)) ≡ false)
        × (lookup fs p ≡ some dir)
  unfolding write_file
  write_file_lem n p t fs h = ground arith

  pub rmdir_lem :
      (n : Bytes) (p : FilePath) (fs : Disk) {fs' : Disk}
      → rmdir os (n ∷ p) fs ≡ some fs'
      → (fs' ≡ erase (n ∷ p) fs) × (entries (n ∷ p) fs ≡ []) × (lookup fs (n ∷ p) ≡ some dir)
  unfolding rmdir
  rmdir_lem n p fs h = ground arith

  pub mkdir-IsTree :
      (p : FilePath) (fs : Disk) {fs' : Disk} → mkdir os p fs ≡ some fs' → IsTree fs → IsTree fs'
  mkdir-IsTree [] fs h t = absurd (unfold mkdir in cc)
  mkdir-IsTree (n ∷ p) fs h t =
      let (e, _, up) = mkdir_lem n p fs h in rw e (put-IsTree n p dir t up (inl refl))

  pub write_file-IsTree :
      (p : FilePath) (b : Bytes) (fs : Disk) {fs' : Disk}
      → write_file os p b fs ≡ some fs'
      → IsTree fs
      → IsTree fs'
  write_file-IsTree [] b fs h t = absurd (unfold write_file in cc)
  write_file-IsTree (n ∷ p) b fs h t =
      let (e, free, up) = write_file_lem n p b fs h in
      rw e (put-IsTree n p (file b) t up (inr free))

  pub rmdir-IsTree :
      (p : FilePath) (fs : Disk) {fs' : Disk} → rmdir os p fs ≡ some fs' → IsTree fs → IsTree fs'
  rmdir-IsTree [] fs h t = absurd (unfold rmdir in cc)
  rmdir-IsTree (n ∷ p) fs h t =
      let (e, bare, _) = rmdir_lem n p fs h in
      rw e (erase-IsTree n p t (λ m. childless fs (n ∷ p) m bare))

  -- What `remove` leaves: the path goes, and nothing was below it.
  pub remove_lem :
      (p : FilePath) (fs : Disk) {fs' : Disk}
      → IsTree fs
      → remove os p fs ≡ some fs'
      → (fs' ≡ erase p fs) × ((m : Bytes) → lookup fs (m ∷ p) ≡ none) × (p ≢ [])
  unfolding remove
  remove_lem [] fs t h = absurd (ground (arith, t.root))
  remove_lem (n ∷ p) fs t h =
      let free : (m : Bytes) → lookup fs (m ∷ n ∷ p) ≡ none =
        λ m. ground (arith, child_none (n ∷ p) m t, childless fs (n ∷ p) m, rmdir_lem n p fs) in
      (ground (arith, rmdir_lem n p fs), free, cc)

  pub remove-IsTree :
      (p : FilePath) (fs : Disk) {fs' : Disk} → remove os p fs ≡ some fs' → IsTree fs → IsTree fs'
  remove-IsTree [] fs h t = absurd ((remove_lem [] fs t h).2 refl)
  remove-IsTree (n ∷ p) fs h t =
      let (e, free, _) = remove_lem (n ∷ p) fs t h in rw e (erase-IsTree n p t free)
