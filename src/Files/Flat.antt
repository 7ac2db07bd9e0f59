-- ===== src/Files/Flat.antt =====
-- `delete_directory` of src/server/file_management.c on a directory of plain files.
use projeto_rc.Base.{
  ℕ, suc, ◌≡◌, refl, Bool, true, false, none, some, List, [], ◌∷◌, arith, Bytes, ◌∙◌, text_eq_sound,
  text_eq_refl,
}
use projeto_rc.Base.Outcome.{Outcome, done}
use projeto_rc.Disk.{
  FilePath, Node, dir, file, Disk, Entry, lookup, erase, entries, is_dir, Os, rmdir, readdir, Call,
}
use projeto_rc.Disk.Laws.{lookup-erase, entry, entry-entries, path_eq_refl}
use projeto_rc.Disk.Unique.{AreUnique, IsUnique}
use projeto_rc.Files.Shown.{shown, readdir-AreUnique, entry-readdir}
use projeto_rc.Files.Delete.{entry_path_shown}
use projeto_rc.Base.{Bool-cases, Option-cases, inl, inr}
use projeto_rc.Files.Allowed.{IsPermissive, remove_plain}
use projeto_rc.Files.{is_hidden, delete_entries, delete_directory}
use projeto_rc.Files.Laws.{IsTree, cons_ne}

-- A file that `delete_directory` does not pass over.
abbrev pub IsPlain : Bytes → Node → Type 0
IsPlain n x = (is_hidden n ≡ false) × (is_dir (some x) ≡ false)

pub entries_nil : (es : List Entry) → ((n : Bytes) → entry n es ≡ none) → es ≡ []
entries_nil [] h = refl
entries_nil ((n, x) ∷ es) h = absurd (ground (arith, h n, text_eq_refl n))

-- The names of a directory of plain files are those that its reading shows.
plain_entry :
    (os : Os) (path : FilePath) (fs : Disk)
    → IsUnique fs
    → is_dir (lookup fs path) ≡ true
    → ((m : Bytes) (x : Node) → lookup fs (m ∷ path) ≡ some x → IsPlain m x)
    → (m : Bytes) → lookup fs (m ∷ path) ≡ entry m (shown (readdir os path fs))
plain_entry os path fs u there plain m = elim (Bool-cases (is_hidden m)) [
  | inr e ↦ rw (entry-readdir os path fs m u there) (rw e refl)
  | inl e ↦ elim (Option-cases (lookup fs (m ∷ path))) [
    | inl f ↦ rw (entry-readdir os path fs m u there) (rw e f)
    | inr (x, f) ↦ absurd (ground (arith, plain m x f))
  ]
]

module _ (os : Os) (allowed : IsPermissive os) where
  abbrev Clears : FilePath → Disk → Outcome (Disk × Bool) → Type 0
  Clears path fs o =
      (fs' : Disk) × (o ≡ done (fs', true))
      × (lookup fs' path ≡ lookup fs path)
      × ((m : Bytes) → lookup fs' (m ∷ path) ≡ none)

  module _ (del : FilePath → Disk → Outcome (Disk × Bool)) (path : FilePath) where
    delete_entries_plain :
        (es : List Entry) (fs : Disk)
        → AreUnique (shown es)
        → ((m : Bytes) → lookup fs (m ∷ path) ≡ entry m (shown es))
        → ((m : Bytes) (x : Node) → entry m (shown es) ≡ some x → is_dir (some x) ≡ false)
        → Clears path fs (delete_entries os del path es fs)
    unfolding delete_entries
    delete_entries_plain [] fs u full plain = (fs, refl, refl, full)
    delete_entries_plain ((n, dir) ∷ es) fs u full plain = elim (Bool-cases (is_hidden n)) [
      | inl e ↦
          rw (e, delete_entries)
            (delete_entries_plain es fs (rw e at u) (λ m. full m ∙ rw e refl)
              (λ m x k. plain m x (rw e k)))
      | inr e ↦ absurd (ground (arith, rw e at plain n dir, text_eq_refl n))
    ]
    delete_entries_plain ((n, file b) ∷ es) fs u full plain = elim (Bool-cases (is_hidden n)) [
      | inl e ↦
          rw (e, delete_entries)
            (delete_entries_plain es fs (rw e at u) (λ m. full m ∙ rw e refl)
              (λ m x k. plain m x (rw e k)))
      | inr e ↦
          let v : (entry n (shown es) ≡ none) × AreUnique (shown es) = rw e at u in
          let full' : (m : Bytes) → lookup fs (m ∷ path) ≡ entry m ((n, file b) ∷ shown es) =
            λ m. full m ∙ rw e refl in
          let self : lookup fs (n ∷ path) ≡ some (file b) =
            ground (arith, full' n, text_eq_refl n) in
          let (fs', d, same, clear) =
            delete_entries_plain es (erase (n ∷ path) fs) v.1
              (λ m. ground (
                arith,
                full' m,
                lookup-erase fs (n ∷ path) (m ∷ path),
                path_eq_refl path,
                text_eq_sound n m,
                v.0,
              ))
              (λ m x k. plain m x (rw e (ground (arith, text_eq_sound n m, v.0)))) in
          (
            fs',
            rw
                (
                  e,
                  entry_path_shown n path e,
                  remove_plain os allowed (n ∷ path) fs b self,
                  delete_entries,
                )
                d,
            same ∙ (ground (arith, lookup-erase fs (n ∷ path) path, cons_ne n path)),
            clear,
          )
    ]

  -- Where the system refuses no call and the disk is a tree, `delete_directory` succeeds on a
  -- directory that holds only files with names that do not start with a dot.
  pub delete_directory_plain :
      (k : ℕ) (n : Bytes) (p : FilePath) (fs : Disk)
      → IsTree fs
      → lookup fs (n ∷ p) ≡ some dir
      → ((m : Bytes) (x : Node) → lookup fs (m ∷ n ∷ p) ≡ some x → IsPlain m x)
      → (fs' : Disk) × (delete_directory os (suc k) (n ∷ p) fs ≡ done (fs', true))
  unfolding delete_directory rmdir
  delete_directory_plain k n p fs t h plain =
      let there : is_dir (lookup fs (n ∷ p)) ≡ true = rw h in
      let full : (m : Bytes) → lookup fs (m ∷ n ∷ p) ≡ entry m (shown (readdir os (n ∷ p) fs)) =
        λ m. plain_entry os (n ∷ p) fs t.unique there plain m in
      let (g, d, same, clear) =
        delete_entries_plain (delete_directory os k) (n ∷ p) (readdir os (n ∷ p) fs) fs
          (readdir-AreUnique os (n ∷ p) fs t.unique there) full
          (λ m x e. (plain m x (full m ∙ e)).1) in
      let bare : entries (n ∷ p) g ≡ [] =
        entries_nil _ (λ m. entry-entries g (n ∷ p) m ∙ clear m) in
      (erase (n ∷ p) g, rw d (ground (arith, allowed Call.remove_dir (n ∷ p) g)))
