-- ===== src/Files/Depth.antt =====
-- The depth of the recursion of `delete_directory` of src/server/file_management.c.
use mathlib.Core.List.{Perm}
use mathlib.Core.List.Perm
use mathlib.Core.Path.{subst}
use projeto_rc.Base.{
  ℕ, zero, suc, ◌+◌, ◌≤◌, ◌<◌, ◌≡◌, refl, Bool, true, false, some, List, [], ◌∷◌, arith, Bytes,
  Bool-cases, inl, inr, Option-cases, leb, leb-le, length, All, ap,
}
use projeto_rc.Base.Outcome.{Outcome, done}
use projeto_rc.Disk.{
  dots, FilePath, path_eq, dir, file, Disk, Entry, lookup, erase, entries, is_dir, depth, Os, rmdir,
  remove, readdir,
}
use projeto_rc.Disk.Laws.{path_eq_sound}
use projeto_rc.Files.{is_hidden, delete_entries, delete_self, delete_directory}
use projeto_rc.Files.Shown.{shown, shown-readdir, delete_entries-hidden}
use projeto_rc.Files.Delete.{entry_path_shown, rmdir-erase, delete_directory_rule}

abbrev pub IsShallow : ℕ → Disk → Type 0
IsShallow m fs = All (λ e. length e.0 ≤ m) fs

IsShallow-mono : {m k : ℕ} (fs : Disk) → m ≤ k → IsShallow m fs → IsShallow k fs
IsShallow-mono [] h s = tt
IsShallow-mono ((p, n) ∷ fs) h s = (omega arith, IsShallow-mono fs h s.1)

pub depth-IsShallow : (fs : Disk) → IsShallow (depth fs) fs
unfolding depth
depth-IsShallow [] = tt
depth-IsShallow ((p, n) ∷ fs) = (omega arith, IsShallow-mono fs (omega arith) (depth-IsShallow fs))

pub erase-IsShallow : (m : ℕ) (p : FilePath) (fs : Disk) → IsShallow m fs → IsShallow m (erase p fs)
unfolding erase
erase-IsShallow m p [] s = tt
erase-IsShallow m p ((q, n) ∷ fs) s = elim (Bool-cases (path_eq q p)) [
  | inl e ↦ rw e (erase-IsShallow m p fs s.1)
  | inr e ↦ rw e (s.0, erase-IsShallow m p fs s.1)
]

-- Only a path shorter than the bound has entries.
entries_shallow :
    (m : ℕ) (p : FilePath) (fs : Disk) → IsShallow m fs → m ≤ length p → entries p fs ≡ []
unfolding entries
entries_shallow m p [] s h = refl
entries_shallow m p (([], n) ∷ fs) s h = entries_shallow m p fs s.1 h
entries_shallow m p ((k ∷ q, n) ∷ fs) s h = elim (Bool-cases (path_eq q p)) [
  | inl e ↦ let same : length q ≡ length p = ap length (path_eq_sound q p e) in absurd (omega arith)
  | inr e ↦ rw e (entries_shallow m p fs s.1 h)
]

module _ (os : Os) where
  readdir_shallow :
      (m : ℕ) (p : FilePath) (fs : Disk)
      → IsShallow m fs
      → m ≤ length p
      → shown (readdir os p fs) ≡ []
  readdir_shallow m p fs s h = elim (Bool-cases (is_dir (lookup fs p))) [
    | inl e ↦
        let same : shown (dots (entries p fs)) ≡ [] = rw (entries_shallow m p fs s h) refl in
        Perm.eq-nil (subst (λ l. Perm (shown (readdir os p fs)) l) same (shown-readdir os p fs e))
    | inr e ↦ unfold readdir in rw e refl
  ]

  remove-erase : (p : FilePath) (f : Disk) {g : Disk} → remove os p f ≡ some g → g ≡ erase p f
  unfolding remove
  remove-erase p f h = ground (arith, rmdir-erase os p f)

  pub delete_directory-IsShallow :
      (m k : ℕ) (p : FilePath) (f : Disk) (r : Disk × Bool)
      → IsShallow m f
      → delete_directory os k p f ≡ done r
      → IsShallow m r.0
  delete_directory-IsShallow m k p f r =
      delete_directory_rule os (λ q. Unit {0}) (IsShallow m) (λ n q c. tt)
        (λ q a b c s e. rw (remove-erase q a e) (erase-IsShallow m q a s))
        (λ q a b c s e. rw (rmdir-erase os q a e) (erase-IsShallow m q a s)) k p f r tt

  abbrev Ends : Outcome (Disk × Bool) → Type 0
  Ends o = (r : Disk × Bool) × (o ≡ done r)

  delete_self-Ends : (p : FilePath) (s : Disk × Bool) → Ends (delete_self os p s)
  delete_self-Ends p (fs, false) = ((fs, false), refl)
  delete_self-Ends p (fs, true) = elim (Option-cases (rmdir os p fs)) [
    | inl e ↦ ((fs, false), rw (e, delete_self))
    | inr (g, e) ↦ ((g, true), rw (e, delete_self))
  ]

  module _ (m : ℕ) (del : FilePath → Disk → Outcome (Disk × Bool)) (path : FilePath)
      (del_ends : (n : Bytes) (f : Disk) → IsShallow m f → Ends (del (n ∷ path) f))
      (del_shallow : (n : Bytes) (f : Disk) (r : Disk × Bool)
        → IsShallow m f
        → del (n ∷ path) f ≡ done r
        → IsShallow m r.0) where
    delete_entries-Ends :
        (es : List Entry) (fs : Disk) → IsShallow m fs → Ends (delete_entries os del path es fs)
    unfolding delete_entries
    delete_entries-Ends [] fs s = ((fs, true), refl)
    delete_entries-Ends ((n, dir) ∷ es) fs s = elim (Bool-cases (is_hidden n)) [
      | inl e ↦ rw (e, delete_entries) (delete_entries-Ends es fs s)
      | inr e ↦
          let ((g, ok), d) = del_ends n fs s in
          elim (Bool-cases ok) [
            | inl t ↦
                rw (e, entry_path_shown n path e, d, t, delete_entries)
                  (delete_entries-Ends es g (del_shallow n fs (g, ok) s d))
            | inr f ↦ rw (e, entry_path_shown n path e, d, f, delete_entries) ((g, false), refl)
          ]
    ]
    delete_entries-Ends ((n, file b) ∷ es) fs s = elim (Bool-cases (is_hidden n)) [
      | inl e ↦ rw (e, delete_entries) (delete_entries-Ends es fs s)
      | inr e ↦ elim (Option-cases (remove os (n ∷ path) fs)) [
        | inl f ↦ rw (e, entry_path_shown n path e, f, delete_entries) ((fs, false), refl)
        | inr (g, f) ↦
            rw (e, entry_path_shown n path e, f, delete_entries)
              (delete_entries-Ends es g
                (rw (remove-erase (n ∷ path) fs f) (erase-IsShallow m (n ∷ path) fs s)))
      ]
    ]

  Ends-by_depth :
      (k m : ℕ) (p : FilePath) (fs : Disk)
      → IsShallow m fs
      → 0 < k
      → m < k + length p
      → Ends (delete_directory os k p fs)
  unfolding delete_directory
  Ends-by_depth zero m p fs s pos h = absurd (omega arith)
  Ends-by_depth (suc k) m p fs s pos h = elim (Bool-cases (leb m (length p))) [
    | inl e ↦
        rw
          (delete_entries-hidden os (delete_directory os k) p (readdir os p fs) fs
            (readdir_shallow m p fs s (leb-le m (length p) e)))
          (delete_self-Ends p (fs, true))
    | inr e ↦
        let deep : length p < m = ground arith in
        let (r, d) =
          delete_entries-Ends m (delete_directory os k) p
            (λ n f t. Ends-by_depth k m (n ∷ p) f t (omega arith) (omega arith))
            (λ n f r. delete_directory-IsShallow m k (n ∷ p) f r) (readdir os p fs) fs s in
        rw d (delete_self-Ends p r)
  ]

  -- With more fuel than the length of the longest path of the disk, `delete_directory` comes to a
  -- result on every path, whatever the system refuses.
  pub delete_directory-Ends :
      (k : ℕ) (p : FilePath) (fs : Disk) → depth fs < k → Ends (delete_directory os k p fs)
  delete_directory-Ends k p fs h =
      Ends-by_depth k (depth fs) p fs (depth-IsShallow fs) (omega arith) (omega arith)
