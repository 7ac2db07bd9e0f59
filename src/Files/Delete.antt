-- ===== src/Files/Delete.antt =====
-- What `delete_directory` of src/server/file_management.c removes and what it leaves alone.
use mathlib.Core.Path.{subst}
use projeto_rc.Base.{
  ℕ, zero, suc, ◌≡◌, refl, Bool, true, false, ◌||◌, none, some, List, [], ◌∷◌, arith, Bytes,
  Bool-cases, inl, inr, ◌∙◌, Option-cases,
}
use projeto_rc.Base.Outcome.{Outcome, done, >>=-eq-done, done_injective}
use projeto_rc.Disk.{
  FilePath, path_eq, dir, file, Disk, Entry, lookup, erase, Os, rmdir, remove, readdir,
}
use projeto_rc.Disk.Laws.{path_eq_sound, path_eq_refl, lookup-erase, lookup-erase_self}
use projeto_rc.Files.{is_hidden, entry_path, delete_entries, delete_self, delete_directory}
use projeto_rc.Files.Laws.{IsTree, rmdir_lem, rmdir-IsTree, remove_lem, remove-IsTree}

-- The path is the directory or lies below it.
abbrev pub below : FilePath → FilePath → Bool
below p [] = path_eq p []
below p (n ∷ q) = path_eq p (n ∷ q) || below p q

pub below_self : (p : FilePath) → below p p ≡ true
below_self [] = refl
below_self (n ∷ p) = ground (arith, path_eq_refl (n ∷ p))

-- In a tree, what lies below a missing path is missing.
pub below-none :
    {fs : Disk} (p q : FilePath)
    → IsTree fs
    → lookup fs p ≡ none
    → below p q ≡ true
    → lookup fs q ≡ none
below-none p [] t h b = rw (path_eq_sound p [] b) at h
below-none {fs} p (n ∷ q) t h b = elim (Option-cases (lookup fs (n ∷ q))) [
  | inl e ↦ e
  | inr (x, e) ↦ ground (arith, t.above n q x e, path_eq_sound p (n ∷ q), below-none p q t h)
]

-- An entry that is not passed over lies in the directory.
pub entry_path_shown :
    (n : Bytes) (path : FilePath) → is_hidden n ≡ false → entry_path path n ≡ n ∷ path
entry_path_shown [] path h = refl
entry_path_shown (c ∷ n) path h = ground arith

-- What every removal below a directory keeps, the deletion of the directory keeps. `C` holds of the
-- paths that are deleted.
module _ (os : Os) (C : FilePath → Type 0) (P : Disk → Type 0)
    (deeper : (n : Bytes) (p : FilePath) → C p → C (n ∷ p))
    (remove_keeps : (p : FilePath) (fs fs' : Disk) → C p → P fs → remove os p fs ≡ some fs' → P fs')
    (rmdir_keeps : (p : FilePath) (fs fs' : Disk)
      → C p
      → P fs
      → rmdir os p fs ≡ some fs'
      → P fs') where
  ends : (s r : Disk × Bool) → P s.0 → done s ≡ done r → P r.0
  ends s r p h = subst (λ (x : Disk × Bool). P x.0) (done_injective h) p

  module _ (del : FilePath → Disk → Outcome (Disk × Bool))
      (del_keeps : (p : FilePath) (fs : Disk) (r : Disk × Bool)
        → C p
        → P fs
        → del p fs ≡ done r
        → P r.0)
      (path : FilePath) (c : C path) where
    delete_entries_rule :
        (es : List Entry) (fs : Disk) (r : Disk × Bool)
        → P fs
        → delete_entries os del path es fs ≡ done r
        → P r.0
    unfolding delete_entries
    delete_entries_rule [] fs r p h = ends (fs, true) r p h
    delete_entries_rule ((n, dir) ∷ es) fs r p h = elim (Bool-cases (is_hidden n)) [
      | inl e ↦ delete_entries_rule es fs r p (rw (e, delete_entries) at h)
      | inr e ↦
          let ((fs', ok), d, k) =
            >>=-eq-done (del (n ∷ path) fs) _
              (rw (e, entry_path_shown n path e, delete_entries) at h) in
          let q : P fs' = del_keeps (n ∷ path) fs (fs', ok) (deeper n path c) p d in
          elim (Bool-cases ok) [
            | inl t ↦ delete_entries_rule es fs' r q (rw t at k)
            | inr f ↦ ends (fs', false) r q (rw f at k)
          ]
    ]
    delete_entries_rule ((n, file b) ∷ es) fs r p h = elim (Bool-cases (is_hidden n)) [
      | inl e ↦ delete_entries_rule es fs r p (rw (e, delete_entries) at h)
      | inr e ↦ elim (Option-cases (remove os (n ∷ path) fs)) [
        | inl f ↦ ends (fs, false) r p (rw (e, entry_path_shown n path e, f, delete_entries) at h)
        | inr (fs', f) ↦
            delete_entries_rule es fs' r (remove_keeps (n ∷ path) fs fs' (deeper n path c) p f)
              (rw (e, entry_path_shown n path e, f, delete_entries) at h)
      ]
    ]

  delete_self_rule :
      (path : FilePath) (s r : Disk × Bool)
      → C path
      → P s.0
      → delete_self os path s ≡ done r
      → P r.0
  delete_self_rule path (fs, false) r c p h = ends (fs, false) r p h
  delete_self_rule path (fs, true) r c p h = elim (Option-cases (rmdir os path fs)) [
    | inl f ↦ ends (fs, false) r p (rw (f, delete_self) at h)
    | inr (fs', f) ↦ ends (fs', true) r (rmdir_keeps path fs fs' c p f) (rw (f, delete_self) at h)
  ]

  pub delete_directory_rule :
      (k : ℕ) (path : FilePath) (fs : Disk) (r : Disk × Bool)
      → C path
      → P fs
      → delete_directory os k path fs ≡ done r
      → P r.0
  unfolding delete_directory
  delete_directory_rule zero path fs r c p h = absurd (ground arith)
  delete_directory_rule (suc k) path fs r c p h =
      let (s, d, e) = >>=-eq-done _ (delete_self os path) h in
      delete_self_rule path s r c
        (delete_entries_rule (delete_directory os k) (delete_directory_rule k) path c
          (readdir os path fs) fs s p d)
        e

module _ (os : Os) where
  -- A deletion keeps the disk a tree.
  pub delete_directory-IsTree :
      (k : ℕ) (path : FilePath) (fs : Disk) (r : Disk × Bool)
      → IsTree fs
      → delete_directory os k path fs ≡ done r
      → IsTree r.0
  delete_directory-IsTree k path fs r =
      delete_directory_rule os (λ p. Unit {0}) IsTree (λ n p c. tt)
        (λ p f g c t h. remove-IsTree os p f h t) (λ p f g c t h. rmdir-IsTree os p f h t) k path fs
        r tt

  pub below_deeper :
      (top : FilePath) (n : Bytes) (p : FilePath) → below top p ≡ true → below top (n ∷ p) ≡ true
  below_deeper top n p h = ground arith

  erased_outside :
      (top p q : FilePath) (f g : Disk)
      → below top q ≡ false
      → below top p ≡ true
      → g ≡ erase p f
      → lookup g q ≡ lookup f q
  erased_outside top p q f g b c e = rw e (ground (arith, lookup-erase f p q, path_eq_sound p q))

  pub rmdir-erase : (p : FilePath) (f : Disk) {g : Disk} → rmdir os p f ≡ some g → g ≡ erase p f
  rmdir-erase [] f h = absurd (unfold rmdir in ground arith)
  rmdir-erase (n ∷ p) f h = (rmdir_lem os n p f h).0

  -- On a tree, `delete_directory` changes nothing that is not at the path or below it, whether it
  -- succeeds or fails half-way.
  pub delete_directory-outside :
      (k : ℕ) (top q : FilePath) (fs : Disk) (r : Disk × Bool)
      → IsTree fs
      → below top q ≡ false
      → delete_directory os k top fs ≡ done r
      → lookup r.0 q ≡ lookup fs q
  delete_directory-outside k top q fs r t b h =
      (delete_directory_rule os (λ p. below top p ≡ true)
        (λ f. IsTree f × (lookup f q ≡ lookup fs q)) (λ n p. below_deeper top n p)
        (λ p f g c (t', e) k'. (
          remove-IsTree os p f k' t',
          erased_outside top p q f g b c (remove_lem os p f t' k').0 ∙ e,
        ))
        (λ p f g c (t', e) k'.
          (rmdir-IsTree os p f k' t', erased_outside top p q f g b c (rmdir-erase p f k') ∙ e))
        k top fs r (below_self top) (t, refl) h).1

  removed :
      (ok : Bool) (f fs' : Disk) (top : FilePath)
      → delete_self os top (f, ok) ≡ done (fs', true)
      → lookup fs' top ≡ none
  removed false f fs' top h = absurd (cc)
  removed true f fs' top h = elim (Option-cases (rmdir os top f)) [
    | inl e ↦ absurd (ground (arith, rw (e, delete_self) at h))
    | inr (g, e) ↦
        let same : g ≡ fs' = ground (arith, rw (e, delete_self) at h) in
        rw (← same) (rw (rmdir-erase top f e) (lookup-erase_self f top))
  ]

  -- On a tree, after a `delete_directory` that reports success no file and no directory is left
  -- at the path or below it.
  pub delete_directory-below :
      (k : ℕ) (top q : FilePath) (fs fs' : Disk)
      → IsTree fs
      → below top q ≡ true
      → delete_directory os k top fs ≡ done (fs', true)
      → lookup fs' q ≡ none
  unfolding delete_directory
  delete_directory-below zero top q fs fs' t b h = absurd (ground arith)
  delete_directory-below (suc k) top q fs fs' t b h =
      let ((f, ok), d, e) = >>=-eq-done _ (delete_self os top) h in
      below-none top q (delete_directory-IsTree (suc k) top fs (fs', true) t h)
        (removed ok f fs' top e) b
