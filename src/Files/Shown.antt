-- ===== src/Files/Shown.antt =====
-- What `delete_directory` of src/server/file_management.c looks at in a directory.
use mathlib.Core.List.{Perm, filter_map}
use mathlib.Core.List.Perm
use mathlib.Core.Logic.{∥∥₁_elim}
use projeto_rc.Base.{
  ◌≡◌, refl, sym, ◌∙◌, ap, Bool, true, false, Option, none, some, List, [], ◌∷◌, arith, Bytes,
  text_eq_sound, Bool-cases, inl, inr, if◌then◌else◌,
}
use projeto_rc.Base.Outcome.{Outcome, done}
use projeto_rc.Disk.{FilePath, dir, file, Disk, Entry, lookup, entries, dots, is_dir, Os, readdir}
use projeto_rc.Disk.Laws.{entry, entry-entries}
use projeto_rc.Disk.Unique.{
  IsUnique, AreUnique, entries-AreUnique, perm_same, found_set, AreUnique-prop,
}
use projeto_rc.Files.{is_hidden, delete_entries}

-- An entry whose name does not start with a dot.
abbrev shown_entry : Entry → Option Entry
shown_entry (n, x) = if is_hidden n then none else some (n, x)

abbrev pub shown : List Entry → List Entry
shown [] = []
shown ((n, x) ∷ es) = let rest = shown es in if is_hidden n then rest else (n, x) ∷ rest

shown-filter_map : (es : List Entry) → shown es ≡ filter_map shown_entry es
unfolding filter_map
shown-filter_map [] = refl
shown-filter_map ((n, x) ∷ es) = elim (Bool-cases (is_hidden n)) [
  | inl e ↦ rw e (shown-filter_map es)
  | inr e ↦ rw e (ap (λ l. (n, x) ∷ l) (shown-filter_map es))
]

entry-shown : (n : Bytes) (es : List Entry) → is_hidden n ≡ false → entry n (shown es) ≡ entry n es
entry-shown n [] h = refl
entry-shown n ((m, x) ∷ es) h = elim (Bool-cases (is_hidden m)) [
  | inl e ↦ rw e (ground (arith, entry-shown n es h, text_eq_sound m n))
  | inr e ↦ rw e (ground (arith, entry-shown n es h))
]

entry-shown_dotted : (n : Bytes) (es : List Entry) → is_hidden n ≡ true → entry n (shown es) ≡ none
entry-shown_dotted n [] h = refl
entry-shown_dotted n ((m, x) ∷ es) h = elim (Bool-cases (is_hidden m)) [
  | inl e ↦ rw e (entry-shown_dotted n es h)
  | inr e ↦ rw e (ground (arith, entry-shown_dotted n es h, text_eq_sound m n))
]

shown-AreUnique : (es : List Entry) → AreUnique es → AreUnique (shown es)
shown-AreUnique [] u = tt
shown-AreUnique ((m, x) ∷ es) u = elim (Bool-cases (is_hidden m)) [
  | inl e ↦ rw e (shown-AreUnique es u.1)
  | inr e ↦ rw e (entry-shown m es e ∙ u.0, shown-AreUnique es u.1)
]

module _ (os : Os) (p : FilePath) (fs : Disk) where
  -- What is read of a directory, but for the names with a dot in front, is what it holds.
  pub shown-readdir :
      is_dir (lookup fs p) ≡ true → Perm (shown (readdir os p fs)) (shown (dots (entries p fs)))
  unfolding readdir
  shown-readdir h = rw h (
      rw
        (
          shown-filter_map (os.order p (dots (entries p fs))),
          shown-filter_map (dots (entries p fs)),
        )
        (Perm.filter_map shown_entry (os.order_perm p (dots (entries p fs)))))

  -- Reading a directory gives each of these names once, with the node that the path leads to.
  pub readdir-AreUnique :
      IsUnique fs → is_dir (lookup fs p) ≡ true → AreUnique (shown (readdir os p fs))
  readdir-AreUnique u h =
      ∥∥₁_elim (Perm.symm (shown-readdir h)) (AreUnique-prop _)
        (λ q. (perm_same q (shown-AreUnique _ (entries-AreUnique fs p u))).0)

  pub entry-readdir :
      (n : Bytes)
      → IsUnique fs
      → is_dir (lookup fs p) ≡ true
      → entry n (shown (readdir os p fs)) ≡ (if is_hidden n then none else lookup fs (n ∷ p))
  entry-readdir n u h = ∥∥₁_elim (Perm.symm (shown-readdir h)) (found_set _ _) (λ q.
      sym ((perm_same q (shown-AreUnique _ (entries-AreUnique fs p u))).1 n)
      ∙ (elim (Bool-cases (is_hidden n)) [
        | inl e ↦ rw e (entry-shown_dotted n (entries p fs) e)
        | inr e ↦ rw e (entry-shown n (entries p fs) e ∙ entry-entries fs p n)
      ]))

module _ (os : Os) where
  -- The loop has nothing to do where all names have a dot in front.
  pub delete_entries-hidden :
      (del : FilePath → Disk → Outcome (Disk × Bool)) (path : FilePath) (es : List Entry)
      (fs : Disk)
      → shown es ≡ []
      → delete_entries os del path es fs ≡ done (fs, true)
  unfolding delete_entries
  delete_entries-hidden del path [] fs h = refl
  delete_entries-hidden del path ((n, dir) ∷ es) fs h = elim (Bool-cases (is_hidden n)) [
    | inl e ↦ rw (e, delete_entries) (delete_entries-hidden del path es fs (rw e at h))
    | inr e ↦ absurd (ground (arith, rw e at h))
  ]
  delete_entries-hidden del path ((n, file b) ∷ es) fs h = elim (Bool-cases (is_hidden n)) [
    | inl e ↦ rw (e, delete_entries) (delete_entries-hidden del path es fs (rw e at h))
    | inr e ↦ absurd (ground (arith, rw e at h))
  ]
