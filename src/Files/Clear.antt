-- ===== src/Files/Clear.antt =====
-- `delete_directory` of src/server/file_management.c on a directory with all that is below it.
use projeto_rc.Base.{
  ℕ, zero, suc, ◌+◌, ◌≤◌, ◌<◌, ◌≡◌, refl, sym, ◌∙◌, Bool, true, false, none, some, List, [], ◌∷◌,
  arith, Bytes, text_eq, text_eq_sound, text_eq_refl, length, Bool-cases, Option-cases, inl, inr,
  if◌then◌else◌,
}
use projeto_rc.Base.Outcome.{Outcome, done}
use projeto_rc.Disk.{
  FilePath, Node, dir, file, Disk, Entry, Call, lookup, erase, entries, depth, Os, rmdir, readdir,
}
use projeto_rc.Disk.Laws.{path_eq_refl, lookup-erase, entry, entry-entries}
use projeto_rc.Disk.Unique.{AreUnique}
use projeto_rc.Files.{is_hidden, delete_entries, delete_directory}
use projeto_rc.Files.Laws.{IsTree, cons_ne, remove-IsTree}
use projeto_rc.Files.Allowed.{IsPermissive, remove_plain}
use projeto_rc.Files.Shown.{shown, readdir-AreUnique, entry-readdir}
use projeto_rc.Files.Delete.{
  entry_path_shown, below, below_self, delete_directory-IsTree, delete_directory-outside,
  delete_directory-below,
}
use projeto_rc.Files.Depth.{IsShallow, depth-IsShallow, erase-IsShallow, delete_directory-IsShallow}
use projeto_rc.Files.Flat.{entries_nil}
use projeto_rc.Files.Below.{NoDots, below_short, below_up, lookup_shallow}

-- An entry of the directory has gone, with all that was below it.
record Removed (m : ℕ) (n : Bytes) (p : FilePath) (fs fs' : Disk) : Type 0 where
  tree : IsTree fs'
  shallow : IsShallow m fs'
  self : lookup fs' p ≡ lookup fs p
  children : (j : Bytes) → lookup fs' (j ∷ p) ≡ (if text_eq n j then none else lookup fs (j ∷ p))
  fewer : (q : FilePath) (x : Node) → lookup fs' q ≡ some x → lookup fs q ≡ some x

module _ (os : Os) (allowed : IsPermissive os) (m : ℕ) (p : FilePath) where
  NoDots-Removed : (n : Bytes) (fs fs' : Disk) → Removed m n p fs fs' → NoDots p fs → NoDots p fs'
  NoDots-Removed n fs fs' r h j q x b e = h j q x b (r.fewer (j ∷ q) x e)

  sibling : (n j : Bytes) → below (n ∷ p) (j ∷ p) ≡ text_eq n j
  sibling n j = ground (arith, below_short (n ∷ p) p (omega arith), path_eq_refl p)

  file_Removed :
      (n b : Bytes) (fs : Disk)
      → IsTree fs
      → IsShallow m fs
      → lookup fs (n ∷ p) ≡ some (file b)
      → Removed m n p fs (erase (n ∷ p) fs)
  file_Removed n b fs t s e = record {
    tree = remove-IsTree os (n ∷ p) fs (remove_plain os allowed (n ∷ p) fs b e) t;
    shallow = erase-IsShallow m (n ∷ p) fs s;
    self = ground (arith, lookup-erase fs (n ∷ p) p, cons_ne n p);
    children = λ j. ground (arith, lookup-erase fs (n ∷ p) (j ∷ p), path_eq_refl p);
    fewer = λ q x h. ground (arith, lookup-erase fs (n ∷ p) q);
  }

  dir_Removed :
      (k : ℕ) (n : Bytes) (fs fs' : Disk)
      → IsTree fs
      → IsShallow m fs
      → delete_directory os k (n ∷ p) fs ≡ done (fs', true)
      → Removed m n p fs fs'
  dir_Removed k n fs fs' t s d =
      let out : (q : FilePath) → below (n ∷ p) q ≡ false → lookup fs' q ≡ lookup fs q =
        λ q b. delete_directory-outside os k (n ∷ p) q fs (fs', true) t b d in
      let gone : (q : FilePath) → below (n ∷ p) q ≡ true → lookup fs' q ≡ none =
        λ q b. delete_directory-below os k (n ∷ p) q fs fs' t b d in
      record {
        tree = delete_directory-IsTree os k (n ∷ p) fs (fs', true) t d;
        shallow = delete_directory-IsShallow os m k (n ∷ p) fs (fs', true) s d;
        self = out p (below_short (n ∷ p) p (omega arith));
        children = λ j. elim (Bool-cases (text_eq n j)) [
          | inl e ↦ rw e (gone (j ∷ p) (sibling n j ∙ e))
          | inr e ↦ rw e (out (j ∷ p) (sibling n j ∙ e))
        ];
        fewer = λ q x h. elim (Bool-cases (below (n ∷ p) q)) [
          | inl b ↦ absurd (ground (arith, gone q b))
          | inr b ↦ sym (out q b) ∙ h
        ];
      }

  -- What the loop has still to delete: the entries are what the directory holds.
  record Pending (es : List Entry) (fs : Disk) : Type 0 where
    tree : IsTree fs
    shallow : IsShallow m fs
    there : lookup fs p ≡ some dir
    full : (j : Bytes) → lookup fs (j ∷ p) ≡ entry j (shown es)
    plain : NoDots p fs

  later :
      (n : Bytes) (x : Node) (es : List Entry) (fs fs' : Disk)
      → is_hidden n ≡ false
      → entry n (shown es) ≡ none
      → Pending ((n, x) ∷ es) fs
      → Removed m n p fs fs'
      → Pending es fs'
  later n x es fs fs' e once h r = record {
    tree = r.tree;
    shallow = r.shallow;
    there = r.self ∙ h.there;
    full = λ j. r.children j ∙ ground (arith, rw e at h.full j, text_eq_sound n j, once);
    plain = NoDots-Removed n fs fs' r h.plain;
  }

  passed_over :
      (n : Bytes) (x : Node) (es : List Entry) (fs : Disk)
      → is_hidden n ≡ true
      → Pending ((n, x) ∷ es) fs
      → Pending es fs
  passed_over n x es fs e h = record {
    tree = h.tree;
    shallow = h.shallow;
    there = h.there;
    full = λ j. h.full j ∙ rw e refl;
    plain = h.plain;
  }

  -- What is read of the directory is what it holds.
  readdir-Pending :
      (fs : Disk)
      → IsTree fs
      → IsShallow m fs
      → lookup fs p ≡ some dir
      → NoDots p fs
      → Pending (readdir os p fs) fs
  readdir-Pending fs t s there plain = record {
    tree = t;
    shallow = s;
    there = there;
    full = λ j. elim (Bool-cases (is_hidden j)) [
      | inr e ↦ rw (entry-readdir os p fs j t.unique (rw there refl)) (rw e refl)
      | inl e ↦ elim (Option-cases (lookup fs (j ∷ p))) [
        | inl f ↦ rw (entry-readdir os p fs j t.unique (rw there refl)) (rw e f)
        | inr (x, f) ↦ absurd (ground (arith, plain j p x (below_self p) f))
      ]
    ];
    plain = plain;
  }

  abbrev Empties : FilePath → Disk → Outcome (Disk × Bool) → Type 0
  Empties path fs o =
      (fs' : Disk) × (o ≡ done (fs', true))
      × (lookup fs' p ≡ some dir)
      × ((j : Bytes) → lookup fs' (j ∷ p) ≡ none)

  module _ (k : ℕ)
      (inner : (n : Bytes) (fs : Disk)
        → IsTree fs
        → IsShallow m fs
        → lookup fs (n ∷ p) ≡ some dir
        → NoDots (n ∷ p) fs
        → (fs' : Disk) × (delete_directory os k (n ∷ p) fs ≡ done (fs', true))) where
    empties :
        (es : List Entry) (fs : Disk)
        → AreUnique (shown es)
        → Pending es fs
        → Empties p fs (delete_entries os (delete_directory os k) p es fs)
    unfolding delete_entries
    empties [] fs u h = (fs, refl, h.there, h.full)
    empties ((n, dir) ∷ es) fs u h = elim (Bool-cases (is_hidden n)) [
      | inl e ↦ rw (e, delete_entries) (empties es fs (rw e at u) (passed_over n _ es fs e h))
      | inr e ↦
          let v : (entry n (shown es) ≡ none) × AreUnique (shown es) = rw e at u in
          let self : lookup fs (n ∷ p) ≡ some dir =
            h.full n ∙ rw e (ground (arith, text_eq_refl n)) in
          let (fs1, d) =
            inner n fs h.tree h.shallow self (λ j q x b. h.plain j q x (below_up n p q b)) in
          let (fs', d', there, none_left) =
            empties es fs1 v.1
              (later n dir es fs fs1 e v.0 h (dir_Removed k n fs fs1 h.tree h.shallow d)) in
          (fs', rw (e, entry_path_shown n p e, d, delete_entries) d', there, none_left)
    ]
    empties ((n, file b) ∷ es) fs u h = elim (Bool-cases (is_hidden n)) [
      | inl e ↦ rw (e, delete_entries) (empties es fs (rw e at u) (passed_over n _ es fs e h))
      | inr e ↦
          let v : (entry n (shown es) ≡ none) × AreUnique (shown es) = rw e at u in
          let self : lookup fs (n ∷ p) ≡ some (file b) =
            h.full n ∙ rw e (ground (arith, text_eq_refl n)) in
          let (fs', d', there, none_left) = empties es (erase (n ∷ p) fs) v.1 (
            later n (file b) es fs (erase (n ∷ p) fs) e v.0 h
              (file_Removed n b fs h.tree h.shallow self)) in
          (
            fs',
            rw
                (
                  e,
                  entry_path_shown n p e,
                  remove_plain os allowed (n ∷ p) fs b self,
                  delete_entries,
                )
                d',
            there,
            none_left,
          )
    ]

module _ (os : Os) (allowed : IsPermissive os) where
  clears :
      (k m : ℕ) (n : Bytes) (p : FilePath) (fs : Disk)
      → IsTree fs
      → IsShallow m fs
      → m < k + suc (length p)
      → lookup fs (n ∷ p) ≡ some dir
      → NoDots (n ∷ p) fs
      → (fs' : Disk) × (delete_directory os k (n ∷ p) fs ≡ done (fs', true))
  unfolding delete_directory rmdir
  clears zero m n p fs t s few there plain =
      let deep : length (n ∷ p) ≤ m = lookup_shallow m (n ∷ p) fs s there in absurd (omega arith)
  clears (suc k) m n p fs t s few there plain =
      let (g, d, self, none_left) =
        empties os allowed m (n ∷ p) k
          (λ j f t' s' e b. clears k m j (n ∷ p) f t' s' (omega arith) e b) (readdir os (n ∷ p) fs)
          fs (readdir-AreUnique os (n ∷ p) fs t.unique (rw there refl))
          (readdir-Pending os allowed m (n ∷ p) fs t s there plain) in
      let bare : entries (n ∷ p) g ≡ [] =
        entries_nil _ (λ j. entry-entries g (n ∷ p) j ∙ none_left j) in
      (erase (n ∷ p) g, rw d (ground (arith, allowed Call.remove_dir (n ∷ p) g)))

  -- Where the system refuses no call and the disk is a tree, with more fuel than the length of
  -- the longest path of the disk, `delete_directory` on a directory below which no name starts
  -- with a dot, however deep, succeeds: nothing is left at the path or below it, and nothing else
  -- on the disk has changed.
  pub delete_directory-clears :
      (k : ℕ) (n : Bytes) (p : FilePath) (fs : Disk)
      → IsTree fs
      → depth fs < k
      → lookup fs (n ∷ p) ≡ some dir
      → NoDots (n ∷ p) fs
      → (fs' : Disk) × (delete_directory os k (n ∷ p) fs ≡ done (fs', true))
        × ((q : FilePath) → lookup fs' q ≡ (if below (n ∷ p) q then none else lookup fs q))
  delete_directory-clears k n p fs t few there plain =
      let (fs', d) = clears k (depth fs) n p fs t (depth-IsShallow fs) (omega arith) there plain in
      (
        fs',
        d,
        λ q. elim (Bool-cases (below (n ∷ p) q)) [
          | inl e ↦ rw e (delete_directory-below os k (n ∷ p) q fs fs' t e d)
          | inr e ↦ rw e (delete_directory-outside os k (n ∷ p) q fs (fs', true) t e d)
        ],
      )
