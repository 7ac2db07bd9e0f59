-- ===== src/Disk/Laws.antt =====
-- The map laws of the disk, and what a change does to the entries of a directory.
use projeto_rc.Base.{
  ◌≡◌, refl, ◌≢◌, ◌∙◌, ◌⊎◌, true, false, Option, none, some, List, [], ◌∷◌, ◌++◌, arith, Bytes,
  text_eq, text_eq_sound, text_eq_refl, if◌then◌else◌, Bool-cases, inl, inr,
}
use projeto_rc.Disk.{FilePath, path_eq, Node, Disk, Entry, lookup, put, erase, entries}

pub path_eq_sound : (p q : FilePath) → path_eq p q ≡ true → p ≡ q
path_eq_sound [] [] h = refl
path_eq_sound [] (b ∷ q) h = ground arith
path_eq_sound (a ∷ p) [] h = ground arith
path_eq_sound (a ∷ p) (b ∷ q) h = ground (arith, path_eq_sound p q, text_eq_sound a b)

pub path_eq_refl : (p : FilePath) → path_eq p p ≡ true
path_eq_refl [] = refl
path_eq_refl (a ∷ p) = rw (text_eq_refl a) (path_eq_refl p)

pub path_ne : (p q : FilePath) → p ≢ q → path_eq p q ≡ false
path_ne p q h = elim (Bool-cases (path_eq p q)) [
  | inl e ↦ absurd (h (path_eq_sound p q e))
  | inr e ↦ e
]

pub lookup-put :
    (fs : Disk) (p q : FilePath) (n : Node)
    → lookup (put p n fs) q ≡ (if path_eq p q then some n else lookup fs q)
unfolding lookup put
lookup-put [] p q n = refl
lookup-put ((r, m) ∷ fs) p q n = elim (Bool-cases (path_eq r p)) [
  | inl e ↦ rw (path_eq_sound r p e) (rw (path_eq_refl p) (ground arith))
  | inr e ↦
      rw e
        (ground (arith, lookup-put fs p q n, path_eq_sound r q, path_eq_sound p q, path_eq_refl p))
]

pub lookup-erase :
    (fs : Disk) (p q : FilePath)
    → lookup (erase p fs) q ≡ (if path_eq p q then none else lookup fs q)
unfolding lookup erase
lookup-erase [] p q = ground arith
lookup-erase ((r, m) ∷ fs) p q = ground (
  arith,
  lookup-erase fs p q,
  path_eq_sound r q,
  path_eq_sound p q,
  path_eq_sound r p,
  path_eq_refl p,
)

pub lookup-put_self : (fs : Disk) (p : FilePath) (n : Node) → lookup (put p n fs) p ≡ some n
lookup-put_self fs p n = rw (lookup-put, path_eq_refl p)

pub lookup-erase_self : (fs : Disk) (p : FilePath) → lookup (erase p fs) p ≡ none
lookup-erase_self fs p = rw (lookup-erase, path_eq_refl p)

pub erase_shrinks :
    (fs : Disk) (p q : FilePath)
    → (lookup (erase p fs) q ≡ lookup fs q) ⊎ (lookup (erase p fs) q ≡ none)
erase_shrinks fs p q = elim (Bool-cases (path_eq p q)) [
  | inl e ↦ inr (lookup-erase fs p q ∙ rw e)
  | inr e ↦ inl (lookup-erase fs p q ∙ rw e)
]

-- The first entry of a name.
abbrev pub entry : Bytes → List Entry → Option Node
entry n [] = none
entry n ((m, x) ∷ es) = if text_eq m n then some x else entry n es

-- A directory lists exactly the paths one step below it.
pub entry-entries :
    (fs : Disk) (p : FilePath) (n : Bytes) → entry n (entries p fs) ≡ lookup fs (n ∷ p)
unfolding lookup entries
entry-entries [] p n = refl
entry-entries (([], m) ∷ fs) p n = entry-entries fs p n
entry-entries ((k ∷ q, m) ∷ fs) p n = ground (arith, entry-entries fs p n)

-- A new path is listed last in its directory.
pub entries-put_new :
    (fs : Disk) (p : FilePath) (n : Bytes) (x : Node)
    → lookup fs (n ∷ p) ≡ none
    → entries p (put (n ∷ p) x fs) ≡ entries p fs ++ (n, x) ∷ []
unfolding lookup entries put
entries-put_new [] p n x h = rw (path_eq_refl p)
entries-put_new (([], m) ∷ fs) p n x h = entries-put_new fs p n x h
entries-put_new ((k ∷ q, m) ∷ fs) p n x h = ground (arith, entries-put_new fs p n x)

-- Only the directory above a path sees it.
pub entries-put_ne :
    (fs : Disk) (p q : FilePath) (n : Bytes) (x : Node)
    → q ≢ p
    → entries p (put (n ∷ q) x fs) ≡ entries p fs
unfolding entries put
entries-put_ne [] p q n x h = rw (path_ne q p h)
entries-put_ne (([], m) ∷ fs) p q n x h = entries-put_ne fs p q n x h
entries-put_ne ((k ∷ r, m) ∷ fs) p q n x h =
    ground (arith, entries-put_ne fs p q n x h, path_eq_sound r q, path_ne q p h)
