-- ===== src/Files/Below.antt =====
-- Paths below a directory, and names that start with a dot, for src/server/file_management.c.
use projeto_rc.Base.{
  ℕ, ◌≤◌, ◌<◌, ◌≡◌, refl, ap, Bool, true, false, some, [], ◌∷◌, arith, Bytes, length, Bool-cases,
  inl, inr, All,
}
use projeto_rc.Disk.{FilePath, path_eq, Node, Disk, lookup}
use projeto_rc.Disk.Laws.{path_eq_sound}
use projeto_rc.Files.{is_hidden}
use projeto_rc.Files.Delete.{below, below_self}
use projeto_rc.Files.Depth.{IsShallow}

-- No name below the path starts with a dot.
abbrev pub NoDots : FilePath → Disk → Type 0
NoDots p fs =
    (n : Bytes) (q : FilePath) (x : Node)
    → below p q ≡ true
    → lookup fs (n ∷ q) ≡ some x
    → is_hidden n ≡ false

-- Whether the last name of a path starts with a dot.
abbrev pub ends_hidden : FilePath → Bool
ends_hidden [] = false
ends_hidden (n ∷ p) = is_hidden n

pub lookup-shown :
    (fs : Disk) (p : FilePath) {x : Node}
    → All (λ e. ends_hidden e.0 ≡ false) fs
    → lookup fs p ≡ some x
    → ends_hidden p ≡ false
unfolding lookup
lookup-shown [] p h e = absurd (ground arith)
lookup-shown ((q, n) ∷ fs) p h e = elim (Bool-cases (path_eq q p)) [
  | inl k ↦ let same : q ≡ p = path_eq_sound q p k in rw (← same) h.0
  | inr k ↦ lookup-shown fs p h.1 (rw k at e)
]

path_eq_ne : (p q : FilePath) → length q < length p → path_eq p q ≡ false
path_eq_ne p q h = elim (Bool-cases (path_eq p q)) [
  | inr e ↦ e
  | inl e ↦ let same : length p ≡ length q = ap length (path_eq_sound p q e) in absurd (omega arith)
]

pub below_short : (p q : FilePath) → length q < length p → below p q ≡ false
below_short [] q h = absurd (omega arith)
below_short (a ∷ p) [] h = refl
below_short (a ∷ p) (b ∷ q) h =
    ground (arith, below_short (a ∷ p) q (omega arith), path_eq_ne (a ∷ p) (b ∷ q) h)

pub below_up : (n : Bytes) (p q : FilePath) → below (n ∷ p) q ≡ true → below p q ≡ true
below_up n p [] h = absurd (ground arith)
below_up n p (m ∷ q) h = elim (Bool-cases (path_eq (n ∷ p) (m ∷ q))) [
  | inl e ↦
      let same : p ≡ q = path_eq_sound p q (ground arith) in
      let self : below p q ≡ true = rw (← same) (below_self p) in ground arith
  | inr e ↦ ground (arith, below_up n p q (rw e at h))
]

pub lookup_shallow :
    (m : ℕ) (p : FilePath) (fs : Disk) {x : Node}
    → IsShallow m fs
    → lookup fs p ≡ some x
    → length p ≤ m
unfolding lookup
lookup_shallow m p [] s h = absurd (ground arith)
lookup_shallow m p ((q, n) ∷ fs) s h = elim (Bool-cases (path_eq q p)) [
  | inl e ↦ let same : length q ≡ length p = ap length (path_eq_sound q p e) in omega arith
  | inr e ↦ lookup_shallow m p fs s.1 (rw e at h)
]
