-- ===== src/Disk/Unique.antt =====
-- Each path once on a disk, and each name once in what `readdir` gives.
use mathlib.Core.Path.{subst, subst₂}
use mathlib.Core.List.{Permᴰ}
use native.Mathlib.Nat.{ℕ_set}
use projeto_rc.Base.{
  ◌≡◌, refl, sym, ◌∙◌, Option, none, List, [], ◌∷◌, arith, Bytes, text_eq_sound, text_eq_refl,
  Bool-cases, inl, inr,
}
use projeto_rc.Disk.{FilePath, path_eq, Node, Disk, Entry, lookup, put, erase, entries}
use projeto_rc.Disk.Laws.{path_eq_sound, lookup-put, lookup-erase, entry, entry-entries}

abbrev pub IsUnique : Disk → Type 0
IsUnique [] = Unit
IsUnique ((p, n) ∷ fs) = (lookup fs p ≡ none) × IsUnique fs

pub put-IsUnique : (fs : Disk) (p : FilePath) (n : Node) → IsUnique fs → IsUnique (put p n fs)
unfolding put lookup
put-IsUnique [] p n u = (refl, tt)
put-IsUnique ((q, m) ∷ fs) p n u = elim (Bool-cases (path_eq q p)) [
  | inl e ↦ rw e u
  | inr e ↦
      rw e (ground (arith, lookup-put fs p q n, path_eq_sound p q, u.0), put-IsUnique fs p n u.1)
]

pub erase-IsUnique : (fs : Disk) (p : FilePath) → IsUnique fs → IsUnique (erase p fs)
unfolding erase lookup
erase-IsUnique [] p u = tt
erase-IsUnique ((q, m) ∷ fs) p u = elim (Bool-cases (path_eq q p)) [
  | inl e ↦ rw e (erase-IsUnique fs p u.1)
  | inr e ↦ rw e (ground (arith, lookup-erase fs p q, u.0), erase-IsUnique fs p u.1)
]

-- No name stands twice among the entries.
abbrev pub AreUnique : List Entry → Type 0
AreUnique [] = Unit
AreUnique ((n, x) ∷ es) = (entry n es ≡ none) × AreUnique es

pub entries-AreUnique : (fs : Disk) (p : FilePath) → IsUnique fs → AreUnique (entries p fs)
unfolding entries
entries-AreUnique [] p u = tt
entries-AreUnique (([], m) ∷ fs) p u = entries-AreUnique fs p u.1
entries-AreUnique ((n ∷ q, m) ∷ fs) p u = elim (Bool-cases (path_eq q p)) [
  | inl e ↦ rw e (
    entry-entries fs p n ∙ subst (λ r. lookup fs (n ∷ r) ≡ none) (path_eq_sound q p e) u.0,
    entries-AreUnique fs p u.1,
  )
  | inr e ↦ rw e (entries-AreUnique fs p u.1)
]

abbrev pub SameEntries : List Entry → List Entry → Type 0
SameEntries es fs = AreUnique fs × ((n : Bytes) → entry n es ≡ entry n fs)

swap_same :
    (a b : Entry) (l : List Entry) → AreUnique (a ∷ b ∷ l) → SameEntries (a ∷ b ∷ l) (b ∷ a ∷ l)
swap_same (n, x) (m, y) l u = (
  ground (arith, text_eq_sound n m, text_eq_refl m),
  λ k. ground (arith, text_eq_sound n k, text_eq_sound m k, text_eq_refl k),
)

pub perm_same : {es fs : List Entry} → Permᴰ es fs → AreUnique es → SameEntries es fs
perm_same Permᴰ.nil u = (tt, λ n. refl)
perm_same (Permᴰ.cons {a} {b} {l₁} {l₂} e p) u =
    let (v, same) = perm_same p u.1 in
    subst (λ c. SameEntries (a ∷ l₁) (c ∷ l₂)) e ((sym (same a.0) ∙ u.0, v), λ n. rw (same n))
perm_same (Permᴰ.swap {a} {b} {l = l} e f) u =
    subst₂ (λ a' b'. SameEntries (a ∷ b ∷ l) (a' ∷ b' ∷ l)) f e (swap_same a b l u)
perm_same (Permᴰ.trans p q) u =
    let (v, same) = perm_same p u in let (w, same') = perm_same q v in (w, λ n. same n ∙ same' n)

pub found_set : IsSet (Option Node)
found_set = hlevel ℕ_set

pub AreUnique-prop : (es : List Entry) → IsProp (AreUnique es)
AreUnique-prop [] = hlevel
AreUnique-prop ((n, x) ∷ es) = hlevel (AreUnique-prop es, found_set)
