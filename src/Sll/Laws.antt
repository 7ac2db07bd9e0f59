-- ===== src/Sll/Laws.antt =====
-- The operations of src/server/strlinkedlist.c against lists: contents and kept sizes.
use mathlib.Core.List.{Perm}
use mathlib.Core.List.Perm
use projeto_rc.Base.{
  ◌+◌, ◌≡◌, refl, Bool, [], ◌∷◌, ◌++◌, arith, Bytes, length, Bool-cases, inl, inr, ap,
}
use projeto_rc.Sll.{Sll, null, node, sll_size, sll_push, sll_append, sll_append_ord, items}

-- Every node holds the number of nodes from it on.
abbrev pub IsSized : Sll → Type 0
IsSized null = Unit
IsSized (node s size next) = (size ≡ sll_size next + 1) × IsSized next

pub items-sll_push : (l : Sll) (s : Bytes) → items (sll_push l s) ≡ s ∷ items l
unfolding items sll_push
items-sll_push null s = refl
items-sll_push (node t n l) s = refl

pub items-sll_append : (l : Sll) (s : Bytes) → items (sll_append l s) ≡ items l ++ s ∷ []
unfolding items sll_append
items-sll_append null s = refl
items-sll_append (node t n null) s = refl
items-sll_append (node t n (node u m l)) s = ap (λ r. t ∷ r) (items-sll_append (node u m l) s)

pub sll_push-IsSized : (l : Sll) (s : Bytes) → IsSized l → IsSized (sll_push l s)
unfolding sll_push sll_size
sll_push-IsSized null s h = omega arith
sll_push-IsSized (node t n l) s h = (refl, h)

pub sll_size-sll_append : (l : Sll) (s : Bytes) → sll_size (sll_append l s) ≡ sll_size l + 1
unfolding sll_append sll_size
sll_size-sll_append null s = omega arith
sll_size-sll_append (node t n null) s = refl
sll_size-sll_append (node t n (node u m l)) s = refl

pub sll_append-IsSized : (l : Sll) (s : Bytes) → IsSized l → IsSized (sll_append l s)
unfolding sll_append sll_size
sll_append-IsSized null s h = omega arith
sll_append-IsSized (node t n null) s h = omega arith
sll_append-IsSized (node t n (node u m l)) s h =
    (omega (arith, sll_size-sll_append (node u m l) s), sll_append-IsSized (node u m l) s h.1)

-- The cached size of a well-sized list is the length of what it holds.
pub sll_size-items : (l : Sll) → IsSized l → sll_size l ≡ length (items l)
unfolding sll_size items
sll_size-items null h = refl
sll_size-items (node t n l) h = omega (arith, sll_size-items l h.1)

module _ (gt : Bytes → Bytes → Bool) where
  pub sll_size-sll_append_ord :
      (l : Sll) (s : Bytes) → sll_size (sll_append_ord gt l s) ≡ sll_size l + 1
  unfolding sll_append_ord sll_size
  sll_size-sll_append_ord null s = omega arith
  sll_size-sll_append_ord (node t n l) s = ground arith

  -- Where each node of a list holds the length of the list from it on, `sll_append_ord` keeps it
  -- so.
  pub sll_append_ord-IsSized : (l : Sll) (s : Bytes) → IsSized l → IsSized (sll_append_ord gt l s)
  unfolding sll_append_ord sll_size
  sll_append_ord-IsSized null s h = omega arith
  sll_append_ord-IsSized (node t n l) s h = elim (Bool-cases (gt s t)) [
    | inl e ↦ rw e (omega (arith, sll_size-sll_append_ord l s), sll_append_ord-IsSized l s h.1)
    | inr e ↦ rw e (refl, h)
  ]

  -- Whatever the order, `sll_append_ord` adds its text to the list's items and loses, repeats or
  -- adds no other.
  pub items-sll_append_ord-perm :
      (l : Sll) (s : Bytes) → Perm (items (sll_append_ord gt l s)) (s ∷ items l)
  unfolding sll_append_ord items
  items-sll_append_ord-perm null s = Perm.refl _
  items-sll_append_ord-perm (node t n l) s = elim (Bool-cases (gt s t)) [
    | inl e ↦
        rw e (Perm.trans (Perm.cons t (items-sll_append_ord-perm l s)) (Perm.swap s t (items l)))
    | inr e ↦ rw e (Perm.refl _)
  ]
