-- ===== src/Sll/Order.antt =====
-- The order of the list of src/server/strlinkedlist.c under `sll_append_ord`.
use projeto_rc.Base.{
  ℕ, ◌≡◌, refl, true, false, List, [], ◌∷◌, arith, Bytes, text_gt, Bool-cases, inl, inr,
}
use projeto_rc.Sll.{Sll, null, node, sll_append_ord, items}

-- No text is greater than the one behind it.
abbrev pub IsSorted : List Bytes → Type 0
IsSorted [] = Unit
IsSorted (a ∷ []) = Unit
IsSorted (a ∷ b ∷ l) = (text_gt a b ≡ false) × IsSorted (b ∷ l)

pub text_gt-asymm : (a b : Bytes) → text_gt a b ≡ true → text_gt b a ≡ false
text_gt-asymm [] b h = ground arith
text_gt-asymm (x ∷ a) [] h = refl
text_gt-asymm (x ∷ a) (y ∷ b) h = ground (arith, text_gt-asymm a b)

IsSorted-cons :
    (s : Bytes) (n : ℕ) (l : Sll) (t : Bytes)
    → text_gt t s ≡ true
    → IsSorted (s ∷ items l)
    → IsSorted (items (sll_append_ord text_gt l t))
    → IsSorted (s ∷ items (sll_append_ord text_gt l t))
unfolding sll_append_ord items
IsSorted-cons s n null t e h k = (text_gt-asymm t s e, tt)
IsSorted-cons s n (node u m l) t e h k = elim (Bool-cases (text_gt t u)) [
  | inl g ↦ rw g (h.0, rw g at k)
  | inr g ↦ rw g (text_gt-asymm t s e, rw g at k)
]

-- `sll_append_ord` with `strcmp` keeps a sorted list sorted.
pub sll_append_ord-IsSorted :
    (l : Sll) (s : Bytes) → IsSorted (items l) → IsSorted (items (sll_append_ord text_gt l s))
unfolding sll_append_ord items
sll_append_ord-IsSorted null s h = tt
sll_append_ord-IsSorted (node t n null) s h = elim (Bool-cases (text_gt s t)) [
  | inl e ↦ rw e (text_gt-asymm s t e, tt)
  | inr e ↦ rw e (e, tt)
]
sll_append_ord-IsSorted (node t n (node u m l)) s h = elim (Bool-cases (text_gt s t)) [
  | inl e ↦ rw e (IsSorted-cons t n (node u m l) s e h (sll_append_ord-IsSorted (node u m l) s h.1))
  | inr e ↦ rw e (e, h)
]
