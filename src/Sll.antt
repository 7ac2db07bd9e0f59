-- ===== src/Sll.antt =====
-- The linked list of strings of src/server/strlinkedlist.c. A node keeps the size of the list that
-- starts at it. `sll_destroy` frees memory and leaves NULL: it has no model.
pub mod Laws
pub mod Order
use projeto_rc.Base.{ℕ, ◌+◌, Bool, List, [], ◌∷◌, Bytes, if◌then◌else◌}

pub data Sll : Type 0 where
  null : Sll
  node : Bytes → ℕ → Sll → Sll

abbrev pub sll_create : Sll
sll_create = null

unfoldable pub sll_size : Sll → ℕ
sll_size null = 0
sll_size (node str size next) = size

unfoldable pub sll_push : Sll → Bytes → Sll
sll_push null str = node str 1 null
sll_push (node s size next) str = node str (size + 1) (node s size next)

unfoldable pub sll_append : Sll → Bytes → Sll
sll_append null str = node str 1 null
sll_append (node s size null) str = node s (size + 1) (node str 1 null)
sll_append (node s size next) str = node s (size + 1) (sll_append next str)

-- `gt a b` is the test `ord(a, b) > 0`.
unfoldable pub sll_append_ord : (Bytes → Bytes → Bool) → Sll → Bytes → Sll
unfolding sll_push
sll_append_ord gt null str = node str 1 null
sll_append_ord gt (node s size next) str =
    if gt str s
    then node s (size + 1) (sll_append_ord gt next str)
    else sll_push (node s size next) str

-- What `FOR_ITEM_IN_LIST` goes through.
unfoldable pub items : Sll → List Bytes
items null = []
items (node s size next) = s ∷ items next
