-- ===== src/Files/Listing.antt =====
-- The lists of a directory of src/server/file_management.c against what readdir gives.
use mathlib.Core.List.{Perm, append-nil}
use mathlib.Core.List.Perm
use projeto_rc.Base.{
  ◌+◌, ◌≡◌, refl, sym, List, [], ◌∷◌, ◌++◌, arith, Bytes, text_gt, if◌then◌else◌, Bool-cases, inl,
  inr, append_assoc, length,
}
use projeto_rc.Disk.{FilePath, dir, file, Disk, Entry, Os, readdir}
use projeto_rc.Files.{
  is_hidden, subdirectories_ord, list_subdirectories_ord, subdirectories, list_subdirectories,
  files, list_files,
}
use projeto_rc.Sll.{
  Sll, null, node, sll_create, sll_size, sll_push, sll_append, sll_append_ord, items,
}
use projeto_rc.Sll.Laws.{
  IsSized, items-sll_append, sll_append_ord-IsSized, items-sll_append_ord-perm,
}
use projeto_rc.Sll.Order.{IsSorted, sll_append_ord-IsSorted}

-- The names of the directories among the entries that do not start with a dot.
abbrev pub visible : List Entry → List Bytes
visible [] = []
visible ((name, file b) ∷ es) = visible es
visible ((name, dir) ∷ es) = let rest = visible es in if is_hidden name then rest else name ∷ rest

-- The names of the entries that are not directories.
abbrev pub plain_names : List Entry → List Bytes
plain_names [] = []
plain_names ((name, dir) ∷ es) = plain_names es
plain_names ((name, file b) ∷ es) = name ∷ plain_names es

-- A list that is sorted, holds its sizes, and has the items in some order.
abbrev pub IsListing : List Bytes → Sll → Type 0
IsListing names l = IsSorted (items l) × IsSized l × Perm (items l) names

perm_middle : (a : Bytes) (xs ys : List Bytes) → Perm (xs ++ a ∷ ys) (a ∷ (xs ++ ys))
perm_middle a [] ys = Perm.refl _
perm_middle a (x ∷ xs) ys =
    Perm.trans (Perm.cons x (perm_middle a xs ys)) (Perm.swap a x (xs ++ ys))

module _ (os : Os) where
  subdirectories_ord-IsListing :
      (es : List Entry) (l : Sll)
      → IsSorted (items l)
      → IsSized l
      → IsSorted (items (subdirectories_ord os es l))
        × IsSized (subdirectories_ord os es l)
        × Perm (items (subdirectories_ord os es l)) (visible es ++ items l)
  unfolding subdirectories_ord
  subdirectories_ord-IsListing [] l h k = (h, k, Perm.refl _)
  subdirectories_ord-IsListing ((n, file b) ∷ es) l h k = elim (Bool-cases (is_hidden n)) [
    | inl e ↦ rw e (subdirectories_ord-IsListing es l h k)
    | inr e ↦ rw e (subdirectories_ord-IsListing es l h k)
  ]
  subdirectories_ord-IsListing ((n, dir) ∷ es) l h k = elim (Bool-cases (is_hidden n)) [
    | inl e ↦ rw e (subdirectories_ord-IsListing es l h k)
    | inr e ↦
        let (a, b, c) =
          subdirectories_ord-IsListing es (sll_append_ord text_gt l n)
            (sll_append_ord-IsSorted l n h) (sll_append_ord-IsSized text_gt l n k) in
        rw e (
          a,
          b,
          Perm.trans c (
              Perm.trans (Perm.append_left (visible es) (items-sll_append_ord-perm text_gt l n))
                (perm_middle n (visible es) (items l))),
        )
  ]

  files-items : (es : List Entry) (l : Sll) → items (files os es l) ≡ items l ++ plain_names es
  unfolding files
  files-items [] l = sym (append-nil (items l))
  files-items ((n, dir) ∷ es) l = files-items es l
  files-items ((n, file b) ∷ es) l =
      rw (files-items es (sll_append l n), items-sll_append l n, append_assoc)

  -- `list_subdirectories_ord` returns, sorted and with the sizes in its nodes, exactly the
  -- directories that readdir gives whose names do not start with a dot.
  pub list_subdirectories_ord-IsListing :
      (path : FilePath) (fs : Disk)
      → IsListing (visible (readdir os path fs)) (list_subdirectories_ord os path fs)
  unfolding list_subdirectories_ord items
  list_subdirectories_ord-IsListing path fs =
      let (a, b, c) = subdirectories_ord-IsListing (readdir os path fs) sll_create tt tt in
      (a, b, rw (sym (append-nil (visible (readdir os path fs)))) c)

  sll_size-sll_push : (l : Sll) (s : Bytes) → sll_size (sll_push l s) ≡ sll_size l + 1
  unfolding sll_push sll_size
  sll_size-sll_push null s = omega arith
  sll_size-sll_push (node t n l) s = refl

  sll_size-subdirectories :
      (es : List Entry) (l : Sll)
      → sll_size (subdirectories os es l) ≡ sll_size l + length (visible es)
  unfolding subdirectories
  sll_size-subdirectories [] l = omega arith
  sll_size-subdirectories ((n, file b) ∷ es) l = elim (Bool-cases (is_hidden n)) [
    | inl e ↦ rw e (sll_size-subdirectories es l)
    | inr e ↦ rw e (sll_size-subdirectories es l)
  ]
  sll_size-subdirectories ((n, dir) ∷ es) l = elim (Bool-cases (is_hidden n)) [
    | inl e ↦ rw e (sll_size-subdirectories es l)
    | inr e ↦ rw e (omega (arith, sll_size-subdirectories es (sll_push l n), sll_size-sll_push l n))
  ]

  -- The size of the list that `list_subdirectories` returns, which numbers groups and messages,
  -- is the number of directories that readdir gives whose names do not start with a dot.
  pub sll_size-list_subdirectories :
      (path : FilePath) (fs : Disk)
      → sll_size (list_subdirectories os path fs) ≡ length (visible (readdir os path fs))
  unfolding list_subdirectories sll_size
  sll_size-list_subdirectories path fs =
      omega (arith, sll_size-subdirectories (readdir os path fs) sll_create)

  -- `list_files` returns the names of the entries that are not directories, in the order of
  -- readdir.
  pub items-list_files :
      (path : FilePath) (fs : Disk)
      → items (list_files os path fs) ≡ plain_names (readdir os path fs)
  unfolding list_files items
  items-list_files path fs = files-items (readdir os path fs) sll_create
