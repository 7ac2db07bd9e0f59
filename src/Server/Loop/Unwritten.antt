-- ===== src/Server/Loop/Unwritten.antt =====
-- A message of src/server/commands.c whose directory is there and whose files are not yet.
use projeto_rc.Base.{◌≡◌, refl, sym, ap, ◌∙◌, inl, inr, none, some, ◌∷◌, codes, arith, Option-cases}
use projeto_rc.Base.Outcome.{done, stop, null_file, done_injective}
use projeto_rc.Disk.{FilePath, dir, Disk, lookup, Os}
use projeto_rc.Disk.Laws.{lookup-put}
use projeto_rc.Files.{create_directory}
use projeto_rc.Files.Laws.{IsTree, mkdir_lem, child_none}
use projeto_rc.Server.Paths.{group_path, msg_name}
use projeto_rc.Server.Reply.{open_read}
use projeto_rc.Server.Messages.{message_part}
use projeto_rc.Server.Loop.{Posting, numbered, made, Progress, make_directory, advance}

module _ (os : Os) (p : Posting) (fs fs1 : Disk) (t : IsTree fs)
    (e : create_directory os (msg_name ∷ group_path p.gid) p.id fs ≡ some fs1) where
  no_author : lookup fs1 (codes "author.txt" ∷ p.id ∷ msg_name ∷ group_path p.gid) ≡ none
  unfolding create_directory
  no_author =
      let path : FilePath = p.id ∷ msg_name ∷ group_path p.gid in
      let (same, free, _) = mkdir_lem os p.id (msg_name ∷ group_path p.gid) fs e in
      let bare : lookup fs (codes "author.txt" ∷ path) ≡ none =
        child_none path (codes "author.txt") t (rw free refl) in
      rw (same, lookup-put fs path (codes "author.txt" ∷ path) dir) (ground arith)

  unopened :
      open_read (codes "author.txt" ∷ p.id ∷ msg_name ∷ group_path p.gid) fs1 ≡ stop null_file
  unfolding open_read
  unopened = rw (no_author, open_read) refl

  stopped : message_part os (msg_name ∷ group_path p.gid) p.id fs1 ≡ stop null_file
  unfolding message_part
  stopped = rw unopened refl

-- On a disk that is a tree, right after the step of a `post` that makes the directory of its
-- message, the part of `retrieve` on this message stops at the NULL that `fopen` of the author
-- gives.
pub message_part-made :
    (os : Os) (p : Posting) (fs : Disk) (r : Progress)
    → IsTree fs
    → advance os (numbered p) fs ≡ done r
    → r.task ≡ some (made p)
    → message_part os (msg_name ∷ group_path p.gid) p.id r.disk ≡ stop null_file
unfolding advance make_directory
message_part-made os p fs r t e k =
    elim (Option-cases (create_directory os (msg_name ∷ group_path p.gid) p.id fs)) [
      | inl a ↦ absurd (
          let same = done_injective (rw (a, make_directory) at e) in
          let ended : none ≡ some (made p) = ap (λ (q : Progress). q.task) same ∙ k in ground arith)
      | inr (fs1, a) ↦
          let same = done_injective (rw (a, make_directory) at e) in
          ap (λ (q : Progress). message_part os (msg_name ∷ group_path p.gid) p.id q.disk)
            (sym same)
          ∙ stopped os p fs fs1 t a
    ]
