-- ===== src/Joint/Storing.antt =====
-- A post from the quoted text of the user's program to the files on the server's disk.
use projeto_rc.Base.{
  ◌+◌, ◌<◌, ◌≡◌, refl, ◌∙◌, inl, inr, true, false, Option, none, some, [], ◌∷◌, ◌++◌, arith, Bytes,
  codes, length, ltb,
}
use projeto_rc.Base.Decimal.{print_padded}
use projeto_rc.Base.Decimal.Length.{print_padded-exact}
use projeto_rc.Base.Outcome.{done}
use projeto_rc.Disk.{FilePath, dir, file, Disk, lookup, put, Os}
use projeto_rc.Disk.Laws.{lookup-put, lookup-put_self}
use projeto_rc.Files.{directory_exists, list_subdirectories, create_directory, create_file}
use projeto_rc.Files.Allowed.{IsPermissive, mkdir_allowed, write_file_allowed}
use projeto_rc.Files.Laws.{IsTree, put-IsTree, child_none, cons_ne}
use projeto_rc.Server.Messages.File.{longer}
use projeto_rc.Sll.{sll_size}
use projeto_rc.Server.Paths.{group_path, msg_name}
use projeto_rc.Server.Reply.{Answer, tcp, uid_gid}
use projeto_rc.Server.Messages.{to_nul, attach, store_message}
use projeto_rc.Server.Dispatch.{parse_tcp_message}
use projeto_rc.User.Session.{Session, World, is_logged, is_group_selected}
use projeto_rc.User.Messages.{post_message, unquoted}
use projeto_rc.User.Invariant.{IsSession}
use projeto_rc.Joint.Posting.{behind_text, name_of, CanAttach, post_message-arrives}
use projeto_rc.Joint.Attach.{attach-post_file}

-- The number of the next message of a group.
abbrev pub next_mid : Os → FilePath → Disk → Bytes
next_mid os msgs_dir fs = print_padded 4 (sll_size (list_subdirectories os msgs_dir fs) + 1)

-- The disk with the directory of a message and its author and text.
abbrev pub with_text : FilePath → Bytes → Bytes → Disk → Disk
with_text msg_dir uid text fs =
    put (codes "text.txt" ∷ msg_dir) (file (to_nul text))
      (put (codes "author.txt" ∷ msg_dir) (file uid) (put msg_dir dir fs))

-- And with the file that is attached to it.
abbrev pub with_attached : FilePath → Option (Bytes × Bytes) → Disk → Disk
with_attached msg_dir none fs = fs
with_attached msg_dir (some (name, content)) fs =
    put (name ∷ codes "FILE" ∷ msg_dir) (file content) (put (codes "FILE" ∷ msg_dir) dir fs)

module _ (os : Os) (allowed : IsPermissive os) (id : Bytes) (msgs_dir : FilePath) (uid text : Bytes)
    (fs : Disk) (t : IsTree fs) (up : lookup fs msgs_dir ≡ some dir)
    (free : lookup fs (id ∷ msgs_dir) ≡ none) where
  abbrev msg_dir : FilePath
  msg_dir = id ∷ msgs_dir

  abbrev made : Disk
  made = put msg_dir dir fs

  abbrev authored : Disk
  authored = put (codes "author.txt" ∷ msg_dir) (file uid) made

  bare : (n : Bytes) → lookup fs (n ∷ msg_dir) ≡ none
  bare n = child_none msg_dir n t (rw free refl)

  made_bare : (n : Bytes) → lookup made (n ∷ msg_dir) ≡ none
  made_bare n = ground (arith, lookup-put fs msg_dir (n ∷ msg_dir) dir, bare n, longer n msg_dir)

  authored_dir : lookup authored msg_dir ≡ some dir
  authored_dir = ground (
    arith,
    lookup-put made (codes "author.txt" ∷ msg_dir) msg_dir (file uid),
    cons_ne (codes "author.txt") msg_dir,
    lookup-put_self fs msg_dir dir,
  )

  authored_text : lookup authored (codes "text.txt" ∷ msg_dir) ≡ none
  authored_text = ground (
    arith,
    lookup-put made (codes "author.txt" ∷ msg_dir) (codes "text.txt" ∷ msg_dir) (file uid),
    made_bare (codes "text.txt"),
  )

  with_text-IsTree : IsTree (with_text msg_dir uid text fs)
  with_text-IsTree =
      put-IsTree (codes "text.txt") msg_dir (file (to_nul text))
        (put-IsTree (codes "author.txt") msg_dir (file uid)
          (put-IsTree id msgs_dir dir t up (inl refl)) (lookup-put_self fs msg_dir dir)
          (inr (rw (made_bare (codes "author.txt")) refl)))
        authored_dir (inr (rw authored_text refl))

  abbrev stored : Disk
  stored = with_text msg_dir uid text fs

  stored_dir : lookup stored msg_dir ≡ some dir
  stored_dir = ground (
    arith,
    lookup-put authored (codes "text.txt" ∷ msg_dir) msg_dir (file (to_nul text)),
    cons_ne (codes "text.txt") msg_dir,
    authored_dir,
  )

  stored_file : lookup stored (codes "FILE" ∷ msg_dir) ≡ none
  stored_file = ground (
    arith,
    lookup-put authored (codes "text.txt" ∷ msg_dir) (codes "FILE" ∷ msg_dir) (file (to_nul text)),
    lookup-put made (codes "author.txt" ∷ msg_dir) (codes "FILE" ∷ msg_dir) (file uid),
    made_bare (codes "FILE"),
  )

  attached_lem :
      (w : World) (o : Option (Bytes × Bytes))
      → CanAttach w o
      → attach os msg_dir (behind_text o) stored ≡ done (with_attached msg_dir o stored, true)
  unfolding attach
  attached_lem w none h = refl
  attached_lem w (some (name, content)) (found, named, word, short, small) =
      attach-post_file os msg_dir name content stored allowed with_text-IsTree stored_dir
        stored_file named word short small

module _ (os : Os) (allowed : IsPermissive os) (uid text gid : Bytes) (fs : Disk) (t : IsTree fs)
    (up : lookup fs (msg_name ∷ group_path gid) ≡ some dir) where
  abbrev msgs : FilePath
  msgs = msg_name ∷ group_path gid

  abbrev next : Bytes
  next = next_mid os msgs fs

  store_message_lem :
      (w : World) (o : Option (Bytes × Bytes))
      → CanAttach w o
      → lookup fs (next ∷ msgs) ≡ none
      → ltb 4 (length next) ≡ false
      → store_message os uid gid text (behind_text o) fs
        ≡ done (record {
          disk = with_attached (next ∷ msgs) o (with_text (next ∷ msgs) uid text fs);
          sent = tcp (codes "RPT " ++ (next ++ codes "\n")) ∷ [];
          value = some (uid_gid uid gid);
        })
  unfolding store_message create_directory create_file
  store_message_lem w o h free room =
      rw
        (
          room,
          mkdir_allowed os allowed next msgs fs up free,
          write_file_allowed os allowed (codes "author.txt") (next ∷ msgs) uid
              (put (next ∷ msgs) dir fs) (lookup-put_self fs (next ∷ msgs) dir)
              (rw (made_bare os allowed next msgs uid text fs t up free (codes "author.txt")) refl),
          write_file_allowed os allowed (codes "text.txt") (next ∷ msgs) (to_nul text)
              (put (codes "author.txt" ∷ next ∷ msgs) (file uid) (put (next ∷ msgs) dir fs))
              (authored_dir os allowed next msgs uid text fs t up free)
              (rw (authored_text os allowed next msgs uid text fs t up free) refl),
          attached_lem os allowed next msgs uid text fs t up free w o h,
        )
        refl

-- Where the system refuses the server nothing and the disk is a tree, in a valid session that is
-- logged in and has selected a group whose directory and message directory the server has, with
-- fewer than 9999 visible directories in the latter and the number that is one more than theirs
-- free, a text shorter than 2^31 - 1 bytes between two quotes is taken out of its quotes, the
-- message with it, and with the file that is attached if there is one, fits its buffer and is
-- written, and the server's `parse_tcp_message` on that message comes to an end: it replies RPT
-- with that number, and the disk has changed by the directory of the message, author.txt with the
-- user's uid, text.txt with the text up to a NUL and, with an attached file, the directory FILE
-- with that file and its content, and by nothing else. The name of the file is a single word
-- shorter than 24 bytes and no path, the user's program can read it, and its content is shorter
-- than 2^31 - 1 bytes.
pub post_message-stores :
    (os : Os) (w : World) (s : Session) (text : Bytes) (o : Option (Bytes × Bytes)) (fs : Disk)
    → IsPermissive os
    → IsSession s
    → is_logged s ≡ true
    → is_group_selected s ≡ true
    → length text < 2_147_483_647
    → CanAttach w o
    → IsTree fs
    → lookup fs (group_path s.gid) ≡ some dir
    → lookup fs (msg_name ∷ group_path s.gid) ≡ some dir
    → sll_size (list_subdirectories os (msg_name ∷ group_path s.gid) fs) + 1 < 10000
    → lookup fs (next_mid os (msg_name ∷ group_path s.gid) fs ∷ msg_name ∷ group_path s.gid) ≡ none
    → (sized : Bytes × Bytes) × (msg : Bytes) × (a : Answer) × (unquoted
          (b'"' ∷ (text ++ b'"' ∷ []))
        ≡ some sized)
      × (post_message os w s sized (name_of o) ≡ done (some msg))
      × (parse_tcp_message os msg fs ≡ done a)
      × (a.sent
          ≡ tcp (codes "RPT " ++ (next_mid os (msg_name ∷ group_path s.gid) fs ++ codes "\n")) ∷ [])
      × (a.disk ≡ (
          let dir_of_message =
            next_mid os (msg_name ∷ group_path s.gid) fs ∷ msg_name ∷ group_path s.gid in
          with_attached dir_of_message o (with_text dir_of_message s.uid text fs)))
unfolding directory_exists
post_message-stores os w s text o fs allowed v on selected small h t group up few free =
    let msgs_dir : FilePath = msg_name ∷ group_path s.gid in
    let id : Bytes = next_mid os msgs_dir fs in
    let four : length id ≡ 4 = print_padded-exact 3 _ few in
    let (sized, msg, taken, sent, read) =
      post_message-arrives os w s v on selected text small o fs h (rw group refl) in
    (
      sized,
      msg,
      _,
      taken,
      sent,
      read
          ∙ store_message_lem os allowed s.uid text s.gid fs t up w o h free (ground (arith, four)),
      refl,
      refl,
    )
