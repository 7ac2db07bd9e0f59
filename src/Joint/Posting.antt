-- ===== src/Joint/Posting.antt =====
-- What `post` of the user's program sends, as `post` of the server reads it.
use projeto_rc.Base.{
  ℕ, inl, inr, ◌≤◌, ◌<◌, ◌+◌, ltb, false, newline, ◌≡◌, refl, sym, ◌∙◌, ap, true, Option, none,
  some, [], ◌∷◌, ◌++◌, append_assoc, arith, Bytes, codes, space, is_digit, length, length-append,
  take, all,
}
use projeto_rc.Base.Decimal.{print}
use projeto_rc.Base.Decimal.RoundTrip.{print-digits, value-print}
use projeto_rc.Base.Decimal.Length.{print-length, print-some}
use projeto_rc.Base.Outcome.{done}
use projeto_rc.Disk.{Disk, Os}
use projeto_rc.Files.{directory_exists}
use projeto_rc.Util.Stream.{read_fd}
use projeto_rc.Util.Stream.Laws.{take-append, get_word_fd-word, read_fd-append}
use projeto_rc.Server.Checks.{atoi, check_uid, check_gid}
use projeto_rc.Server.Paths.{group_path}
use projeto_rc.Server.Messages.{size_of, to_nul, store_message, post}
use projeto_rc.Server.Dispatch.{parse_tcp_message}
use projeto_rc.Server.Dispatch.Words.{digits-IsWord}
use projeto_rc.User.Session.{Session, World, is_logged, is_group_selected}
use projeto_rc.Util.Line.{read_file}
use projeto_rc.Util.Word.Laws.{IsWord}
use projeto_rc.Server.Messages.Paths.{IsFileName}
use projeto_rc.User.Messages.{post_header, post_file, post_message, last_is_quote, unquoted}
use projeto_rc.User.Invariant.{IsSession, logged_user}
use projeto_rc.Joint.Checks.{check_uid-same, check_gid-same}

size_of-digits :
    (s : Bytes)
    → all is_digit s ≡ true
    → 1 ≤ length s
    → atoi s < 2_147_483_647
    → size_of s ≡ done (atoi s)
unfolding size_of
size_of-digits [] d l h = absurd (omega arith)
size_of-digits (c ∷ s) d l h = ground arith

pub size_of-print : (n : ℕ) → n < 2_147_483_647 → size_of (print n) ≡ done n
size_of-print n h =
    let value : atoi (print n) ≡ n = value-print n in
    size_of-digits (print n) (print-digits n) (print-some n) (omega (arith, value)) ∙ ap done value

to_nul-digits : (s : Bytes) → all is_digit s ≡ true → to_nul s ≡ s
to_nul-digits [] d = refl
to_nul-digits (c ∷ s) d = ground (arith, to_nul-digits s)

uid_shape :
    (uid : Bytes) → check_uid (some uid) ≡ true → (length uid ≡ 5) × (all is_digit uid ≡ true)
unfolding check_uid
uid_shape uid h = (ground arith, ground arith)

gid_shape :
    (gid : Bytes) → check_gid (some gid) ≡ true → (length gid ≡ 2) × (all is_digit gid ≡ true)
unfolding check_gid
gid_shape gid h = (ground arith, ground arith)

-- The bytes of a request, with what follows the text.
abbrev request : Bytes → Bytes → Bytes → Bytes → Bytes → Bytes
request uid gid size text tail =
    codes "PST " ++ (uid ++ space ∷ (gid ++ space ∷ (size ++ space ∷ (text ++ tail))))

header_request :
    (s : Session) (size text tail : Bytes)
    → post_header s size text ++ tail ≡ request s.uid s.gid size text tail
header_request s size text tail = simp append_assoc

module _ (os : Os) where
  read_exact : (n : ℕ) (s t : Bytes) → length s ≡ n → read_fd os n (s ++ t) ≡ done (s, t)
  read_exact n s t h = rw (sym h) (read_fd-append os s t)

  post-request :
      (uid gid text tail : Bytes) (fs : Disk)
      → check_uid (some uid) ≡ true
      → check_gid (some gid) ≡ true
      → length text < 2_147_483_647
      → directory_exists (group_path gid) fs ≡ true
      → post os (uid ++ space ∷ (gid ++ space ∷ (print (length text) ++ space ∷ (text ++ tail)))) fs
        ≡ store_message os uid gid text tail fs
  unfolding post
  post-request uid gid text tail fs u g small there =
      let short : length (print (length text)) ≤ 10 = print-length 9 (length text) (omega arith) in
      rw
        (
          read_exact 5 uid
              (space ∷ (gid ++ space ∷ (print (length text) ++ space ∷ (text ++ tail))))
              (uid_shape uid u).0,
          read_exact 1 (codes " ") (gid ++ space ∷ (print (length text) ++ space ∷ (text ++ tail)))
              refl,
          read_exact 2 gid (space ∷ (print (length text) ++ space ∷ (text ++ tail)))
              (gid_shape gid g).0,
          read_exact 1 (codes " ") (print (length text) ++ space ∷ (text ++ tail)) refl,
          to_nul-digits uid (uid_shape uid u).1,
          to_nul-digits gid (gid_shape gid g).1,
          u,
          g,
          get_word_fd-word 240 (print (length text)) space (text ++ tail)
              (digits-IsWord _ (print-digits (length text))) refl (omega arith),
          size_of-print (length text) small,
          read_fd-append os text tail,
          there,
        )
        refl

  parse_tcp_message-request :
      (uid gid text tail : Bytes) (fs : Disk)
      → check_uid (some uid) ≡ true
      → check_gid (some gid) ≡ true
      → length text < 2_147_483_647
      → directory_exists (group_path gid) fs ≡ true
      → parse_tcp_message os (request uid gid (print (length text)) text tail) fs
        ≡ store_message os uid gid text tail fs
  unfolding parse_tcp_message
  parse_tcp_message-request uid gid text tail fs u g small there =
      let args : Bytes =
        uid ++ space ∷ (gid ++ space ∷ (print (length text) ++ space ∷ (text ++ tail))) in
      rw (read_fd-append os (codes "PST") (space ∷ args), read_fd-append os (codes " ") args)
        (post-request uid gid text tail fs u g small there)

last_is_quote-end : (d : ℕ) (text : Bytes) → last_is_quote d (text ++ b'"' ∷ []) ≡ true
last_is_quote-end d [] = refl
last_is_quote-end d (c ∷ text) = last_is_quote-end c text

-- The text between two quotes, and its size.
unquoted-quotes :
    (text : Bytes) → unquoted (b'"' ∷ (text ++ b'"' ∷ [])) ≡ some (print (length text), text)
unfolding unquoted
unquoted-quotes [] = refl
unquoted-quotes (c ∷ text) =
    let len : length (text ++ b'"' ∷ []) ≡ length (c ∷ text) =
      omega (arith, length-append text (b'"' ∷ [])) in
    let between : take (length (text ++ b'"' ∷ [])) (c ∷ (text ++ b'"' ∷ [])) ≡ c ∷ text =
      ap (λ n. take n (c ∷ (text ++ b'"' ∷ []))) len ∙ take-append (c ∷ text) (b'"' ∷ []) in
    rw (last_is_quote-end c text) (λ i. some (print (len i), between i))

post_file-length :
    (name content : Bytes)
    → length content < 2_147_483_647
    → length (post_file name content) ≤ 14 + length name + length content
post_file-length name content small = omega (
  arith,
  length-append name (codes " " ++ (print (length content) ++ (codes " " ++ read_file content))),
  length-append (print (length content)) (codes " " ++ read_file content),
  length-append content (newline ∷ []),
  print-length 9 (length content) (omega arith),
)

-- What a message has behind its text: a newline, or the file that is attached to it.
abbrev pub behind_text : Option (Bytes × Bytes) → Bytes
behind_text none = codes "\n"
behind_text (some (name, content)) = post_file name content

abbrev pub name_of : Option (Bytes × Bytes) → Option Bytes
name_of none = none
name_of (some (name, content)) = some name

-- The file can be read by the user's program and kept by the server.
abbrev pub CanAttach : World → Option (Bytes × Bytes) → Type 0
CanAttach w none = Unit
CanAttach w (some (name, content)) =
    (w.readable name ≡ some content)
    × IsFileName name
    × IsWord name
    × (length name < 24)
    × (length content < 2_147_483_647)

module _ (os : Os) (w : World) (s : Session) (v : IsSession s) (on : is_logged s ≡ true)
    (selected : is_group_selected s ≡ true) where
  selected_gid : check_gid (some s.gid) ≡ true
  unfolding is_group_selected
  selected_gid = elim v.group [
    | inl e ↦ absurd (ground arith)
    | inr valid ↦ sym (check_gid-same (some s.gid)) ∙ valid
  ]

  own_uid : check_uid (some s.uid) ≡ true
  own_uid = sym (check_uid-same (some s.uid)) ∙ (logged_user s v on).0

  module _ (text : Bytes) (small : length text < 2_147_483_647) where
    abbrev header : Bytes
    header = post_header s (print (length text)) text

    header-length : length header ≤ 24 + length text
    header-length = omega (
      arith,
      (uid_shape s.uid own_uid).0,
      (gid_shape s.gid selected_gid).0,
      length-append s.uid
          (codes " " ++ (s.gid ++ (codes " " ++ (print (length text) ++ (codes " " ++ text))))),
      length-append s.gid (codes " " ++ (print (length text) ++ (codes " " ++ text))),
      length-append (print (length text)) (codes " " ++ text),
      print-length 9 (length text) (omega arith),
    )

    written :
        (o : Option (Bytes × Bytes))
        → CanAttach w o
        → post_message os w s (print (length text), text) (name_of o)
          ≡ done (some (header ++ behind_text o))
    unfolding post_message
    written none h =
        let fits : ltb (length text + 127) (length (header ++ codes "\n")) ≡ false =
          ground (arith, length-append header (codes "\n"), header-length) in
        rw fits refl
    written (some (name, content)) (found, h, word, short, few) =
        let fits : ltb (length text + 128 + length content)
              (length (header ++ post_file name content))
            ≡ false =
          ground (
            arith,
            length-append header (post_file name content),
            post_file-length name content few,
            header-length,
          ) in
        rw (found, fits) refl

    -- In a valid session that is logged in and has selected a group whose directory the server
    -- has, what `post` of the user's program writes for a quoted text is read by the server's
    -- `parse_tcp_message` as this text, for the session's user and group, with what stands behind
    -- it.
    pub post_message-arrives :
        (o : Option (Bytes × Bytes)) (fs : Disk)
        → CanAttach w o
        → directory_exists (group_path s.gid) fs ≡ true
        → (sized : Bytes × Bytes) × (msg : Bytes) × (unquoted (b'"' ∷ (text ++ b'"' ∷ []))
            ≡ some sized)
          × (post_message os w s sized (name_of o) ≡ done (some msg))
          × (parse_tcp_message os msg fs ≡ store_message os s.uid s.gid text (behind_text o) fs)
    post_message-arrives o fs h there = (
      (print (length text), text),
      header ++ behind_text o,
      unquoted-quotes text,
      written o h,
      ap (λ m. parse_tcp_message os m fs)
            (header_request s (print (length text)) text (behind_text o))
          ∙ parse_tcp_message-request os s.uid s.gid text (behind_text o) fs own_uid selected_gid
              small there,
    )
