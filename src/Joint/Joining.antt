-- ===== src/Joint/Joining.antt =====
-- `subscribe` of the user's program, to a group that is there, from the prompt to the server's disk.
use mathlib.Core.List.{reverse}
use projeto_rc.Base.{
  ℕ, ◌≤◌, ◌≡◌, refl, sym, ◌∙◌, ap, Bool, true, false, some, List, [], ◌∷◌, ◌++◌, append_assoc,
  arith, Bytes, codes, nul, space, newline, text_eq, length, length-append, drop, if◌then◌else◌,
}
use projeto_rc.Base.Outcome.{Outcome, done, ◌>>=◌}
use projeto_rc.Disk.{FilePath, path_eq, file, Disk, lookup, Os}
use projeto_rc.Files.{directory_exists}
use projeto_rc.Files.Allowed.{IsPermissive}
use projeto_rc.Util.Word.{Cursor, start, buffer_of, get_word}
use projeto_rc.Util.Word.Laws.{get_word-word}
use projeto_rc.Server.Checks.{check_uid, check_gid, check_gname}
use projeto_rc.Server.Paths.{user_path, group_path}
use projeto_rc.Server.Reply.{Answer, Message, udp}
use projeto_rc.Server.Accounts.Spec.{HasAccounts}
use projeto_rc.Server.Groups
use projeto_rc.Server.Groups.{new_gid, overwrite_gid, subscribe}
use projeto_rc.Server.Groups.Join.{HasGroup, subscribe_reply, subscribe_to-Joins}
use projeto_rc.Server.Dispatch.{Server, buffer_size, datagram, parse_udp_message, handle}
use projeto_rc.Server.Dispatch.Words.{digits-IsWord, gname-IsWord}
use projeto_rc.Server.Dispatch.Requests.{wait_udp_message_lem}
use projeto_rc.User.Session.{
  Session, World, Turn, Line, success, error, told, response, expect, read_word, is_logged,
}
use projeto_rc.User.Accounts
use projeto_rc.User.Groups.{subscribe_to}
use projeto_rc.User.Invariant.{IsSession, logged_user}
use projeto_rc.User.Checks as UserChecks
use projeto_rc.Joint.{reply_of, served, exchange}
use projeto_rc.Joint.Checks.{check_uid-same, check_gid-same, check_gname-same}
use projeto_rc.Joint.Turns.{ask-answer, exchange-answered}

-- What `args` points to when a request has a uid, a gid and the name of a group.
abbrev membership : Bytes → Bytes → Bytes → Bytes → Bytes
membership uid gid gname rest = uid ++ space ∷ (gid ++ space ∷ (gname ++ newline ∷ rest))

abbrev pub join_message : Session → Bytes → Bytes → Bytes
join_message c gid gname = codes "GSR " ++ membership c.uid gid gname []

-- The line that `subscribe` prints, from whether the name is the group's.
abbrev pub joined_line : Bytes → Bytes → Bool → Line
joined_line gid gname true = success (codes "Subscribed to: [" ++ (gid ++ (codes "] " ++ gname)))
joined_line gid gname false = error (codes "Invalid GNAME: " ++ gname)

abbrev pub joined_turn : Session → Bytes → Bytes → Bool → Turn
joined_turn c gid gname same =
    told c (udp (join_message c gid gname)) (joined_line gid gname same ∷ [])

subscribe_to-answer :
    (w : World) (c : Session) (gid gname : Bytes) (same : Bool)
    → w.answer (join_message c gid gname) ≡ some (subscribe_reply same)
    → subscribe_to w gid gname c ≡ done (joined_turn c gid gname same)
unfolding subscribe_to response expect read_word get_word
subscribe_to-answer w c gid gname true h = ask-answer w c _ _ Accounts.buffer_size _ h
subscribe_to-answer w c gid gname false h = ask-answer w c _ _ Accounts.buffer_size _ h

-- The cursor behind a word.
abbrev behind_word : Bytes → Bytes → Bytes → Cursor
behind_word word behind rest = record {
  behind = nul ∷ (reverse word ++ behind);
  ahead = rest;
  ended = false;
}

-- What `subscribe` leaves in the buffer.
abbrev after_membership : Os → Bytes → Bytes → Bytes → Bytes → Bytes → Bytes → Cursor
after_membership os behind uid gid gname rest new =
    let after_uid : Cursor = behind_word uid behind (gid ++ space ∷ (gname ++ newline ∷ rest)) in
    let after_gid : Cursor = behind_word gid after_uid.behind (gname ++ newline ∷ rest) in
    overwrite_gid os after_uid after_gid (behind_word gname after_gid.behind rest) new

subscribe_words :
    (os : Os) (uid gid : Bytes) (z : ℕ) (gname rest behind : Bytes) (fs : Disk)
    → check_uid (some uid) ≡ true
    → check_gid (some gid) ≡ true
    → check_gname (some (z ∷ gname)) ≡ true
    → subscribe os
        (record { behind = behind; ahead = membership uid gid (z ∷ gname) rest; ended = false })
        fs
      ≡ (Groups.subscribe_to os uid gid (z ∷ gname) fs >>= λ r.
          done (r.0, after_membership os behind uid gid (z ∷ gname) rest r.1))
unfolding subscribe check_uid check_gid check_gname
subscribe_words os [] gid z gname rest behind fs u g n = absurd (ground arith)
subscribe_words os (x ∷ uid) [] z gname rest behind fs u g n = absurd (ground arith)
subscribe_words os (x ∷ uid) (y ∷ gid) z gname rest behind fs u g n =
    rw
      (
        get_word-word x uid space ((y ∷ gid) ++ space ∷ ((z ∷ gname) ++ newline ∷ rest)) behind
            (digits-IsWord (x ∷ uid) (ground arith)) refl,
        get_word-word y gid space ((z ∷ gname) ++ newline ∷ rest)
            (nul ∷ (reverse (x ∷ uid) ++ behind)) (digits-IsWord (y ∷ gid) (ground arith)) refl,
        get_word-word z gname newline rest
            (nul ∷ (reverse (y ∷ gid) ++ nul ∷ (reverse (x ∷ uid) ++ behind)))
            (gname-IsWord (z ∷ gname) (ground arith)) refl,
        u,
        g,
        n,
      )
      refl

abbrev join_request : Bytes → Bytes → Bytes → Bytes → Bytes
join_request uid gid gname rest = codes "GSR" ++ space ∷ membership uid gid gname rest

module _ (uid gid gname : Bytes) (u : check_uid (some uid) ≡ true) (g : check_gid (some gid) ≡ true)
    (n : check_gname (some gname) ≡ true) where
  join_request-short : length (join_request uid gid gname []) ≤ buffer_size
  unfolding check_uid check_gid check_gname
  join_request-short = ground (
    arith,
    length-append uid (space ∷ (gid ++ space ∷ (gname ++ newline ∷ []))),
    length-append gid (space ∷ (gname ++ newline ∷ [])),
    length-append gname (newline ∷ []),
  )

  join_request-append :
      (rest : Bytes) → join_request uid gid gname [] ++ rest ≡ join_request uid gid gname rest
  join_request-append rest =
      rw
        (
          append_assoc uid (space ∷ (gid ++ space ∷ (gname ++ newline ∷ []))) rest,
          append_assoc gid (space ∷ (gname ++ newline ∷ [])) rest,
          append_assoc gname (newline ∷ []) rest,
        )
        refl

-- The user's file is in the group if the name is the group's, and nothing else changed on the disk.
abbrev pub Enters : Bytes → Bytes → Bool → Disk → Disk → Type 0
Enters uid gid same fs fs' =
    ((q : FilePath)
      → lookup fs' q ≡ (
          if same
          then (if path_eq (uid ∷ group_path gid) q then some (file []) else lookup fs q)
          else lookup fs q))
    × HasAccounts fs'

-- A group that is there, and a user who asks for it with a name.
pub record Asks (uid gid name : Bytes) (fs : Disk) : Type 0 where
  pub group : HasGroup gid name fs
  pub user : directory_exists (user_path uid) fs ≡ true
  pub old : text_eq gid new_gid ≡ false

-- One round of the main loop, from what `subscribe` does behind its checks.
pub handle-subscribe :
    (os : Os) (uid gid : Bytes) (z : ℕ) (gname : Bytes) (s : Server) (a : Answer) (new text : Bytes)
    → check_uid (some uid) ≡ true
    → check_gid (some gid) ≡ true
    → check_gname (some (z ∷ gname)) ≡ true
    → Groups.subscribe_to os uid gid (z ∷ gname) s.disk ≡ done (a, new)
    → a.sent ≡ udp text ∷ []
    → (buffer : Bytes) × (handle os (datagram (join_request uid gid (z ∷ gname) [])) s
        ≡ done (record { disk = a.disk; buffer = buffer }, udp text ∷ []))
unfolding handle parse_udp_message
handle-subscribe os uid gid z gname s a new text u g n d sent =
    let msg : Bytes = join_request uid gid (z ∷ gname) [] in
    let rest : Bytes = drop (length msg) s.buffer in
    let behind : Bytes = nul ∷ reverse (codes "GSR") in
    let after : Bytes → Cursor = after_membership os behind uid gid (z ∷ gname) rest in
    let next : Answer × Cursor → Outcome (Server × List Message) =
      λ r. done (record { disk = r.0.disk; buffer = buffer_of r.1 }, r.0.sent) in
    (
      buffer_of (after new),
      ap (λ t. parse_udp_message os (start t) s.disk >>= next)
            (wait_udp_message_lem msg s.buffer (join_request-short uid gid (z ∷ gname) u g n)
              ∙ join_request-append uid gid (z ∷ gname) u g n rest)
          ∙ (ap (λ r. r >>= next)
                (subscribe_words os uid gid z gname rest behind s.disk u g n
                  ∙ ap (λ o. o >>= λ r. done (r.0, after r.1)) d)
              ∙ ap (λ m. done (record { disk = a.disk; buffer = buffer_of (after new) }, m)) sent),
    )

-- The command and the server come to an end: the line tells whether the name is the group's, and the
-- user's file is in the group if it is.
abbrev pub Enrols : Bytes → Bytes → Bool → Session → Server → Outcome (Turn × Server) → Type 0
Enrols gid gname same c s o =
    (s' : Server) × (o ≡ done (joined_turn c gid gname same, s'))
    × Enters c.uid gid same s.disk s'.disk

-- Where the system refuses no call, the accounts are in order, the session is well-formed with a
-- user logged in whose directory the server has, the gid is valid and not 00, the group exists
-- there under a name that is valid and not empty, and the name given is one too, `subscribe` of
-- the user's program against the server comes to an end with one datagram sent and one line
-- printed: the success, and an empty file of the user in the group, where the name given is the
-- group's, and the error of an invalid name otherwise; the session is kept, nothing else on the
-- disk changes, and the accounts stay in order.
pub subscribe_to-Enrols :
    (os : Os) (w : World) (c : Session) (s : Server) (gid name : Bytes) (z : ℕ) (gname : Bytes)
    → IsPermissive os
    → HasAccounts s.disk
    → IsSession c
    → is_logged c ≡ true
    → UserChecks.check_gid (some gid) ≡ true
    → UserChecks.check_gname (some (z ∷ gname)) ≡ true
    → Asks c.uid gid name s.disk
    → Enrols gid
        (z ∷ gname)
        (text_eq name (z ∷ gname))
        c
        s
        (exchange os w (λ w'. subscribe_to w' gid (z ∷ gname)) c s)
subscribe_to-Enrols os w c s gid name z gname allowed ok v on g n asks =
    let u : check_uid (some c.uid) ≡ true =
      sym (check_uid-same (some c.uid)) ∙ (logged_user c v on).0 in
    let (a, d, sent, joined, accounts) =
      subscribe_to-Joins os allowed c.uid gid (z ∷ gname) name s.disk ok asks.group u asks.user
        asks.old in
    let (buffer, e) =
      handle-subscribe os c.uid gid z gname s a gid _ u (sym (check_gid-same (some gid)) ∙ g)
        (sym (check_gname-same (some (z ∷ gname))) ∙ n) d sent in
    let s' : Server = record { disk = a.disk; buffer = buffer } in
    let turn : Turn = joined_turn c gid (z ∷ gname) (text_eq name (z ∷ gname)) in
    let ran : subscribe_to (served os s w) gid (z ∷ gname) c ≡ done turn =
      subscribe_to-answer (served os s w) c gid (z ∷ gname) _ (ap reply_of e) in
    (
      s',
      exchange-answered os w (λ w'. subscribe_to w' gid (z ∷ gname)) c s s' turn _ _ ran refl e,
      (joined, accounts),
    )
