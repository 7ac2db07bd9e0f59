-- ===== src/Joint/Leaving.antt =====
-- `unsubscribe` of the user's program from the prompt to the server's disk.
use mathlib.Core.List.{reverse}
use projeto_rc.Base.{
  ◌≡◌, refl, sym, ◌∙◌, ap, Bool, true, false, none, some, List, [], ◌∷◌, ◌++◌, append_assoc, arith,
  Bytes, codes, nul, space, newline, length, length-append, drop, if◌then◌else◌,
}
use projeto_rc.Base.Outcome.{Outcome, done, ◌>>=◌}
use projeto_rc.Disk.{FilePath, path_eq, Disk, lookup, Os}
use projeto_rc.Files.{directory_exists}
use projeto_rc.Files.Allowed.{IsPermissive}
use projeto_rc.Util.Word.{Cursor, start, buffer_of, get_word}
use projeto_rc.Util.Word.Laws.{get_word-word}
use projeto_rc.Server.Checks.{check_uid, check_gid}
use projeto_rc.Server.Paths.{user_path, group_path}
use projeto_rc.Server.Reply.{Answer, Message, udp}
use projeto_rc.Server.Accounts.Spec.{HasAccounts}
use projeto_rc.Server.Groups
use projeto_rc.Server.Groups.{unsubscribe}
use projeto_rc.Server.Groups.Leave.{unsubscribe_reply, unsubscribe_from-Leaves}
use projeto_rc.Server.Dispatch.{Server, datagram, wait_udp_message, parse_udp_message, handle}
use projeto_rc.Server.Dispatch.Words.{digits-IsWord, after_credentials, request}
use projeto_rc.Server.Dispatch.Requests.{wait_udp_message_lem}
use projeto_rc.User.Session.{
  Session, World, Turn, Line, success, error, told, response, expect, read_word, is_logged,
}
use projeto_rc.User.Accounts.{buffer_size}
use projeto_rc.User.Groups.{unsubscribe_from}
use projeto_rc.User.Invariant.{IsSession, logged_user}
use projeto_rc.Joint.{reply_of, served, exchange}
use projeto_rc.User.Checks as UserChecks
use projeto_rc.Joint.Checks.{check_uid-same, check_gid-same}
use projeto_rc.Joint.Turns.{ask-answer, exchange-answered}

-- The line that `unsubscribe` prints, from whether the user and the group exist.
abbrev pub left_line : Bytes → Bool → Bool → Line
left_line gid false g = error (codes "Invalid UID")
left_line gid true false = error (codes "Invalid GID: " ++ gid)
left_line gid true true = success (codes "You are no longer subscribed to group " ++ gid)

abbrev pub leave_message : Session → Bytes → Bytes
leave_message c gid = codes "GUR " ++ (c.uid ++ (codes " " ++ (gid ++ codes "\n")))

unsubscribe_from-answer :
    (w : World) (c : Session) (gid : Bytes) (u g : Bool)
    → w.answer (leave_message c gid) ≡ some (unsubscribe_reply u g)
    → unsubscribe_from w gid c ≡ done (told c (udp (leave_message c gid)) (left_line gid u g ∷ []))
unfolding unsubscribe_from response expect read_word get_word
unsubscribe_from-answer w c gid false g h = ask-answer w c _ _ buffer_size _ h
unsubscribe_from-answer w c gid true false h = ask-answer w c _ _ buffer_size _ h
unsubscribe_from-answer w c gid true true h = ask-answer w c _ _ buffer_size _ h

unsubscribe_words :
    (os : Os) (uid gid rest behind : Bytes) (fs : Disk)
    → check_uid (some uid) ≡ true
    → check_gid (some gid) ≡ true
    → unsubscribe os
        (record { behind = behind; ahead = uid ++ space ∷ (gid ++ newline ∷ rest); ended = false })
        fs
      ≡ (Groups.unsubscribe_from os uid gid fs >>= λ a.
          done (a, after_credentials behind uid gid rest))
unfolding unsubscribe check_uid check_gid
unsubscribe_words os [] gid rest behind fs u g = absurd (ground arith)
unsubscribe_words os (x ∷ uid) [] rest behind fs u g = absurd (ground arith)
unsubscribe_words os (x ∷ uid) (y ∷ gid) rest behind fs u g =
    rw
      (
        get_word-word x uid space ((y ∷ gid) ++ newline ∷ rest) behind
            (digits-IsWord (x ∷ uid) (ground arith)) refl,
        get_word-word y gid newline rest (nul ∷ (reverse (x ∷ uid) ++ behind))
            (digits-IsWord (y ∷ gid) (ground arith)) refl,
        u,
        g,
      )
      refl

module _ (uid gid : Bytes) (u : check_uid (some uid) ≡ true) (g : check_gid (some gid) ≡ true) where
  length-request : length (request (codes "GUR") uid gid []) ≡ 13
  unfolding check_uid check_gid
  length-request =
      ground
        (arith, length-append uid (space ∷ (gid ++ newline ∷ [])), length-append gid (newline ∷ []))

  -- The buffer of the main loop after the request.
  wait_request :
      (buffer : Bytes)
      → wait_udp_message (request (codes "GUR") uid gid []) buffer
        ≡ request (codes "GUR") uid gid (drop 13 buffer)
  wait_request buffer =
      let msg : Bytes = request (codes "GUR") uid gid [] in
      wait_udp_message_lem msg buffer (omega (arith, length-request))
      ∙ (ap (λ n. msg ++ drop n buffer) length-request
          ∙ ap (λ r. codes "GUR" ++ space ∷ r)
              (append_assoc uid (space ∷ (gid ++ newline ∷ [])) (drop 13 buffer)
                ∙ ap (λ r. uid ++ space ∷ r) (append_assoc gid (newline ∷ []) (drop 13 buffer))))

  module _ (os : Os) (allowed : IsPermissive os) (s : Server) (ok : HasAccounts s.disk) where
    handled :
        (s' : Server) × (handle os (datagram (request (codes "GUR") uid gid [])) s
          ≡ done (
            s',
            udp (
                  unsubscribe_reply
                    (directory_exists (user_path uid) s.disk)
                    (directory_exists (group_path gid) s.disk))
                ∷ [],
          ))
        × ((q : FilePath)
            → lookup s'.disk q ≡ (
                if directory_exists (user_path uid) s.disk
                then (if directory_exists (group_path gid) s.disk
                    then (if path_eq (uid ∷ group_path gid) q then none else lookup s.disk q)
                    else lookup s.disk q)
                else lookup s.disk q))
        × HasAccounts s'.disk
    unfolding handle parse_udp_message
    handled =
        let (a, d, sent, left, accounts) = unsubscribe_from-Leaves os allowed uid gid s.disk ok u in
        let after : Cursor =
          after_credentials (nul ∷ reverse (codes "GUR")) uid gid (drop 13 s.buffer) in
        let s' : Server = record { disk = a.disk; buffer = buffer_of after } in
        let next : Answer × Cursor → Outcome (Server × List Message) =
          λ r. done (record { disk = r.0.disk; buffer = buffer_of r.1 }, r.0.sent) in
        (
          s',
          ap (λ t. parse_udp_message os (start t) s.disk >>= next) (wait_request s.buffer)
              ∙ (ap (λ r. r >>= next)
                    (unsubscribe_words os uid gid (drop 13 s.buffer) (nul ∷ reverse (codes "GUR"))
                        s.disk u g
                      ∙ ap (λ o. o >>= λ b. done (b, after)) d)
                  ∙ ap (λ m. done (s', m)) sent),
          left,
          accounts,
        )

-- The command and the server come to an end: the line tells whether the user and the group exist, and
-- the user's file is gone from the group if they do.
abbrev pub Departs : Bytes → Session → Server → Outcome (Turn × Server) → Type 0
Departs gid c s o =
    (s' : Server) × (o
      ≡ done (
        told c (udp (leave_message c gid)) (
            left_line gid (directory_exists (user_path c.uid) s.disk)
              (directory_exists (group_path gid) s.disk)
            ∷ []),
        s',
      ))
    × ((q : FilePath)
        → lookup s'.disk q ≡ (
            if directory_exists (user_path c.uid) s.disk
            then (if directory_exists (group_path gid) s.disk
                then (if path_eq (c.uid ∷ group_path gid) q then none else lookup s.disk q)
                else lookup s.disk q)
            else lookup s.disk q))
    × HasAccounts s'.disk

-- Where the system refuses no call, the accounts are in order, the session is well-formed with a
-- user logged in and the gid is valid, `unsubscribe` of the user's program against the server
-- comes to an end with one datagram sent and one line printed, the error of an invalid uid
-- without the user's directory, the error of an invalid gid without the group's, and the success
-- otherwise, with the session kept; on the server the user's file is gone from the group in the
-- last case, nothing else on the disk changes in any case, and the accounts stay in order.
pub unsubscribe_from-Departs :
    (os : Os) (w : World) (c : Session) (s : Server) (gid : Bytes)
    → IsPermissive os
    → HasAccounts s.disk
    → IsSession c
    → is_logged c ≡ true
    → UserChecks.check_gid (some gid) ≡ true
    → Departs gid c s (exchange os w (λ w'. unsubscribe_from w' gid) c s)
unsubscribe_from-Departs os w c s gid allowed ok v on g =
    let u : check_uid (some c.uid) ≡ true =
      sym (check_uid-same (some c.uid)) ∙ (logged_user c v on).0 in
    let (s', e, left, accounts) =
      handled c.uid gid u (sym (check_gid-same (some gid)) ∙ g) os allowed s ok in
    let turn : Turn = told c (udp (leave_message c gid)) (
      left_line gid (directory_exists (user_path c.uid) s.disk)
        (directory_exists (group_path gid) s.disk)
      ∷ []) in
    let ran : unsubscribe_from (served os s w) gid c ≡ done turn =
      unsubscribe_from-answer (served os s w) c gid _ _ (ap reply_of e) in
    (
      s',
      exchange-answered os w (λ w'. unsubscribe_from w' gid) c s s' turn _ _ ran refl e,
      left,
      accounts,
    )
