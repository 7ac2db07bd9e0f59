-- ===== src/Joint/Founding.antt =====
-- `subscribe` of the user's program with the gid 00, from the prompt to the new group on the server's
-- disk.
use mathlib.Core.List.{reverse}
use projeto_rc.Base.{
  ℕ, ◌+◌, ◌≤◌, ◌≡◌, refl, sym, ◌∙◌, ap, true, false, none, some, is_digit, all, [], ◌∷◌, ◌++◌,
  append_assoc, arith, Bytes, codes, nul, newline, ltb, length, length-append,
}
use projeto_rc.Base.Outcome.{Outcome, done}
use projeto_rc.Base.Decimal.{print_padded}
use projeto_rc.Base.Decimal.RoundTrip.{print_padded-digits}
use projeto_rc.Base.Decimal.Length.{print_padded-exact}
use projeto_rc.Disk.{dir, file, Disk, lookup, Os}
use projeto_rc.Files.{directory_exists, list_subdirectories}
use projeto_rc.Files.Allowed.{IsPermissive}
use projeto_rc.Sll.{sll_size}
use projeto_rc.Server.Checks.{check_uid, check_gid, check_gname}
use projeto_rc.Server.Paths.{user_path, groups_path, group_path}
use projeto_rc.Server.Reply.{udp}
use projeto_rc.Server.Accounts.Spec.{HasAccounts}
use projeto_rc.Server.Groups.{new_gid}
use projeto_rc.Server.Groups.Join.{HasGroup}
use projeto_rc.Server.Groups.New.{subscribe_to-Creates}
use projeto_rc.Server.Dispatch.{Server}
use projeto_rc.Server.Dispatch.Words.{digits-IsWord}
use projeto_rc.User.Session.{Session, World, Turn, success, told, response, expect, is_logged}
use projeto_rc.User.Accounts.{buffer_size}
use projeto_rc.User.Groups.{subscribe_to}
use projeto_rc.User.Invariant.{IsSession, logged_user}
use projeto_rc.User.Checks as UserChecks
use projeto_rc.Joint.{reply_of, served, exchange}
use projeto_rc.Joint.Checks.{check_uid-same, check_gname-same}
use projeto_rc.Joint.Joining.{join_message, handle-subscribe}
use projeto_rc.Joint.Listing.{read_word-field}
use projeto_rc.Joint.Turns.{ask-answer, exchange-answered}

-- What is printed of a new group.
abbrev pub founded_turn : Session → Bytes → Bytes → Turn
founded_turn c gname new =
    told c (udp (join_message c new_gid gname))
      (success (codes "New group create and subscribed: [" ++ (new ++ (codes "] " ++ gname))) ∷ [])

abbrev founded_reply : Bytes → Bytes
founded_reply new = codes "RGS NEW " ++ (new ++ codes "\n")

founded_reply-short :
    (new : Bytes)
    → check_gid (some new) ≡ true
    → ltb (length (founded_reply new)) buffer_size ≡ true
unfolding check_gid
founded_reply-short new g = ground (arith, length-append new (codes "\n"))

subscribe_to-new :
    (w : World) (c : Session) (gname new : Bytes)
    → check_gid (some new) ≡ true
    → w.answer (join_message c new_gid gname) ≡ some (founded_reply new)
    → subscribe_to w new_gid gname c ≡ done (founded_turn c gname new)
unfolding subscribe_to response expect check_gid
subscribe_to-new w c gname new g h =
    let digits : all is_digit new ≡ true = ground arith in
    let some_digit : 1 ≤ length new = ground arith in
    ask-answer w c _ _ buffer_size _ h
    ∙ rw
        (
          founded_reply-short new g,
          append_assoc new (codes "\n") (nul ∷ []),
          read_word-field new (newline ∷ nul ∷ [])
              (nul ∷ (reverse (codes "NEW") ++ nul ∷ reverse (codes "RGS"))) newline (nul ∷ [])
              (digits-IsWord new digits, some_digit) refl refl refl,
        )
        refl

-- The gid of the next group.
abbrev pub next_gid : Os → Disk → Bytes
next_gid os fs = print_padded 2 (sll_size (list_subdirectories os groups_path fs) + 1)

next_gid-check_gid :
    (os : Os) (fs : Disk)
    → ltb 99 (sll_size (list_subdirectories os groups_path fs) + 1) ≡ false
    → check_gid (some (next_gid os fs)) ≡ true
unfolding check_gid
next_gid-check_gid os fs room =
    let n : ℕ = sll_size (list_subdirectories os groups_path fs) + 1 in
    ground (arith, print_padded-exact 1 n (ground arith), print_padded-digits 2 n)

-- A user who asks for a new group, and the room for it.
pub record HasRoom (os : Os) (uid : Bytes) (fs : Disk) : Type 0 where
  pub user : directory_exists (user_path uid) fs ≡ true
  pub groups_dir : lookup fs groups_path ≡ some dir
  pub room : ltb 99 (sll_size (list_subdirectories os groups_path fs) + 1) ≡ false
  pub free : lookup fs (group_path (next_gid os fs)) ≡ none

-- The command and the server come to an end: the group is there under the gid that is printed, with
-- the user in it.
abbrev pub Founds : Os → Bytes → Session → Server → Outcome (Turn × Server) → Type 0
Founds os gname c s o =
    (s' : Server) × (o ≡ done (founded_turn c gname (next_gid os s.disk), s'))
    × HasGroup (next_gid os s.disk) gname s'.disk
    × (lookup s'.disk (c.uid ∷ group_path (next_gid os s.disk)) ≡ some (file []))
    × HasAccounts s'.disk

-- Where the system refuses no call, the accounts are in order, the session is well-formed with a
-- user logged in whose directory the server has, the name is valid and not empty, the directory
-- of the groups exists on the server with fewer than 99 visible directories in it, and the gid of
-- two digits that is one more than their number is free, `subscribe` of the user's program with
-- the gid 00 against the server comes to an end with one datagram sent, the session kept, and one
-- line printed, that the group is new, with that gid and the name; the server then has the group
-- under this gid with the name, the user in it, and the accounts in order.
pub subscribe_to-Founds :
    (os : Os) (w : World) (c : Session) (s : Server) (z : ℕ) (gname : Bytes)
    → IsPermissive os
    → HasAccounts s.disk
    → IsSession c
    → is_logged c ≡ true
    → UserChecks.check_gname (some (z ∷ gname)) ≡ true
    → HasRoom os c.uid s.disk
    → Founds os (z ∷ gname) c s (exchange os w (λ w'. subscribe_to w' new_gid (z ∷ gname)) c s)
subscribe_to-Founds os w c s z gname allowed ok v on n has =
    let u : check_uid (some c.uid) ≡ true =
      sym (check_uid-same (some c.uid)) ∙ (logged_user c v on).0 in
    let valid : check_gname (some (z ∷ gname)) ≡ true =
      sym (check_gname-same (some (z ∷ gname))) ∙ n in
    let new : Bytes = next_gid os s.disk in
    let zeros : check_gid (some new_gid) ≡ true = unfold check_gid in refl in
    let (a, d, sent, group, member, accounts) =
      subscribe_to-Creates os allowed c.uid (z ∷ gname) z gname s.disk ok u has.user has.groups_dir
        refl valid has.room has.free in
    let (buffer, e) = handle-subscribe os c.uid new_gid z gname s a new _ u zeros valid d sent in
    let s' : Server = record { disk = a.disk; buffer = buffer } in
    let turn : Turn = founded_turn c (z ∷ gname) new in
    let ran : subscribe_to (served os s w) new_gid (z ∷ gname) c ≡ done turn =
      subscribe_to-new (served os s w) c (z ∷ gname) new (next_gid-check_gid os s.disk has.room)
        (ap reply_of e) in
    (
      s',
      exchange-answered os w (λ w'. subscribe_to w' new_gid (z ∷ gname)) c s s' turn _ _ ran refl e,
      group,
      member,
      accounts,
    )
