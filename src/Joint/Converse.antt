-- ===== src/Joint/Converse.antt =====
-- A sequence of account commands of one user's program, each answered by the server.
use mathlib.Core.Path.{subst}
use projeto_rc.Base.{
  ◌≡◌, refl, ◌∙◌, inl, inr, false, some, Option, Bytes, text_eq, if◌then◌else◌, List, [], ◌∷◌, ◌++◌,
  arith, codes, All, Bool-cases,
}
use projeto_rc.Base.Outcome.{Outcome, done, ◌>>=◌, Ensures}
use projeto_rc.Disk.{Os}
use projeto_rc.Files.Allowed.{IsPermissive}
use projeto_rc.Server.Accounts.Spec.{
  Account, Contract, account, HasAccounts, reg_contract, unregister_contract, login_contract,
  logout_contract,
}
use projeto_rc.Server.Dispatch.{Server}
use projeto_rc.User.Session.{Session, World, Turn, Line, warning, stay, is_logged, logout}
use projeto_rc.User.Accounts.{log_out}
use projeto_rc.User.Invariant.{IsValid}
use projeto_rc.User.Invariant.Accounts.{
  register-IsValid, remove_user-IsValid, log_in-IsValid, log_out-IsValid,
}
use projeto_rc.Joint.{served, deliver, exchange}
use projeto_rc.Joint.Checks.{check_uid-same, check_pass-same}
use projeto_rc.Joint.Accounts.{
  register-Exchanges, remove_user-Exchanges, log_in-Exchanges, log_out-Exchanges,
}
use projeto_rc.Joint.Turns.{reg_turn, unregister_turn, login_turn, logout_turn, logout_turn-session}
use projeto_rc.Joint.Link.{
  Command, register_as, remove_as, log_in_as, log_out_now, perform, IsChecked, IsLinked, HasLink,
  exchange-IsSession, register-HasLink, log_in-HasLink, unregister-HasLink,
}

-- The commands one after the other, with what they print.
unfoldable pub converse :
    Os → World → List Command → Session → Server → Outcome (Session × Server × List Line)
unfolding exchange
converse os w [] c s = done (c, s, [])
converse os w (k ∷ ks) c s = do
  (turn, s1) ← exchange os w (perform k) c s
  (c2, s2, shown) ← converse os w ks turn.session s1
  done (c2, s2, turn.shown ++ shown)

-- The accounts that the server holds.
abbrev pub Accounts : Type 0
Accounts = Bytes → Option Account

-- The turn that a command takes on these accounts.
abbrev pub turn_on : Command → Session → Accounts → Turn
turn_on (register_as uid pass) c held = reg_turn uid pass c (held uid)
turn_on (remove_as uid pass) c held = unregister_turn uid pass c (held uid)
turn_on (log_in_as uid pass) c held = login_turn uid pass c (held uid)
turn_on log_out_now c held =
    if is_logged c
    then logout_turn c (held c.uid)
    else stay c (warning (codes "You are not logged in") ∷ [])

abbrev updated : Contract → Bytes → Accounts → Accounts
updated contract uid held u = if text_eq uid u then (contract (held uid)).0 else held u

-- And the accounts after it.
abbrev pub accounts_after : Command → Session → Accounts → Accounts
accounts_after (register_as uid pass) c held = updated (reg_contract pass) uid held
accounts_after (remove_as uid pass) c held = updated (unregister_contract pass) uid held
accounts_after (log_in_as uid pass) c held = updated (login_contract pass) uid held
accounts_after log_out_now c held =
    if is_logged c then updated (logout_contract c.pass) c.uid held else held

-- The commands on the accounts alone: the session, what is printed, and the accounts at the end.
abbrev pub converse_on : List Command → Session → Accounts → Session × List Line × Accounts
converse_on [] c held = (c, [], held)
converse_on (k ∷ ks) c held =
    let t = turn_on k c held in
    let (c2, shown, held2) = converse_on ks t.session (accounts_after k c held) in
    (c2, t.shown ++ shown, held2)

-- A command and the server come to an end that is linked again: the turn is the one on the accounts
-- that the server held.
abbrev pub StaysLinked : Command → Session → Server → Outcome (Turn × Server) → Type 0
StaysLinked k c s o =
    (s' : Server) × (o ≡ done (turn_on k c (account s.disk), s'))
    × ((u : Bytes) → account s'.disk u ≡ accounts_after k c (account s.disk) u)
    × IsLinked (turn_on k c (account s.disk)).session s'

module _ (os : Os) (allowed : IsPermissive os) (w : World) where
  module _ (c : Session) (s : Server) (v : IsLinked c s) where
    pub valid_turn : (k : Command) → IsChecked k → Ensures IsValid (perform k (served os s w) c)
    valid_turn (register_as uid pass) (u, p) =
        register-IsValid (served os s w) uid pass c v.session (check_uid-same (some uid) ∙ u)
          (check_pass-same (some pass) ∙ p)
    valid_turn (remove_as uid pass) (u, p) =
        remove_user-IsValid (served os s w) uid pass c v.session (check_uid-same (some uid) ∙ u)
          (check_pass-same (some pass) ∙ p)
    valid_turn (log_in_as uid pass) (u, p) =
        log_in-IsValid (served os s w) uid pass c v.session (check_uid-same (some uid) ∙ u)
          (check_pass-same (some pass) ∙ p)
    valid_turn log_out_now h = log_out-IsValid (served os s w) c v.session

    linked :
        (k : Command) (s' : Server)
        → IsChecked k
        → exchange os w (perform k) c s ≡ done (turn_on k c (account s.disk), s')
        → ((u : Bytes) → account s'.disk u ≡ accounts_after k c (account s.disk) u)
        → HasAccounts s'.disk
        → HasLink (turn_on k c (account s.disk)).session s'
        → StaysLinked k c s (exchange os w (perform k) c s)
    linked k s' h e after ok link = (
      s',
      e,
      after,
      record {
        session =
            exchange-IsSession os w (perform k) c s s' (turn_on k c (account s.disk))
              (valid_turn k h) e;
        accounts = ok;
        link = link;
      },
    )

    no_exchange :
        is_logged c ≡ false
        → exchange os w log_out c s
          ≡ done (stay c (warning (codes "You are not logged in") ∷ []), s)
    unfolding exchange log_out deliver
    no_exchange off = rw off refl

    pub exchange-IsLinked :
        (k : Command) → IsChecked k → StaysLinked k c s (exchange os w (perform k) c s)
    exchange-IsLinked (register_as uid pass) (u, p) =
        let (s', e, accounts, ok) = register-Exchanges os allowed w c s v.accounts uid pass u p in
        linked (register_as uid pass) s' (u, p) e accounts ok
          (register-HasLink uid pass c s s' v.link accounts)
    exchange-IsLinked (remove_as uid pass) (u, p) =
        let (s', e, accounts, ok) =
          remove_user-Exchanges os allowed w c s v.accounts uid pass u p in
        linked (remove_as uid pass) s' (u, p) e accounts ok
          (unregister-HasLink uid pass c s s' v.link accounts)
    exchange-IsLinked (log_in_as uid pass) (u, p) =
        let (s', e, accounts, ok) = log_in-Exchanges os allowed w c s v.accounts uid pass u p in
        linked (log_in_as uid pass) s' (u, p) e accounts ok
          (log_in-HasLink uid pass c s s' v.link accounts)
    exchange-IsLinked log_out_now h = elim (Bool-cases (is_logged c)) [
      | inr off ↦ rw off (s, no_exchange off, λ u. refl, v)
      | inl on ↦
          let (s', e, accounts, ok) = log_out-Exchanges os allowed w c s v.accounts v.session on in
          linked log_out_now s' tt (rw on e) (λ u. rw on (accounts u)) ok
            (rw on (
              rw (logout_turn-session c (account s.disk c.uid))
                (unfold logout is_logged in λ k. absurd (ground arith))))
    ]

  -- The conversation is the one on the accounts, and the server holds these accounts at the end.
  abbrev pub Follows : List Command → Session → Server → Accounts → Type 0
  Follows ks c s held =
      (s' : Server) × (converse os w ks c s
        ≡ done ((converse_on ks c held).0, s', (converse_on ks c held).1))
      × ((u : Bytes) → account s'.disk u ≡ (converse_on ks c held).2 u)
      × IsLinked (converse_on ks c held).0 s'

  -- Where the system refuses the server nothing, from a session and a server that are linked,
  -- every sequence of account commands with valid fields comes to an end; the session that it
  -- leaves, every line that it prints and every account that the server holds at the end are
  -- those of the same commands on the accounts alone, where each command takes the turn that the
  -- account asks for; and the session and the server are linked again. Linked means that the
  -- session is nobody's or a user's with a valid uid and password, that the server's directory is
  -- in order, and that a user who is logged in at the prompt has an account with the session's
  -- password that the server holds as logged in.
  pub converse-Follows :
      (ks : List Command) (c : Session) (s : Server)
      → All IsChecked ks
      → IsLinked c s
      → Follows ks c s (account s.disk)
  unfolding converse
  converse-Follows [] c s h v = (s, refl, λ u. refl, v)
  converse-Follows (k ∷ ks) c s (h, hs) v =
      let (s1, e, after, v1) = exchange-IsLinked c s v k h in
      let held : account s1.disk ≡ accounts_after k c (account s.disk) = λ i u. after u i in
      let (s2, e2, after2, v2) =
        subst (Follows ks (turn_on k c (account s.disk)).session s1) held
          (converse-Follows ks (turn_on k c (account s.disk)).session s1 hs v1) in
      (s2, rw e (rw e2 refl), after2, v2)
