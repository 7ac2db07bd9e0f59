-- ===== src/Joint/Accounts.antt =====
-- The account commands from the prompt's side to the server's accounts.
use projeto_rc.Base.{◌≡◌, sym, ◌∙◌, ap, true, Option, some, [], ◌∷◌, Bytes, text_eq, if◌then◌else◌}
use projeto_rc.Base.Outcome.{Outcome, done}
use projeto_rc.Disk.{Os}
use projeto_rc.Files.Allowed.{IsPermissive}
use projeto_rc.Server.Checks.{check_uid, check_pass}
use projeto_rc.Server.Reply.{udp}
use projeto_rc.Server.Accounts.Spec.{
  Account, account, HasAccounts, Contract, reg_contract, unregister_contract, login_contract,
  logout_contract,
}
use projeto_rc.Server.Dispatch.{Server, datagram, handle}
use projeto_rc.Server.Dispatch.Requests.{
  Handles, handle-reg, handle-unregister, handle-login_, handle-logout_,
}
use projeto_rc.User.Session.{Session, World, Turn, is_logged}
use projeto_rc.User.Accounts.{register, remove_user, log_in, log_out}
use projeto_rc.User.Invariant.{IsSession, logged_user}
use projeto_rc.Joint.Checks.{check_uid-same, check_pass-same}
use projeto_rc.Joint.{reply_of, served, exchange}
use projeto_rc.Joint.Turns.{
  exchange-answered, reg_turn, unregister_turn, login_turn, logout_turn, logout_turn-sent,
  register-answer, remove_user-answer, log_in-answer, log_out-answer, unregister_turn-sent,
  reg_turn-sent, login_turn-sent,
}

-- The command and the server come to an end: the command leaves the turn, the account of the user is
-- the contract's, no other account changes, and the server's directory stays in order.
abbrev pub Exchanges : Contract → Bytes → Server → Turn → Outcome (Turn × Server) → Type 0
Exchanges contract uid s turn o =
    (s' : Server) × (o ≡ done (turn, s'))
    × ((u : Bytes)
        → account s'.disk u
          ≡ (if text_eq uid u then (contract (account s.disk uid)).0 else account s.disk u))
    × HasAccounts s'.disk

exchanges :
    (os : Os) (w : World) (contract : Contract) (uid msg : Bytes) (c : Session) (s : Server)
    (command : World → Session → Outcome Turn) (turns : Option Account → Turn)
    → Handles contract uid s (handle os (datagram msg) s)
    → ((a : Option Account) → (turns a).sent ≡ udp msg ∷ [])
    → ((w' : World) (a : Option Account)
        → w'.answer msg ≡ some (contract a).1
        → command w' c ≡ done (turns a))
    → Exchanges contract uid s (turns (account s.disk uid)) (exchange os w command c s)
exchanges os w contract uid msg c s command turns (s', e, accounts, ok) one h =
    let turn : Turn = turns (account s.disk uid) in
    let ran : command (served os s w) c ≡ done turn =
      h (served os s w) (account s.disk uid) (ap reply_of e) in
    (
      s',
      exchange-answered os w command c s s' turn msg _ ran (one (account s.disk uid)) e,
      accounts,
      ok,
    )

module _ (os : Os) (allowed : IsPermissive os) (w : World) (c : Session) (s : Server)
    (ok : HasAccounts s.disk) where
  module _ (uid pass : Bytes) (u : check_uid (some uid) ≡ true)
      (p : check_pass (some pass) ≡ true) where
    pub register-Exchanges :
        Exchanges
          (reg_contract pass)
          uid
          s
          (reg_turn uid pass c (account s.disk uid))
          (exchange os w (λ w'. register w' uid pass) c s)
    register-Exchanges =
        exchanges os w (reg_contract pass) uid _ c s (λ w'. register w' uid pass)
          (reg_turn uid pass c) (handle-reg os allowed uid pass s u p ok) (reg_turn-sent uid pass c)
          (λ w'. register-answer w' uid pass c)

    -- Where the system refuses the server nothing and the accounts are in order, `unregister` of
    -- the user's program on a valid uid and password, answered by the server, comes to an end:
    -- the account is removed and the success printed exactly when the password is its own, the
    -- session then ends exactly when it is that user's, the error is printed otherwise, no other
    -- account has changed, and the accounts are in order.
    pub remove_user-Exchanges :
        Exchanges
          (unregister_contract pass)
          uid
          s
          (unregister_turn uid pass c (account s.disk uid))
          (exchange os w (λ w'. remove_user w' uid pass) c s)
    remove_user-Exchanges =
        exchanges os w (unregister_contract pass) uid _ c s (λ w'. remove_user w' uid pass)
          (unregister_turn uid pass c) (handle-unregister os allowed uid pass s u p ok)
          (unregister_turn-sent uid pass c) (λ w'. remove_user-answer w' uid pass c)

    -- Where the system refuses the server nothing and the accounts are in order, `login_` of the
    -- user's program on a valid uid and password, answered by the server, comes to an end: it
    -- prints the success and takes the uid and the password into the session exactly when they
    -- are those of an account and nobody is logged in at the prompt, warns when someone is, and
    -- prints the error otherwise; the server has logged the account in exactly when the password
    -- is its own, no other account has changed, and the accounts are in order.
    pub log_in-Exchanges :
        Exchanges
          (login_contract pass)
          uid
          s
          (login_turn uid pass c (account s.disk uid))
          (exchange os w (λ w'. log_in w' uid pass) c s)
    log_in-Exchanges =
        exchanges os w (login_contract pass) uid _ c s (λ w'. log_in w' uid pass)
          (login_turn uid pass c) (handle-login_ os allowed uid pass s u p ok)
          (login_turn-sent uid pass c) (λ w'. log_in-answer w' uid pass c u p)

  module _ (v : IsSession c) (on : is_logged c ≡ true) where
    pub log_out-Exchanges :
        Exchanges
          (logout_contract c.pass)
          c.uid
          s
          (logout_turn c (account s.disk c.uid))
          (exchange os w log_out c s)
    log_out-Exchanges =
        let (u', p') = logged_user c v on in
        let u : check_uid (some c.uid) ≡ true = sym (check_uid-same (some c.uid)) ∙ u' in
        let p : check_pass (some c.pass) ≡ true = sym (check_pass-same (some c.pass)) ∙ p' in
        exchanges os w (logout_contract c.pass) c.uid _ c s log_out (logout_turn c)
          (handle-logout_ os allowed c.uid c.pass s u p ok) (logout_turn-sent c)
          (λ w'. log_out-answer w' c on)
