-- ===== src/Joint/Lifecycle.antt =====
-- A user who registers, logs in, logs out and unregisters.
use projeto_rc.Base.{
  ◌≡◌, refl, sym, ◌∙◌, ap, inl, inr, true, false, Option, none, some, List, [], ◌∷◌, arith, Bytes,
  codes, text_eq, text_eq_sound, text_eq_refl, if◌then◌else◌, Bool-cases,
}
use projeto_rc.Base.Outcome.{Outcome, done, Ensures}
use projeto_rc.Disk.{Os}
use projeto_rc.Files.Allowed.{IsPermissive}
use projeto_rc.Server.Checks.{check_uid, check_pass}
use projeto_rc.Server.Accounts.Spec.{Account, account, HasAccounts}
use projeto_rc.Server.Dispatch.{Server}
use projeto_rc.User.Session.{Session, World, Turn, Line, success, is_logged, logout}
use projeto_rc.User.Accounts.{log_in, log_out}
use projeto_rc.User.Invariant.{IsSession, IsValid}
use projeto_rc.User.Invariant.Accounts.{log_in-IsValid}
use projeto_rc.Joint.Checks.{check_uid-same, check_pass-same}
use projeto_rc.Joint.{served, exchange}
use projeto_rc.Joint.Accounts.{
  register-Exchanges, remove_user-Exchanges, log_in-Exchanges, log_out-Exchanges,
}
use projeto_rc.Joint.Turns.{reg_turn, unregister_done, login_done, logged_out}
use projeto_rc.Joint.Link.{
  register_as, remove_as, log_in_as, log_out_now, perform, exchange-IsSession,
}
use projeto_rc.Joint.Converse.{converse}

-- The account of one user is set, and the others are as they were.
abbrev Sets : Bytes → Option Account → Server → Server → Type 0
Sets uid a s s' = (u : Bytes) → account s'.disk u ≡ (if text_eq uid u then a else account s.disk u)

Sets-self :
    (uid : Bytes) (a : Option Account) (s s' : Server) → Sets uid a s s' → account s'.disk uid ≡ a
Sets-self uid a s s' h = h uid ∙ rw (text_eq_refl uid) refl

Sets-trans :
    (uid : Bytes) (a b : Option Account) (s s1 s2 : Server)
    → Sets uid a s s1
    → Sets uid b s1 s2
    → Sets uid b s s2
Sets-trans uid a b s s1 s2 h k u = elim (Bool-cases (text_eq uid u)) [
  | inl e ↦ k u ∙ rw e refl
  | inr e ↦ k u ∙ rw e (h u ∙ rw e refl)
]

abbrev pub lifecycle_lines : List Line
lifecycle_lines =
    success (codes "User successfully registered")
    ∷ success (codes "You are now logged in")
    ∷ success (codes "You are now logged out")
    ∷ success (codes "User successfully unregistered")
    ∷ []

module _ (os : Os) (allowed : IsPermissive os) (w : World) (uid pass : Bytes)
    (u : check_uid (some uid) ≡ true) (p : check_pass (some pass) ≡ true) where
  -- What one command leaves when the account before it is known.
  abbrev Leaves :
      Session → Server → (World → Session → Outcome Turn) → Turn → Option Account → Type 0
  Leaves c s command turn a =
      (s' : Server) × (exchange os w command c s ≡ done (turn, s'))
      × Sets uid a s s'
      × HasAccounts s'.disk

  uid_logged : (c : Session) → is_logged (record c { uid = uid; pass = pass }) ≡ true
  unfolding check_uid is_logged
  uid_logged c = ground arith

  nobody : (c : Session) → is_logged (logout c) ≡ false
  unfolding is_logged logout
  nobody c = refl

  module _ (c : Session) (s : Server) (ok : HasAccounts s.disk) where
    registers :
        account s.disk uid ≡ none
        → Leaves c s
            (perform (register_as uid pass))
            (reg_turn uid pass c none)
            (some (record { pass = pass; logged = false }))
    registers e = rw e at (register-Exchanges os allowed w c s ok uid pass u p)

    logs_in :
        is_logged c ≡ false
        → account s.disk uid ≡ some (record { pass = pass; logged = false })
        → Leaves c s
            (perform (log_in_as uid pass))
            (login_done uid pass c (record c { uid = uid; pass = pass }))
            (some (record { pass = pass; logged = true }))
    logs_in off e =
        rw (e, text_eq_refl pass, off) at (log_in-Exchanges os allowed w c s ok uid pass u p)

    unregisters :
        is_logged c ≡ false
        → account s.disk uid ≡ some (record { pass = pass; logged = false })
        → Leaves c s (perform (remove_as uid pass)) (unregister_done uid pass c c) none
    unregisters off e =
        rw (e, text_eq_refl pass, off) at (remove_user-Exchanges os allowed w c s ok uid pass u p)

  unchanged :
      (s : Server) (x : Bytes)
      → account s.disk uid ≡ none
      → (if text_eq uid x then none else account s.disk x) ≡ account s.disk x
  unchanged s x free = elim (Bool-cases (text_eq uid x)) [
    | inr e ↦ rw e refl
    | inl e ↦ rw e (sym free ∙ ap (account s.disk) (text_eq_sound uid x e))
  ]

  logs_out :
      (c : Session) (s : Server)
      → HasAccounts s.disk
      → IsSession (record c { uid = uid; pass = pass })
      → account s.disk uid ≡ some (record { pass = pass; logged = true })
      → Leaves
          (record c { uid = uid; pass = pass })
          s
          log_out
          (logged_out (record c { uid = uid; pass = pass }) [])
          (some (record { pass = pass; logged = false }))
  logs_out c s ok v e =
      rw (e, text_eq_refl pass) at
        (log_out-Exchanges os allowed w (record c { uid = uid; pass = pass }) s ok v (uid_logged c))

  -- Where the system refuses the server nothing, the accounts are in order, and the session is a
  -- valid one of nobody, `reg`, `login_`, `logout_` and `unregister` of the user's program one
  -- after the other, on a valid uid that has no account and a valid password and answered by the
  -- server, come to an end, print the four successes and nothing else, and leave every account as
  -- it was, the accounts in order and the session logged out.
  pub lifecycle :
      (c : Session) (s : Server)
      → IsSession c
      → HasAccounts s.disk
      → is_logged c ≡ false
      → account s.disk uid ≡ none
      → (c' : Session) × (s' : Server) × (converse os w
            (register_as uid pass ∷ log_in_as uid pass ∷ log_out_now ∷ remove_as uid pass ∷ [])
            c
            s
          ≡ done (c', s', lifecycle_lines))
        × (is_logged c' ≡ false)
        × ((v : Bytes) → account s'.disk v ≡ account s.disk v)
        × HasAccounts s'.disk
  unfolding converse
  lifecycle c s v ok off free =
      let c1 : Session = record c { uid = uid; pass = pass } in
      let (s1, e1, set1, ok1) = registers c s ok free in
      let (s2, e2, set2, ok2) = logs_in c s1 ok1 off (Sets-self uid _ s s1 set1) in
      let valid : Ensures IsValid (log_in (served os s1 w) uid pass c) =
        log_in-IsValid (served os s1 w) uid pass c v (check_uid-same (some uid) ∙ u)
          (check_pass-same (some pass) ∙ p) in
      let v1 : IsSession c1 =
        exchange-IsSession os w (perform (log_in_as uid pass)) c s1 s2 _ valid e2 in
      let (s3, e3, set3, ok3) = logs_out c s2 ok2 v1 (Sets-self uid _ s1 s2 set2) in
      let (s4, e4, set4, ok4) =
        unregisters (logout c1) s3 ok3 (nobody c1) (Sets-self uid _ s2 s3 set3) in
      let all_set : Sets uid none s s4 =
        Sets-trans uid _ none s s1 s4 set1
          (Sets-trans uid _ none s1 s2 s4 set2 (Sets-trans uid _ none s2 s3 s4 set3 set4)) in
      (
        logout c1,
        s4,
        rw e1 (rw e2 (rw e3 (rw e4 refl))),
        nobody c1,
        λ x. all_set x ∙ unchanged s x free,
        ok4,
      )
