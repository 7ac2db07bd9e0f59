-- ===== src/Joint/Link.antt =====
-- One user's program and the server through any sequence of account commands: what the session and the
-- account have to do with each other.
use projeto_rc.Base.{
  ◌≡◌, refl, sym, ◌∙◌, ap, inl, inr, true, false, Option, none, some, [], arith, Bytes, text_eq,
  text_eq_sound, text_eq_refl, if◌then◌else◌, Bool-cases, Option-cases,
}
use projeto_rc.Base.Outcome.{
  Outcome, done, ◌>>=◌, >>=-eq-done, done_injective, Ensures, Ensures-done,
}
use projeto_rc.Disk.{Os}
use projeto_rc.Server.Checks.{check_uid, check_pass}
use projeto_rc.Server.Accounts.Spec.{
  Account, account, HasAccounts, Contract, reg_contract, unregister_contract, login_contract,
}
use projeto_rc.Server.Dispatch.{Server}
use projeto_rc.User.Session.{Session, World, Turn, is_logged, logout}
use projeto_rc.User.Accounts.{register, remove_user, log_in, log_out}
use projeto_rc.User.Invariant.{IsSession, IsValid}
use projeto_rc.Joint.{served, deliver, exchange}
use projeto_rc.Joint.Turns.{reg_turn, unregister_turn, login_turn}

-- The account commands behind their checks.
pub data Command : Type 0 where
  register_as remove_as log_in_as : Bytes → Bytes → Command
  log_out_now : Command

abbrev pub perform : Command → World → Session → Outcome Turn
perform (register_as uid pass) w = register w uid pass
perform (remove_as uid pass) w = remove_user w uid pass
perform (log_in_as uid pass) w = log_in w uid pass
perform log_out_now w = log_out w

-- The checks have passed.
abbrev pub IsChecked : Command → Type 0
IsChecked (register_as uid pass) = (check_uid (some uid) ≡ true) × (check_pass (some pass) ≡ true)
IsChecked (remove_as uid pass) = (check_uid (some uid) ≡ true) × (check_pass (some pass) ≡ true)
IsChecked (log_in_as uid pass) = (check_uid (some uid) ≡ true) × (check_pass (some pass) ≡ true)
IsChecked log_out_now = Unit

-- Whoever the session is has an account, with the session's password, that is logged in.
abbrev pub HasLink : Session → Server → Type 0
HasLink c s =
    is_logged c ≡ true → account s.disk c.uid ≡ some (record { pass = c.pass; logged = true })

pub record IsLinked (c : Session) (s : Server) : Type 0 where
  pub session : IsSession c
  pub accounts : HasAccounts s.disk
  pub link : HasLink c s

-- A session that an exchange leaves is a valid one.
pub exchange-IsSession :
    (os : Os) (w : World) (command : World → Session → Outcome Turn) (c : Session) (s s' : Server)
    (t : Turn)
    → Ensures IsValid (command (served os s w) c)
    → exchange os w command c s ≡ done (t, s')
    → IsSession t.session
unfolding exchange
exchange-IsSession os w command c s s' t h e =
    let (t1, ran, e1) =
      >>=-eq-done (command (served os s w) c)
        (λ turn. deliver os turn.sent s >>= λ s1. done (turn, s1)) e in
    let (s1, _, e2) = >>=-eq-done (deliver os t1.sent s) (λ s1. done (t1, s1)) e1 in
    let same : t1 ≡ t = ap (λ r. r.0) (done_injective e2) in
    let valid : IsValid t1 = Ensures-done IsValid (command (served os s w) c) ran h in
    rw same at (valid.0)

module _ (uid : Bytes) (c : Session) (s s' : Server) (contract : Contract)
    (accounts : (u : Bytes)
      → account s'.disk u
        ≡ (if text_eq uid u then (contract (account s.disk uid)).0 else account s.disk u))
    (link : HasLink c s) where
  own_account :
      text_eq uid c.uid ≡ true
      → is_logged c ≡ true
      → account s.disk uid ≡ some (record { pass = c.pass; logged = true })
  own_account e on = ap (account s.disk) (text_eq_sound uid c.uid e) ∙ link on

  -- A command that keeps the account of a user who is logged in keeps the link.
  kept_link :
      (text_eq uid c.uid ≡ true
        → is_logged c ≡ true
        → (contract (some (record { pass = c.pass; logged = true }))).0
          ≡ some (record { pass = c.pass; logged = true }))
      → HasLink c s'
  kept_link keeps on = elim (Bool-cases (text_eq uid c.uid)) [
    | inr e ↦ accounts c.uid ∙ rw e (link on)
    | inl e ↦ accounts c.uid ∙ rw e (ap (λ a. (contract a).0) (own_account e on) ∙ keeps e on)
  ]

not_own : (a b : Bytes) → text_eq a b ≡ true → text_eq b a ≡ false → ⊥
not_own a b h k =
    let e : a ≡ b = text_eq_sound a b h in
    let f : text_eq b a ≡ true = rw e (text_eq_refl b) in ground arith

abbrev pass_of : Option Account → Bytes
pass_of none = []
pass_of (some a) = a.pass

module _ (uid pass : Bytes) (c : Session) (s s' : Server) (link : HasLink c s) where
  pub register-HasLink :
      ((u : Bytes)
        → account s'.disk u ≡ (
            if text_eq uid u then (reg_contract pass (account s.disk uid)).0 else account s.disk u))
      → HasLink (reg_turn uid pass c (account s.disk uid)).session s'
  register-HasLink accounts = elim (Option-cases (account s.disk uid)) [
    | inl e ↦ rw e (kept_link uid c s s' (reg_contract pass) accounts link (λ own on. refl))
    | inr (a, e) ↦ rw e (kept_link uid c s s' (reg_contract pass) accounts link (λ own on. refl))
  ]

  pub log_in-HasLink :
      ((u : Bytes)
        → account s'.disk u ≡ (
            if text_eq uid u
            then (login_contract pass (account s.disk uid)).0
            else account s.disk u))
      → HasLink (login_turn uid pass c (account s.disk uid)).session s'
  log_in-HasLink accounts =
      let kept : HasLink c s' = kept_link uid c s s' (login_contract pass) accounts link (λ own on.
        elim (Bool-cases (text_eq c.pass pass)) [ inl e ↦ rw e refl | inr e ↦ rw e refl ]) in
      elim (Option-cases (account s.disk uid)) [
        | inl e ↦ rw e kept
        | inr (a, e) ↦ elim (Bool-cases (text_eq a.pass pass)) [
          | inr f ↦ rw (e, f) kept
          | inl f ↦ elim (Bool-cases (is_logged c)) [
            | inl on ↦ rw (e, f, on) kept
            | inr off ↦
                rw (e, f, off)
                  (λ on.
                    accounts uid
                    ∙ rw (text_eq_refl uid, e, f)
                        (ap (λ p. some (record { pass = p; logged = true }))
                          (text_eq_sound a.pass pass f)))
          ]
        ]
      ]

  pub unregister-HasLink :
      ((u : Bytes)
        → account s'.disk u ≡ (
            if text_eq uid u
            then (unregister_contract pass (account s.disk uid)).0
            else account s.disk u))
      → HasLink (unregister_turn uid pass c (account s.disk uid)).session s'
  unfolding logout is_logged
  unregister-HasLink accounts =
      let kept : (text_eq uid c.uid ≡ true
            → is_logged c ≡ true
            → (unregister_contract pass (some (record { pass = c.pass; logged = true }))).0
              ≡ some (record { pass = c.pass; logged = true }))
          → HasLink c s' =
        kept_link uid c s s' (unregister_contract pass) accounts link in
      let mine : text_eq uid c.uid ≡ true
          → is_logged c ≡ true
          → account s.disk uid ≡ some (record { pass = c.pass; logged = true }) =
        own_account uid c s s' (unregister_contract pass) accounts link in
      elim (Option-cases (account s.disk uid)) [
        | inl e ↦ rw e (
            kept (λ own on. absurd (
              let f : Path (Option Account) none (some (record { pass = c.pass; logged = true })) =
                sym e ∙ mine own on in
              ground arith)))
        | inr (a, e) ↦ elim (Bool-cases (text_eq a.pass pass)) [
          | inr f ↦
              rw (e, f)
                (kept (λ own on.
                  let g : text_eq c.pass pass ≡ false =
                    ap (λ o. text_eq (pass_of o) pass) (sym (mine own on) ∙ e) ∙ f in
                  rw g refl))
          | inl f ↦ elim (Bool-cases (is_logged c)) [
            | inr off ↦ rw (e, f, off) (λ on. absurd (ground arith))
            | inl on ↦ elim (Bool-cases (text_eq c.uid uid)) [
              | inl own ↦ rw (e, f, on, own) (λ on. absurd (ground arith))
              | inr other ↦
                  rw (e, f, on, other) (kept (λ own on. absurd (not_own uid c.uid own other)))
            ]
          ]
        ]
      ]
