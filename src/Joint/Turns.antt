-- ===== src/Joint/Turns.antt =====
-- What the account commands of the user's program leave, by the reply that the server's contract gives.
use projeto_rc.Base.{
  ℕ, ◌≡◌, refl, ◌∙◌, ap, inl, inr, Bool, true, false, Option, none, some, List, [], ◌∷◌, ◌++◌,
  arith, Bytes, codes, text_eq, ltb, length, if◌then◌else◌, Bool-cases,
}
use projeto_rc.Base.Outcome.{Outcome, done, ◌>>=◌}
use projeto_rc.Server.Checks.{check_uid, check_pass}
use projeto_rc.Disk.{Os}
use projeto_rc.Server.Reply.{Message, udp}
use projeto_rc.Server.Dispatch.{Server, datagram, handle}
use projeto_rc.Joint.{served, deliver, exchange}
use projeto_rc.Server.Accounts.Spec.{
  Account, reg_contract, unregister_contract, login_contract, logout_contract,
}
use projeto_rc.User.Session.{
  Line, unanswered, Session, World, Turn, success, warning, error, told, ask, response, expect,
  read_word, is_logged, login, logout,
}
use projeto_rc.Util.Word.{Cursor, get_word}
use projeto_rc.User.Accounts.{
  buffer_size, credentials_message, register, remove_user, log_in, log_out,
}

module _ (uid pass : Bytes) (c : Session) where
  -- What `reg` promises the user, by the account that there is.
  abbrev pub reg_turn : Option Account → Turn
  reg_turn none =
      told c (udp (credentials_message (codes "REG") uid pass))
        (success (codes "User successfully registered") ∷ [])
  reg_turn (some a) =
      told c (udp (credentials_message (codes "REG") uid pass))
        (warning (codes "User is already registered") ∷ [])

  abbrev pub refused_turn : Bytes → Turn
  refused_turn command =
      told c (udp (credentials_message command uid pass))
        (error (codes "Invalid user or incorrect password") ∷ [])

  abbrev pub unregister_done : Session → Turn
  unregister_done c' =
      told c' (udp (credentials_message (codes "UNR") uid pass))
        (success (codes "User successfully unregistered") ∷ [])

  abbrev pub unregister_turn : Option Account → Turn
  unregister_turn none = refused_turn (codes "UNR")
  unregister_turn (some a) =
      if text_eq a.pass pass
      then unregister_done (if is_logged c then (if text_eq c.uid uid then logout c else c) else c)
      else refused_turn (codes "UNR")

  abbrev pub login_warning : Turn
  login_warning =
      told c (udp (credentials_message (codes "LOG") uid pass))
        (warning (codes "You are already logged in") ∷ [])

  abbrev pub login_done : Session → Turn
  login_done c' =
      told c' (udp (credentials_message (codes "LOG") uid pass))
        (success (codes "You are now logged in") ∷ [])

  abbrev pub login_turn : Option Account → Turn
  login_turn none = refused_turn (codes "LOG")
  login_turn (some a) =
      if text_eq a.pass pass
      then (if is_logged c then login_warning else login_done (record c { uid = uid; pass = pass }))
      else refused_turn (codes "LOG")

-- A refusal is told by `EXPECT`, and the session ends all the same.
abbrev pub logged_out : Session → List Line → Turn
logged_out c lines =
    told (logout c) (udp (credentials_message (codes "OUT") c.uid c.pass))
      (lines ++ success (codes "You are now logged out") ∷ [])

abbrev pub not_expected : List Line
not_expected = error (codes "Unexpected response from server") ∷ []

abbrev pub logout_turn : Session → Option Account → Turn
logout_turn c none = logged_out c not_expected
logout_turn c (some a) = logged_out c (if text_eq a.pass c.pass then [] else not_expected)

pub ask-answer :
    (w : World) (c : Session) (msg text : Bytes) (size : ℕ) (next : Cursor → Outcome Turn)
    → w.answer msg ≡ some text
    → ask w c msg size next ≡ (response size text >>= next)
unfolding ask
ask-answer w c msg text size next h =
    ap
      (λ (o : Option Bytes). elim o as (λ _. Outcome Turn) [
        | none ↦ done (unanswered c (udp msg))
        | some t ↦ response size t >>= next
      ])
      h

-- A command that sends one datagram and is answered by the server comes to its end with it.
pub exchange-answered :
    (os : Os) (w : World) (command : World → Session → Outcome Turn) (c : Session) (s s' : Server)
    (turn : Turn) (msg : Bytes) (sent : List Message)
    → command (served os s w) c ≡ done turn
    → turn.sent ≡ udp msg ∷ []
    → handle os (datagram msg) s ≡ done (s', sent)
    → exchange os w command c s ≡ done (turn, s')
unfolding exchange deliver
exchange-answered os w command c s s' turn msg sent ran one e =
    ap (λ o. o >>= λ t. deliver os t.sent s >>= λ s1. done (t, s1)) ran
    ∙ (ap (λ ms. deliver os ms s >>= λ s1. done (turn, s1)) one
        ∙ ap (λ o. o >>= (λ r. deliver os [] r.0) >>= λ s1. done (turn, s1)) e)

login_valid :
    (c : Session) (uid pass : Bytes)
    → check_uid (some uid) ≡ true
    → check_pass (some pass) ≡ true
    → login c uid pass ≡ done (record c { uid = uid; pass = pass })
unfolding login check_uid check_pass
login_valid c uid pass u p =
    let a : ltb (length uid) 6 ≡ true = ground arith in
    let b : ltb (length pass) 9 ≡ true = ground arith in rw (a, b) refl

module _ (w : World) (uid pass : Bytes) (c : Session) where
  pub register-answer :
      (a : Option Account)
      → w.answer (credentials_message (codes "REG") uid pass) ≡ some (reg_contract pass a).1
      → register w uid pass c ≡ done (reg_turn uid pass c a)
  unfolding register response expect read_word get_word
  register-answer none h = ask-answer w c _ _ buffer_size _ h
  register-answer (some a) h = ask-answer w c _ _ buffer_size _ h

  pub remove_user-answer :
      (a : Option Account)
      → w.answer (credentials_message (codes "UNR") uid pass) ≡ some (unregister_contract pass a).1
      → remove_user w uid pass c ≡ done (unregister_turn uid pass c a)
  unfolding remove_user response expect read_word get_word
  remove_user-answer none h = ask-answer w c _ _ buffer_size _ h
  remove_user-answer (some a) h = elim (Bool-cases (text_eq a.pass pass)) [
    | inl e ↦ rw e (ask-answer w c _ _ buffer_size _ (rw e at h))
    | inr e ↦ rw e (ask-answer w c _ _ buffer_size _ (rw e at h))
  ]

  module _ (u : check_uid (some uid) ≡ true) (p : check_pass (some pass) ≡ true) where
    log_in_branches :
        (b : Bool)
        → (if b
            then done (login_warning uid pass c)
            else (login c uid pass >>= λ c'. done (login_done uid pass c c')))
          ≡ done (
              if b
              then login_warning uid pass c
              else login_done uid pass c (record c { uid = uid; pass = pass }))
    log_in_branches true = refl
    log_in_branches false = rw (login_valid c uid pass u p) refl

  pub log_in-answer :
      check_uid (some uid) ≡ true
      → check_pass (some pass) ≡ true
      → (a : Option Account)
      → w.answer (credentials_message (codes "LOG") uid pass) ≡ some (login_contract pass a).1
      → log_in w uid pass c ≡ done (login_turn uid pass c a)
  unfolding log_in response expect read_word get_word
  log_in-answer u p none h = ask-answer w c _ _ buffer_size _ h
  log_in-answer u p (some a) h = elim (Bool-cases (text_eq a.pass pass)) [
    | inl e ↦
        ask-answer w c _ _ buffer_size _ (rw e at h) ∙ rw e (log_in_branches u p (is_logged c))
    | inr e ↦ rw e (ask-answer w c _ _ buffer_size _ (rw e at h))
  ]

pub log_out-answer :
    (w : World) (c : Session)
    → is_logged c ≡ true
    → (a : Option Account)
    → w.answer (credentials_message (codes "OUT") c.uid c.pass) ≡ some (logout_contract c.pass a).1
    → log_out w c ≡ done (logout_turn c a)
unfolding log_out response expect read_word get_word
log_out-answer w c on none h = rw on (ask-answer w c _ _ buffer_size _ h)
log_out-answer w c on (some a) h = elim (Bool-cases (text_eq a.pass c.pass)) [
  | inl e ↦ rw (on, e) (ask-answer w c _ _ buffer_size _ (rw e at h))
  | inr e ↦ rw (on, e) (ask-answer w c _ _ buffer_size _ (rw e at h))
]

module _ (uid pass : Bytes) (c : Session) where
  pub unregister_turn-sent :
      (a : Option Account)
      → (unregister_turn uid pass c a).sent ≡ udp (credentials_message (codes "UNR") uid pass) ∷ []
  unregister_turn-sent none = refl
  unregister_turn-sent (some a) = elim (Bool-cases (text_eq a.pass pass)) [
    | inl e ↦ rw e refl
    | inr e ↦ rw e refl
  ]

  pub reg_turn-sent :
      (a : Option Account)
      → (reg_turn uid pass c a).sent ≡ udp (credentials_message (codes "REG") uid pass) ∷ []
  reg_turn-sent none = refl
  reg_turn-sent (some a) = refl

  pub login_turn-sent :
      (a : Option Account)
      → (login_turn uid pass c a).sent ≡ udp (credentials_message (codes "LOG") uid pass) ∷ []
  login_turn-sent none = refl
  login_turn-sent (some a) = elim (Bool-cases (text_eq a.pass pass)) [
    | inr e ↦ rw e refl
    | inl e ↦ elim (Bool-cases (is_logged c)) [
      | inl on ↦ rw (e, on) refl
      | inr off ↦ rw (e, off) refl
    ]
  ]

module _ (c : Session) where
  pub logout_turn-sent :
      (a : Option Account)
      → (logout_turn c a).sent ≡ udp (credentials_message (codes "OUT") c.uid c.pass) ∷ []
  logout_turn-sent none = refl
  logout_turn-sent (some a) = refl

  -- The session ends whatever the reply is.
  pub logout_turn-session : (a : Option Account) → (logout_turn c a).session ≡ logout c
  logout_turn-session none = refl
  logout_turn-session (some a) = refl
