-- ===== src/User/Invariant/Accounts.antt =====
-- The account commands of the user's program, and what a session may be.
use projeto_rc.Base.{
  List, ℕ, ◌<◌, ◌≡◌, inl, inr, true, false, Option, none, some, [], ◌∷◌, ◌++◌, arith, Bytes, codes,
  text_eq, length, length-append, if◌then◌else◌, Bool-cases,
}
use projeto_rc.Base.Outcome.{Outcome, done, ◌>>=◌, Ensures, Ensures->>=, Ensures-done}
use projeto_rc.Util.Word.{Cursor, get_word}
use projeto_rc.Server.Reply.{udp, text_of}
use projeto_rc.User.Checks.{credentials_lines, check_uid, check_pass, both_valid}
use projeto_rc.User.Session.{
  Line, Session, World, Turn, success, stay, told, expect, read_word, is_logged, login,
}
use projeto_rc.User.Accounts.{
  buffer_size, credentials_message, with_credentials, register, remove_user, log_in, log_out, reg,
  unregister, login_, logout_, showuid,
}
use projeto_rc.User.Invariant.{
  IsSession, IsValid, ValidTurn, with_cursor-ValidTurn, logged_user, ask-IsValid, logout-IsSession,
  login-IsSession, if-holds,
}

pub credentials_message-Fits :
    (a b c : ℕ) (uid pass : Bytes)
    → check_uid (some uid) ≡ true
    → check_pass (some pass) ≡ true
    → length (credentials_message (a ∷ b ∷ c ∷ []) uid pass) < buffer_size
unfolding check_uid check_pass
credentials_message-Fits a b c uid pass u p =
    ground (
      arith,
      length-append uid (codes " " ++ (pass ++ codes "\n")),
      length-append pass (codes "\n"),
    )

module _ (w : World) (uid pass : Bytes) (s : Session) (v : IsSession s)
    (u : check_uid (some uid) ≡ true) (p : check_pass (some pass) ≡ true) where
  pub register-IsValid : Ensures IsValid (register w uid pass s)
  unfolding register
  register-IsValid =
      let short = credentials_message-Fits b'R' b'E' b'G' uid pass u p in
      ask-IsValid w s _ buffer_size _ v short λ reply.
        Ensures->>= IsValid (expect (codes "RRG") reply) _
          λ next _. Ensures->>= IsValid (read_word next.1) _ λ status _. (v, (short, tt))

  pub remove_user-IsValid : Ensures IsValid (remove_user w uid pass s)
  unfolding remove_user
  remove_user-IsValid =
      let short = credentials_message-Fits b'U' b'N' b'R' uid pass u p in
      ask-IsValid w s _ buffer_size _ v short λ reply.
        Ensures->>= IsValid (expect (codes "RUN") reply) _ λ next _.
          Ensures->>= IsValid (read_word next.1) _ λ status _.
            elim (Bool-cases (text_eq status.0 (codes "OK"))) [
              | inl e ↦ rw e (
                if-holds IsSession (is_logged s) _ _
                    (if-holds IsSession (text_eq s.uid uid) _ _ (logout-IsSession s) v) v,
                (short, tt),
              )
              | inr e ↦ rw e (v, (short, tt))
            ]

  logged :
      (noted : List Line)
      → is_logged s ≡ false
      → length (credentials_message (codes "LOG") uid pass) < buffer_size
      → Ensures IsValid (
          login s uid pass >>= λ s'. done (
            told s'
              (udp (credentials_message (codes "LOG") uid pass))
              (noted ++ success (codes "You are now logged in") ∷ [])))
  logged noted off short = Ensures->>= IsValid (login s uid pass) _ λ s' e. (
    Ensures-done IsSession (login s uid pass) e (login-IsSession s uid pass v off u p),
    (short, tt),
  )

  pub log_in-IsValid : Ensures IsValid (log_in w uid pass s)
  unfolding log_in
  log_in-IsValid =
      let short = credentials_message-Fits b'L' b'O' b'G' uid pass u p in
      ask-IsValid w s _ buffer_size _ v short λ reply.
        Ensures->>= IsValid (expect (codes "RLO") reply) _ λ next _.
          Ensures->>= IsValid (read_word next.1) _ λ status _.
            elim (Bool-cases (text_eq status.0 (codes "OK"))) [
              | inr e ↦ rw e (v, (short, tt))
              | inl e ↦ elim (Bool-cases (is_logged s)) [
                | inl on ↦ rw (e, on) (v, (short, tt))
                | inr off ↦ rw (e, off) (logged next.0 off short)
              ]
            ]

module _ (w : World) (s : Session) (v : IsSession s) where
  pub log_out-IsValid : Ensures IsValid (log_out w s)
  unfolding log_out
  log_out-IsValid = elim (Bool-cases (is_logged s)) [
    | inr off ↦ rw off (v, tt)
    | inl on ↦
        let (u, p) = logged_user s v on in
        let short = credentials_message-Fits b'O' b'U' b'T' s.uid s.pass u p in
        rw on (
          ask-IsValid w s _ buffer_size _ v short λ reply.
            Ensures->>= IsValid (expect (codes "ROU") reply) _ λ next _.
              Ensures->>= IsValid (expect (codes "OK") next.1) _
                λ _ _. (logout-IsSession s, (short, tt)))
  ]

module _ (w : World) (args : Cursor) (s : Session) (v : IsSession s) where
  module _ (body : Bytes → Bytes → Session → Outcome Turn)
      (h : (uid pass : Bytes)
        → check_uid (some uid) ≡ true
        → check_pass (some pass) ≡ true
        → Ensures IsValid (body uid pass s)) where
    valid_words :
        (a b : Option Bytes)
        → Ensures IsValid (
            if both_valid a b
            then body (text_of a) (text_of b) s
            else done (stay s (credentials_lines a b)))
    unfolding check_uid check_pass
    valid_words none b = (v, tt)
    valid_words (some a) none = elim (Bool-cases (check_uid (some a))) [
      | inl e ↦ rw e (v, tt)
      | inr e ↦ rw e (v, tt)
    ]
    valid_words (some a) (some b) = elim (Bool-cases (check_uid (some a))) [
      | inr e ↦ rw e (v, tt)
      | inl u ↦ elim (Bool-cases (check_pass (some b))) [
        | inr e ↦ rw (u, e) (v, tt)
        | inl p ↦ rw (u, p) (h a b u p)
      ]
    ]

    with_credentials-ValidTurn : Ensures ValidTurn (with_credentials body args s)
    unfolding with_credentials
    with_credentials-ValidTurn = Ensures->>= ValidTurn (get_word args) _ λ a _.
        Ensures->>= ValidTurn (get_word a.1) _
          λ b _. with_cursor-ValidTurn _ b.1 (valid_words a.0 b.0)

  pub reg-ValidTurn : Ensures ValidTurn (reg w args s)
  unfolding reg
  reg-ValidTurn =
      with_credentials-ValidTurn (register w) (λ uid pass u p. register-IsValid w uid pass s v u p)

  pub unregister-ValidTurn : Ensures ValidTurn (unregister w args s)
  unfolding unregister
  unregister-ValidTurn =
      with_credentials-ValidTurn (remove_user w)
        (λ uid pass u p. remove_user-IsValid w uid pass s v u p)

  pub login_-ValidTurn : Ensures ValidTurn (login_ w args s)
  unfolding login_
  login_-ValidTurn =
      with_credentials-ValidTurn (log_in w) (λ uid pass u p. log_in-IsValid w uid pass s v u p)

  pub logout_-ValidTurn : Ensures ValidTurn (logout_ w args s)
  unfolding logout_
  logout_-ValidTurn = with_cursor-ValidTurn (log_out w s) args (log_out-IsValid w s v)

  pub showuid-ValidTurn : Ensures ValidTurn (showuid w args s)
  unfolding showuid
  showuid-ValidTurn = elim (Bool-cases (is_logged s)) [
    | inl e ↦ rw e (v, tt)
    | inr e ↦ rw e (v, tt)
  ]
