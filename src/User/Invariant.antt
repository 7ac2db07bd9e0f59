-- ===== src/User/Invariant.antt =====
-- The session of the user's program through all its commands, and the datagrams that it sends.
pub mod Accounts
pub mod Groups
pub mod Messages
pub mod Prompt
use projeto_rc.Base.{
  ℕ, zero, suc, ◌+◌, ◌-◌, ◌≤◌, ◌<◌, ◌≡◌, refl, sym, ◌∙◌, ap, ◌⊎◌, inl, inr, Bool, true, false, not,
  ◌&&◌, Option, none, some, List, [], ◌∷◌, ◌++◌, arith, Bytes, codes, ltb, ltb-lt, text_eq,
  is_digit, length, length-append, replicate, all, All, if◌then◌else◌, Bool-cases,
}
use projeto_rc.Base.Decimal.{print, print_padded}
use projeto_rc.Base.Decimal.RoundTrip.{print_padded-digits}
use projeto_rc.Base.Decimal.Length.{print_padded-length}
use projeto_rc.Server.Checks.{atoi}
use projeto_rc.Base.Outcome.{Outcome, done, stop, ◌>>=◌, Ensures, Ensures->>=, Ensures-if}
use projeto_rc.Server.Reply.{Message, udp, tcp, text_of}
use projeto_rc.Util.Word.{Cursor, get_word}
use projeto_rc.User.Checks.{check_uid, check_pass, check_gid, check_gname, both_valid}
use projeto_rc.User.Session.{
  unanswered, Session, World, Turn, Line, stay, told, ask, response, is_logged, logout, login,
  select_group, init_session,
}
use projeto_rc.User.Accounts.{
  buffer_size, credentials_message, with_credentials, register, remove_user, log_in, log_out, reg,
  unregister, login_, logout_, showuid,
}

-- A session is nobody's, without a group, or a user's with a valid uid and password; a group that is
-- selected has a valid gid.
pub record IsSession (s : Session) : Type 0 where
  pub user : (s.uid ≡ []) ⊎ ((check_uid (some s.uid) ≡ true) × (check_pass (some s.pass) ≡ true))
  pub group : (s.gid ≡ []) ⊎ (check_gid (some s.gid) ≡ true)
  pub alone : s.uid ≡ [] → s.gid ≡ []

-- A datagram that the server's buffer holds whole.
abbrev pub Fits : Message → Type 0
Fits (udp text) = length text < buffer_size
Fits (tcp text) = Unit

abbrev pub IsValid : Turn → Type 0
IsValid t = IsSession t.session × All Fits t.sent

abbrev pub ValidTurn : Turn × Cursor → Type 0
ValidTurn r = IsValid r.0

pub with_cursor-ValidTurn :
    (m : Outcome Turn) (cur : Cursor)
    → Ensures IsValid m
    → Ensures ValidTurn (m >>= λ turn. done (turn, cur))
with_cursor-ValidTurn (done turn) cur h = h
with_cursor-ValidTurn (stop e) cur h = tt

pub if-holds :
    {A : Type 0} (P : A → Type 0) (b : Bool) (x y : A) → P x → P y → P (if b then x else y)
if-holds P true x y h k = h
if-holds P false x y h k = k

pub init_session-IsSession : IsSession init_session
unfolding init_session
init_session-IsSession = record { user = inl refl; group = inl refl; alone = λ e. refl }

pub logout-IsSession : (s : Session) → IsSession (logout s)
unfolding logout
logout-IsSession s = record { user = inl refl; group = inl refl; alone = λ e. refl }

pub login-IsSession :
    (s : Session) (uid pass : Bytes)
    → IsSession s
    → is_logged s ≡ false
    → check_uid (some uid) ≡ true
    → check_pass (some pass) ≡ true
    → Ensures IsSession (login s uid pass)
unfolding login is_logged check_uid
login-IsSession s uid pass v out u p =
    elim (Bool-cases (ltb (length uid) 6 && ltb (length pass) 9)) [
      | inl e ↦ rw e (record {
        user = inr (u, p);
        group = v.group;
        alone =
            λ k. let false_uid : check_uid (some []) ≡ true = rw k at u in absurd (ground arith);
      })
      | inr e ↦ rw e tt
    ]

pub select_group-IsSession :
    (s : Session) (gid : Bytes)
    → IsSession s
    → is_logged s ≡ true
    → Ensures IsSession (select_group s gid)
unfolding select_group is_logged check_gid
select_group-IsSession s gid v on =
    let text : Bytes = print_padded 2 (atoi gid) in
    Ensures-if IsSession _ _ _
      (λ e.
        let short : length text < 3 = ltb-lt _ _ e in
        let two : length text ≡ 2 = omega (arith, print_padded-length 2 (atoi gid)) in
        record {
          user = v.user;
          group = inr (ground (arith, print_padded-digits 2 (atoi gid)));
          alone = λ k. absurd (ground arith);
        })
      (λ e. tt)

-- A session that is logged in has a valid uid and password.
pub logged_user :
    (s : Session)
    → IsSession s
    → is_logged s ≡ true
    → (check_uid (some s.uid) ≡ true) × (check_pass (some s.pass) ≡ true)
unfolding is_logged
logged_user s v on = elim v.user [ inl e ↦ absurd (ground arith) | inr valid ↦ valid ]

-- A request and what is done with its response.
pub ask-IsValid :
    (w : World) (s : Session) (msg : Bytes) (size : ℕ) (next : Cursor → Outcome Turn)
    → IsSession s
    → length msg < buffer_size
    → ((reply : Cursor) → Ensures IsValid (next reply))
    → Ensures IsValid (ask w s msg size next)
unfolding ask
ask-IsValid w s msg size next v short h =
    elim (w.answer msg)
      as (λ o. Ensures IsValid (elim o as (λ _. Outcome Turn) [
        | none ↦ done (unanswered s (udp msg))
        | some text ↦ response size text >>= next
      ])) [
        | none ↦ (v, (short, tt))
        | some text ↦ Ensures->>= IsValid (response size text) next (λ r e. h r)
      ]
