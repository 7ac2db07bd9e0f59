-- ===== src/User/Typed.antt =====
-- The lines that are typed for the account commands, from the prompt's buffer to the command.
use mathlib.Core.List.{reverse}
use projeto_rc.Base.{
  ℕ, ◌≡◌, refl, true, false, some, [], ◌∷◌, ◌++◌, arith, Bytes, codes, nul, space, length, ◌==◌,
}
use projeto_rc.Base.Outcome.{Outcome, done, stop, ◌>>=◌}
use projeto_rc.Disk.{Os}
use projeto_rc.Util.Word.{Cursor, c_string, get_word, buffer_of}
use projeto_rc.Util.Word.Laws.{IsWord, get_word-word}
use projeto_rc.Server.Dispatch.Words.{digits-IsWord, alphanumeric-IsWord}
use projeto_rc.User.Checks.{check_uid, check_pass}
use projeto_rc.User.Session.{Session, World, Turn}
use projeto_rc.User.Accounts.{
  with_credentials, register, remove_user, log_in, reg, unregister, login_,
}
use projeto_rc.User.Prompt.{parse_input}

-- A uid and a password in the prompt's buffer, and what an earlier line left behind them.
abbrev pub typed : Bytes → Bytes → Bytes → Bytes
typed uid pass junk = uid ++ space ∷ (pass ++ nul ∷ junk)

-- The cursor behind the password, at the end of the line.
abbrev pub after_typed : Bytes → Bytes → Bytes → Bytes → Cursor
after_typed behind uid pass junk = record {
  behind = nul ∷ (reverse pass ++ nul ∷ (reverse uid ++ behind));
  ahead = junk;
  ended = true;
}

c_string-word : (w junk : Bytes) → IsWord w → c_string (w ++ nul ∷ junk) ≡ done w
c_string-word [] junk h = refl
c_string-word (c ∷ w) junk (h, hs) = ground (arith, c_string-word w junk hs)

c_string-typed :
    (uid pass junk : Bytes)
    → IsWord uid
    → IsWord pass
    → c_string (typed uid pass junk) ≡ done (uid ++ space ∷ pass)
c_string-typed [] pass junk h k = rw (c_string-word pass junk k) refl
c_string-typed (c ∷ uid) pass junk (h, hs) k = ground (arith, c_string-typed uid pass junk hs k)

with_credentials-typed :
    (body : Bytes → Bytes → Session → Outcome Turn) (uid pass junk behind : Bytes) (s : Session)
    → check_uid (some uid) ≡ true
    → check_pass (some pass) ≡ true
    → with_credentials body
        (record { behind = behind; ahead = typed uid pass junk; ended = false })
        s
      ≡ (body uid pass s >>= λ t. done (t, after_typed behind uid pass junk))
unfolding with_credentials check_uid check_pass
with_credentials-typed body [] pass junk behind s u p = absurd (ground arith)
with_credentials-typed body (x ∷ uid) [] junk behind s u p = absurd (ground arith)
with_credentials-typed body (x ∷ uid) (y ∷ pass) junk behind s u p = rw (
  get_word-word x uid space ((y ∷ pass) ++ nul ∷ junk) behind
      (digits-IsWord (x ∷ uid) (ground arith)) refl,
  get_word-word y pass nul junk (nul ∷ (reverse (x ∷ uid) ++ behind))
      (alphanumeric-IsWord (y ∷ pass) (ground arith)) refl,
  u,
  p,
)

not_empty : (c : ℕ) (s : Bytes) → (length (c ∷ s) == 0) ≡ false
not_empty c s = ground arith

-- A command on what is typed, with the buffer that it leaves.
abbrev pub performed : Bytes → Bytes → Bytes → Bytes → Outcome Turn → Outcome (Turn × Bytes)
performed command uid pass junk o =
    o >>= λ t. done (t, buffer_of (after_typed (nul ∷ reverse command) uid pass junk))

module _ (os : Os) (w : World) (uid pass junk : Bytes) (s : Session)
    (u : check_uid (some uid) ≡ true) (p : check_pass (some pass) ≡ true) where
  typed_line : c_string (typed uid pass junk) ≡ done (uid ++ space ∷ pass)
  unfolding check_uid check_pass
  typed_line =
      c_string-typed uid pass junk (digits-IsWord uid (ground arith))
        (alphanumeric-IsWord pass (ground arith))

  performed_bind :
      (command : Bytes) (o : Outcome Turn)
      → ◌>>=◌ {A = Turn × Cursor}
          (o >>= λ t. done (t, after_typed (nul ∷ reverse command) uid pass junk))
          (λ r. done (r.0, buffer_of r.1))
        ≡ performed command uid pass junk o
  performed_bind command (done t) = refl
  performed_bind command (stop e) = refl

  typed_reg :
      parse_input os w (codes "reg " ++ typed uid pass junk) s
      ≡ performed (codes "reg") uid pass junk (register w uid pass s)
  unfolding parse_input reg get_word
  typed_reg =
      rw
        (
          typed_line,
          with_credentials-typed (register w) uid pass junk (nul ∷ reverse (codes "reg")) s u p,
          not_empty b'r' (codes "eg " ++ (uid ++ space ∷ pass)),
        )
        (performed_bind (codes "reg") (register w uid pass s))

  typed_unregister :
      parse_input os w (codes "unregister " ++ typed uid pass junk) s
      ≡ performed (codes "unregister") uid pass junk (remove_user w uid pass s)
  unfolding parse_input unregister get_word
  typed_unregister =
      rw
        (
          typed_line,
          with_credentials-typed (remove_user w) uid pass junk (nul ∷ reverse (codes "unregister"))
              s u p,
          not_empty b'u' (codes "nregister " ++ (uid ++ space ∷ pass)),
        )
        (performed_bind (codes "unregister") (remove_user w uid pass s))

  typed_login :
      parse_input os w (codes "login " ++ typed uid pass junk) s
      ≡ performed (codes "login") uid pass junk (log_in w uid pass s)
  unfolding parse_input login_ get_word
  typed_login =
      rw
        (
          typed_line,
          with_credentials-typed (log_in w) uid pass junk (nul ∷ reverse (codes "login")) s u p,
          not_empty b'l' (codes "ogin " ++ (uid ++ space ∷ pass)),
        )
        (performed_bind (codes "login") (log_in w uid pass s))

  -- A line with reg, unregister or login, a valid uid and a valid password, whatever the buffer
  -- holds behind it, runs exactly that command on them.
  pub parse_input-typed :
      (parse_input os w (codes "reg " ++ typed uid pass junk) s
        ≡ performed (codes "reg") uid pass junk (register w uid pass s))
      × (parse_input os w (codes "unregister " ++ typed uid pass junk) s
          ≡ performed (codes "unregister") uid pass junk (remove_user w uid pass s))
      × (parse_input os w (codes "login " ++ typed uid pass junk) s
          ≡ performed (codes "login") uid pass junk (log_in w uid pass s))
  parse_input-typed = (typed_reg, typed_unregister, typed_login)
