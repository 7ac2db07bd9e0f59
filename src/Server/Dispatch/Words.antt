-- ===== src/Server/Dispatch/Words.antt =====
-- The account requests as the user's program sends them: a command, a uid and a password.
use mathlib.Core.List.{reverse}
use projeto_rc.Base.{
  ◌≡◌, refl, true, false, ◌||◌, some, [], ◌∷◌, ◌++◌, arith, Bytes, codes, nul, space, newline,
  is_digit, is_alpha, all, ◌==◌,
}
use projeto_rc.Base.Outcome.{Outcome, done, ◌>>=◌}
use projeto_rc.Disk.{Disk, Os}
use projeto_rc.Util.Word.{Cursor, start}
use projeto_rc.Util.Word.Laws.{IsWord, get_word-word}
use projeto_rc.Server.Checks.{check_uid, check_pass}
use projeto_rc.Server.Reply.{Answer}
use projeto_rc.Server.Accounts.{
  with_credentials, reg, unregister, login_, logout_, register, remove_user, log_in, log_out,
}
use projeto_rc.Server.Dispatch.{parse_udp_message}

pub digits-IsWord : (s : Bytes) → all is_digit s ≡ true → IsWord s
digits-IsWord [] h = tt
digits-IsWord (c ∷ s) h = (ground arith, digits-IsWord s (ground arith))

pub alphanumeric-IsWord : (s : Bytes) → all (λ c. is_digit c || is_alpha c) s ≡ true → IsWord s
alphanumeric-IsWord [] h = tt
alphanumeric-IsWord (c ∷ s) h = (ground arith, alphanumeric-IsWord s (ground arith))

pub gname-IsWord :
    (s : Bytes) → all (λ c. is_digit c || is_alpha c || c == b'-' || c == b'_') s ≡ true → IsWord s
gname-IsWord [] h = tt
gname-IsWord (c ∷ s) h = (ground arith, gname-IsWord s (ground arith))

-- What `args` points to when a request has a valid uid and password.
abbrev pub credentials : Bytes → Bytes → Bytes → Bytes
credentials uid pass rest = uid ++ space ∷ (pass ++ newline ∷ rest)

abbrev pub after_credentials : Bytes → Bytes → Bytes → Bytes → Cursor
after_credentials behind uid pass rest = record {
  behind = nul ∷ (reverse pass ++ nul ∷ (reverse uid ++ behind));
  ahead = rest;
  ended = false;
}

with_credentials_words :
    (os : Os) (refusal : Bytes) (body : Bytes → Bytes → Disk → Outcome Answer)
    (uid pass rest behind : Bytes) (fs : Disk)
    → check_uid (some uid) ≡ true
    → check_pass (some pass) ≡ true
    → with_credentials os refusal body
        (record { behind = behind; ahead = credentials uid pass rest; ended = false })
        fs
      ≡ (body uid pass fs >>= λ a. done (a, after_credentials behind uid pass rest))
unfolding with_credentials check_uid check_pass
with_credentials_words os refusal body [] pass rest behind fs u p = absurd (ground arith)
with_credentials_words os refusal body (x ∷ uid) [] rest behind fs u p = absurd (ground arith)
with_credentials_words os refusal body (x ∷ uid) (y ∷ pass) rest behind fs u p = rw (
  get_word-word x uid space ((y ∷ pass) ++ newline ∷ rest) behind
      (digits-IsWord (x ∷ uid) (ground arith)) refl,
  get_word-word y pass newline rest (nul ∷ (reverse (x ∷ uid) ++ behind))
      (alphanumeric-IsWord (y ∷ pass) (ground arith)) refl,
  u,
  p,
)

-- The text of a request: a command of three letters, a uid and a password.
abbrev pub request : Bytes → Bytes → Bytes → Bytes → Bytes
request command uid pass rest = command ++ space ∷ credentials uid pass rest

abbrev pub answered : Bytes → Bytes → Bytes → Bytes → Outcome Answer → Outcome (Answer × Cursor)
answered command uid pass rest o =
    o >>= λ a. done (a, after_credentials (nul ∷ reverse command) uid pass rest)

module _ (os : Os) (uid pass rest : Bytes) (fs : Disk) (u : check_uid (some uid) ≡ true)
    (p : check_pass (some pass) ≡ true) where
  pub parse_udp_message-reg :
      parse_udp_message os (start (request (codes "REG") uid pass rest)) fs
      ≡ answered (codes "REG") uid pass rest (register os uid pass fs)
  unfolding parse_udp_message reg
  parse_udp_message-reg =
      with_credentials_words os (codes "RRG NOK\n") (register os) uid pass rest
        (nul ∷ reverse (codes "REG")) fs u p

  pub parse_udp_message-unregister :
      parse_udp_message os (start (request (codes "UNR") uid pass rest)) fs
      ≡ answered (codes "UNR") uid pass rest (remove_user os uid pass fs)
  unfolding parse_udp_message unregister
  parse_udp_message-unregister =
      with_credentials_words os (codes "RUN NOK\n") (remove_user os) uid pass rest
        (nul ∷ reverse (codes "UNR")) fs u p

  pub parse_udp_message-login_ :
      parse_udp_message os (start (request (codes "LOG") uid pass rest)) fs
      ≡ answered (codes "LOG") uid pass rest (log_in os uid pass fs)
  unfolding parse_udp_message login_
  parse_udp_message-login_ =
      with_credentials_words os (codes "RLO NOK\n") (log_in os) uid pass rest
        (nul ∷ reverse (codes "LOG")) fs u p

  pub parse_udp_message-logout_ :
      parse_udp_message os (start (request (codes "OUT") uid pass rest)) fs
      ≡ answered (codes "OUT") uid pass rest (log_out os uid pass fs)
  unfolding parse_udp_message logout_
  parse_udp_message-logout_ =
      with_credentials_words os (codes "ROU NOK\n") (log_out os) uid pass rest
        (nul ∷ reverse (codes "OUT")) fs u p
