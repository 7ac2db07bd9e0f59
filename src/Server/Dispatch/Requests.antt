-- ===== src/Server/Dispatch/Requests.antt =====
-- A datagram with an account request, from the main loop's buffer to the accounts.
use projeto_rc.Base.{
  ℕ, zero, suc, ◌≤◌, ◌≡◌, refl, ◌∙◌, ap, true, some, List, [], ◌∷◌, ◌++◌, arith, Bytes, codes,
  text_eq, space, newline, length, length-append, take, drop, if◌then◌else◌,
}
use projeto_rc.Base.Outcome.{Outcome, done, ◌>>=◌}
use projeto_rc.Disk.{Os}
use projeto_rc.Files.Allowed.{IsPermissive}
use projeto_rc.Util.Word.{Cursor, start, buffer_of}
use projeto_rc.Server.Checks.{check_uid, check_pass}
use projeto_rc.Server.Reply.{Answer, Message, udp}
use projeto_rc.Server.Accounts.{register, remove_user, log_in, log_out}
use projeto_rc.Server.Accounts.Spec.{
  account, HasAccounts, Contract, Implements, reg_contract, unregister_contract, login_contract,
  logout_contract,
}
use projeto_rc.Server.Accounts.Refinement.{register-Implements}
use projeto_rc.Server.Accounts.Sessions.{log_in-Implements, log_out-Implements}
use projeto_rc.Server.Accounts.Unregister.{remove_user-Implements}
use projeto_rc.Server.Dispatch.{
  Server, datagram, wait_udp_message, parse_udp_message, handle, buffer_size,
}
use projeto_rc.Server.Dispatch.Words.{
  credentials, after_credentials, request, answered, parse_udp_message-reg,
  parse_udp_message-unregister, parse_udp_message-login_, parse_udp_message-logout_,
}

-- One round of the loop comes to the reply of the contract, the account of the user is the
-- contract's, no other account changes, and the directory stays in order.
abbrev pub Handles : Contract → Bytes → Server → Outcome (Server × List Message) → Type 0
Handles contract uid s o =
    (s' : Server) × (o ≡ done (s', udp (contract (account s.disk uid)).1 ∷ []))
    × ((u : Bytes)
        → account s'.disk u
          ≡ (if text_eq uid u then (contract (account s.disk uid)).0 else account s.disk u))
    × HasAccounts s'.disk

take_all : (n : ℕ) (s : Bytes) → length s ≤ n → take n s ≡ s
take_all zero [] h = refl
take_all (suc n) [] h = refl
take_all zero (c ∷ s) h = absurd (omega arith)
take_all (suc n) (c ∷ s) h = ap (λ r. c ∷ r) (take_all n s (omega arith))

pub text-append : (pass junk : Bytes) → (pass ++ newline ∷ []) ++ junk ≡ pass ++ newline ∷ junk
text-append [] junk = refl
text-append (c ∷ pass) junk = ap (λ r. c ∷ r) (text-append pass junk)

credentials-append :
    (uid pass junk : Bytes) → credentials uid pass [] ++ junk ≡ credentials uid pass junk
credentials-append [] [] junk = refl
credentials-append [] (c ∷ pass) junk = ap (λ r. space ∷ c ∷ r) (text-append pass junk)
credentials-append (c ∷ uid) pass junk = ap (λ r. c ∷ r) (credentials-append uid pass junk)

length-credentials :
    (uid pass : Bytes)
    → check_uid (some uid) ≡ true
    → check_pass (some pass) ≡ true
    → length (credentials uid pass []) ≡ 15
unfolding check_uid check_pass
length-credentials uid pass u p =
    ground
      (arith, length-append uid (space ∷ (pass ++ newline ∷ [])), length-append pass (newline ∷ []))

-- A datagram that fits leaves the end of the buffer as it was.
pub wait_udp_message_lem :
    (msg buffer : Bytes)
    → length msg ≤ buffer_size
    → wait_udp_message msg buffer ≡ msg ++ drop (length msg) buffer
unfolding wait_udp_message
wait_udp_message_lem msg buffer h =
    ap (λ m. m ++ drop (length m) buffer) (take_all buffer_size msg h)

module _ (os : Os) (uid pass : Bytes) (u : check_uid (some uid) ≡ true)
    (p : check_pass (some pass) ≡ true) where
  -- The buffer of the main loop after a request; `junk` is what an earlier datagram left.
  wait_request :
      (a b c : ℕ) (buffer : Bytes)
      → wait_udp_message (request (a ∷ b ∷ c ∷ []) uid pass []) buffer
        ≡ request (a ∷ b ∷ c ∷ []) uid pass (drop 19 buffer)
  wait_request a b c buffer =
      let short : length (credentials uid pass []) ≡ 15 = length-credentials uid pass u p in
      let len : length (request (a ∷ b ∷ c ∷ []) uid pass []) ≡ 19 = omega (arith, short) in
      wait_udp_message_lem (request (a ∷ b ∷ c ∷ []) uid pass []) buffer (omega (arith, len))
      ∙ (ap (λ n. request (a ∷ b ∷ c ∷ []) uid pass [] ++ drop n buffer) len
          ∙ ap (λ r. a ∷ b ∷ c ∷ space ∷ r) (credentials-append uid pass (drop 19 buffer)))

  handled :
      (contract : Contract) (a b c : ℕ) (s : Server) (o : Outcome Answer)
      → Implements contract uid s.disk o
      → parse_udp_message os (start (request (a ∷ b ∷ c ∷ []) uid pass (drop 19 s.buffer))) s.disk
        ≡ answered (a ∷ b ∷ c ∷ []) uid pass (drop 19 s.buffer) o
      → Handles contract uid s (handle os (datagram (request (a ∷ b ∷ c ∷ []) uid pass [])) s)
  unfolding handle
  handled contract a b c s o (ans, d, sent, accounts, ok) e =
      let left : Server = record {
        disk = ans.disk;
        buffer = buffer_of (after_credentials (0 ∷ c ∷ b ∷ a ∷ []) uid pass (drop 19 s.buffer));
      } in
      let next : Answer × Cursor → Outcome (Server × List Message) =
        λ r. done (record { disk = r.0.disk; buffer = buffer_of r.1 }, r.0.sent) in
      (
        left,
        ap (λ t. parse_udp_message os (start t) s.disk >>= next) (wait_request a b c s.buffer)
            ∙ (ap (λ r. r >>= next)
                  (e ∙ ap (answered (a ∷ b ∷ c ∷ []) uid pass (drop 19 s.buffer)) d)
                ∙ ap (λ m. done (left, m)) sent),
        accounts,
        ok,
      )

module _ (os : Os) (allowed : IsPermissive os) where
  -- Where the system refuses no call, the accounts are in order, and the uid and the password are
  -- valid, one round of the main loop on the datagram REG uid password, whatever the buffer held
  -- before, sends exactly one reply, RRG OK or RRG DUP, creates the account when there is none
  -- for the uid, changes no other account, and keeps the accounts in order.
  pub handle-reg :
      (uid pass : Bytes) (s : Server)
      → check_uid (some uid) ≡ true
      → check_pass (some pass) ≡ true
      → HasAccounts s.disk
      → Handles
          (reg_contract pass)
          uid
          s
          (handle os (datagram (request (codes "REG") uid pass [])) s)
  handle-reg uid pass s u p ok =
      handled os uid pass u p (reg_contract pass) b'R' b'E' b'G' s (register os uid pass s.disk)
        (register-Implements os allowed uid pass s.disk ok p)
        (parse_udp_message-reg os uid pass (drop 19 s.buffer) s.disk u p)

  -- Where the system refuses no call, the accounts are in order, and the uid and the password are
  -- valid, one round of the main loop on the datagram UNR uid password, whatever the buffer held
  -- before, sends exactly one reply, RUN OK or RUN NOK, removes the account exactly when the
  -- password is its own, changes no other account, and keeps the accounts in order.
  pub handle-unregister :
      (uid pass : Bytes) (s : Server)
      → check_uid (some uid) ≡ true
      → check_pass (some pass) ≡ true
      → HasAccounts s.disk
      → Handles
          (unregister_contract pass)
          uid
          s
          (handle os (datagram (request (codes "UNR") uid pass [])) s)
  handle-unregister uid pass s u p ok =
      handled os uid pass u p (unregister_contract pass) b'U' b'N' b'R' s
        (remove_user os uid pass s.disk) (remove_user-Implements os allowed uid pass s.disk ok u)
        (parse_udp_message-unregister os uid pass (drop 19 s.buffer) s.disk u p)

  -- Where the system refuses no call, the accounts are in order, and the uid and the password are
  -- valid, one round of the main loop on the datagram LOG uid password, whatever the buffer held
  -- before, sends exactly one reply, RLO OK or RLO NOK, logs the account in exactly when the
  -- password is its own, changes no other account, and keeps the accounts in order.
  pub handle-login_ :
      (uid pass : Bytes) (s : Server)
      → check_uid (some uid) ≡ true
      → check_pass (some pass) ≡ true
      → HasAccounts s.disk
      → Handles
          (login_contract pass)
          uid
          s
          (handle os (datagram (request (codes "LOG") uid pass [])) s)
  handle-login_ uid pass s u p ok =
      handled os uid pass u p (login_contract pass) b'L' b'O' b'G' s (log_in os uid pass s.disk)
        (log_in-Implements os allowed uid pass s.disk ok)
        (parse_udp_message-login_ os uid pass (drop 19 s.buffer) s.disk u p)

  -- Where the system refuses no call, the accounts are in order, and the uid and the password are
  -- valid, one round of the main loop on the datagram OUT uid password, whatever the buffer held
  -- before, sends exactly one reply, ROU OK or ROU NOK, logs the account out exactly when the
  -- password is its own, changes no other account, and keeps the accounts in order.
  pub handle-logout_ :
      (uid pass : Bytes) (s : Server)
      → check_uid (some uid) ≡ true
      → check_pass (some pass) ≡ true
      → HasAccounts s.disk
      → Handles
          (logout_contract pass)
          uid
          s
          (handle os (datagram (request (codes "OUT") uid pass [])) s)
  handle-logout_ uid pass s u p ok =
      handled os uid pass u p (logout_contract pass) b'O' b'U' b'T' s (log_out os uid pass s.disk)
        (log_out-Implements os allowed uid pass s.disk ok)
        (parse_udp_message-logout_ os uid pass (drop 19 s.buffer) s.disk u p)
