-- ===== src/Server/Dispatch/Stale.antt =====
-- A request without its password, when the buffer of the main loop still holds one.
use mathlib.Core.List.{reverse}
use projeto_rc.Base.{
  ◌≡◌, refl, ◌∙◌, ap, true, false, some, List, [], ◌∷◌, ◌++◌, arith, Bytes, codes, nul, newline,
  length, length-append, drop,
}
use projeto_rc.Base.Outcome.{Outcome, done, ◌>>=◌}
use projeto_rc.Disk.{Disk, Os}
use projeto_rc.Files.Allowed.{IsPermissive}
use projeto_rc.Util.Word.{Cursor, start, buffer_of}
use projeto_rc.Util.Word.Laws.{get_word-word}
use projeto_rc.Server.Checks.{check_uid, check_pass}
use projeto_rc.Server.Reply.{Answer, Message}
use projeto_rc.Server.Accounts.{with_credentials, reg, register}
use projeto_rc.Server.Accounts.Spec.{HasAccounts, reg_contract}
use projeto_rc.Server.Accounts.Refinement.{register-Implements}
use projeto_rc.Server.Dispatch.{Server, datagram, wait_udp_message, parse_udp_message, handle}
use projeto_rc.Server.Dispatch.Words.{digits-IsWord, alphanumeric-IsWord}
use projeto_rc.Server.Dispatch.Requests.{Handles, wait_udp_message_lem, text-append}

-- A uid, and behind its newline the password and the NUL that an earlier `get_word` wrote.
abbrev pub leftover : Bytes → Bytes → Bytes → Bytes
leftover uid pass rest = uid ++ newline ∷ (pass ++ nul ∷ rest)

abbrev after_leftover : Bytes → Bytes → Bytes → Bytes → Cursor
after_leftover behind uid pass rest = record {
  behind = nul ∷ (reverse pass ++ nul ∷ (reverse uid ++ behind));
  ahead = rest;
  ended = true;
}

with_credentials-leftover :
    (os : Os) (refusal : Bytes) (body : Bytes → Bytes → Disk → Outcome Answer)
    (uid pass rest behind : Bytes) (fs : Disk)
    → check_uid (some uid) ≡ true
    → check_pass (some pass) ≡ true
    → with_credentials os refusal body
        (record { behind = behind; ahead = leftover uid pass rest; ended = false })
        fs
      ≡ (body uid pass fs >>= λ a. done (a, after_leftover behind uid pass rest))
unfolding with_credentials check_uid check_pass
with_credentials-leftover os refusal body [] pass rest behind fs u p = absurd (ground arith)
with_credentials-leftover os refusal body (x ∷ uid) [] rest behind fs u p = absurd (ground arith)
with_credentials-leftover os refusal body (x ∷ uid) (y ∷ pass) rest behind fs u p = rw (
  get_word-word x uid newline ((y ∷ pass) ++ nul ∷ rest) behind
      (digits-IsWord (x ∷ uid) (ground arith)) refl,
  get_word-word y pass nul rest (nul ∷ (reverse (x ∷ uid) ++ behind))
      (alphanumeric-IsWord (y ∷ pass) (ground arith)) refl,
  u,
  p,
)

parse_udp_message-leftover :
    (os : Os) (uid pass rest : Bytes) (fs : Disk)
    → check_uid (some uid) ≡ true
    → check_pass (some pass) ≡ true
    → parse_udp_message os (start (codes "REG " ++ leftover uid pass rest)) fs ≡ (
        register os uid pass fs >>= λ a.
        done (a, after_leftover (nul ∷ reverse (codes "REG")) uid pass rest))
unfolding parse_udp_message reg
parse_udp_message-leftover os uid pass rest fs u p =
    with_credentials-leftover os (codes "RRG NOK\n") (register os) uid pass rest
      (nul ∷ reverse (codes "REG")) fs u p

length-uid : (uid : Bytes) → check_uid (some uid) ≡ true → length (uid ++ newline ∷ []) ≡ 6
unfolding check_uid
length-uid uid u = ground (arith, length-append uid (newline ∷ []))

wait_short :
    (uid buffer : Bytes)
    → check_uid (some uid) ≡ true
    → wait_udp_message (codes "REG " ++ (uid ++ newline ∷ [])) buffer
      ≡ codes "REG " ++ (uid ++ newline ∷ drop 10 buffer)
wait_short uid buffer u =
    let short : length (uid ++ newline ∷ []) ≡ 6 = length-uid uid u in
    let len : length (codes "REG " ++ (uid ++ newline ∷ [])) ≡ 10 = omega (arith, short) in
    wait_udp_message_lem (codes "REG " ++ (uid ++ newline ∷ [])) buffer (omega (arith, len))
    ∙ (ap (λ n. (codes "REG " ++ (uid ++ newline ∷ [])) ++ drop n buffer) len
        ∙ ap (λ r. codes "REG " ++ r) (text-append uid (drop 10 buffer)))

-- Where the system refuses no call, the accounts are in order, and the uid is valid, one round of
-- the main loop on the datagram REG uid without a password, while the buffer still holds, from
-- its eleventh byte on, a valid password with a NUL behind it, does what it does for that
-- password: it creates the account of the uid with it, or replies that there is one.
pub handle-leftover :
    (os : Os) (uid pass rest : Bytes) (s : Server)
    → IsPermissive os
    → check_uid (some uid) ≡ true
    → check_pass (some pass) ≡ true
    → HasAccounts s.disk
    → drop 10 s.buffer ≡ pass ++ nul ∷ rest
    → Handles
        (reg_contract pass)
        uid
        s
        (handle os (datagram (codes "REG " ++ (uid ++ newline ∷ []))) s)
unfolding handle
handle-leftover os uid pass rest s allowed u p ok left =
    let (ans, d, sent, accounts, ok') = register-Implements os allowed uid pass s.disk ok p in
    let cur : Cursor = after_leftover (nul ∷ reverse (codes "REG")) uid pass rest in
    let s' : Server = record { disk = ans.disk; buffer = buffer_of cur } in
    let next : Answer × Cursor → Outcome (Server × List Message) =
      λ r. done (record { disk = r.0.disk; buffer = buffer_of r.1 }, r.0.sent) in
    (
      s',
      ap (λ t. parse_udp_message os (start t) s.disk >>= next)
            (wait_short uid s.buffer u ∙ ap (λ r. codes "REG " ++ (uid ++ newline ∷ r)) left)
          ∙ (ap (λ r. r >>= next)
                (parse_udp_message-leftover os uid pass rest s.disk u p
                  ∙ ap (λ o. o >>= λ a. done (a, cur)) d)
              ∙ ap (λ m. done (s', m)) sent),
      accounts,
      ok',
    )
