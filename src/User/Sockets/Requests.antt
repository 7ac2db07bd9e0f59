-- ===== src/User/Sockets/Requests.antt =====
-- A request of the user's program by UDP, with the calls of src/user/connection.c behind it.
use projeto_rc.Base.{ℕ, ◌≡◌, refl, ap, ◌∙◌, Option, none, some, List, ◌++◌, Bytes, codes}
use projeto_rc.Base.Outcome.{Outcome, done, stop, ◌>>=◌}
use projeto_rc.Server.Reply.{udp}
use projeto_rc.Util.Word.{Cursor}
use projeto_rc.User.Session.{unanswered, Session, World, Turn, Line, ask, response}
use projeto_rc.User.Sockets.{
  Net, Context, Sockets, complain, timer_start, timer_stop, received, send_udp_message_size,
}

-- What a command does with what `send_udp_message_size` leaves: FERROR without a response.
abbrev pub with_response : Session → Bytes → (Cursor → Outcome Turn) → Option Cursor → Outcome Turn
with_response s msg next none = done (unanswered s (udp msg))
with_response s msg next (some reply) = next reply

module _ (net : Net) (w : World) (s : Session) (c : Context) (msg : Bytes) (size : ℕ) (fds : List ℕ)
    (next : Cursor → Outcome Turn) (fd : ℕ) where
  answered :
      (o : Option Bytes) (shown : List Line)
      → (elim o as (λ _. Outcome Turn) [
        | none ↦ done (unanswered s (udp msg))
        | some text ↦ response size text >>= next
      ])
        ≡ (received net fd size fds shown o >>= λ r. with_response s msg next r.value)
  answered none shown = refl
  answered (some text) shown =
      after (response size text)
        (complain net (timer_stop net fd) (codes "Unable to reset socket timeout"))
    where
      after :
          (m : Outcome Cursor) (more : List Line)
          → (m >>= next) ≡ (
              (m >>= λ reply.
              done (record { value = some reply; fds = fds; shown = shown ++ more }))
              >>= λ (r : Sockets (Option Cursor)). with_response s msg next r.value)
      after (done reply) more = refl
      after (stop e) more = refl

  -- On a context whose UDP socket is open, where the world answers a request with what `recvfrom`
  -- of the socket gives, a request of the commands and what is done with its response is
  -- `send_udp_message_size`, and FERROR or the rest of the command behind it, but for the lines
  -- that failed calls print.
  pub ask-send_udp_message_size :
      c.udp_info ≡ some fd
      → w.answer msg ≡ net.read fd
      → ask w s msg size next
        ≡ (send_udp_message_size net c msg size fds >>= λ r. with_response s msg next r.value)
  unfolding ask send_udp_message_size
  ask-send_udp_message_size opened same =
      let sent = complain net (net.write fd msg) (codes "Unable to send message") in
      let timed = complain net (timer_start net fd) (codes "Unable to set socket timeout") in
      rw opened (
        answered (w.answer msg) (sent ++ timed)
        ∙ ap
            (λ o.
              received net fd size fds (sent ++ timed) o >>= λ r. with_response s msg next r.value)
            same)
