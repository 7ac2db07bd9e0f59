-- ===== src/User/Sockets.antt =====
-- The sockets of src/user/connection.c: what is open, and what the user reads when a call fails. What
-- the calls do is a parameter.
pub mod Balance
pub mod Requests
use projeto_rc.Base.{
  ℕ, Bool, true, false, not, ◌&&◌, ◌≡◌, Option, none, some, List, [], ◌∷◌, ◌++◌, Bytes, codes, ◌==◌,
  ltb, length, All, if◌then◌else◌,
}
use projeto_rc.Base.Outcome.{Outcome, done, stop, null_pointer, out_of_bounds, ◌>>=◌}
use projeto_rc.Util.Word.{Cursor}
use projeto_rc.User.Session.{Session, Line, error, init_session, response}
use projeto_rc.User.Accounts.{buffer_size}

-- `SOCK_DGRAM` and `SOCK_STREAM`.
pub data Kind : Type 0 where
  dgram stream : Kind

-- The network as the calls show it: `socket` gives a descriptor, by those that are open, or -1 (`none`), and
-- `getaddrinfo` finds the host and the port or not; whether `connect` and the writing on a descriptor
-- (`sendto`, `dprintf`, `write`) succeed, what a `read` or `recvfrom` of it gives, `none` being -1, and whether
-- `setsockopt` sets its timeout.
pub record Net : Type 0 where
  pub socket : Kind → List ℕ → Option ℕ
  pub getaddrinfo : Kind → Bytes → Bytes → Bool
  pub connect : ℕ → Bool
  pub write : ℕ → Bytes → Bool
  pub read : ℕ → Option Bytes
  -- the seconds that a `recvfrom` waits; 0 is no limit
  pub set_timeout : ℕ → ℕ → Bool

-- `connection_context_t`, with the descriptors of its `protocol_info_t`: a pointer that is NULL or that
-- nothing was stored in is `none`.
pub record Context : Type 0 where
  pub dsip : Bytes
  pub dsport : Bytes
  pub udp_info : Option ℕ
  pub tcp_info : Option ℕ
  pub session : Session

-- `close`, of the first of that number.
unfoldable pub close : ℕ → List ℕ → List ℕ
close fd [] = []
close fd (k ∷ fds) = let rest = close fd fds in if k == fd then fds else k ∷ rest

-- What a function leaves: what it returns, the descriptors that are open, and what it printed.
pub record Sockets (A : Type 0) : Type 0 where
  pub value : A
  pub fds : List ℕ
  pub shown : List Line

module _ (net : Net) where
  abbrev on_socket : Kind → Context → List ℕ → Option ℕ → Sockets (Option ℕ)
  on_socket kind c fds none = record {
    value = none;
    fds = fds;
    shown = error (codes "Unable to create socket") ∷ [];
  }
  on_socket kind c fds (some fd) =
      if net.getaddrinfo kind c.dsip c.dsport
      then record { value = some fd; fds = fd ∷ fds; shown = [] }
      else record {
        value = none;
        fds = fd ∷ fds;
        shown = error (codes "Unable to get address info") ∷ [];
      }

  -- The body of `init_udp_connection` and `init_tcp_connection`, but for the assignment to the context.
  -- Without an address the socket stays open.
  unfoldable pub open_protocol : Kind → Context → List ℕ → Sockets (Option ℕ)
  open_protocol kind c fds = on_socket kind c fds (net.socket kind fds)

  abbrev stored : (Option ℕ → Context) → Context → Option ℕ → Context × Bool
  stored set c none = (c, false)
  stored set c (some fd) = (set (some fd), true)

  -- FERROR is `false`.
  unfoldable pub init_udp_connection : Context → List ℕ → Sockets (Context × Bool)
  unfolding open_protocol
  init_udp_connection c fds =
      let r = open_protocol dgram c fds in
      record {
        value = stored (λ info. record c { udp_info = info }) c r.value;
        fds = r.fds;
        shown = r.shown;
      }

  unfoldable pub init_tcp_connection : Context → List ℕ → Sockets (Context × Bool)
  unfolding open_protocol
  init_tcp_connection c fds =
      let r = open_protocol stream c fds in
      record {
        value = stored (λ info. record c { tcp_info = info }) c r.value;
        fds = r.fds;
        shown = r.shown;
      }

  -- The body of `close_udp_connection` and `close_tcp_connection`: the address and the descriptor go, and
  -- the pointer becomes NULL.
  unfoldable pub close_protocol : Option ℕ → List ℕ → Outcome (Option ℕ × List ℕ)
  unfolding close
  close_protocol none fds = stop null_pointer
  close_protocol (some fd) fds = done (none, close fd fds)

  unfoldable pub close_udp_connection : Context → List ℕ → Outcome (Context × List ℕ)
  unfolding close_protocol
  close_udp_connection c fds = do
    (info, fds') ← close_protocol c.udp_info fds
    done (record c { udp_info = info }, fds')

  unfoldable pub close_tcp_connection : Context → List ℕ → Outcome (Context × List ℕ)
  unfolding close_protocol
  close_tcp_connection c fds = do
    (info, fds') ← close_protocol c.tcp_info fds
    done (record c { tcp_info = info }, fds')

  abbrev new_context : Bytes → Bytes → Context
  new_context dsip dsport = record {
    dsip = dsip;
    dsport = dsport;
    udp_info = none;
    tcp_info = none;
    session = init_session;
  }

  abbrev opened : Sockets (Context × Bool) → Sockets (Option Context)
  opened r = record {
    value = if r.value.1 then some r.value.0 else none;
    fds = r.fds;
    shown = r.shown;
  }

  -- The two texts are copied into buffers of 128 bytes; NULL is `none`.
  unfoldable pub init_connection : Bytes → Bytes → List ℕ → Outcome (Sockets (Option Context))
  unfolding init_udp_connection init_session
  init_connection dsip dsport fds =
      if ltb (length dsip) buffer_size && ltb (length dsport) buffer_size
      then done (opened (init_udp_connection (new_context dsip dsport) fds))
      else stop out_of_bounds

  -- What is open behind it; the session and the context are freed.
  unfoldable pub close_connection : Context → List ℕ → Outcome (List ℕ)
  unfolding close_udp_connection
  close_connection c fds = do (_, fds') ← close_udp_connection c fds; done fds'

  abbrev pub complain : Bool → Bytes → List Line
  complain true text = []
  complain false text = error text ∷ []

  abbrev connect_on : Sockets (Context × Bool) → Option ℕ → Outcome (Sockets (Context × ℕ))
  connect_on r none = stop null_pointer
  connect_on r (some fd) = done (record {
    value = (r.value.0, fd);
    fds = r.fds;
    shown = r.shown ++ complain (net.connect fd) (codes "Unable connect to server");
  })

  -- The socket, its address and `connect`. The result of `init_tcp_connection` is not looked at: without a
  -- new socket `connect` takes the one before, if there is one.
  unfoldable pub connect_tcp : Context → List ℕ → Outcome (Sockets (Context × ℕ))
  unfolding init_tcp_connection
  connect_tcp c fds = let r = init_tcp_connection c fds in connect_on r r.value.0.tcp_info

  -- The context and the descriptor that the message was written on, if it was. Nothing is closed.
  unfoldable pub send_tcp_message_no_answer :
      Context → Bytes → List ℕ → Outcome (Sockets (Context × Option ℕ))
  unfolding connect_tcp
  send_tcp_message_no_answer c msg fds = do
    r ← connect_tcp c fds
    let ok = net.write r.value.1 msg
    done (record {
      value = (r.value.0, if ok then some r.value.1 else none);
      fds = r.fds;
      shown = r.shown ++ complain ok (codes "Unable to send tcp message");
    })

  -- `response[n] = '\0'` behind what was read; with -1 it is a byte before the buffer.
  abbrev answer_in : ℕ → Option Bytes → Outcome Cursor
  answer_in size none = stop out_of_bounds
  answer_in size (some text) = response size text

  unfoldable pub send_tcp_message_size :
      Context → Bytes → ℕ → List ℕ → Outcome (Sockets (Context × Cursor))
  unfolding connect_tcp response close_tcp_connection
  send_tcp_message_size c msg size fds = do
    r ← connect_tcp c fds
    reply ← answer_in size (net.read r.value.1)
    (c', fds') ← close_tcp_connection r.value.0 r.fds
    done (record {
      value = (c', reply);
      fds = fds';
      shown = r.shown ++ complain (net.write r.value.1 msg) (codes "Unable to send message");
    })

  -- The loop over `write` ends when all is written; a -1 takes it behind the message.
  unfoldable pub send_tcp_message_sending_size :
      Context → Bytes → List ℕ → Outcome (Sockets (Context × Cursor))
  unfolding connect_tcp response close_tcp_connection
  send_tcp_message_sending_size c msg fds = do
    r ← connect_tcp c fds
    if net.write r.value.1 msg
        then (do
          reply ← answer_in buffer_size (net.read r.value.1)
          (c', fds') ← close_tcp_connection r.value.0 r.fds
          done (record { value = (c', reply); fds = fds'; shown = r.shown }))
        else stop out_of_bounds

  unfoldable pub timer_start : ℕ → Bool
  timer_start fd = net.set_timeout fd 15

  unfoldable pub timer_stop : ℕ → Bool
  timer_stop fd = net.set_timeout fd 0

  -- Behind the request: without a datagram in time the flag `rcv_success` is 0, and the timer stays.
  abbrev pub received :
      ℕ → ℕ → List ℕ → List Line → Option Bytes → Outcome (Sockets (Option Cursor))
  received fd size fds shown none = done (record { value = none; fds = fds; shown = shown })
  received fd size fds shown (some text) = do
    reply ← response size text
    done (record {
      value = some reply;
      fds = fds;
      shown = shown ++ complain (timer_stop fd) (codes "Unable to reset socket timeout");
    })

  abbrev pub send_udp : Bytes → ℕ → List ℕ → Option ℕ → Outcome (Sockets (Option Cursor))
  send_udp msg size fds none = stop null_pointer
  send_udp msg size fds (some fd) =
      let sent = complain (net.write fd msg) (codes "Unable to send message") in
      let timed = complain (timer_start fd) (codes "Unable to set socket timeout") in
      received fd size fds (sent ++ timed) (net.read fd)

  unfoldable pub send_udp_message_size :
      Context → Bytes → ℕ → List ℕ → Outcome (Sockets (Option Cursor))
  unfolding timer_start timer_stop response
  send_udp_message_size c msg size fds = send_udp msg size fds c.udp_info
