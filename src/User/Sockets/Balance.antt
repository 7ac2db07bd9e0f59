-- ===== src/User/Sockets/Balance.antt =====
-- What the functions of src/user/connection.c leave open.
use projeto_rc.Base.{
  ℕ, ◌+◌, ◌≤◌, ◌<◌, ◌≡◌, refl, true, Option, none, some, List, [], ◌∷◌, ◌++◌, Bytes, codes, nul,
  ltb, arith, length, if◌then◌else◌,
}
use projeto_rc.Base.Outcome.{Outcome, done, ◌>>=◌}
use projeto_rc.Util.Word.{start}
use projeto_rc.User.Session.{Line, error, response}
use projeto_rc.User.Accounts.{buffer_size}
use projeto_rc.User.Sockets.{
  stream, Net, Context, close, Sockets, open_protocol, init_udp_connection, init_tcp_connection,
  close_protocol, close_udp_connection, close_tcp_connection, init_connection, close_connection,
  complain, connect_tcp, send_tcp_message_no_answer, send_tcp_message_size,
  send_tcp_message_sending_size,
}

module _ (net : Net) where
  close_first : (fd : ℕ) (fds : List ℕ) → close fd (fd ∷ fds) ≡ fds
  unfolding close
  close_first fd fds = ground arith

  -- When `init_connection` gives a context, `close_connection` on it leaves exactly the
  -- descriptors open that were open before.
  pub close_connection-init_connection :
      (dsip dsport : Bytes) (fds : List ℕ) (r : Sockets (Option Context)) (c : Context)
      → init_connection net dsip dsport fds ≡ done r
      → r.value ≡ some c
      → close_connection net c r.fds ≡ done fds
  unfolding init_connection close_connection close_udp_connection close_protocol init_udp_connection
      open_protocol
  close_connection-init_connection dsip dsport fds r c e k = ground arith

  -- A socket that the network gives, with an address.
  module _ (c : Context) (fds : List ℕ) (fd : ℕ) (given : net.socket stream fds ≡ some fd)
      (found : net.getaddrinfo stream c.dsip c.dsport ≡ true) where
    abbrev unreached : List Line
    unreached = complain net (net.connect fd) (codes "Unable connect to server")

    connected :
        connect_tcp net c fds
        ≡ done (record {
          value = (record c { tcp_info = some fd }, fd);
          fds = fd ∷ fds;
          shown = unreached;
        })
    unfolding connect_tcp init_tcp_connection open_protocol
    connected = rw (given, found) refl

    -- Where the network gives a socket and finds the server, and the message is written and a
    -- read gives fewer than 128 bytes, `send_tcp_message_sending_size` gives these with a NUL
    -- behind them, leaves no connection and exactly the descriptors open that were open before,
    -- and prints a line only if `connect` fails.
    pub send_tcp_message_sending_size-closes :
        (msg text : Bytes)
        → net.write fd msg ≡ true
        → net.read fd ≡ some text
        → length text < buffer_size
        → send_tcp_message_sending_size net c msg fds
          ≡ done (record {
            value = (record c { tcp_info = none }, start (text ++ nul ∷ []));
            fds = fds;
            shown = unreached;
          })
    unfolding send_tcp_message_sending_size close_tcp_connection close_protocol response
    send_tcp_message_sending_size-closes msg text w r h =
        let fits : ltb (length text) buffer_size ≡ true = ground arith in
        rw (connected, w, r, fits, close_first fd fds) refl

    -- The same of `send_tcp_message_size`, with a buffer of any size.
    pub send_tcp_message_size-closes :
        (msg text : Bytes) (size : ℕ)
        → net.write fd msg ≡ true
        → net.read fd ≡ some text
        → length text < size
        → send_tcp_message_size net c msg size fds
          ≡ done (record {
            value = (record c { tcp_info = none }, start (text ++ nul ∷ []));
            fds = fds;
            shown = unreached ++ [];
          })
    unfolding send_tcp_message_size close_tcp_connection close_protocol response
    send_tcp_message_size-closes msg text size w r h =
        let fits : ltb (length text) size ≡ true = ground arith in
        rw (connected, w, r, fits, close_first fd fds) refl

    -- `send_tcp_message_no_answer` leaves its socket open, written on or not.
    left_open :
        (msg : Bytes)
        → (r : Sockets (Context × Option ℕ)) × (send_tcp_message_no_answer net c msg fds ≡ done r)
          × (r.fds ≡ fd ∷ fds)
          × (r.value.0 ≡ record c { tcp_info = some fd })
    unfolding send_tcp_message_no_answer
    left_open msg =
        let ok = net.write fd msg in
        (
          record {
            value = (record c { tcp_info = some fd }, if ok then some fd else none);
            fds = fd ∷ fds;
            shown = unreached ++ complain net ok (codes "Unable to send tcp message");
          },
          rw connected refl,
          refl,
          refl,
        )

  -- The requests of `ulist`, one after the other: nothing is closed between them.
  unfoldable pub ask_all : Context → List Bytes → List ℕ → Outcome (Context × List ℕ)
  unfolding send_tcp_message_no_answer
  ask_all c [] fds = done (c, fds)
  ask_all c (msg ∷ msgs) fds = do
    r ← send_tcp_message_no_answer net c msg fds
    ask_all r.value.0 msgs r.fds

  -- Where the network gives sockets while fewer than a limit of descriptors are open, and finds
  -- the server, requests by `send_tcp_message_no_answer` without `close_tcp_connection` between
  -- them come to an end and leave as many more descriptors open as they are, as long as the limit
  -- is not passed.
  pub ask_all-leaks :
      (limit : ℕ) (c : Context) (msgs : List Bytes) (fds : List ℕ)
      → ((busy : List ℕ) → length busy < limit → (fd : ℕ) × (net.socket stream busy ≡ some fd))
      → net.getaddrinfo stream c.dsip c.dsport ≡ true
      → length msgs + length fds ≤ limit
      → (c' : Context) × (fds' : List ℕ) × (ask_all c msgs fds ≡ done (c', fds'))
        × (length fds' ≡ length msgs + length fds)
  unfolding ask_all
  ask_all-leaks limit c [] fds gives found h = (c, fds, refl, omega arith)
  ask_all-leaks limit c (msg ∷ msgs) fds gives found h =
      let (fd, given) = gives fds (omega arith) in
      let (r, e, more, same) = left_open c fds fd given found msg in
      let (c', fds', k, long) =
        ask_all-leaks limit (record c { tcp_info = some fd }) msgs (fd ∷ fds) gives found
          (omega arith) in
      (c', fds', rw (e, more, same) k, omega arith)

  -- When no more sockets are given, `send_tcp_message_no_answer` reports it and writes on the
  -- connection that an earlier request left open.
  pub send_tcp_message_no_answer-reuses :
      (c : Context) (msg : Bytes) (fds : List ℕ) (old : ℕ)
      → net.socket stream fds ≡ none
      → c.tcp_info ≡ some old
      → net.write old msg ≡ true
      → (r : Sockets (Context × Option ℕ)) × (send_tcp_message_no_answer net c msg fds ≡ done r)
        × (r.value.1 ≡ some old)
        × (r.fds ≡ fds)
  unfolding send_tcp_message_no_answer connect_tcp init_tcp_connection open_protocol
  send_tcp_message_no_answer-reuses c msg fds old refused before w = (
    record {
      value = (c, some old);
      fds = fds;
      shown =
          (error (codes "Unable to create socket")
            ∷ complain net (net.connect old) (codes "Unable connect to server"))
          ++ [];
    },
    rw (refused, before, w) refl,
    refl,
    refl,
  )
