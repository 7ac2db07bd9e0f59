-- ===== src/User/Connections.antt =====
-- The sockets and the output of the user's program at work.
use projeto_rc.Base.{
  ℕ, ◌≡◌, refl, true, false, Option, none, some, List, [], ◌∷◌, codes, arith, length, ltb, ◌<◌,
  if◌then◌else◌,
}
use projeto_rc.Base.Outcome.{done}
use projeto_rc.Output.{print_lines, visible, plain_out, plain_err, print_lines-visible}
use projeto_rc.User.Session.{Line, success, error, init_session}
use projeto_rc.User.Sockets.{
  stream, Net, Context, Sockets, open_protocol, init_udp_connection, init_connection,
  close_connection,
}
use projeto_rc.User.Sockets.Balance.{close_connection-init_connection, ask_all, ask_all-leaks}

-- A network that gives descriptors below 1024 by how many are open, and answers OK.
abbrev net : Net
net = record {
  socket = λ kind fds. if ltb (length fds) 1_024 then some (length fds) else none;
  getaddrinfo = λ kind dsip dsport. true;
  connect = λ fd. true;
  write = λ fd msg. true;
  read = λ fd. some (codes "OK\n");
  set_timeout = λ fd seconds. true;
}

abbrev standard : List ℕ
standard = 2 ∷ 1 ∷ 0 ∷ []

abbrev context : Context
context = record {
  dsip = codes "localhost";
  dsport = codes "58065";
  udp_info = some 3;
  tcp_info = none;
  session = init_session;
}

abbrev begun : Sockets (Option Context)
begun = record { value = some context; fds = 3 ∷ standard; shown = [] }

begins : init_connection net (codes "localhost") (codes "58065") standard ≡ done begun
unfolding init_connection init_udp_connection open_protocol
begins = refl

close_connection-init_connection_example : close_connection net context begun.fds ≡ done standard
close_connection-init_connection_example =
    close_connection-init_connection net (codes "localhost") (codes "58065") standard begun context
      begins refl

gives : (busy : List ℕ) → length busy < 1_024 → (fd : ℕ) × (net.socket stream busy ≡ some fd)
gives busy h = (length busy, ground arith)

ask_all-leaks_example :
    (c' : Context) × (fds' : List ℕ) × (ask_all net context
        (codes "ULS 01\n" ∷ codes "ULS 01\n" ∷ [])
        begun.fds
      ≡ done (c', fds'))
    × (length fds' ≡ 6)
ask_all-leaks_example =
    ask_all-leaks net 1_024 context (codes "ULS 01\n" ∷ codes "ULS 01\n" ∷ []) begun.fds gives refl
      (omega arith)

abbrev two_lines : List Line
two_lines = success (codes "done") ∷ error (codes "Post failed") ∷ []

print_lines-visible_example :
    (visible false (print_lines (some (codes "No space")) two_lines).out ≡ plain_out two_lines)
    × (visible false (print_lines (some (codes "No space")) two_lines).err
        ≡ plain_err (some (codes "No space")) two_lines)
print_lines-visible_example =
    print_lines-visible (some (codes "No space")) two_lines
      (
        (refl, (refl, (refl, (refl, tt)))),
        (
          (
            refl,
            (refl, (refl, (refl, (refl, (refl, (refl, (refl, (refl, (refl, (refl, tt)))))))))),
          ),
          tt,
        ),
      )
      (refl, (refl, (refl, (refl, (refl, (refl, (refl, (refl, tt))))))))
