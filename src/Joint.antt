-- ===== src/Joint.antt =====
-- The user's program against the server: a command of src/user/commands.c whose datagrams are answered
-- by one round of the main loop of src/server/server.c each.
pub mod Turns
pub mod Accounts
pub mod Checks
pub mod Link
pub mod Converse
pub mod Lifecycle
pub mod Posting
pub mod Attach
pub mod Storing
pub mod Letters
pub mod Retrieving
pub mod Sending
pub mod Messages
pub mod Listing
pub mod Groups
pub mod Leaving
pub mod Joining
pub mod Founding
pub mod Members
pub mod Examples
use projeto_rc.Base.{Option, none, some, List, [], ◌∷◌, Bytes}
use projeto_rc.Base.Outcome.{Outcome, done, stop, ◌>>=◌}
use projeto_rc.Disk.{Os}
use projeto_rc.Server.Reply.{Message, udp, tcp}
use projeto_rc.Server.Dispatch.{Server, datagram, connection, handle}
use projeto_rc.User.Session.{Session, World, Turn}

-- The datagram that reaches the user's program first.
abbrev pub first_udp : List Message → Option Bytes
first_udp [] = none
first_udp (udp text ∷ ms) = some text
first_udp (tcp text ∷ ms) = first_udp ms

abbrev pub reply_of : Outcome (Server × List Message) → Option Bytes
reply_of (done (s, sent)) = first_udp sent
reply_of (stop e) = none

-- A world in which the server answers.
abbrev pub served : Os → Server → World → World
served os s w = record w { answer = λ msg. reply_of (handle os (datagram msg) s) }

-- What the server is after the messages of a command.
unfoldable pub deliver : Os → List Message → Server → Outcome Server
unfolding handle
deliver os [] s = done s
deliver os (udp text ∷ ms) s = do (s', _) ← handle os (datagram text) s; deliver os ms s'
deliver os (tcp text ∷ ms) s = do (s', _) ← handle os (connection text) s; deliver os ms s'

-- A command of the user's program, and the server behind it.
unfoldable pub exchange :
    Os → World → (World → Session → Outcome Turn) → Session → Server → Outcome (Turn × Server)
unfolding handle deliver
exchange os w command c s = do
  turn ← command (served os s w) c
  s' ← deliver os turn.sent s
  done (turn, s')
