-- ===== src/Server/Dispatch.antt =====
-- src/server/server.c: the commands by their names, and the main loop over what arrives. The lines
-- printed in verbose mode are not modelled.
pub mod Words
pub mod Requests
pub mod Stale
use projeto_rc.Base.{
  ℕ, Option, none, some, List, [], ◌∷◌, ◌++◌, Bytes, codes, text_eq, length, take, drop,
  if◌then◌else◌,
}
use projeto_rc.Base.Outcome.{Outcome, done, stop, null_string, ◌>>=◌}
use projeto_rc.Disk.{Disk, Os}
use projeto_rc.Util.Word.{Cursor, start, get_word, buffer_of}
use projeto_rc.Util.Stream.{read_fd}
use projeto_rc.Server.Reply.{Answer, Message}
use projeto_rc.Server.Accounts.{reg, unregister, login_, logout_}
use projeto_rc.Server.Groups.{groups, subscribe, unsubscribe, my_groups}
use projeto_rc.Server.Messages.{ulist, post, retrieve, to_nul}

abbrev pub silent : Disk → Answer
silent fs = record { disk = fs; sent = []; value = none }

pub record Server : Type 0 where
  pub disk : Disk
  -- `buffer_udp` of `main`; a datagram overwrites its first bytes only
  pub buffer : Bytes

abbrev pub buffer_size : ℕ
buffer_size = 128

-- A datagram, or a connection with the bytes that the peer sends on it.
pub data Event : Type 0 where
  datagram connection : Bytes → Event

-- `recvfrom` with the size of the buffer: a longer datagram is cut, and no NUL is added.
unfoldable pub wait_udp_message : Bytes → Bytes → Bytes
wait_udp_message msg buffer = take buffer_size msg ++ drop (length (take buffer_size msg)) buffer

module _ (os : Os) where
  abbrev pub run_udp : Bytes → Cursor → Disk → Outcome (Answer × Cursor)
  run_udp command args fs =
      if text_eq command (codes "REG")
      then reg os args fs
      else if text_eq command (codes "UNR")
      then unregister os args fs
      else if text_eq command (codes "LOG")
      then login_ os args fs
      else if text_eq command (codes "OUT")
      then logout_ os args fs
      else if text_eq command (codes "GLS")
      then groups os args fs
      else if text_eq command (codes "GSR")
      then subscribe os args fs
      else if text_eq command (codes "GUR")
      then unsubscribe os args fs
      else if text_eq command (codes "GLM")
      then my_groups os args fs
      else done (silent fs, args)

  abbrev pub dispatch_udp : Option Bytes → Cursor → Disk → Outcome (Answer × Cursor)
  dispatch_udp none args fs = stop null_string
  dispatch_udp (some command) args fs = run_udp command args fs

  unfoldable pub parse_udp_message : Cursor → Disk → Outcome (Answer × Cursor)
  unfolding get_word reg unregister login_ logout_ groups subscribe unsubscribe my_groups
  parse_udp_message msg fs = do (command, args) ← get_word msg; dispatch_udp command args fs

  unfoldable pub parse_tcp_message : Bytes → Disk → Outcome Answer
  unfolding read_fd ulist post retrieve
  parse_tcp_message stream fs = do
    (command, rest1) ← read_fd os 3 stream
    (_, rest2) ← read_fd os 1 rest1
    if text_eq (to_nul command) (codes "ULS")
        then ulist os rest2 fs
        else if text_eq (to_nul command) (codes "PST")
        then post os rest2 fs
        else if text_eq (to_nul command) (codes "RTV")
        then retrieve os rest2 fs
        else done (silent fs)

  -- One round of the main loop. The child process that serves a connection ends before the next
  -- event here.
  unfoldable pub handle : Event → Server → Outcome (Server × List Message)
  unfolding wait_udp_message parse_udp_message parse_tcp_message
  handle (datagram msg) s = do
    (a, cur) ← parse_udp_message (start (wait_udp_message msg s.buffer)) s.disk
    done (record { disk = a.disk; buffer = buffer_of cur }, a.sent)
  handle (connection bytes) s = do
    a ← parse_tcp_message bytes s.disk
    done (record s { disk = a.disk }, a.sent)

  unfoldable pub serve : List Event → Server → Outcome (Server × List Message)
  unfolding handle
  serve [] s = done (s, [])
  serve (e ∷ es) s = do
    (s1, sent1) ← handle e s
    (s2, sent2) ← serve es s1
    done (s2, sent1 ++ sent2)
