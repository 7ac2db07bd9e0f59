-- ===== src/Server/Loop/Kept.antt =====
-- What the system calls keep holds in every machine that the processes of src/server/server.c reach.
use projeto_rc.Base.{Option, none, some, List, Bytes}
use projeto_rc.Base.Outcome.{Ensures, Ensures->>=, Ensures-done}
use projeto_rc.Disk.{Disk, Os}
use projeto_rc.Files.Laws.{IsTree, mkdir-IsTree, write_file-IsTree, remove-IsTree, rmdir-IsTree}
use projeto_rc.Util.Word.{start}
use projeto_rc.Server.Reply.{Message}
use projeto_rc.Server.Dispatch.{parse_udp_message}
use projeto_rc.Server.Loop.{
  Connection, Machine, received, accept_connection, select_round, round, Step, main, child, Reach,
  here, next,
}
use projeto_rc.Server.Loop.Calls.{IsKept, KeepsBoth}
use projeto_rc.Server.Loop.Calls.Datagrams.{parse_udp_message_keeps}
use projeto_rc.Server.Loop.Calls.Connections.{advance_keeps}

module _ (os : Os) (P : Disk → Type 0) (kept : IsKept os P) where
  abbrev Served : Machine × List Message → Type 0
  Served r = P r.0.disk

  select_round_keeps :
      (udp_set : Option (Option Bytes)) (tcp_set : Option Connection) (m : Machine)
      → P m.disk
      → Ensures Served (select_round os udp_set tcp_set m)
  unfolding accept_connection
  select_round_keeps (some got) tcp_set m h =
      Ensures->>= Served (parse_udp_message os (start (received got m.buffer)) m.disk) _
        λ r e. Ensures-done (KeepsBoth P) _ e (parse_udp_message_keeps os P kept _ m.disk h)
  select_round_keeps none (some c) m h = h
  select_round_keeps none none m h = h

  pub Step-keeps : {m n : Machine} {sent : List Message} → Step os m sent n → P m.disk → P n.disk
  unfolding round
  Step-keeps {m} (main r on e) h =
      Ensures-done Served _ e (select_round_keeps r.udp_set r.tcp_set m h)
  Step-keeps {m} (child before t after p at e) h =
      Ensures-done (λ q. P q.disk) _ e (advance_keeps os P kept t m.disk h)

  pub Reach-keeps : {m n : Machine} {sent : List Message} → Reach os m sent n → P m.disk → P n.disk
  Reach-keeps here h = h
  Reach-keeps (next s r) h = Reach-keeps r (Step-keeps s h)

pub IsTree-IsKept : (os : Os) → IsKept os IsTree
IsTree-IsKept os = record {
  by_mkdir = λ p fs fs' t e. mkdir-IsTree os p fs e t;
  by_write = λ p b fs fs' t e. write_file-IsTree os p b fs e t;
  by_remove = λ p fs fs' c t e. remove-IsTree os p fs e t;
  by_rmdir = λ p fs fs' c t e. rmdir-IsTree os p fs e t;
}

-- From a disk that is a tree, whatever the system refuses and in whatever order the processes take
-- their steps, every disk that they reach is a tree.
pub Reach-IsTree :
    (os : Os) {m n : Machine} {sent : List Message}
    → Reach os m sent n
    → IsTree m.disk
    → IsTree n.disk
Reach-IsTree os = Reach-keeps os IsTree (IsTree-IsKept os)
