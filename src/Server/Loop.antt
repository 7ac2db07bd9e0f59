-- ===== src/Server/Loop.antt =====
-- src/server/server.c: the loop of main over select, and the child process that it forks for each
-- connection. The processes share the disk. A datagram is answered in one step of the loop; a child
-- takes one step for `ulist` and `retrieve`, and three for a `post` into a group that exists: it counts the
-- messages, it makes the directory of the new one, and it writes the files in it.
pub mod Alone
pub mod Calls
pub mod Kept
pub mod Lasting
pub mod Owners
pub mod Apart
pub mod Unwritten
pub mod Simulates
use projeto_rc.Base.{
  ℕ, zero, suc, ◌+◌, Bool, true, false, not, ◌&&◌, ◌≡◌, Option, none, some, List, [], ◌∷◌, ◌++◌,
  Bytes, codes, ltb, text_eq, length, if◌then◌else◌,
}
use projeto_rc.Base.Outcome.{Outcome, done, stop, hang, out_of_bounds, ◌>>=◌}
use projeto_rc.Base.Decimal.{print_padded}
use projeto_rc.Disk.{Disk, Os}
use projeto_rc.Files.{directory_exists, create_directory, create_file, list_subdirectories}
use projeto_rc.Sll.{sll_size}
use projeto_rc.Util.Word.{start, buffer_of}
use projeto_rc.Util.Stream.{read_fd, get_word_fd}
use projeto_rc.Server.Checks.{check_uid, check_gid}
use projeto_rc.Server.Paths.{group_path, msg_name}
use projeto_rc.Server.Reply.{Answer, Message, udp, reply, uid_gid}
use projeto_rc.Server.Messages.{ulist, retrieve, attach, posted, size_of, to_nul, reply_tcp}
use projeto_rc.Server.Dispatch.{silent, wait_udp_message, parse_udp_message}

-- What `post` knows of a message once it has its number.
pub record Posting : Type 0 where
  pub uid : Bytes
  pub gid : Bytes
  pub id : Bytes
  pub text : Bytes
  -- what is left on the connection
  pub stream : Bytes

-- A child process: before it reads its connection, before the directory of a message is made, and
-- before the files are written.
pub data Task : Type 0 where
  unread : Bytes → Task
  numbered made : Posting → Task

-- What a step of a process leaves; without a task the process has ended.
pub record Progress : Type 0 where
  pub disk : Disk
  pub sent : List Message
  pub task : Option Task

abbrev pub ended : Answer → Outcome Progress
ended a = done (record { disk = a.disk; sent = a.sent; task = none })

abbrev pub goes_on : Disk → Task → Outcome Progress
goes_on fs t = done (record { disk = fs; sent = []; task = some t })

abbrev pub go_on :
    (Task → Disk → Outcome (Disk × List Message))
    → Disk
    → List Message
    → Option Task
    → Outcome (Disk × List Message)
go_on later fs sent none = done (fs, sent)
go_on later fs sent (some t) = do (fs', more) ← later t fs; done (fs', sent ++ more)

module _ (os : Os) where
  -- `post` chooses the number of the message.
  unfoldable pub number_message : Bytes → Bytes → Bytes → Bytes → Disk → Outcome Progress
  unfolding list_subdirectories sll_size print_padded
  number_message uid gid text stream fs =
      let msg_id = sll_size (list_subdirectories os (msg_name ∷ group_path gid) fs) + 1 in
      let id = print_padded 4 msg_id in
      if ltb 4 (length id)
      then stop out_of_bounds
      else goes_on fs
          (numbered (record { uid = uid; gid = gid; id = id; text = text; stream = stream }))

  unfoldable pub begin_post : Bytes → Disk → Outcome Progress
  unfolding read_fd get_word_fd check_uid check_gid directory_exists size_of number_message
  begin_post stream fs = do
    (uid, rest1) ← read_fd os 5 stream
    (_, rest2) ← read_fd os 1 rest1
    (gid, rest3) ← read_fd os 2 rest2
    (_, rest4) ← read_fd os 1 rest3
    if not (check_uid (some (to_nul uid)) && check_gid (some (to_nul gid)))
        then reply_tcp fs (codes "RPT NOK\n") none >>= ended
        else (do
          (tsize_str, rest5) ← get_word_fd 240 rest4
          tsize ← size_of tsize_str
          (text, rest6) ← read_fd os tsize rest5
          if directory_exists (group_path gid) fs
              then number_message uid gid text rest6 fs
              else reply_tcp fs (codes "RPT NOK\n") (some (uid_gid uid gid)) >>= ended)

  unfoldable pub make_directory : Posting → Disk → Outcome Progress
  unfolding create_directory
  make_directory p fs = elim (create_directory os (msg_name ∷ group_path p.gid) p.id fs) [
    | none ↦ reply fs (codes "RPT NOK\n") none >>= ended
    | some fs1 ↦ goes_on fs1 (made p)
  ]

  -- `post` behind the directory of the message.
  unfoldable pub write_message : Posting → Disk → Outcome Answer
  unfolding create_file attach
  write_message p fs =
      let msg_dir = p.id ∷ msg_name ∷ group_path p.gid in
      elim (create_file os msg_dir (codes "author.txt") (some p.uid) fs) [
        | none ↦ reply fs (codes "RPT NOK\n") none
        | some fs1 ↦ elim (create_file os msg_dir (codes "text.txt") (some (to_nul p.text)) fs1) [
          | none ↦ reply fs1 (codes "RPT NOK\n") none
          | some fs2 ↦ attach os msg_dir p.stream fs2 >>= posted os p.uid p.gid p.id
        ]
      ]

  -- `parse_tcp_message` up to the first change that others may see.
  unfoldable pub begin : Bytes → Disk → Outcome Progress
  unfolding read_fd ulist begin_post retrieve
  begin stream fs = do
    (command, rest1) ← read_fd os 3 stream
    (_, rest2) ← read_fd os 1 rest1
    if text_eq (to_nul command) (codes "ULS")
        then ulist os rest2 fs >>= ended
        else if text_eq (to_nul command) (codes "PST")
        then begin_post rest2 fs
        else if text_eq (to_nul command) (codes "RTV")
        then retrieve os rest2 fs >>= ended
        else ended (silent fs)

  unfoldable pub advance : Task → Disk → Outcome Progress
  unfolding begin make_directory write_message
  advance (unread stream) fs = begin stream fs
  advance (numbered p) fs = make_directory p fs
  advance (made p) fs = write_message p fs >>= ended

  -- A process that nothing interrupts, for a number of steps.
  unfoldable pub alone : ℕ → Task → Disk → Outcome (Disk × List Message)
  unfolding advance
  alone zero t fs = stop hang
  alone (suc n) t fs = do r ← advance t fs; go_on (alone n) r.disk r.sent r.task

-- A connection that `accept` gives, `none` when it fails; whether `fork` makes a process, and whether
-- `close` of its descriptor in the parent succeeds.
pub record Connection : Type 0 where
  pub stream : Option Bytes
  pub fork : Bool
  pub close : Bool

-- What `select` finds: a datagram, `some none` when `recvfrom` fails, and a connection.
pub record Ready : Type 0 where
  pub udp_set : Option (Option Bytes)
  pub tcp_set : Option Connection

-- The main process with its buffer, the child processes, and the disk.
pub record Machine : Type 0 where
  pub disk : Disk
  pub buffer : Bytes
  pub tasks : List Task
  pub running : Bool

-- `wait_udp_message`: an error is reported, and the buffer is used as it is.
unfoldable pub received : Option Bytes → Bytes → Bytes
unfolding wait_udp_message
received none buffer = buffer
received (some msg) buffer = wait_udp_message msg buffer

-- The child of a failed `accept` waits for ever in `read_fd`: it does nothing more.
abbrev forked : Option Bytes → List Task → List Task
forked none ts = ts
forked (some stream) ts = ts ++ unread stream ∷ []

abbrev is_some : Option Bytes → Bool
is_some none = false
is_some (some s) = true

-- The branch of a connection. `close` of the -1 of a failed `accept` fails.
unfoldable pub accept_connection : Connection → Machine → Machine
accept_connection c m = record m {
  tasks = if c.fork then forked c.stream m.tasks else m.tasks;
  running = c.fork && (is_some c.stream && c.close);
}

module _ (os : Os) where
  abbrev pub serve_datagram : Option Bytes → Machine → Outcome (Machine × List Message)
  serve_datagram got m = do
    (a, cur) ← parse_udp_message os (start (received got m.buffer)) m.disk
    done (record m { disk = a.disk; buffer = buffer_of cur }, a.sent)

  abbrev pub select_round :
      Option (Option Bytes) → Option Connection → Machine → Outcome (Machine × List Message)
  select_round (some got) tcp_set m = serve_datagram got m
  select_round none (some c) m = done (accept_connection c m, [])
  select_round none none m = done (m, [])

  -- One round of `while (running)`: a connection waits while there is a datagram.
  unfoldable pub round : Ready → Machine → Outcome (Machine × List Message)
  unfolding received parse_udp_message accept_connection
  round r m = select_round r.udp_set r.tcp_set m

  abbrev pub still : Option Task → List Task
  still none = []
  still (some t) = t ∷ []

  -- A step of the machine and what it sends: a round of the loop, or a step of a child. What C leaves
  -- undefined has no step.
  pub data Step : Machine → List Message → Machine → Type 0 where
    main :
        {m m' : Machine} {sent : List Message} (r : Ready)
        → m.running ≡ true
        → round r m ≡ done (m', sent)
        → Step m sent m'
    child :
        {m : Machine} (before : List Task) (t : Task) (after : List Task) (p : Progress)
        → m.tasks ≡ before ++ t ∷ after
        → advance os t m.disk ≡ done p
        → Step m p.sent (record m { disk = p.disk; tasks = before ++ (still p.task ++ after) })

  pub data Reach : Machine → List Message → Machine → Type 0 where
    here : {m : Machine} → Reach m [] m
    next :
        {m n k : Machine} {sent more : List Message}
        → Step m sent n
        → Reach n more k
        → Reach m (sent ++ more) k
