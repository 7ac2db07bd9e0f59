-- ===== src/Server/Processes.antt =====
-- The processes of the server at work: two posts at the same time, and a start of `main`.
use projeto_rc.Base.{
  ℕ, ◌<◌, ◌≤◌, ◌≡◌, refl, true, false, Option, none, some, [], ◌∷◌, ◌++◌, Bytes, codes, nul,
}
use projeto_rc.Base.Outcome.{done, stop, null_file}
use projeto_rc.Disk.{dir, Disk, lookup, put, mkdir}
use projeto_rc.Files.{create_directory, create_filesystem, directory_exists}
use projeto_rc.Files.Laws.{IsTree}
use projeto_rc.Util.Word.{get_word}
use projeto_rc.Server.Paths.{group_path, msg_name, server_path}
use projeto_rc.Server.Reply.{udp}
use projeto_rc.Server.Args.{flags, parse_args}
use projeto_rc.Server.Messages.{message_part}
use projeto_rc.Server.Dispatch.{
  Server, datagram, serve, handle, parse_udp_message, wait_udp_message,
}
use projeto_rc.Server.Examples.{plain_os, fresh, fresh-HasAccounts, one_user-HasAccounts}
use projeto_rc.Server.Requests.{gid, gname, one_group, groups_dir, group_free}
use projeto_rc.Server.Groups.Create.{with_group-HasAccounts}
use projeto_rc.Server.Loop.{
  Posting, unread, numbered, made, Progress, make_directory, advance, Connection, Machine,
  accept_connection, round, main, child, Reach, here, next,
}
use projeto_rc.Server.Loop.Kept.{Reach-IsTree}
use projeto_rc.Server.Loop.Simulates.{idle, serve-Reach}
use projeto_rc.Server.Loop.Lasting.{message_path, message_path-lasts, advance-taken}
use projeto_rc.Server.Loop.Unwritten.{message_part-made}
use projeto_rc.Server.Loop.Owners.{owners}
use projeto_rc.Server.Main.{
  Kind, udp_socket, tcp_socket, Net, init_udp, init_tcp, max, Started, started, start_main,
  start_main-Reach,
}

abbrev one : Bytes
one = codes "0001"

-- Two posts that both chose the number 1.
abbrev first : Posting
first = record { uid = codes "12345"; gid = gid; id = one; text = codes "hi"; stream = codes "\n" }

abbrev second : Posting
second = record { uid = codes "54321"; gid = gid; id = one; text = codes "ho"; stream = codes "\n" }

abbrev one_message : Disk
one_message = put (message_path gid one) dir one_group

abbrev both : Machine
both = record {
  disk = one_group;
  buffer = [];
  tasks = numbered first ∷ numbered second ∷ [];
  running = false;
}

abbrev one_made : Machine
one_made = record both { disk = one_message; tasks = made first ∷ numbered second ∷ [] }

one_group-IsTree : IsTree one_group
one_group-IsTree =
    (with_group-HasAccounts gid gname one_user-HasAccounts groups_dir group_free).tree

abbrev made_first : Progress
made_first = record { disk = one_message; sent = []; task = some (made first) }

first_makes : advance plain_os (numbered first) one_group ≡ done made_first
unfolding advance make_directory create_directory mkdir lookup put
first_makes = refl

first_step : Reach plain_os both [] one_made
first_step =
    next (child [] (numbered first) (numbered second ∷ []) made_first refl first_makes) here

message_there : lookup one_message (message_path gid one) ≡ some dir
unfolding lookup put
message_there = refl

one_message-IsTree : IsTree one_message
one_message-IsTree = Reach-IsTree plain_os first_step one_group-IsTree

message_path-lasts_example : lookup one_message (message_path gid one) ≡ some dir
message_path-lasts_example =
    message_path-lasts plain_os gid one (here {m = one_made}) one_message-IsTree message_there

advance-taken_example :
    advance plain_os (numbered second) one_message
    ≡ done (record { disk = one_message; sent = udp (codes "RPT NOK\n") ∷ []; task = none })
advance-taken_example =
    advance-taken plain_os second (here {m = one_made}) one_message-IsTree message_there

message_part-made_example :
    message_part plain_os (msg_name ∷ group_path gid) one one_message ≡ stop null_file
message_part-made_example =
    message_part-made plain_os first one_group made_first one_group-IsTree first_makes refl

-- A datagram of no command leaves the disk and sends nothing.
abbrev waiting : Server
waiting = record { disk = one_group; buffer = [] }

abbrev after_it : Server
after_it = record { disk = one_group; buffer = codes "XYZ" ++ nul ∷ [] }

served_nothing : serve plain_os (datagram (codes "XYZ\n") ∷ []) waiting ≡ done (after_it, [])
unfolding serve handle parse_udp_message wait_udp_message get_word
served_nothing = refl

serve-Reach_example : Reach plain_os (idle waiting) [] (idle after_it)
serve-Reach_example =
    serve-Reach plain_os (datagram (codes "XYZ\n") ∷ []) waiting after_it [] served_nothing

abbrev sockets : Kind → Option ℕ
sockets udp_socket = some 3
sockets tcp_socket = some 4

abbrev net : Net
net = record {
  socket = sockets;
  getaddrinfo = λ kind port. true;
  bind = λ kind port. true;
  listen = true;
  sigaction = true;
}

abbrev start_state : Started
start_state = record {
  udp_fd = 3;
  tcp_fd = 4;
  maxfd1 = 5;
  verbose = false;
  fs = server_path;
  machine = record { disk = fresh; buffer = []; tasks = []; running = true };
}

starts : start_main net plain_os [] fresh ≡ done (started start_state)
unfolding start_main parse_args flags init_udp init_tcp max create_filesystem directory_exists
    lookup put
starts = refl

abbrev call : Connection
call = record { stream = some (codes "ULS01\n"); fork = true; close = true }

abbrev accepted : Machine
accepted = record start_state.machine { tasks = unread (codes "ULS01\n") ∷ [] }

accepts : Reach plain_os start_state.machine [] accepted
unfolding round accept_connection
accepts = next (main (record { udp_set = none; tcp_set = some call }) refl refl) here

start_main-Reach_example :
    (start_state.udp_fd < start_state.maxfd1)
    × (start_state.tcp_fd < start_state.maxfd1)
    × IsTree accepted.disk
    × (owners gid one accepted.tasks ≤ 1)
    × (1 ≤ owners gid one accepted.tasks → lookup accepted.disk (message_path gid one) ≡ some dir)
start_main-Reach_example =
    start_main-Reach net plain_os [] fresh start_state gid one fresh-HasAccounts.tree starts accepts
