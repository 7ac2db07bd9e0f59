-- ===== src/Lib.antt =====
-- The messaging service: its directory server (src/server), the user's program (src/user), and what
-- they share (src/common). Users register, log in, subscribe to groups, and post messages that
-- others retrieve. The server keeps all of it in a directory tree: SERVER/USERS/uid holds pass.txt
-- and, while the user is logged in, login; SERVER/GROUPS/gid holds name.txt, an empty file per
-- member, and MSG/mid with author.txt, text.txt and perhaps a directory FILE with one file.
--
-- The files:
--   Base: shared names, tests on the native numbers, lists, texts as lists of bytes, printf's
--     decimal numbers (Base/Decimal), and `Outcome`, the result of C code that may have undefined
--     behaviour or never return.
--   Util: src/common/util.c. Util/Word is get_word, over a cursor into a buffer that it writes to;
--     Util/Stream is read_fd and get_word_fd, over the bytes that a peer sends; Util/Line is
--     get_line, get_quote, get_file_size and read_file.
--   Sll: src/server/strlinkedlist.c, the list of strings whose nodes hold their size.
--   Output: src/common/libio.c, what a line is with its colours.
--   Disk: the file system that the server works on.
--   Files: src/server/file_management.c over that disk.
--   Server: src/server/commands.c and src/server/server.c. Checks has check_uid to check_mid, Paths
--     the paths, Reply what a command sends; Accounts has check_credencials, reg, unregister,
--     login_ and logout_; Groups has groups, subscribe, unsubscribe and my_groups; Messages has
--     ulist, post and retrieve; Dispatch has parse_udp_message, parse_tcp_message and the loop of
--     main; Args is parse_args; Start is the first start. Main is main up to its loop, with the
--     sockets of src/server/connection.c. Loop is the loop over select and the child processes as a
--     step relation: Alone and Simulates compare it with Dispatch, Calls and its children say what
--     the commands do to the disk by system calls alone, Kept, Lasting, Owners, Apart and
--     Unwritten what holds in every machine that is reached.
--     Server/Examples, Server/Requests, Server/Posts, Server/Processes and Examples have the inputs
--     on which the theorems are applied.
--   User: src/user. Session is the session and the requests of src/user/connection.c, Sockets its
--     sockets; Checks, Accounts, Groups and Messages are the commands of src/user/commands.c;
--     Prompt is src/user/user.c, with parse_input as `parse_input`, its loop as `prompt`, and
--     parse_args. Invariant and its children say what a session may be and what is sent; Typed
--     takes a typed line to its command, Args the arguments to what they ask for. User/Examples,
--     User/Lines and User/Connections have inputs.
--   Joint: the user's program against the server. `exchange` runs a command in a world that answers
--     a request by one round of the server's loop, and then the server on what was sent. Turns,
--     Accounts, Link, Converse and Lifecycle are about the account commands; Checks about the
--     fields; Posting, Attach and Storing take a post to the server, Letters, Sending, Retrieving and
--     Messages the messages back, Listing and Groups the list of groups, and Joining,
--     Founding and Leaving take a `subscribe` to a group that is there, a `subscribe` to a new one
--     and an `unsubscribe` to the server's disk.
--     Joint/Examples and Members have the inputs.
--
-- A handler takes its arguments and the disk, and gives the disk, what it sent, and the text that
-- it returns for the log. The handlers of datagrams also give the cursor back, since get_word
-- writes NUL bytes into the buffer of the main loop, which the next datagram overwrites in part
-- only. Where a handler parses and checks its arguments first, the rest of it is a definition of
-- its own: `register` in `reg`, `remove_user` in `unregister`, `log_in` in `login_`, `log_out` in
-- `logout_`, `subscribe_to` in `subscribe`, `unsubscribe_from` in `unsubscribe`, `groups_of` in
-- `my_groups`, `retrieve_from` in `retrieve`, `store_message` in `post`.
--
-- A command of the user's program takes its cursor and the session, and gives a `Turn`: whether the
-- prompt goes on, the session, what was sent and printed, and the files written. Behind its checks
-- it is a definition of its own, as in the server. Its `World` says which datagram answers a
-- request, if one comes in time, what the peer sends on a connection, and which files can be read
-- and written.
--
-- The account commands have an abstract description, Server/Accounts/Spec: an account is a password
-- and whether it is logged in, and a contract says what a command does to one account and replies.
--
-- Choices. The disk is a map from paths to nodes. A system call works as POSIX says; the record
-- `Os` decides which calls are refused for a reason outside the program, the order in which a
-- directory is read, and how many bytes a `read` returns. `IsPermissive` says that none is refused.
-- The working directory stands for the root. What C leaves undefined is the outcome `stop`, as are
-- reads that wait for ever; fixed arrays that fscanf, sprintf of a message number or get_word_fd
-- fill have their sizes, and so have the allocated ones whose size depends on what is written: that
-- of the list of groups, of a text and a file that post reads, of what retrieve puts behind a text,
-- and of the message of the user's post; malloc succeeds. A file name that readdir gives for `.`
-- and `..` leads to the directory itself and to the one above it. In Dispatch connections are
-- served one at a time; in Loop a process is forked for each. There a `post` into a group that
-- exists takes three steps, and every other command one: system calls of two commands interleave no
-- finer than that. Two texts that are written on a connection one after the other are one message.
-- The fuel of `delete_directory` is one more than the longest path of the disk; that of `read_loop`
-- is the number of bytes asked for, as each round gets one at least.
--
-- The loop over the users of `ulist` has one round more than there are bytes to read, as each round
-- but the last takes a byte. The prompt has one world for each line that is read.
--
-- What the calls on sockets return is a parameter, a record `Net` for each program.
--
-- Not modelled: the closing of the server's sockets at its end, replies that cannot be sent and
-- connections that break (src/server/connection.c), what the server prints, what the two parse_args
-- report, the lines of debug mode, signals, and freeing of memory (but for the reply that
-- `retrieve` uses after it is freed). The replies ERR and RPT NOK that are one byte longer than
-- their buffers are sent as if they fitted. The lines that failed calls on the user's sockets print
-- are in User/Sockets and not in a `Turn`.
pub mod Base
pub mod Util
pub mod Sll
pub mod Disk
pub mod Files
pub mod Server
pub mod User
pub mod Output
pub mod Joint
pub mod Examples
