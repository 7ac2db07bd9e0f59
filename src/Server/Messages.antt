-- ===== src/Server/Messages.antt =====
-- The TCP commands of src/server/commands.c: ulist, post and retrieve. What a command writes on its
-- connection in several calls is one message here.
pub mod Paths
pub mod File
use Prim.Native.Nat.{min}
use projeto_rc.Base.{
  ℕ, ◌+◌, ◌-◌, Bool, true, false, not, ◌&&◌, ◌||◌, Option, none, some, List, [], ◌∷◌, ◌++◌, Bytes,
  codes, ◌==◌, leb, ltb, nul, space, text_eq, length, take, if◌then◌else◌,
}
use projeto_rc.Base.Outcome.{
  Outcome, done, stop, null_file, null_string, uninitialised, out_of_bounds, use_after_free, ◌>>=◌,
}
use projeto_rc.Base.Decimal.{print, print_padded}
use projeto_rc.Disk.{FilePath, Disk, lookup, is_dir, Os, write_file}
use projeto_rc.Files.{
  directory_exists, create_directory, create_file, list_subdirectories, list_subdirectories_ord,
  list_files,
}
use projeto_rc.Sll.{null, node, sll_size, items}
use projeto_rc.Util.Stream.{read_fd, get_word_fd}
use projeto_rc.Server.Reply.{Answer, tcp, reply, open_read, scan_string, skip_space, uid_gid}
use projeto_rc.Server.Checks.{check_uid, check_gid, check_mid, atoi}
use projeto_rc.Server.Paths.{group_path, name_txt, msg_name}

abbrev pub reply_tcp : Disk → Bytes → Option Bytes → Outcome Answer
reply_tcp fs text value = done (record { disk = fs; sent = tcp text ∷ []; value = value })

-- The string in a buffer that `read_fd` filled.
abbrev pub to_nul : Bytes → Bytes
to_nul [] = []
to_nul (c ∷ s) = let rest = to_nul s in if c == nul then [] else c ∷ rest

abbrev signed : Bytes → Outcome ℕ
signed [] = done 0
signed (c ∷ s) =
    if c == b'-'
    then (if atoi s == 0 then done 0 else stop out_of_bounds)
    else (let n = atoi (if c == b'+' then s else c ∷ s) in
        if ltb n 2_147_483_647 then done n else stop out_of_bounds)

-- atoi as the size of a buffer to allocate and fill: a negative size wraps to one that the buffer
-- does not have, one more than INT_MAX for its NUL overflows, and a value past INT_MAX is undefined.
unfoldable pub size_of : Bytes → Outcome ℕ
size_of s = signed (skip_space s)

-- open(2) of "dir/name" with the slashes and dots that `name` may hold; the working directory stands
-- for the root.
abbrev parent : FilePath → FilePath
parent [] = []
parent (n ∷ p) = p

abbrev step_path : FilePath → Bytes → FilePath
step_path p c =
    if text_eq c [] || text_eq c (codes ".")
    then p
    else if text_eq c (codes "..")
    then parent p
    else c ∷ p

abbrev slash : ℕ
slash = b'/'

-- The path before the last component has to lead through directories; `part` is the component so far.
walk : Disk → FilePath → Bytes → Bytes → Option FilePath
walk fs p part [] = some (step_path p part)
walk fs p part (c ∷ s) =
    if c == slash
    then (let q = step_path p part in
        let rest = walk fs q [] s in if is_dir (lookup fs q) then rest else none)
    else walk fs p (part ++ c ∷ []) s

unfoldable pub resolve : Disk → FilePath → Bytes → Option FilePath
unfolding walk
resolve fs p name = walk fs p [] name

module _ (os : Os) where
  abbrev user_words : List Bytes → Bytes
  user_words [] = []
  user_words (name ∷ l) =
      let rest = user_words l in if text_eq name name_txt then rest else name ++ (codes " " ++ rest)

  unfoldable pub ulist : Bytes → Disk → Outcome Answer
  unfolding read_fd check_gid directory_exists open_read scan_string list_files items
  ulist stream fs = do
    (gid, rest) ← read_fd os 2 stream
    if not (check_gid (some (to_nul gid)))
        then reply_tcp fs (codes "ERR\n") none
        else if directory_exists (group_path gid) fs
        then (do
          text ← open_read (name_txt ∷ group_path gid) fs
          group_name ← scan_string 25 text
          let file_list = items (list_files os (group_path gid) fs)
          reply_tcp fs
              (codes "RUL OK "
                ++ (group_name ++ (codes " " ++ (user_words file_list ++ codes "\n"))))
              (some gid))
        else reply_tcp fs (codes "RUL NOK\n") (some gid)

  -- The file of a message: its name, size and data are read from the connection.
  unfoldable pub store_file : FilePath → Bytes → Disk → Outcome (Disk × Bool)
  unfolding get_word_fd read_fd create_directory size_of resolve
  store_file msg_dir stream fs = do
    (fname, rest1) ← get_word_fd 24 stream
    elim (create_directory os msg_dir (codes "FILE") fs) [
      | none ↦ done (fs, false)
      | some fs1 ↦ get_word_fd 24 rest1 >>= λ fsize_str. size_of fsize_str.0 >>= λ fsize.
          read_fd os fsize fsize_str.1 >>= λ file_data.
          elim (resolve fs1 (codes "FILE" ∷ msg_dir) fname) [
            | none ↦ stop null_file
            | some path ↦ elim (write_file os path file_data.0 fs1) [
              | none ↦ stop null_file
              | some fs2 ↦ done (fs2, true)
            ]
          ]
    ]

  -- Behind the message's text: a space announces a file.
  unfoldable pub attach : FilePath → Bytes → Disk → Outcome (Disk × Bool)
  unfolding store_file
  attach msg_dir [] fs = stop uninitialised
  attach msg_dir (c ∷ stream) fs =
      if c == space then store_file msg_dir stream fs else done (fs, true)

  abbrev pub posted : Bytes → Bytes → Bytes → Disk × Bool → Outcome Answer
  posted uid gid id (fs, true) =
      reply_tcp fs (codes "RPT " ++ (id ++ codes "\n")) (some (uid_gid uid gid))
  posted uid gid id (fs, false) = reply fs (codes "RPT NOK\n") none

  -- The part of `post` that stores the message in an existing group. An error in it is answered by
  -- UDP, as in the source.
  unfoldable pub store_message : Bytes → Bytes → Bytes → Bytes → Disk → Outcome Answer
  unfolding list_subdirectories sll_size create_directory create_file attach print_padded
  store_message uid gid text stream fs =
      let msgs_dir = msg_name ∷ group_path gid in
      let msg_id = sll_size (list_subdirectories os msgs_dir fs) + 1 in
      let id = print_padded 4 msg_id in
      if ltb 4 (length id) then stop out_of_bounds else elim (create_directory os msgs_dir id fs) [
        | none ↦ reply fs (codes "RPT NOK\n") none
        | some fs1 ↦ elim (create_file os (id ∷ msgs_dir) (codes "author.txt") (some uid) fs1) [
          | none ↦ reply fs1 (codes "RPT NOK\n") none
          | some fs2 ↦
              elim (create_file os (id ∷ msgs_dir) (codes "text.txt") (some (to_nul text)) fs2) [
                | none ↦ reply fs2 (codes "RPT NOK\n") none
                | some fs3 ↦ attach (id ∷ msgs_dir) stream fs3 >>= posted uid gid id
              ]
        ]
      ]

  unfoldable pub post : Bytes → Disk → Outcome Answer
  unfolding read_fd get_word_fd check_uid check_gid directory_exists size_of store_message
  post stream fs = do
    (uid, rest1) ← read_fd os 5 stream
    (_, rest2) ← read_fd os 1 rest1
    (gid, rest3) ← read_fd os 2 rest2
    (_, rest4) ← read_fd os 1 rest3
    if not (check_uid (some (to_nul uid)) && check_gid (some (to_nul gid)))
        then reply_tcp fs (codes "RPT NOK\n") none
        else (do
          (tsize_str, rest5) ← get_word_fd 240 rest4
          tsize ← size_of tsize_str
          (text, rest6) ← read_fd os tsize rest5
          if directory_exists (group_path gid) fs
              then store_message uid gid text rest6 fs
              else reply_tcp fs (codes "RPT NOK\n") (some (uid_gid uid gid)))

  -- " / Fname Fsize data" of the first file of the directory. The size is written into 11 bytes, and
  -- the name and the size behind the text into the 128 that its buffer has more.
  unfoldable pub file_part : FilePath → Disk → Outcome Bytes
  unfolding directory_exists list_files open_read print
  file_part msg_dir fs =
      let file_dir = codes "FILE" ∷ msg_dir in
      if directory_exists file_dir fs
      then elim (list_files os file_dir fs) [
        | null ↦ stop null_string
        | node name size next ↦ open_read (name ∷ file_dir) fs >>= λ text.
            let file_size = print (length text) in
            if ltb 10 (length file_size) || ltb 122 (length name + length file_size)
            then stop out_of_bounds
            else done (codes " / " ++ (name ++ (codes " " ++ (file_size ++ (codes " " ++ text)))))
      ]
      else done []

  -- " MID UID Tsize text[ / Fname Fsize data]" of one message. The author is the first five bytes of
  -- its file.
  unfoldable pub message_part : FilePath → Bytes → Disk → Outcome Bytes
  unfolding open_read file_part print
  message_part msgs_dir mid fs = do
    author ← open_read (codes "author.txt" ∷ mid ∷ msgs_dir) fs
    text ← open_read (codes "text.txt" ∷ mid ∷ msgs_dir) fs
    extra ← file_part (mid ∷ msgs_dir) fs
    if ltb (length author) 5
        then stop uninitialised
        else done (
            codes " "
            ++ (mid
                ++ (codes " "
                    ++ (take 5 author
                        ++ (codes " "
                            ++ (print (length text) ++ (codes " " ++ (text ++ extra))))))))

  -- The loop over the messages, sorted: those before `mid` are passed over, and it ends at the
  -- twentieth.
  unfoldable pub message_parts : FilePath → ℕ → List Bytes → Disk → Outcome Bytes
  unfolding message_part
  message_parts msgs_dir mid [] fs = done []
  message_parts msgs_dir mid (current ∷ l) fs =
      let rest = message_parts msgs_dir mid l fs in
      if ltb (atoi current) mid
      then rest
      else if leb (mid + 20) (atoi current)
      then done []
      else (do part ← message_part msgs_dir current fs; parts ← rest; done (part ++ parts))

  -- `retrieve` behind its checks.
  unfoldable pub retrieve_from : Bytes → Bytes → ℕ → Disk → Outcome Answer
  unfolding directory_exists list_subdirectories_ord sll_size items message_parts print
  retrieve_from uid gid mid fs =
      let ret = some (uid_gid uid gid) in
      let msgs_dir = msg_name ∷ group_path gid in
      let msg_list = list_subdirectories_ord os msgs_dir fs in
      let n_msgs = sll_size msg_list in
      if directory_exists (group_path gid) fs
      then if ltb n_msgs mid then reply_tcp fs (codes "RRT EOF 0\n") ret else (do
        parts ← message_parts msgs_dir mid (items msg_list) fs
        reply_tcp fs
            (codes "RRT OK " ++ (print (min 20 (n_msgs - mid + 1)) ++ (parts ++ codes "\n"))) ret)
      else reply_tcp fs (codes "RRT NOK\n") ret

  -- When a check fails the source frees the reply, sends it, and goes on.
  unfoldable pub retrieve : Bytes → Disk → Outcome Answer
  unfolding get_word_fd check_uid check_gid check_mid retrieve_from
  retrieve stream fs = do
    (uid, rest1) ← get_word_fd 6 stream
    (gid, rest2) ← get_word_fd 3 rest1
    (mid_str, rest3) ← get_word_fd 5 rest2
    if not (check_uid (some uid) && check_gid (some gid) && check_mid (some mid_str))
        then stop use_after_free
        else retrieve_from uid gid (atoi mid_str) fs
