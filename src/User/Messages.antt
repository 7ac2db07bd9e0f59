-- ===== src/User/Messages.antt =====
-- The message commands of src/user/commands.c: ulist, post and retrieve. What a command writes on its
-- connection is one message.
pub mod Ends
use Prim.Native.Nat.{min}
use projeto_rc.Base.{
  ℕ, zero, suc, ◌-◌, ◌+◌, Bool, true, false, not, ◌&&◌, Option, none, some, List, [], ◌∷◌, ◌++◌,
  Bytes, codes, nul, ◌==◌, ltb, text_eq, length, take, drop, if◌then◌else◌,
}
use projeto_rc.Base.Outcome.{
  Outcome, done, stop, null_file, null_string, out_of_bounds, hang, ◌>>=◌,
}
use projeto_rc.Base.Decimal.{print, print_padded}
use projeto_rc.Disk.{Os}
use projeto_rc.Util.Word.{Cursor, c_string, get_word}
use projeto_rc.Util.Line.{get_quote, get_file_size, read_file}
use projeto_rc.Util.Stream.{read_size, read_fd, get_word_fd}
use projeto_rc.Server.Reply.{Message, tcp, text_of}
use projeto_rc.Server.Checks.{atoi}
use projeto_rc.Server.Messages.{size_of, to_nul}
use projeto_rc.User.Checks.{check_mid, mid_lines}
use projeto_rc.User.Session.{
  Session, World, Turn, Line, success, warning, error, info, stay, told, response, unexpected,
  expect, read_word, rounds_of, is_logged, is_group_selected,
}
use projeto_rc.User.Accounts.{buffer_size}
use projeto_rc.User.Groups.{not_logged}

abbrev no_group : Session → Turn
no_group s = stay s (warning (codes "No group selected") ∷ [])

-- The loop over the users: a word without a byte ends it, and is printed too.
unfoldable pub user_rows : ℕ → Bytes → Outcome (List Line)
unfolding get_word_fd
user_rows zero stream = stop hang
user_rows (suc n) stream = get_word_fd buffer_size stream >>= λ (name, rest).
    (elim name [ [] ↦ done [] | c ∷ s ↦ user_rows n rest ]) >>= λ lines.
    done (info (codes "\t" ++ (name ++ codes "\n")) ∷ lines)

-- The reply on the connection; each round of the loop takes a byte or is the last.
unfoldable pub user_list : Bytes → Bytes → Outcome (List Line)
unfolding get_word_fd user_rows
user_list gid stream = do
  (word, rest1) ← get_word_fd buffer_size stream
  (status, rest2) ← get_word_fd buffer_size rest1
  let noted = unexpected word (codes "RUL")
  if text_eq status (codes "OK")
      then (do
        (gname, rest3) ← get_word_fd buffer_size rest2
        if length gname == 0
            then done (noted ++ warning (codes "There are no users subscribed to " ++ gname) ∷ [])
            else (do
              lines ← user_rows (suc (length rest3)) rest3
              done (
                  noted
                  ++ success (codes "List of users subscribed to " ++ (gname ++ codes ":"))
                    ∷ lines)))
      else done (noted ++ warning (codes "Group " ++ (gid ++ codes " does not exist")) ∷ [])

abbrev pub last_is_quote : ℕ → Bytes → Bool
last_is_quote d [] = d == b'"'
last_is_quote d (e ∷ s) = last_is_quote e s

-- The size that is printed and the text between the quotes, if it stands between two. A lone quote is
-- its own end: its size is 1 - 2, and the text is what follows. In front of an empty text stands the
-- NUL that `get_word` wrote.
unfoldable pub unquoted : Bytes → Option (Bytes × Bytes)
unfolding print
unquoted [] = none
unquoted (c ∷ []) = if c == b'"' then some (codes "-1", []) else none
unquoted (c ∷ d ∷ s) =
    if last_is_quote d s && (c == b'"')
    then some (print (length s), take (length s) (d ∷ s))
    else none

-- "PST uid gid Tsize text"
abbrev pub post_header : Session → Bytes → Bytes → Bytes
post_header s size text =
    codes "PST "
    ++ (s.uid ++ (codes " " ++ (s.gid ++ (codes " " ++ (size ++ (codes " " ++ text))))))

-- " Fname Fsize data" and the newline that `read_file` puts behind the data.
abbrev pub post_file : Bytes → Bytes → Bytes
post_file name content =
    codes " "
    ++ (name ++ (codes " " ++ (print (get_file_size content) ++ (codes " " ++ read_file content))))

abbrev pub with_file : Bytes → Bytes → Option Bytes → Option Bytes
with_file header name none = none
with_file header name (some content) = some (header ++ post_file name content)

-- The line of a message: its number, and its text up to a NUL.
abbrev pub message_line : Bytes → Bytes → List Line
message_line mid text = info (mid ++ (codes " - \"" ++ (to_nul text ++ codes "\";"))) ∷ []

abbrev pub content_size : Option Bytes → ℕ
content_size none = 0
content_size (some content) = get_file_size content

-- The buffer has room for BUFFER_SIZE bytes more than the text and the file.
abbrev pub in_buffer : ℕ → Option Bytes → Outcome (Option Bytes)
in_buffer room none = done none
in_buffer room (some msg) = if ltb room (length msg) then stop out_of_bounds else done (some msg)

module _ (os : Os) (w : World) where
  -- `send_tcp_message_sending_size`: one read takes what the connection gives, up to the buffer.
  unfoldable pub response_tcp : Bytes → Outcome Cursor
  unfolding response
  response_tcp [] = response buffer_size []
  response_tcp (c ∷ stream) =
      response buffer_size (take (read_size os buffer_size (c ∷ stream)) (c ∷ stream))

  abbrev post_reply : Session → Bytes → Cursor → Outcome Turn
  post_reply s msg reply = do
    (noted, next) ← expect (codes "RPT") reply
    (status, _) ← read_word next
    done (
        told s (tcp msg) (
          noted
          ++ (if text_eq status (codes "NOK")
              then error (codes "Post failed")
              else success (codes "Post succeeded with MID: " ++ status))
            ∷ []))

  unfoldable pub send_post : Session → Bytes → Outcome Turn
  unfolding response_tcp expect read_word
  send_post s msg = do reply ← response_tcp (w.stream msg); post_reply s msg reply

  -- What is written for a text and, if there is one, a file; `none` if the file cannot be opened.
  unfoldable pub post_message : Session → Bytes × Bytes → Option Bytes → Outcome (Option Bytes)
  unfolding print
  post_message s (size, text) none =
      in_buffer (length text + 127) (some (post_header s size text ++ codes "\n"))
  post_message s (size, text) (some name) =
      in_buffer (length text + 128 + content_size (w.readable name))
        (with_file (post_header s size text) name (w.readable name))

  -- What is left to do when the message is known.
  abbrev pub send_written : Session → Option Bytes → Option Bytes × Cursor → Outcome (Turn × Cursor)
  send_written s name (none, args) =
      done (stay s (error (codes "Unable to open file: " ++ text_of name) ∷ []), args)
  send_written s name (some msg, args) = do turn ← send_post s msg; done (turn, args)

  abbrev pub post_unquoted : Session → Cursor → Option (Bytes × Bytes) → Outcome (Turn × Cursor)
  post_unquoted s args none =
      done (stay s (error (codes "Message must be surrounded by double quotes") ∷ []), args)
  post_unquoted s args (some sized) = get_word args >>= λ (name, args').
      post_message s sized name >>= λ sent. send_written s name (sent, args')

  abbrev pub post_quoted : Session → Option Bytes × Cursor → Outcome (Turn × Cursor)
  post_quoted s (none, args) = stop null_string
  post_quoted s (some quoted, args) = post_unquoted s args (unquoted quoted)

  -- `post` for a session with a group.
  unfoldable pub post_text : Cursor → Session → Outcome (Turn × Cursor)
  unfolding get_quote unquoted get_word post_message send_post
  post_text args s = do quoted ← get_quote args; post_quoted s quoted

  unfoldable pub ulist : Cursor → Session → Outcome (Turn × Cursor)
  unfolding is_logged is_group_selected user_list
  ulist args s =
      if not (is_logged s)
      then done (not_logged s, args)
      else if not (is_group_selected s)
      then done (no_group s, args)
      else (let msg = codes "ULS " ++ (s.gid ++ codes "\n") in
          do lines ← user_list s.gid (w.stream msg); done (told s (tcp msg) lines, args))

  unfoldable pub post : Cursor → Session → Outcome (Turn × Cursor)
  unfolding is_logged is_group_selected post_text
  post args s =
      if not (is_logged s)
      then done (not_logged s, args)
      else if not (is_group_selected s)
      then done (no_group s, args)
      else post_text args s

  -- The file of a message behind its " /": its name, the data, and what follows.
  unfoldable pub retrieve_file : Bytes → Outcome ((Bytes × Bytes) × Bytes)
  unfolding get_word_fd size_of read_fd
  retrieve_file stream = do
    (name, rest1) ← get_word_fd buffer_size stream
    (size_str, rest2) ← get_word_fd buffer_size rest1
    size ← size_of size_str
    (content, rest3) ← read_fd os size rest2
    if w.writable name then done ((name, content), drop 1 rest3) else stop null_file

  -- The rounds of the loop over the messages; `word` is what the last read left in the buffer, the
  -- number of the next message. It and the author are copied into 5 and 6 bytes.
  unfoldable pub message_rows : ℕ → Bytes → Bytes → Outcome (List Line × List (Bytes × Bytes))
  unfolding get_word_fd size_of read_fd retrieve_file
  message_rows zero word stream = done ([], [])
  message_rows (suc n) word stream = get_word_fd buffer_size stream >>= λ (author, rest1).
      if not (ltb (length word) 5 && ltb (length author) 6)
      then stop out_of_bounds
      else (get_word_fd buffer_size rest1 >>= λ (size_str, rest2). size_of size_str >>= λ size.
          read_fd os size rest2 >>= λ (text, rest3).
          get_word_fd buffer_size (drop 1 rest3) >>= λ (next, rest4).
          elim (text_eq next (codes "/")) [
            | false ↦ message_rows n next rest4 >>= λ (lines, files).
                done (message_line word text ++ (info (codes "\n") ∷ lines), files)
            | true ↦ retrieve_file rest4 >>= λ (saved, rest5).
                get_word_fd buffer_size rest5 >>= λ (next', rest6).
                message_rows n next' rest6 >>= λ (lines, files). done (
                  message_line word text
                      ++ (info (codes " file stored: " ++ saved.0) ∷ info (codes "\n") ∷ lines),
                  saved ∷ files,
                )
          ])

  unfoldable pub message_list : Bytes → Outcome (List Line × List (Bytes × Bytes))
  unfolding get_word_fd rounds_of message_rows print
  message_list stream = do
    (buffer, rest1) ← get_word_fd buffer_size stream
    (status, rest2) ← get_word_fd buffer_size rest1
    let noted = unexpected buffer (codes "RRT")
    if text_eq status (codes "OK")
        then (do
          (count, rest3) ← get_word_fd buffer_size rest2
          (n, number) ← rounds_of count
          (word, rest4) ← get_word_fd buffer_size rest3
          (lines, files) ← message_rows n word rest4
          done (noted ++ success (number ++ codes " message(s) retrieved:") ∷ lines, files))
        else if text_eq status (codes "EOF")
        then done (noted ++ warning (codes "There are no messages available") ∷ [], [])
        else done (noted ++ error (codes "Unkown error") ∷ [], [])

  -- "RTV uid gid MID" with the number of the message in four digits.
  abbrev pub retrieve_message : Session → Bytes → Bytes
  retrieve_message s mid =
      codes "RTV "
      ++ (s.uid
          ++ (codes " " ++ (s.gid ++ (codes " " ++ (print_padded 4 (atoi mid) ++ codes "\n")))))

  -- `retrieve` behind its check.
  unfoldable pub retrieve_from : Bytes → Session → Outcome Turn
  unfolding message_list print_padded
  retrieve_from mid s =
      let msg = retrieve_message s mid in
      do
        (lines, files) ← message_list (w.stream msg)
        done (record (told s (tcp msg) lines) { saved = files })

  unfoldable pub retrieve : Cursor → Session → Outcome (Turn × Cursor)
  unfolding is_logged is_group_selected get_word check_mid retrieve_from
  retrieve args s =
      if not (is_logged s)
      then done (not_logged s, args)
      else if not (is_group_selected s)
      then done (no_group s, args)
      else (do
        (mid, args1) ← get_word args
        turn ←
            if check_mid mid then retrieve_from (text_of mid) s else done (stay s (mid_lines mid))
        done (turn, args1))
