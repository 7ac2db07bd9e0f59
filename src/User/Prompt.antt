-- ===== src/User/Prompt.antt =====
-- src/user/user.c: the commands by their names, the arguments of the program, and its prompt.
use projeto_rc.Base.{
  ℕ, true, false, ◌||◌, Option, none, some, List, [], ◌∷◌, ◌++◌, Bytes, codes, ◌==◌, ltb, text_eq,
  length, if◌then◌else◌,
}
use projeto_rc.Base.Outcome.{Outcome, done, stop, out_of_bounds, null_string, ◌>>=◌}
use projeto_rc.Disk.{Os}
use projeto_rc.Util.Word.{Cursor, start, c_string, get_word, buffer_of}
use projeto_rc.Util.Line.{get_line}
use projeto_rc.Server.Reply.{Message}
use projeto_rc.User.Session.{Session, World, Turn, Line, error, stay, is_logged, init_session}
use projeto_rc.User.Accounts.{buffer_size, reg, unregister, login_, logout_, showuid}
use projeto_rc.User.Groups.{groups, subscribe, unsubscribe, my_groups, select_, showgid}
use projeto_rc.User.Messages.{ulist, post, retrieve}

-- `strcpy` into one of the buffers of `main`, from an argument or from the NULL behind the last.
abbrev copy_arg : ℕ → List Bytes → Outcome Bytes
copy_arg size [] = stop null_string
copy_arg size (text ∷ args) = if ltb (length text) size then done text else stop out_of_bounds

abbrev pub default_to : Bytes → Bytes → Bytes
default_to [] text = text
default_to (c ∷ s) text = c ∷ s

-- The loop of `parse_args`, two arguments at a time: the host and the port.
unfoldable pub flags : List Bytes → Bytes × Bytes → Outcome (Bytes × Bytes)
flags [] got = done got
flags (flag ∷ []) (dsip, dsport) =
    if text_eq flag (codes "-n") || text_eq flag (codes "-p")
    then stop null_string
    else done (dsip, dsport)
flags (flag ∷ text ∷ args) (dsip, dsport) = do
  got ←
      if text_eq flag (codes "-n")
      then (do a ← copy_arg buffer_size (text ∷ []); done (a, dsport))
      else if text_eq flag (codes "-p")
      then (do a ← copy_arg buffer_size (text ∷ []); done (dsip, a))
      else done (dsip, dsport)
  flags args got

-- The arguments behind the name of the program. An odd number of them is reported, and read on.
unfoldable pub parse_args : List Bytes → Outcome (Bytes × Bytes)
unfolding flags
parse_args args = do
  (dsip, dsport) ← flags args ([], [])
  done (default_to dsip (codes "localhost"), default_to dsport (codes "58065"))

module _ (os : Os) (w : World) where
  -- The command by its name; `exit` logs out first, and ends the prompt.
  abbrev pub run : Bytes → Cursor → Session → Outcome (Turn × Cursor)
  run command args s =
      if text_eq command (codes "reg")
      then reg w args s
      else if text_eq command (codes "unregister")
      then unregister w args s
      else if text_eq command (codes "login")
      then login_ w args s
      else if text_eq command (codes "logout")
      then logout_ w args s
      else if text_eq command (codes "showuid") || text_eq command (codes "su")
      then showuid w args s
      else if text_eq command (codes "exit")
      then (if is_logged s
          then (do (turn, args') ← logout_ w args s; done (record turn { keep = false }, args'))
          else done (record (stay s []) { keep = false }, args))
      else if text_eq command (codes "groups") || text_eq command (codes "gl")
      then groups w args s
      else if text_eq command (codes "subscribe") || text_eq command (codes "s")
      then subscribe w args s
      else if text_eq command (codes "unsubscribe") || text_eq command (codes "u")
      then unsubscribe w args s
      else if text_eq command (codes "my_groups") || text_eq command (codes "mgl")
      then my_groups w args s
      else if text_eq command (codes "select") || text_eq command (codes "sag")
      then select_ w args s
      else if text_eq command (codes "showgid") || text_eq command (codes "sg")
      then showgid w args s
      else if text_eq command (codes "ulist") || text_eq command (codes "ul")
      then ulist os w args s
      else if text_eq command (codes "post")
      then post os w args s
      else if text_eq command (codes "retrieve") || text_eq command (codes "r")
      then retrieve os w args s
      else done (stay s (error (codes "Unkown command") ∷ []), args)

  abbrev pub run_word : Option Bytes × Cursor → Session → Outcome (Turn × Cursor)
  run_word (none, args) s = stop null_string
  run_word (some command, args) s = run command args s

  -- An empty string leaves the prompt as it is.
  unfoldable pub parse_input : Bytes → Session → Outcome (Turn × Bytes)
  unfolding get_word reg unregister login_ logout_ showuid is_logged groups subscribe unsubscribe
      my_groups select_ showgid ulist post retrieve
  parse_input buffer s = do
    str ← c_string buffer
    if length str == 0 then done (stay s [], buffer) else (do
      word ← get_word (start buffer)
      (turn, args) ← run_word word s
      done (turn, buffer_of args))

-- The rounds of the prompt, one world for each: the session, and what was sent and printed. It ends
-- with a command that does not keep it.
unfoldable pub prompt :
    Os → List World → Session → Bytes → Bytes → Outcome (Session × List Message × List Line)
unfolding get_line parse_input
prompt os [] s buffer input = done (s, [], [])
prompt os (w ∷ ws) s buffer input = get_line buffer_size buffer input >>= λ (line, input').
    parse_input os w line s >>= λ (turn, buffer'). elim turn.keep [
      | false ↦ done (turn.session, turn.sent, turn.shown)
      | true ↦ prompt os ws turn.session buffer' input' >>= λ (s', sent, shown).
          done (s', turn.sent ++ sent, turn.shown ++ shown)
    ]

-- `main` behind its parse_args and an `init_connection` that gives a context, with a session of nobody
-- and a buffer that holds nothing yet.
unfoldable pub main :
    Os → List World → List Bytes → Bytes → Outcome (Session × List Message × List Line)
unfolding parse_args prompt init_session
main os ws args input = parse_args args >>= λ _. prompt os ws init_session [] input
