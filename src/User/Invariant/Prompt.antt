-- ===== src/User/Invariant/Prompt.antt =====
-- One line of input, and the prompt from the start of the program to its end.
use projeto_rc.Base.{
  Bool, true, false, Option, none, some, List, [], ◌∷◌, ◌++◌, Bytes, codes, ◌==◌, length, All,
  if◌then◌else◌,
}
use projeto_rc.Base.Outcome.{Outcome, done, ◌>>=◌, Ensures, Ensures->>=, Ensures-done}
use projeto_rc.Disk.{Os}
use projeto_rc.Util.Word.{Cursor, start, c_string, get_word}
use projeto_rc.Util.Line.{get_line}
use projeto_rc.Server.Reply.{Message}
use projeto_rc.User.Session.{Session, World, Turn, Line, error, stay, is_logged, init_session}
use projeto_rc.User.Accounts.{buffer_size, logout_}
use projeto_rc.User.Prompt.{run, run_word, parse_input, prompt, main, parse_args}
use projeto_rc.User.Invariant.{
  IsSession, Fits, IsValid, ValidTurn, if-holds, init_session-IsSession,
}
use projeto_rc.User.Invariant.Accounts.{
  reg-ValidTurn, unregister-ValidTurn, login_-ValidTurn, logout_-ValidTurn, showuid-ValidTurn,
}
use projeto_rc.User.Invariant.Groups.{
  groups-ValidTurn, subscribe-ValidTurn, unsubscribe-ValidTurn, my_groups-ValidTurn,
  select_-ValidTurn, showgid-ValidTurn,
}
use projeto_rc.User.Invariant.Messages.{ulist-ValidTurn, post-ValidTurn, retrieve-ValidTurn}

-- What one line leaves besides the buffer.
abbrev pub ValidLine : Turn × Bytes → Type 0
ValidLine r = IsValid r.0

-- What the prompt leaves.
abbrev pub ValidRun : Session × List Message × List Line → Type 0
ValidRun r = IsSession r.0 × All Fits r.1

either :
    (b : Bool) (x y : Outcome (Turn × Cursor))
    → Ensures ValidTurn x
    → Ensures ValidTurn y
    → Ensures ValidTurn (if b then x else y)
either = if-holds (Ensures ValidTurn)

module _ (os : Os) (w : World) (s : Session) (v : IsSession s) where
  exit-ValidTurn :
      (args : Cursor)
      → Ensures ValidTurn (
          if is_logged s
          then (logout_ w args s >>= λ (turn, args'). done (record turn { keep = false }, args'))
          else done (record (stay s []) { keep = false }, args))
  exit-ValidTurn args =
      either (is_logged s) _ _
        (Ensures->>= ValidTurn (logout_ w args s) _
          λ r e. Ensures-done ValidTurn (logout_ w args s) e (logout_-ValidTurn w args s v))
        (v, tt)

  unknown :
      (args : Cursor)
      → Ensures ValidTurn (done (stay s (error (codes "Unkown command") ∷ []), args))
  unknown args = (v, tt)

  run-ValidTurn : (command : Bytes) (args : Cursor) → Ensures ValidTurn (run os w command args s)
  run-ValidTurn command args =
      search
        (
          either,
          reg-ValidTurn w args s v,
          unregister-ValidTurn w args s v,
          login_-ValidTurn w args s v,
          logout_-ValidTurn w args s v,
          showuid-ValidTurn w args s v,
          exit-ValidTurn args,
          groups-ValidTurn w args s v,
          subscribe-ValidTurn w args s v,
          unsubscribe-ValidTurn w args s v,
          my_groups-ValidTurn w args s v,
          select_-ValidTurn w args s v,
          showgid-ValidTurn w args s v,
          ulist-ValidTurn os w args s v,
          post-ValidTurn os w args s v,
          retrieve-ValidTurn os w args s v,
          unknown args,
        )
        depth 20 fits 2000

  run_word-ValidTurn : (word : Option Bytes × Cursor) → Ensures ValidTurn (run_word os w word s)
  run_word-ValidTurn (none, args) = tt
  run_word-ValidTurn (some command, args) = run-ValidTurn command args

  pub parse_input-IsValid : (buffer : Bytes) → Ensures ValidLine (parse_input os w buffer s)
  unfolding parse_input
  parse_input-IsValid buffer = Ensures->>= ValidLine (c_string buffer) _ λ str _.
      if-holds (Ensures ValidLine) (length str == 0) _ _ (v, tt)
        (Ensures->>= ValidLine (get_word (start buffer)) _ λ word _.
          Ensures->>= ValidLine (run_word os w word s) _
            λ r e. Ensures-done ValidTurn (run_word os w word s) e (run_word-ValidTurn word))

All-append : (P : Message → Type 0) (xs ys : List Message) → All P xs → All P ys → All P (xs ++ ys)
All-append P [] ys h k = k
All-append P (x ∷ xs) ys (p, h) k = (p, All-append P xs ys h k)

pub prompt-IsValid :
    (os : Os) (ws : List World) (s : Session) (buffer input : Bytes)
    → IsSession s
    → Ensures ValidRun (prompt os ws s buffer input)
unfolding prompt
prompt-IsValid os [] s buffer input v = (v, tt)
prompt-IsValid os (w ∷ ws) s buffer input v =
    Ensures->>= ValidRun (get_line buffer_size buffer input) _ λ line _.
      Ensures->>= ValidRun (parse_input os w line.0 s) _ λ r e.
        let valid : IsValid r.0 =
          Ensures-done ValidLine (parse_input os w line.0 s) e
            (parse_input-IsValid os w s v line.0) in
        elim r.0.keep
          as (λ keep.
            Ensures ValidRun (elim keep as (λ _. Outcome (Session × List Message × List Line)) [
              | false ↦ done (r.0.session, r.0.sent, r.0.shown)
              | true ↦ prompt os ws r.0.session r.1 line.1 >>= λ (s', sent, shown).
                  done (s', r.0.sent ++ sent, r.0.shown ++ shown)
            ])) [
              | false ↦ valid
              | true ↦ Ensures->>= ValidRun (prompt os ws r.0.session r.1 line.1) _ λ end k.
                  let (last, fits) : ValidRun end =
                    Ensures-done ValidRun (prompt os ws r.0.session r.1 line.1) k
                      (prompt-IsValid os ws r.0.session r.1 line.1 valid.0) in
                  (last, All-append Fits r.0.sent end.1 valid.1 fits)
            ]

-- A run of the user's program that comes to its end, whatever is typed and whatever the server
-- answers, leaves a session that is nobody's without a group, or a user's with a valid uid and
-- password and no group or a valid one, and every datagram that it sent is shorter than the
-- server's buffer of 128 bytes.
pub main-IsValid :
    (os : Os) (ws : List World) (args : List Bytes) (input : Bytes)
    → Ensures ValidRun (main os ws args input)
unfolding main
main-IsValid os ws args input =
    Ensures->>= ValidRun (parse_args args) _
      λ _ _. prompt-IsValid os ws init_session [] input init_session-IsSession
