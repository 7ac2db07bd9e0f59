-- ===== src/User/Session.antt =====
-- The session of src/user/connection.c, and what a command of the user's program leaves.
use projeto_rc.Base.{
  ℕ, Bool, true, false, not, ◌&&◌, Option, none, some, List, [], ◌∷◌, ◌++◌, Bytes, codes, nul, ◌==◌,
  ltb, length, text_eq, if◌then◌else◌,
}
use projeto_rc.Base.Outcome.{Outcome, done, stop, out_of_bounds, null_string, ◌>>=◌}
use projeto_rc.Base.Decimal.{print, print_padded}
use projeto_rc.Util.Word.{Cursor, start, get_word}
use projeto_rc.Server.Reply.{Message, udp, skip_space}
use projeto_rc.Server.Checks.{atoi}

-- The strings of `session_context_t`.
pub record Session : Type 0 where
  pub uid : Bytes
  pub pass : Bytes
  pub gid : Bytes

abbrev is_empty : Bytes → Bool
is_empty [] = true
is_empty (c ∷ s) = false

unfoldable pub is_logged : Session → Bool
is_logged s = not (is_empty s.uid)

unfoldable pub is_group_selected : Session → Bool
is_group_selected s = not (is_empty s.gid)

unfoldable pub logout : Session → Session
logout s = record s { uid = []; gid = [] }

-- The password is not initialised: nothing reads it before `login`.
unfoldable pub init_session : Session
init_session = record { uid = []; pass = []; gid = [] }

-- strcpy into buffers of 6 and 9 bytes.
unfoldable pub login : Session → Bytes → Bytes → Outcome Session
login s uid pass =
    if ltb (length uid) 6 && ltb (length pass) 9
    then done (record s { uid = uid; pass = pass })
    else stop out_of_bounds

-- sprintf into a buffer of 3 bytes.
unfoldable pub select_group : Session → Bytes → Outcome Session
select_group s gid =
    let text = print_padded 2 (atoi gid) in
    if ltb (length text) 3 then done (record s { gid = text }) else stop out_of_bounds

-- What the program prints, without its colours: `success`, `warning`, `throw_error` and `info`.
pub data Line : Type 0 where
  success warning error info : Bytes → Line

-- What surrounds the program: the datagram that answers a request within the fifteen seconds, the
-- bytes that the peer sends on a connection on which the request was written, and the files of the
-- working directory that can be read and written.
pub record World : Type 0 where
  pub answer : Bytes → Option Bytes
  pub stream : Bytes → Bytes
  pub readable : Bytes → Option Bytes
  pub writable : Bytes → Bool

-- What a command leaves: whether the prompt goes on (SUCCESS and WARNING are both 1), the session,
-- what it sent and printed, and the files that it wrote.
pub record Turn : Type 0 where
  pub keep : Bool
  pub session : Session
  pub sent : List Message
  pub shown : List Line
  pub saved : List (Bytes × Bytes)

abbrev pub stay : Session → List Line → Turn
stay s lines = record { keep = true; session = s; sent = []; shown = lines; saved = [] }

abbrev pub told : Session → Message → List Line → Turn
told s msg lines = record { keep = true; session = s; sent = msg ∷ []; shown = lines; saved = [] }

-- `response[n] = '\0'` behind the datagram, which is cut to the buffer.
unfoldable pub response : ℕ → Bytes → Outcome Cursor
response size text =
    if ltb (length text) size then done (start (text ++ nul ∷ [])) else stop out_of_bounds

-- `ASSERT(rcv_success == 1, FERROR, …)` without a response.
abbrev pub unanswered : Session → Message → Turn
unanswered s msg = record {
  keep = false;
  session = s;
  sent = msg ∷ [];
  shown = error (codes "An error occured while connecting to the server") ∷ [];
  saved = [];
}

-- `send_udp_message_size`, and what the command does with the response. Without one it returns
-- FERROR.
unfoldable pub ask : World → Session → Bytes → ℕ → (Cursor → Outcome Turn) → Outcome Turn
unfolding response
ask w s msg size next = elim (w.answer msg) [
  | none ↦ done (unanswered s (udp msg))
  | some text ↦ response size text >>= next
]

-- A word that is printed or compared: NULL has no string.
abbrev pub non_null : Option Bytes × Cursor → Outcome (Bytes × Cursor)
non_null (none, cur) = stop null_string
non_null (some word, cur) = done (word, cur)

unfoldable pub read_word : Cursor → Outcome (Bytes × Cursor)
unfolding get_word
read_word cur = do r ← get_word cur; non_null r

-- `EXPECT`: a line is printed if the word is another, and the command goes on.
abbrev pub unexpected : Bytes → Bytes → List Line
unexpected word expected =
    if text_eq word expected then [] else error (codes "Unexpected response from server") ∷ []

-- `EXPECT(get_word(&response), …)`
unfoldable pub expect : Bytes → Cursor → Outcome (List Line × Cursor)
unfolding read_word
expect expected cur = do (word, next) ← read_word cur; done (unexpected word expected, next)

-- atoi for `for (int i = 0; i < N; i++)`: the number of rounds, and N as `%d` prints it; a value past
-- the range of an int is undefined.
abbrev counted : ℕ → ℕ → Bytes → Outcome (ℕ × Bytes)
counted limit n text = if ltb n limit then done (n, text) else stop out_of_bounds

abbrev rounds : Bytes → Outcome (ℕ × Bytes)
rounds [] = done (0, codes "0")
rounds (c ∷ s) =
    if c == b'-'
    then (do
      (n, text) ← counted 2_147_483_649 (atoi s) (print (atoi s))
      done (0, if n == 0 then text else codes "-" ++ text))
    else (let n = atoi (if c == b'+' then s else c ∷ s) in counted 2_147_483_648 n (print n))

unfoldable pub rounds_of : Bytes → Outcome (ℕ × Bytes)
unfolding print
rounds_of s = rounds (skip_space s)
