-- ===== src/User/Accounts.antt =====
-- The account commands of src/user/commands.c: reg, unregister, login_, logout_ and showuid. A command
-- gives its cursor back, since the words are cut in the line that was typed.
use projeto_rc.Base.{ℕ, not, [], ◌∷◌, ◌++◌, Bytes, codes, text_eq, if◌then◌else◌}
use projeto_rc.Base.Outcome.{Outcome, done, ◌>>=◌}
use projeto_rc.Util.Word.{Cursor, get_word}
use projeto_rc.Server.Reply.{udp, text_of}
use projeto_rc.User.Checks.{check_uid, check_pass, both_valid, credentials_lines}
use projeto_rc.User.Session.{
  Session, World, Turn, success, warning, error, info, stay, told, ask, expect, read_word,
  is_logged, login, logout,
}

abbrev pub buffer_size : ℕ
buffer_size = 128

-- `sprintf(buffer, "%s %s %s\n", command, uid, pass)`
abbrev pub credentials_message : Bytes → Bytes → Bytes → Bytes
credentials_message command uid pass =
    command ++ (codes " " ++ (uid ++ (codes " " ++ (pass ++ codes "\n"))))

-- The two words of the arguments, their checks, and the command.
unfoldable pub with_credentials :
    (Bytes → Bytes → Session → Outcome Turn) → Cursor → Session → Outcome (Turn × Cursor)
unfolding get_word check_uid check_pass
with_credentials body args s = do
  (uid, args1) ← get_word args
  (pass, args2) ← get_word args1
  turn ←
      if both_valid uid pass
      then body (text_of uid) (text_of pass) s
      else done (stay s (credentials_lines uid pass))
  done (turn, args2)

module _ (w : World) where
  -- `reg` behind its checks.
  unfoldable pub register : Bytes → Bytes → Session → Outcome Turn
  unfolding ask expect read_word
  register uid pass s =
      let msg = credentials_message (codes "REG") uid pass in
      ask w s msg buffer_size λ reply. do
        (noted, next) ← expect (codes "RRG") reply
        (status, _) ← read_word next
        done (
            told s (udp msg) (
              noted
              ++ (if text_eq status (codes "OK")
                  then success (codes "User successfully registered")
                  else if text_eq status (codes "DUP")
                  then warning (codes "User is already registered")
                  else error (codes "An error occured while registering user"))
                ∷ []))

  -- `unregister` behind its checks. The session ends if it is that of the user.
  unfoldable pub remove_user : Bytes → Bytes → Session → Outcome Turn
  unfolding ask expect read_word is_logged logout
  remove_user uid pass s =
      let msg = credentials_message (codes "UNR") uid pass in
      ask w s msg buffer_size λ reply. do
        (noted, next) ← expect (codes "RUN") reply
        (status, _) ← read_word next
        done (
            if text_eq status (codes "OK")
            then told (if is_logged s then (if text_eq s.uid uid then logout s else s) else s)
                (udp msg) (noted ++ success (codes "User successfully unregistered") ∷ [])
            else told s (udp msg)
                (noted ++ error (codes "Invalid user or incorrect password") ∷ []))

  -- `login_` behind its checks.
  unfoldable pub log_in : Bytes → Bytes → Session → Outcome Turn
  unfolding ask expect read_word is_logged login
  log_in uid pass s =
      let msg = credentials_message (codes "LOG") uid pass in
      ask w s msg buffer_size λ reply. do
        (noted, next) ← expect (codes "RLO") reply
        (status, _) ← read_word next
        if text_eq status (codes "OK")
            then if is_logged s
              then done
                  (told s (udp msg) (noted ++ warning (codes "You are already logged in") ∷ []))
              else (do
                s' ← login s uid pass
                done (told s' (udp msg) (noted ++ success (codes "You are now logged in") ∷ [])))
            else done (
                told s (udp msg) (noted ++ error (codes "Invalid user or incorrect password") ∷ []))

  unfoldable pub reg : Cursor → Session → Outcome (Turn × Cursor)
  unfolding with_credentials register
  reg = with_credentials register

  unfoldable pub unregister : Cursor → Session → Outcome (Turn × Cursor)
  unfolding with_credentials remove_user
  unregister = with_credentials remove_user

  unfoldable pub login_ : Cursor → Session → Outcome (Turn × Cursor)
  unfolding with_credentials log_in
  login_ = with_credentials log_in

  -- The session ends whatever the reply says: `EXPECT` does not return.
  unfoldable pub log_out : Session → Outcome Turn
  unfolding ask expect read_word is_logged logout
  log_out s =
      if not (is_logged s)
      then done (stay s (warning (codes "You are not logged in") ∷ []))
      else (let msg = credentials_message (codes "OUT") s.uid s.pass in
          ask w s msg buffer_size λ reply. do
            (noted, next) ← expect (codes "ROU") reply
            (again, _) ← expect (codes "OK") next
            done (
                told (logout s) (udp msg)
                  (noted ++ (again ++ success (codes "You are now logged out") ∷ []))))

  unfoldable pub logout_ : Cursor → Session → Outcome (Turn × Cursor)
  unfolding log_out
  logout_ args s = do turn ← log_out s; done (turn, args)

  unfoldable pub showuid : Cursor → Session → Outcome (Turn × Cursor)
  unfolding is_logged
  showuid args s =
      if not (is_logged s)
      then done (stay s (warning (codes "You are not logged in") ∷ []), args)
      else done (stay s (info (s.uid ++ codes "\n") ∷ []), args)
