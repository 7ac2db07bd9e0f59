-- ===== src/User/Groups.antt =====
-- The group commands of src/user/commands.c: groups, subscribe, unsubscribe, my_groups, select_ and
-- showgid.
use projeto_rc.Base.{
  ℕ, zero, suc, not, ◌&&◌, List, [], ◌∷◌, ◌++◌, Bytes, codes, text_eq, if◌then◌else◌,
}
use projeto_rc.Base.Outcome.{Outcome, done, ◌>>=◌}
use projeto_rc.Util.Word.{Cursor, get_word}
use projeto_rc.Server.Reply.{udp, text_of}
use projeto_rc.User.Checks.{check_gid, check_gname, gid_lines, group_lines}
use projeto_rc.User.Session.{
  Session, World, Turn, Line, success, warning, error, info, stay, told, ask, expect, read_word,
  rounds_of, is_logged, is_group_selected, select_group,
}
use projeto_rc.User.Accounts.{buffer_size}

-- RESPONSE_SIZE
abbrev pub response_size : ℕ
response_size = 6400

abbrev pub not_logged : Session → Turn
not_logged s = stay s (warning (codes "You are not logged in") ∷ [])

-- The loop of `groups`: three words for each group.
unfoldable pub group_rows : ℕ → Cursor → Outcome (List Line)
unfolding read_word
group_rows zero reply = done []
group_rows (suc n) reply = read_word reply >>= λ (id, reply1).
    read_word reply1 >>= λ (name, reply2). read_word reply2 >>= λ (message, reply3).
    group_rows n reply3 >>= λ lines. done (
      info (codes "\t[" ++ (id ++ (codes "] " ++ (name ++ (codes " " ++ (message ++ codes "\n"))))))
      ∷ lines)

-- The loop of `my_groups`: the third word is thrown away.
unfoldable pub my_rows : ℕ → Cursor → Outcome (List Line)
unfolding read_word get_word
my_rows zero reply = done []
my_rows (suc n) reply = read_word reply >>= λ (id, reply1). read_word reply1 >>= λ (name, reply2).
    get_word reply2 >>= λ (_, reply3). my_rows n reply3 >>= λ lines.
    done (info (codes "\t[" ++ (id ++ (codes "] " ++ (name ++ codes "\n")))) ∷ lines)

module _ (w : World) where
  -- `groups`, which needs no session.
  unfoldable pub list_groups : Session → Outcome Turn
  unfolding ask expect read_word rounds_of group_rows
  list_groups s =
      let msg = codes "GLS\n" in
      ask w s msg response_size λ reply. do
        (noted, next) ← expect (codes "RGL") reply
        (count, rows) ← read_word next
        (n, number) ← rounds_of count
        lines ← group_rows n rows
        done (
            told s (udp msg) (
              noted
              ++ (if text_eq number (codes "0")
                  then warning (codes "There are no groups available\n") ∷ []
                  else success (codes "List of groups:") ∷ lines)))

  unfoldable pub groups : Cursor → Session → Outcome (Turn × Cursor)
  unfolding list_groups
  groups args s = do turn ← list_groups s; done (turn, args)

  -- The lines for the status of a `subscribe`; a new gid is read from the reply.
  abbrev pub subscribed : Bytes → Bytes → Bytes → Cursor → Outcome Line
  subscribed gid gname status reply =
      if text_eq status (codes "OK")
      then done (success (codes "Subscribed to: [" ++ (gid ++ (codes "] " ++ gname))))
      else if text_eq status (codes "NEW")
      then (do
        (new, _) ← read_word reply
        done (
            success (codes "New group create and subscribed: [" ++ (new ++ (codes "] " ++ gname)))))
      else if text_eq status (codes "E_USR")
      then done (error (codes "Invalid UID"))
      else if text_eq status (codes "E_GRP")
      then done (error (codes "Invalid GID: " ++ gid))
      else if text_eq status (codes "E_GNAME")
      then done (error (codes "Invalid GNAME: " ++ gname))
      else if text_eq status (codes "E_FULL")
      then done (warning (codes "Server capacity is full, no more groups can be created"))
      else done (error (codes "Unkown error"))

  -- `subscribe` behind its checks.
  unfoldable pub subscribe_to : Bytes → Bytes → Session → Outcome Turn
  unfolding ask expect read_word
  subscribe_to gid gname s =
      let msg =
        codes "GSR " ++ (s.uid ++ (codes " " ++ (gid ++ (codes " " ++ (gname ++ codes "\n"))))) in
      ask w s msg buffer_size λ reply. do
        (noted, next) ← expect (codes "RGS") reply
        (status, rest) ← read_word next
        line ← subscribed gid gname status rest
        done (told s (udp msg) (noted ++ line ∷ []))

  unfoldable pub subscribe : Cursor → Session → Outcome (Turn × Cursor)
  unfolding is_logged get_word check_gid check_gname subscribe_to
  subscribe args s = if not (is_logged s) then done (not_logged s, args) else (do
    (gid, args1) ← get_word args
    (gname, args2) ← get_word args1
    turn ←
        if check_gid gid && check_gname gname
        then subscribe_to (text_of gid) (text_of gname) s
        else done (stay s (group_lines gid gname))
    done (turn, args2))

  abbrev unsubscribed : Bytes → Bytes → Line
  unsubscribed gid status =
      if text_eq status (codes "OK")
      then success (codes "You are no longer subscribed to group " ++ gid)
      else if text_eq status (codes "E_USR")
      then error (codes "Invalid UID")
      else if text_eq status (codes "E_GRP")
      then error (codes "Invalid GID: " ++ gid)
      else error (codes "Unkown error")

  -- `unsubscribe` behind its checks.
  unfoldable pub unsubscribe_from : Bytes → Session → Outcome Turn
  unfolding ask expect read_word
  unsubscribe_from gid s =
      let msg = codes "GUR " ++ (s.uid ++ (codes " " ++ (gid ++ codes "\n"))) in
      ask w s msg buffer_size λ reply. do
        (noted, next) ← expect (codes "RGU") reply
        (status, _) ← read_word next
        done (told s (udp msg) (noted ++ unsubscribed gid status ∷ []))

  unfoldable pub unsubscribe : Cursor → Session → Outcome (Turn × Cursor)
  unfolding is_logged get_word check_gid unsubscribe_from
  unsubscribe args s = if not (is_logged s) then done (not_logged s, args) else (do
    (gid, args1) ← get_word args
    turn ← if check_gid gid then unsubscribe_from (text_of gid) s else done (stay s (gid_lines gid))
    done (turn, args1))

  unfoldable pub groups_of : Session → Outcome Turn
  unfolding is_logged ask expect read_word rounds_of my_rows
  groups_of s =
      if not (is_logged s)
      then done (not_logged s)
      else (let msg = codes "GLM " ++ (s.uid ++ codes "\n") in
          ask w s msg response_size λ reply. do
            (noted, next) ← expect (codes "RGM") reply
            (count, rows) ← read_word next
            if text_eq count (codes "E_USR")
                then done (told s (udp msg) (noted ++ error (codes "Invalid UID") ∷ []))
                else (do
                  (n, number) ← rounds_of count
                  lines ← my_rows n rows
                  done (
                      told s (udp msg) (
                        noted
                        ++ (if text_eq number (codes "0")
                            then warning (codes "You are not subscribed to any group\n") ∷ []
                            else success (codes "Groups you are subscribed to:") ∷ lines)))))

  unfoldable pub my_groups : Cursor → Session → Outcome (Turn × Cursor)
  unfolding groups_of
  my_groups args s = do turn ← groups_of s; done (turn, args)

  unfoldable pub select_ : Cursor → Session → Outcome (Turn × Cursor)
  unfolding is_logged get_word check_gid select_group
  select_ args s = do
    (gid, args1) ← get_word args
    turn ←
        if not (check_gid gid)
        then done (stay s (gid_lines gid))
        else if not (is_logged s)
        then done (not_logged s)
        else (do
          s' ← select_group s (text_of gid)
          done (stay s' (success (codes "Selected: " ++ s'.gid) ∷ [])))
    done (turn, args1)

  unfoldable pub showgid : Cursor → Session → Outcome (Turn × Cursor)
  unfolding is_logged is_group_selected
  showgid args s =
      if not (is_logged s)
      then done (not_logged s, args)
      else if not (is_group_selected s)
      then done (stay s (warning (codes "No group selected") ∷ []), args)
      else done (stay s (info (codes "Selected: " ++ (s.gid ++ codes "\n")) ∷ []), args)
