-- ===== src/User/Invariant/Messages.antt =====
-- The message commands of the user's program, which leave the session as it was.
use projeto_rc.Base.{inl, inr, Option, none, some, ◌++◌, Bytes, codes, if◌then◌else◌, Bool-cases}
use projeto_rc.Base.Outcome.{done, Ensures, Ensures->>=, Ensures-if}
use projeto_rc.Disk.{Os}
use projeto_rc.Util.Word.{Cursor, get_word}
use projeto_rc.Util.Line.{get_quote}
use projeto_rc.Server.Reply.{text_of}
use projeto_rc.User.Checks.{mid_lines, check_mid}
use projeto_rc.User.Session.{Session, World, expect, read_word, is_logged, is_group_selected, stay}
use projeto_rc.User.Messages.{
  user_list, unquoted, post_message, response_tcp, send_written, post_unquoted, post_quoted,
  send_post, post_text, ulist, post, message_list, retrieve_message, retrieve_from, retrieve,
}
use projeto_rc.User.Invariant.{IsSession, IsValid, ValidTurn, with_cursor-ValidTurn}

module _ (os : Os) (w : World) (args : Cursor) (s : Session) (v : IsSession s) where
  pub ulist-ValidTurn : Ensures ValidTurn (ulist os w args s)
  unfolding ulist
  ulist-ValidTurn = elim (Bool-cases (is_logged s)) [
    | inr off ↦ rw off (v, tt)
    | inl on ↦ elim (Bool-cases (is_group_selected s)) [
      | inr e ↦ rw (on, e) (v, tt)
      | inl e ↦
          rw (on, e)
            (Ensures->>= ValidTurn
              (user_list s.gid (w.stream (codes "ULS " ++ (s.gid ++ codes "\n")))) _
              λ lines _. (v, (tt, tt)))
    ]
  ]

  send_post-IsValid : (msg : Bytes) → Ensures IsValid (send_post os w s msg)
  unfolding send_post
  send_post-IsValid msg = Ensures->>= IsValid (response_tcp os w (w.stream msg)) _ λ reply _.
      Ensures->>= IsValid (expect (codes "RPT") reply) _
        λ next _. Ensures->>= IsValid (read_word next.1) _ λ status _. (v, (tt, tt))

  send_written-ValidTurn :
      (name : Option Bytes) (args' : Cursor) (written : Option Bytes)
      → Ensures ValidTurn (send_written os w s name (written, args'))
  send_written-ValidTurn name args' none = (v, tt)
  send_written-ValidTurn name args' (some msg) =
      with_cursor-ValidTurn (send_post os w s msg) args' (send_post-IsValid msg)

  post_unquoted-ValidTurn :
      (args' : Cursor) (sized : Option (Bytes × Bytes))
      → Ensures ValidTurn (post_unquoted os w s args' sized)
  post_unquoted-ValidTurn args' none = (v, tt)
  post_unquoted-ValidTurn args' (some sized) = Ensures->>= ValidTurn (get_word args') _ λ name _.
      Ensures->>= ValidTurn (post_message os w s sized name.0) _
        λ sent _. send_written-ValidTurn name.0 name.1 sent

  post_quoted-ValidTurn :
      (quoted : Option Bytes × Cursor) → Ensures ValidTurn (post_quoted os w s quoted)
  post_quoted-ValidTurn (none, args') = tt
  post_quoted-ValidTurn (some quoted, args') = post_unquoted-ValidTurn args' (unquoted quoted)

  post_text-ValidTurn : Ensures ValidTurn (post_text os w args s)
  unfolding post_text
  post_text-ValidTurn =
      Ensures->>= ValidTurn (get_quote args) _ λ quoted _. post_quoted-ValidTurn quoted

  pub post-ValidTurn : Ensures ValidTurn (post os w args s)
  unfolding post
  post-ValidTurn = elim (Bool-cases (is_logged s)) [
    | inr off ↦ rw off (v, tt)
    | inl on ↦ elim (Bool-cases (is_group_selected s)) [
      | inr e ↦ rw (on, e) (v, tt)
      | inl e ↦ rw (on, e) post_text-ValidTurn
    ]
  ]

  retrieve_from-IsValid : (mid : Bytes) → Ensures IsValid (retrieve_from os w mid s)
  unfolding retrieve_from
  retrieve_from-IsValid mid =
      Ensures->>= IsValid (message_list os w (w.stream (retrieve_message os w s mid))) _
        λ rows _. (v, (tt, tt))

  retrieve_word :
      (a : Option Bytes)
      → Ensures IsValid
          (if check_mid a then retrieve_from os w (text_of a) s else done (stay s (mid_lines a)))
  retrieve_word a =
      Ensures-if IsValid (check_mid a) _ _ (λ e. retrieve_from-IsValid (text_of a)) (λ e. (v, tt))

  pub retrieve-ValidTurn : Ensures ValidTurn (retrieve os w args s)
  unfolding retrieve
  retrieve-ValidTurn = elim (Bool-cases (is_logged s)) [
    | inr off ↦ rw off (v, tt)
    | inl on ↦ elim (Bool-cases (is_group_selected s)) [
      | inr e ↦ rw (on, e) (v, tt)
      | inl e ↦
          rw (on, e)
            (Ensures->>= ValidTurn (get_word args) _
              λ a _. with_cursor-ValidTurn _ a.1 (retrieve_word a.0))
    ]
  ]
