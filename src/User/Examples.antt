-- ===== src/User/Examples.antt =====
-- Worlds and sessions on which the theorems about the user's program are applied.
use projeto_rc.Base.{◌≡◌, refl, inr, true, none, some, [], ◌∷◌, ◌++◌, arith, codes}
use projeto_rc.Base.Outcome.{done, Ensures}
use projeto_rc.Server.Examples.{plain_os, uid, pass}
use projeto_rc.User.Checks.{check_uid, check_pass, check_gid}
use projeto_rc.User.Session.{
  Session, World, init_session, is_logged, is_group_selected, success, error, ask, expect,
  read_word, login, logout, response,
}
use projeto_rc.User.Accounts.{
  register, remove_user, log_in, credentials_message, with_credentials, login_, logout_, log_out,
}
use projeto_rc.User.Messages.{user_list}
use projeto_rc.User.Messages.Ends.{Halts, user_list-Halts}
use projeto_rc.User.Invariant.{IsSession}
use projeto_rc.User.Invariant.Prompt.{ValidRun, main-IsValid}
use projeto_rc.User.Args.{parse_args-last_text}
use projeto_rc.Util.Word.{get_word}
use projeto_rc.Util.Line.{get_line}
use projeto_rc.Server.Reply.{udp}
use projeto_rc.User.Prompt.{parse_input, parse_args, flags, prompt, main}
use projeto_rc.User.Typed.{typed, performed, parse_input-typed}

-- A server that accepts every login, and files that can be written.
abbrev pub friendly : World
friendly = record {
  answer = λ msg. some (codes "RLO OK\n");
  stream = λ msg. [];
  readable = λ name. none;
  writable = λ name. true;
}

-- A user who has selected the group 01.
abbrev pub member : Session
member = record { uid = uid; pass = pass; gid = codes "01" }

uid_checked : check_uid (some uid) ≡ true
unfolding check_uid
uid_checked = refl

pass_checked : check_pass (some pass) ≡ true
unfolding check_pass
pass_checked = refl

gid_checked : check_gid (some (codes "01")) ≡ true
unfolding check_gid
gid_checked = refl

pub member-IsSession : IsSession member
member-IsSession = record {
  user = inr (uid_checked, pass_checked);
  group = inr gid_checked;
  alone = λ e. absurd (ground arith);
}

pub member_logged : is_logged member ≡ true
unfolding is_logged
member_logged = refl

pub member_selected : is_group_selected member ≡ true
unfolding is_group_selected
member_selected = refl

main-IsValid_example :
    Ensures ValidRun
      (main plain_os (friendly ∷ friendly ∷ []) [] (codes "login 12345 password\nexit\n"))
main-IsValid_example =
    main-IsValid plain_os (friendly ∷ friendly ∷ []) [] (codes "login 12345 password\nexit\n")

user_list-Halts_example : Halts (user_list (codes "01") (codes "RUL OK team 12345 \n"))
user_list-Halts_example = user_list-Halts (codes "01") (codes "RUL OK team 12345 \n")

parse_args-last_text_example :
    parse_args (codes "-n" ∷ codes "tejo" ∷ codes "-n" ∷ codes "lima" ∷ [])
    ≡ done (codes "lima", codes "58065")
parse_args-last_text_example =
    parse_args-last_text ((codes "-n", codes "tejo") ∷ (codes "-n", codes "lima") ∷ [])
      (omega arith)

parse_input-typed_example :
    (parse_input plain_os friendly (codes "reg " ++ typed uid pass []) init_session
      ≡ performed (codes "reg") uid pass [] (register friendly uid pass init_session))
    × (parse_input plain_os friendly (codes "unregister " ++ typed uid pass []) init_session
        ≡ performed (codes "unregister") uid pass [] (remove_user friendly uid pass init_session))
    × (parse_input plain_os friendly (codes "login " ++ typed uid pass []) init_session
        ≡ performed (codes "login") uid pass [] (log_in friendly uid pass init_session))
parse_input-typed_example =
    parse_input-typed plain_os friendly uid pass [] init_session uid_checked pass_checked

-- The run above, to its end.
main_ends :
    main plain_os (friendly ∷ friendly ∷ []) [] (codes "login 12345 password\nexit\n")
    ≡ done (
      record { uid = []; pass = pass; gid = [] },
      udp (credentials_message (codes "LOG") uid pass)
          ∷ udp (credentials_message (codes "OUT") uid pass)
          ∷ [],
      success (codes "You are now logged in")
          ∷ error (codes "Unexpected response from server")
          ∷ success (codes "You are now logged out")
          ∷ [],
    )
unfolding main prompt parse_args flags get_line parse_input get_word login_ with_credentials log_in
    ask expect read_word is_logged login logout_ log_out logout init_session response check_uid
    check_pass
main_ends = refl
