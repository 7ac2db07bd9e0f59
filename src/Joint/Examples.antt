-- ===== src/Joint/Examples.antt =====
-- The user's program and the server at work on a server with one user, and on one with a group and a
-- message.
use projeto_rc.Base.{
  ◌≡◌, refl, true, false, none, some, List, [], ◌∷◌, ◌++◌, map, arith, Bytes, codes,
}
use projeto_rc.Base.Decimal.{print, print_padded}
use projeto_rc.Base.Outcome.{done}
use projeto_rc.Disk.{Disk, FilePath, lookup, put, dir, file, readdir, entries}
use projeto_rc.Files.{directory_exists, list_subdirectories_ord}
use projeto_rc.Sll.{items, sll_append_ord}
use projeto_rc.Server.Checks.{check_mid, atoi}
use projeto_rc.Server.Paths.{group_path, msg_name}
use projeto_rc.Server.Reply.{Answer, tcp}
use projeto_rc.Server.Accounts.Spec.{account, HasAccounts, login_contract, unregister_contract}
use projeto_rc.Server.Messages.{attach, retrieve_from}
use projeto_rc.Server.Dispatch.{Server, parse_tcp_message}
use projeto_rc.Server.Examples.{
  plain_os, plain_os-IsPermissive, fresh, fresh-HasAccounts, one_user, one_user-HasAccounts, uid,
  pass, uid_valid, pass_valid,
}
use projeto_rc.Server.Requests.{gid, gname, one_group, groups_dir, group_free}
use projeto_rc.Server.Groups.Create.{with_group-HasAccounts}
use projeto_rc.Server.Posts.{messages, file_name, messages_there, no_file_yet}
use projeto_rc.User.Checks as UserChecks
use projeto_rc.User.Session.{Session, success, init_session, is_logged}
use projeto_rc.User.Accounts.{log_in, remove_user}
use projeto_rc.User.Messages.{unquoted, post_file, post_message, message_list}
use projeto_rc.User.Invariant.{init_session-IsSession}
use projeto_rc.User.Examples.{friendly, member, member-IsSession, member_logged, member_selected}
use projeto_rc.Joint.{exchange}
use projeto_rc.Joint.Accounts.{Exchanges, log_in-Exchanges, remove_user-Exchanges}
use projeto_rc.Joint.Turns.{login_turn, unregister_turn}
use projeto_rc.Joint.Checks.{print_padded-check_mid}
use projeto_rc.Joint.Link.{Command, register_as, remove_as, log_in_as, log_out_now, IsLinked}
use projeto_rc.Joint.Converse.{converse, Follows, converse-Follows}
use projeto_rc.Joint.Lifecycle.{lifecycle, lifecycle_lines}
use projeto_rc.Joint.Storing.{next_mid, with_text, with_attached, post_message-stores}
use projeto_rc.User.Session.{World}
use projeto_rc.Sll.{sll_size}
use projeto_rc.Files.{list_subdirectories}
use projeto_rc.Base.{◌+◌, ◌<◌}
use projeto_rc.Joint.Attach.{attach-post_file}
use projeto_rc.Joint.Letters.{Letter, IsLetter, letters_lines, letters_files}
use projeto_rc.Joint.Sending.{IsStored}
use projeto_rc.Joint.Messages.{retrieve_from-arrives}

abbrev fresh_server : Server
fresh_server = record { disk = fresh; buffer = [] }

abbrev user_server : Server
user_server = record { disk = one_user; buffer = [] }

nobody_logged : is_logged init_session ≡ false
unfolding is_logged init_session
nobody_logged = refl

no_account_yet : account fresh uid ≡ none
unfolding account lookup put
no_account_yet = refl

nobody-IsLinked : IsLinked init_session fresh_server
nobody-IsLinked = record {
  session = init_session-IsSession;
  accounts = fresh-HasAccounts;
  link = λ on. absurd (ground (arith, nobody_logged));
}

abbrev visit : List Command
visit = register_as uid pass ∷ log_in_as uid pass ∷ log_out_now ∷ []

converse-Follows_example :
    Follows plain_os plain_os-IsPermissive friendly visit init_session fresh_server (account fresh)
converse-Follows_example =
    converse-Follows plain_os plain_os-IsPermissive friendly visit init_session fresh_server
      ((uid_valid, pass_valid), ((uid_valid, pass_valid), (tt, tt))) nobody-IsLinked

lifecycle_example :
    (c' : Session) × (s' : Server) × (converse plain_os friendly
        (register_as uid pass ∷ log_in_as uid pass ∷ log_out_now ∷ remove_as uid pass ∷ [])
        init_session
        fresh_server
      ≡ done (c', s', lifecycle_lines))
    × (is_logged c' ≡ false)
    × ((v : Bytes) → account s'.disk v ≡ account fresh v)
    × HasAccounts s'.disk
lifecycle_example =
    lifecycle plain_os plain_os-IsPermissive friendly uid pass uid_valid pass_valid init_session
      fresh_server init_session-IsSession fresh-HasAccounts nobody_logged no_account_yet

log_in-Exchanges_example :
    Exchanges
      (login_contract pass)
      uid
      user_server
      (login_turn uid pass init_session (account one_user uid))
      (exchange plain_os friendly (λ w. log_in w uid pass) init_session user_server)
log_in-Exchanges_example =
    log_in-Exchanges plain_os plain_os-IsPermissive friendly init_session user_server
      one_user-HasAccounts uid pass uid_valid pass_valid

remove_user-Exchanges_example :
    Exchanges
      (unregister_contract pass)
      uid
      user_server
      (unregister_turn uid pass member (account one_user uid))
      (exchange plain_os friendly (λ w. remove_user w uid pass) member user_server)
remove_user-Exchanges_example =
    remove_user-Exchanges plain_os plain_os-IsPermissive friendly member user_server
      one_user-HasAccounts uid pass uid_valid pass_valid

short_mid : UserChecks.check_mid (some (codes "7")) ≡ true
unfolding UserChecks.check_mid
short_mid = refl

print_padded-check_mid_example :
    (check_mid (some (print_padded 4 (atoi (codes "7")))) ≡ true)
    × (atoi (print_padded 4 (atoi (codes "7"))) ≡ atoi (codes "7"))
print_padded-check_mid_example = print_padded-check_mid (codes "7") short_mid

group_dir_there : lookup one_group (group_path (codes "01")) ≡ some dir
unfolding lookup put
group_dir_there = refl

few_messages : sll_size (list_subdirectories plain_os messages one_group) + 1 < 10000
unfolding sll_size list_subdirectories lookup put readdir entries
few_messages = omega arith

next_free : lookup one_group (next_mid plain_os messages one_group ∷ messages) ≡ none
unfolding sll_size list_subdirectories lookup put readdir entries print_padded
next_free = refl

-- A user who can read the file.
abbrev owner : World
owner = record friendly { readable = λ name. some (codes "hi") }

post_message-stores_example :
    (sized : Bytes × Bytes) × (msg : Bytes) × (a : Answer) × (unquoted
        (b'"' ∷ (codes "text" ++ b'"' ∷ []))
      ≡ some sized)
    × (post_message plain_os owner member sized (some file_name) ≡ done (some msg))
    × (parse_tcp_message plain_os msg one_group ≡ done a)
    × (a.sent ≡ tcp (codes "RPT " ++ (next_mid plain_os messages one_group ++ codes "\n")) ∷ [])
    × (a.disk ≡ (
        let dir_of_message = next_mid plain_os messages one_group ∷ messages in
        with_attached dir_of_message
          (some (file_name, codes "hi"))
          (with_text dir_of_message uid (codes "text") one_group)))
post_message-stores_example =
    post_message-stores plain_os owner member (codes "text") (some (file_name, codes "hi"))
      one_group plain_os-IsPermissive member-IsSession member_logged member_selected (omega arith)
      (
        refl,
        ((refl, (refl, (refl, tt))), refl, refl, refl),
        (refl, (refl, (refl, tt))),
        omega arith,
        omega arith,
      )
      (with_group-HasAccounts gid gname one_user-HasAccounts groups_dir group_free).tree
      group_dir_there messages_there few_messages next_free

attach-post_file_example :
    attach plain_os messages (post_file file_name (codes "hi")) one_group
    ≡ done (
      put
          (file_name ∷ codes "FILE" ∷ messages)
          (file (codes "hi"))
          (put (codes "FILE" ∷ messages) dir one_group),
      true,
    )
attach-post_file_example =
    attach-post_file plain_os messages file_name (codes "hi") one_group plain_os-IsPermissive
      (with_group-HasAccounts gid gname one_user-HasAccounts groups_dir group_free).tree
      messages_there no_file_yet ((refl, (refl, (refl, tt))), refl, refl, refl)
      (refl, (refl, (refl, tt))) (omega arith) (omega arith)

abbrev letter : Letter
letter = record { mid = codes "0001"; author = uid; text = codes "hi"; attached = none }

abbrev letter_path : FilePath
letter_path = codes "0001" ∷ msg_name ∷ group_path (codes "01")

abbrev one_letter : Disk
one_letter =
    put (codes "text.txt" ∷ letter_path) (file (codes "hi"))
      (put (codes "author.txt" ∷ letter_path) (file uid) (put letter_path dir one_group))

letter-IsStored : IsStored plain_os one_letter (msg_name ∷ group_path (codes "01")) letter
unfolding lookup put directory_exists
letter-IsStored = record { author = refl; five = refl; text = refl; extra = refl }

letter-IsLetter : IsLetter friendly letter
letter-IsLetter = record {
  mid_digits = refl;
  mid_length = omega arith;
  author_word = (refl, (refl, (refl, (refl, (refl, tt)))));
  author_length = omega arith;
  text_length = omega arith;
  file = tt;
}

group_there_still : directory_exists (group_path (codes "01")) one_letter ≡ true
unfolding directory_exists lookup put
group_there_still = refl

letter_listed :
    items (list_subdirectories_ord plain_os (msg_name ∷ group_path (codes "01")) one_letter)
    ≡ [] ++ (map Letter.mid (letter ∷ []) ++ [])
unfolding items list_subdirectories_ord sll_append_ord readdir entries lookup put
letter_listed = refl

retrieve_from-arrives_example :
    (a : Answer) × (text : Bytes) × (retrieve_from plain_os uid (codes "01") 1 one_letter ≡ done a)
    × (a.sent ≡ tcp text ∷ [])
    × (message_list plain_os friendly text
        ≡ done (
          success (print 1 ++ codes " message(s) retrieved:") ∷ letters_lines (letter ∷ []),
          letters_files (letter ∷ []),
        ))
retrieve_from-arrives_example =
    retrieve_from-arrives plain_os friendly uid (codes "01") 1 one_letter [] (letter ∷ []) []
      group_there_still letter_listed (omega arith) (omega arith) (omega arith) tt
      ((letter-IsStored, omega arith), tt) tt (letter-IsLetter, tt)
