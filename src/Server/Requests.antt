-- ===== src/Server/Requests.antt =====
-- The requests about accounts and groups at work on a server with one user and one group.
use projeto_rc.Base.{
  ◌≡◌, refl, true, false, some, none, [], Bytes, codes, ◌++◌, nul, newline, ltb, ◌+◌, ◌∷◌,
}
use projeto_rc.Base.Outcome.{stop, null_file}
use projeto_rc.Disk.{Disk, lookup, put, dir, readdir, entries}
use projeto_rc.Files.{directory_exists, list_subdirectories}
use projeto_rc.Server.Checks.{check_gname, check_uid}
use projeto_rc.Server.Paths.{user_path, groups_path, group_path}
use projeto_rc.Server.Accounts.Spec.{
  reg_contract, login_contract, logout_contract, unregister_contract,
}
use projeto_rc.Server.Examples.{
  plain_os, plain_os-IsPermissive, one_user, one_user-HasAccounts, uid, pass, uid_valid, pass_valid,
}
use projeto_rc.Server.Groups.{subscribe_to}
use projeto_rc.Server.Groups.Join.{HasGroup, subscribe_to-missing}
use projeto_rc.Server.Groups.Create.{with_group, with_group-HasGroup}
use projeto_rc.Server.Dispatch.Stale.{handle-leftover}
use projeto_rc.Base.Decimal.{print_padded}
use projeto_rc.Sll.{sll_size}
use projeto_rc.Server.Dispatch.{Server, datagram, handle}
use projeto_rc.Server.Dispatch.Words.{request}
use projeto_rc.Server.Dispatch.Requests.{
  Handles, handle-reg, handle-unregister, handle-login_, handle-logout_,
}

abbrev server : Server
server = record { disk = one_user; buffer = [] }

handle-reg_example :
    Handles
      (reg_contract pass)
      uid
      server
      (handle plain_os (datagram (request (codes "REG") uid pass [])) server)
handle-reg_example =
    handle-reg plain_os plain_os-IsPermissive uid pass server uid_valid pass_valid
      one_user-HasAccounts

handle-unregister_example :
    Handles
      (unregister_contract pass)
      uid
      server
      (handle plain_os (datagram (request (codes "UNR") uid pass [])) server)
handle-unregister_example =
    handle-unregister plain_os plain_os-IsPermissive uid pass server uid_valid pass_valid
      one_user-HasAccounts

handle-login__example :
    Handles
      (login_contract pass)
      uid
      server
      (handle plain_os (datagram (request (codes "LOG") uid pass [])) server)
handle-login__example =
    handle-login_ plain_os plain_os-IsPermissive uid pass server uid_valid pass_valid
      one_user-HasAccounts

handle-logout__example :
    Handles
      (logout_contract pass)
      uid
      server
      (handle plain_os (datagram (request (codes "OUT") uid pass [])) server)
handle-logout__example =
    handle-logout_ plain_os plain_os-IsPermissive uid pass server uid_valid pass_valid
      one_user-HasAccounts

pub user_there : directory_exists (user_path uid) one_user ≡ true
unfolding directory_exists lookup put
user_there = refl

groups_there : directory_exists groups_path one_user ≡ true
unfolding directory_exists lookup put
groups_there = refl

group_missing : directory_exists (group_path (codes "01")) one_user ≡ false
unfolding directory_exists lookup put
group_missing = refl

subscribe_to-missing_example :
    subscribe_to plain_os uid (codes "01") (codes "rc") one_user ≡ stop null_file
subscribe_to-missing_example =
    subscribe_to-missing plain_os uid (codes "01") (codes "rc") one_user one_user-HasAccounts
      user_there refl groups_there group_missing

abbrev pub gid : Bytes
gid = codes "01"

abbrev pub gname : Bytes
gname = codes "rc"

pub groups_dir : lookup one_user groups_path ≡ some dir
unfolding lookup put
groups_dir = refl

pub group_free : lookup one_user (group_path gid) ≡ none
unfolding lookup put
group_free = refl

gname_valid : check_gname (some gname) ≡ true
unfolding check_gname
gname_valid = refl

abbrev pub one_group : Disk
one_group = with_group gid gname one_user

pub one_group-HasGroup : HasGroup gid gname one_group
one_group-HasGroup =
    with_group-HasGroup gid gname one_user-HasAccounts groups_dir group_free b'r' (codes "c") refl
      gname_valid

pub user_still : directory_exists (user_path uid) one_group ≡ true
unfolding directory_exists lookup put
user_still = refl

pub room : ltb 99 (sll_size (list_subdirectories plain_os groups_path one_user) + 1) ≡ false
unfolding sll_size list_subdirectories lookup put readdir entries
room = refl

pub new_free :
    lookup one_user (
      group_path
        (print_padded 2 (sll_size (list_subdirectories plain_os groups_path one_user) + 1)))
    ≡ none
unfolding sll_size list_subdirectories lookup put readdir entries print_padded
new_free = refl

-- The server after a request of the first user.
abbrev served : Server
served = record { disk = one_user; buffer = codes "REG" ++ nul ∷ (uid ++ nul ∷ (pass ++ nul ∷ [])) }

abbrev other : Bytes
other = codes "54321"

other_valid : check_uid (some other) ≡ true
unfolding check_uid
other_valid = refl

handle-leftover_example :
    Handles
      (reg_contract pass)
      other
      served
      (handle plain_os (datagram (codes "REG " ++ (other ++ newline ∷ []))) served)
handle-leftover_example =
    handle-leftover plain_os other pass [] served plain_os-IsPermissive other_valid pass_valid
      one_user-HasAccounts refl
