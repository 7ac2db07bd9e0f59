-- ===== src/Server/Examples.antt =====
-- A system that refuses nothing, the disk of a fresh server, and the theorems at work on them.
use mathlib.Core.List.Perm
use projeto_rc.Base.{◌≡◌, refl, true, false, none, some, [], ◌∷◌, arith, Bytes, codes}
use projeto_rc.Disk.{dir, Disk, lookup, put, Os}
use projeto_rc.Files.{create_filesystem}
use projeto_rc.Files.Allowed.{IsPermissive}
use projeto_rc.Files.Laws.{IsTree}
use projeto_rc.Server.Checks.{check_uid, check_pass}
use projeto_rc.Server.Paths.{server_path, user_path}
use projeto_rc.Server.Start.{started, started-HasAccounts, create_filesystem-HasAccounts}
use projeto_rc.Server.Accounts.Spec.{HasAccounts}
use projeto_rc.Server.Accounts.Keeps.{with_user, new_user-HasAccounts}

abbrev pub plain_os : Os
plain_os = record {
  denied = λ c p fs. false;
  order = λ p es. es;
  chunk = λ n s. n;
  order_perm = λ p es. Perm.refl es;
}

pub plain_os-IsPermissive : IsPermissive plain_os
plain_os-IsPermissive c p fs = refl

abbrev empty_disk : Disk
empty_disk = ([], dir) ∷ []

empty_disk-IsTree : IsTree empty_disk
unfolding lookup
empty_disk-IsTree = record {
  root = refl;
  above = λ n p x e. absurd (ground arith);
  unique = (refl, tt);
}

empty_disk_free : lookup empty_disk server_path ≡ none
unfolding lookup
empty_disk_free = refl

abbrev pub fresh : Disk
fresh = started empty_disk

pub fresh-HasAccounts : HasAccounts fresh
fresh-HasAccounts = started-HasAccounts empty_disk empty_disk-IsTree empty_disk_free

abbrev pub uid : Bytes
uid = codes "12345"

abbrev pub pass : Bytes
pass = codes "password"

abbrev pub one_user : Disk
one_user = with_user uid pass fresh

pub pass_valid : check_pass (some pass) ≡ true
unfolding check_pass
pass_valid = refl

pub uid_valid : check_uid (some uid) ≡ true
unfolding check_uid
uid_valid = refl

fresh_free : lookup fresh (user_path uid) ≡ none
unfolding lookup put
fresh_free = refl

pub one_user-HasAccounts : HasAccounts one_user
one_user-HasAccounts = new_user-HasAccounts uid pass fresh-HasAccounts fresh_free pass_valid

create_filesystem-HasAccounts_example :
    (fs' : Disk) × (create_filesystem plain_os [] empty_disk ≡ some (server_path, fs'))
    × HasAccounts fs'
create_filesystem-HasAccounts_example =
    create_filesystem-HasAccounts plain_os empty_disk plain_os-IsPermissive empty_disk-IsTree
      empty_disk_free
