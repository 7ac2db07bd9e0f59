-- ===== src/Server/Accounts/Spec.antt =====
-- The accounts that the server's directory stands for, and what each account command promises.
use projeto_rc.Base.{
  ◌≡◌, Bool, true, false, Option, none, some, [], ◌∷◌, Bytes, codes, text_eq, if◌then◌else◌,
}
use projeto_rc.Base.Outcome.{Outcome, done}
use projeto_rc.Disk.{Node, dir, file, Disk, lookup, is_dir}
use projeto_rc.Files.Laws.{IsTree}
use projeto_rc.Files.Flat.{IsPlain}
use projeto_rc.Server.Checks.{check_uid, check_pass}
use projeto_rc.Server.Paths.{user_path, users_path, group_path, pass_txt}
use projeto_rc.Server.Reply.{Answer, udp}
use projeto_rc.Server.Accounts.{is_logged_in}

pub record Account : Type 0 where
  pub pass : Bytes
  pub logged : Bool

-- The account of a user: the password file's text, and whether the login file is there.
unfoldable pub account : Disk → Bytes → Option Account
unfolding is_logged_in
account fs uid = elim (lookup fs (pass_txt ∷ user_path uid)) [
  | none ↦ none
  | some dir ↦ none
  | some (file t) ↦ some (record { pass = t; logged = is_logged_in uid fs })
]

-- The part of the server's directory that the account commands rely on.
pub record HasAccounts (fs : Disk) : Type 0 where
  pub tree : IsTree fs
  pub users : lookup fs users_path ≡ some dir
  pub user_dir : (uid : Bytes) (x : Node) → lookup fs (user_path uid) ≡ some x → x ≡ dir
  pub has_pass :
      (uid : Bytes)
      → lookup fs (user_path uid) ≡ some dir
      → (t : Bytes) × (lookup fs (pass_txt ∷ user_path uid) ≡ some (file t))
        × (check_pass (some t) ≡ true)
  pub plain : (uid n : Bytes) (x : Node) → lookup fs (n ∷ user_path uid) ≡ some x → IsPlain n x
  pub members :
      (gid uid : Bytes) (x : Node)
      → check_uid (some uid) ≡ true
      → lookup fs (uid ∷ group_path gid) ≡ some x
      → is_dir (some x) ≡ false

-- An account before a command, to the account after it and the reply.
abbrev pub Contract : Type 0
Contract = Option Account → Option Account × Bytes

abbrev pub reg_contract : Bytes → Contract
reg_contract pass none = (some (record { pass = pass; logged = false }), codes "RRG OK\n")
reg_contract pass (some a) = (some a, codes "RRG DUP\n")

abbrev pub unregister_contract : Bytes → Contract
unregister_contract pass none = (none, codes "RUN NOK\n")
unregister_contract pass (some a) =
    if text_eq a.pass pass then (none, codes "RUN OK\n") else (some a, codes "RUN NOK\n")

abbrev pub login_contract : Bytes → Contract
login_contract pass none = (none, codes "RLO NOK\n")
login_contract pass (some a) =
    if text_eq a.pass pass
    then (some (record a { logged = true }), codes "RLO OK\n")
    else (some a, codes "RLO NOK\n")

abbrev pub logout_contract : Bytes → Contract
logout_contract pass none = (none, codes "ROU NOK\n")
logout_contract pass (some a) =
    if text_eq a.pass pass
    then (some (record a { logged = false }), codes "ROU OK\n")
    else (some a, codes "ROU NOK\n")

-- The command comes to an answer, which is the one reply of the contract; the account of the user is
-- the contract's, no other account changes, and the directory stays in order.
abbrev pub Implements : Contract → Bytes → Disk → Outcome Answer → Type 0
Implements contract uid fs o =
    (a : Answer) × (o ≡ done a)
    × (a.sent ≡ udp (contract (account fs uid)).1 ∷ [])
    × ((u : Bytes)
        → account a.disk u
          ≡ (if text_eq uid u then (contract (account fs uid)).0 else account fs u))
    × HasAccounts a.disk
