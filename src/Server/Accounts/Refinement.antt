-- ===== src/Server/Accounts/Refinement.antt =====
-- `reg` of src/server/commands.c against its contract, and how an account is read from the disk.
use projeto_rc.Base.{
  ◌≡◌, inl, inr, true, false, Option, none, some, [], ◌∷◌, arith, Bytes, codes, text_eq,
  text_eq_sound, Option-cases, if◌then◌else◌,
}
use projeto_rc.Disk.{dir, Disk, lookup, Os}
use projeto_rc.Disk.Laws.{lookup-put_self}
use projeto_rc.Files.{directory_exists, file_exists}
use projeto_rc.Files.Allowed.{IsPermissive, mkdir_allowed, write_file_allowed}
use projeto_rc.Files.Laws.{child_none}
use projeto_rc.Server.Checks.{check_pass}
use projeto_rc.Server.Paths.{user_path, users_path, pass_txt, login_name}
use projeto_rc.Server.Paths.Apart.{user_dir-user_file}
use projeto_rc.Server.Reply.{udp}
use projeto_rc.Server.Accounts.{is_logged_in, register}
use projeto_rc.Server.Accounts.Spec.{Account, account, HasAccounts, reg_contract, Implements}
use projeto_rc.Server.Accounts.Credentials.{account-none}
use projeto_rc.Server.Accounts.Keeps.{
  with_dir, no_pass, with_user, lookup-with_user, lookup-with_user_pass, new_user-HasAccounts,
}

-- The two lookups that an account is read from.
pub account_ext :
    (fs fs' : Disk) (u : Bytes)
    → lookup fs' (pass_txt ∷ user_path u) ≡ lookup fs (pass_txt ∷ user_path u)
    → lookup fs' (login_name ∷ user_path u) ≡ lookup fs (login_name ∷ user_path u)
    → account fs' u ≡ account fs u
unfolding account is_logged_in file_exists
account_ext fs fs' u e f = ground arith

pub account_user :
    {fs : Disk} (uid : Bytes)
    → HasAccounts fs
    → directory_exists (user_path uid) fs ≡ true
    → (a : Account) × (account fs uid ≡ some a)
unfolding account directory_exists
account_user {fs} uid ok e =
    let (t, h, v) = ok.has_pass uid (ground arith) in
    (record { pass = t; logged = is_logged_in uid fs }, ground arith)

pub stays :
    (fs : Disk) (uid u : Bytes) (o : Option Account)
    → account fs uid ≡ o
    → account fs u ≡ (if text_eq uid u then o else account fs u)
stays fs uid u o h = ground (arith, text_eq_sound uid u)

account-with_user :
    {fs : Disk} (uid pass u : Bytes)
    → HasAccounts fs
    → lookup fs (user_path uid) ≡ none
    → account (with_user uid pass fs) u
      ≡ (if text_eq uid u then some (record { pass = pass; logged = false }) else account fs u)
unfolding account is_logged_in file_exists
account-with_user {fs} uid pass u ok free = ground (
  arith,
  lookup-with_user_pass uid pass ok free u,
  lookup-with_user uid pass ok free (login_name ∷ user_path u),
  user_dir-user_file uid login_name u,
  child_none (user_path u) login_name ok.tree,
  text_eq_sound uid u,
)

module _ (os : Os) (allowed : IsPermissive os) where
  -- Where the system refuses no call, the accounts are in order and the password is a valid one,
  -- `reg` behind its checks replies RRG OK and creates the account, logged out and with the
  -- password, when there is none for the uid, replies RRG DUP and changes no account when there
  -- is one, and keeps the accounts in order.
  pub register-Implements :
      (uid pass : Bytes) (fs : Disk)
      → HasAccounts fs
      → check_pass (some pass) ≡ true
      → Implements (reg_contract pass) uid fs (register os uid pass fs)
  unfolding register
  register-Implements uid pass fs ok valid = elim (Option-cases (lookup fs (user_path uid))) [
    | inl e ↦
        let fresh : account fs uid ≡ none = account-none uid ok (unfold directory_exists in rw e) in
        (
          record {
            disk = with_user uid pass fs;
            sent = udp (codes "RRG OK\n") ∷ [];
            value = some uid;
          },
          ground (
            arith,
            mkdir_allowed os allowed uid users_path fs ok.users e,
            write_file_allowed os allowed pass_txt (user_path uid) pass (with_dir uid fs)
                (lookup-put_self fs (user_path uid) dir) (no_pass uid pass ok e),
          ),
          rw fresh,
          λ u. rw fresh (account-with_user uid pass u ok e),
          new_user-HasAccounts uid pass ok e valid,
        )
    | inr (x, e) ↦
        let here : directory_exists (user_path uid) fs ≡ true =
          unfold directory_exists in ground (arith, ok.user_dir uid x) in
        let (a, known) = account_user uid ok here in
        (
          record { disk = fs; sent = udp (codes "RRG DUP\n") ∷ []; value = some uid },
          rw here,
          rw known,
          λ u. rw known (stays fs uid u (some a) known),
          ok,
        )
  ]
