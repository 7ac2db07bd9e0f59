-- ===== src/Server/Accounts/Credentials.antt =====
-- `check_credencials` against the account that the disk holds.
use projeto_rc.Base.{
  ℕ, ◌≡◌, refl, true, false, ◌||◌, Option, none, some, [], ◌∷◌, arith, Bytes, text_eq, is_digit,
  is_alpha, all, if◌then◌else◌, Bool-cases, inl, inr,
}
use projeto_rc.Base.Outcome.{done}
use projeto_rc.Disk.{Disk, lookup, is_dir}
use projeto_rc.Files.{directory_exists}
use projeto_rc.Files.Laws.{child_none}
use projeto_rc.Server.Checks.{check_pass}
use projeto_rc.Server.Paths.{user_path, pass_txt}
use projeto_rc.Server.Reply.{open_read, scan_string, take_word}
use projeto_rc.Server.Accounts.{check_credencials}
use projeto_rc.Server.Accounts.Spec.{Account, account, HasAccounts}

take_word_id : (s : Bytes) → all (λ c. is_digit c || is_alpha c) s ≡ true → take_word s ≡ s
take_word_id [] h = refl
take_word_id (c ∷ s) h = ground (arith, take_word_id s)

-- A valid password is read back as it was written.
pub scan_string-pass : (t : Bytes) → check_pass (some t) ≡ true → scan_string 9 t ≡ done t
unfolding check_pass scan_string
scan_string-pass [] h = cc
scan_string-pass (c ∷ s) h = ground (arith, take_word_id (c ∷ s))

-- The verdict of the documentation above the code, from the account.
abbrev pub verdict : Bytes → Option Account → ℕ
verdict pass none = 1
verdict pass (some a) = if text_eq a.pass pass then 0 else 2

pub account-none :
    {fs : Disk} (uid : Bytes)
    → HasAccounts fs
    → directory_exists (user_path uid) fs ≡ false
    → account fs uid ≡ none
unfolding directory_exists account
account-none {fs} uid ok h = ground (arith, child_none (user_path uid) pass_txt ok.tree)

-- With the accounts in order, `check_credencials` returns 1 when the uid has no account, 0 when
-- the password is the account's, and 2 when it is another, and reads no missing or empty password
-- file.
pub check_credencials_lem :
    {fs : Disk} (uid pass : Bytes)
    → HasAccounts fs
    → check_credencials uid pass fs ≡ done (verdict pass (account fs uid))
unfolding check_credencials account directory_exists open_read
check_credencials_lem {fs} uid pass ok = elim (Bool-cases (is_dir (lookup fs (user_path uid)))) [
  | inl e ↦
      let (t, h, valid) = ok.has_pass uid (ground arith) in ground (arith, scan_string-pass t valid)
  | inr e ↦ ground (arith, account-none uid ok e)
]
