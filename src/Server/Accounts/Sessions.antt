-- ===== src/Server/Accounts/Sessions.antt =====
-- `login_` and `logout_` of src/server/commands.c against their contracts.
use projeto_rc.Base.{
  ◌≡◌, refl, ◌∙◌, inl, inr, true, false, none, some, [], ◌∷◌, arith, Bytes, codes, text_eq,
  text_eq_sound, Option-cases, Bool-cases, if◌then◌else◌,
}
use projeto_rc.Disk.{FilePath, dir, file, Disk, lookup, put, erase, Os}
use projeto_rc.Disk.Laws.{erase_shrinks, lookup-put, lookup-erase}
use projeto_rc.Files.{file_exists, create_file, delete_file}
use projeto_rc.Files.Allowed.{IsPermissive, write_file_allowed, remove_plain}
use projeto_rc.Files.Laws.{erase-IsTree, child_none}
use projeto_rc.Server.Paths.{user_path, pass_txt, login_name, users_path}
use projeto_rc.Server.Reply.{Answer, udp}
use projeto_rc.Server.Accounts.{is_logged_in, log_in, log_out}
use projeto_rc.Server.Accounts.Spec.{
  Account, account, HasAccounts, login_contract, logout_contract, Implements,
}
use projeto_rc.Server.Accounts.Credentials.{check_credencials_lem}
use projeto_rc.Server.Accounts.Keeps.{put_file-HasAccounts, shrink-HasAccounts, user_file_not_dir}
use projeto_rc.Server.Accounts.Refinement.{stays}

abbrev login_path : Bytes → FilePath
login_path uid = login_name ∷ user_path uid

-- An account is a directory with a password file.
pub account_dir :
    {fs : Disk} (uid : Bytes) (a : Account)
    → HasAccounts fs
    → account fs uid ≡ some a
    → lookup fs (user_path uid) ≡ some dir
unfolding account
account_dir {fs} uid a ok h = elim (Option-cases (lookup fs (pass_txt ∷ user_path uid))) [
  | inl e ↦ absurd (ground arith)
  | inr (x, e) ↦ ok.tree.above pass_txt (user_path uid) x e
]

account_logged :
    (fs : Disk) (uid : Bytes) (a : Account)
    → account fs uid ≡ some a
    → is_logged_in uid fs ≡ a.logged
unfolding account
account_logged fs uid a h = ground arith

account-with_login :
    (fs : Disk) (uid u : Bytes) (a : Account)
    → account fs uid ≡ some a
    → account (put (login_path uid) (file []) fs) u
      ≡ (if text_eq uid u then some (record a { logged = true }) else account fs u)
unfolding account is_logged_in file_exists
account-with_login fs uid u a h = ground (
  arith,
  lookup-put fs (login_path uid) (pass_txt ∷ user_path u) (file []),
  lookup-put fs (login_path uid) (login_path u) (file []),
  text_eq_sound uid u,
)

account-without_login :
    (fs : Disk) (uid u : Bytes) (a : Account)
    → account fs uid ≡ some a
    → account (erase (login_path uid) fs) u
      ≡ (if text_eq uid u then some (record a { logged = false }) else account fs u)
unfolding account is_logged_in file_exists
account-without_login fs uid u a h = ground (
  arith,
  lookup-erase fs (login_path uid) (pass_txt ∷ user_path u),
  lookup-erase fs (login_path uid) (login_path u),
  text_eq_sound uid u,
)

without_login-HasAccounts :
    {fs : Disk} (uid : Bytes) → HasAccounts fs → HasAccounts (erase (login_path uid) fs)
without_login-HasAccounts {fs} uid ok =
    let found = λ (q : FilePath). lookup-erase fs (login_path uid) q in
    shrink-HasAccounts ok
      (erase-IsTree login_name (user_path uid) ok.tree
        (λ m. child_none (login_path uid) m ok.tree (user_file_not_dir login_name uid ok)))
      (erase_shrinks fs (login_path uid)) (ground (arith, found users_path))
      (λ u e. ground (arith, found (pass_txt ∷ user_path u)))

again : (a : Account) → a.logged ≡ true → some a ≡ some (record a { logged = true })
again a h = cc

again_off : (a : Account) → a.logged ≡ false → some a ≡ some (record a { logged = false })
again_off a h = cc

logged_file :
    {fs : Disk} (uid : Bytes)
    → HasAccounts fs
    → is_logged_in uid fs ≡ true
    → (b : Bytes) × (lookup fs (login_path uid) ≡ some (file b))
unfolding is_logged_in file_exists
logged_file {fs} uid ok h = elim (Option-cases (lookup fs (login_path uid))) [
  | inl e ↦ absurd (ground arith)
  | inr (dir, e) ↦ absurd (ground (arith, ok.plain uid login_name dir e))
  | inr (file b, e) ↦ (b, e)
]

module _ (os : Os) (allowed : IsPermissive os) where
  abbrev told : Disk → Bytes → Bytes → Answer
  told fs text uid = record { disk = fs; sent = udp text ∷ []; value = some uid }

  -- Where the system refuses no call and the accounts are in order, `login_` behind its checks
  -- replies RLO OK and marks the account as logged in exactly when it exists and the password is
  -- its own, replies RLO NOK and changes no account otherwise, and keeps the accounts in order.
  pub log_in-Implements :
      (uid pass : Bytes) (fs : Disk)
      → HasAccounts fs
      → Implements (login_contract pass) uid fs (log_in os uid pass fs)
  unfolding log_in
  log_in-Implements uid pass fs ok = elim (Option-cases (account fs uid)) [
    | inl e ↦ (
      told fs (codes "RLO NOK\n") uid,
      rw (check_credencials_lem uid pass ok, e),
      rw e,
      λ u. rw e (stays fs uid u none e),
      ok,
    )
    | inr (a, e) ↦ elim (Bool-cases (text_eq a.pass pass)) [
      | inl same ↦ elim (Bool-cases a.logged) [
        | inl on ↦ (
          told fs (codes "RLO OK\n") uid,
          rw (check_credencials_lem uid pass ok, e, same, account_logged fs uid a e, on),
          rw (e, same),
          λ u. rw (e, same) (stays fs uid u (some (record a { logged = true })) (e ∙ again a on)),
          ok,
        )
        | inr off ↦
            let up : lookup fs (user_path uid) ≡ some dir = account_dir uid a ok e in
            (
              told (put (login_path uid) (file []) fs) (codes "RLO OK\n") uid,
              rw (check_credencials_lem uid pass ok, e, same, account_logged fs uid a e, off)
                  (unfold create_file in
                    rw (
                      write_file_allowed os allowed login_name (user_path uid) [] fs up
                        (user_file_not_dir login_name uid ok))),
              rw (e, same),
              λ u. rw (e, same) (account-with_login fs uid u a e),
              put_file-HasAccounts login_name uid [] ok up refl refl,
            )
      ]
      | inr other ↦ (
        told fs (codes "RLO NOK\n") uid,
        rw (check_credencials_lem uid pass ok, e, other),
        rw (e, other),
        λ u. rw (e, other) (stays fs uid u (some a) e),
        ok,
      )
    ]
  ]

  -- Where the system refuses no call and the accounts are in order, `logout_` behind its checks
  -- replies ROU OK and marks the account as logged out exactly when it exists and the password is
  -- its own, replies ROU NOK and changes no account otherwise, and keeps the accounts in order.
  pub log_out-Implements :
      (uid pass : Bytes) (fs : Disk)
      → HasAccounts fs
      → Implements (logout_contract pass) uid fs (log_out os uid pass fs)
  unfolding log_out
  log_out-Implements uid pass fs ok = elim (Option-cases (account fs uid)) [
    | inl e ↦ (
      told fs (codes "ROU NOK\n") uid,
      rw (check_credencials_lem uid pass ok, e),
      rw e,
      λ u. rw e (stays fs uid u none e),
      ok,
    )
    | inr (a, e) ↦ elim (Bool-cases (text_eq a.pass pass)) [
      | inl same ↦ elim (Bool-cases a.logged) [
        | inl on ↦
            let (b, held) = logged_file uid ok (account_logged fs uid a e ∙ on) in
            (
              told (erase (login_path uid) fs) (codes "ROU OK\n") uid,
              rw (check_credencials_lem uid pass ok, e, same, account_logged fs uid a e, on)
                  (unfold delete_file in rw (remove_plain os allowed (login_path uid) fs b held)),
              rw (e, same),
              λ u. rw (e, same) (account-without_login fs uid u a e),
              without_login-HasAccounts uid ok,
            )
        | inr off ↦ (
          told fs (codes "ROU OK\n") uid,
          rw (check_credencials_lem uid pass ok, e, same, account_logged fs uid a e, off),
          rw (e, same),
          λ u.
              rw (e, same)
                (stays fs uid u (some (record a { logged = false })) (e ∙ again_off a off)),
          ok,
        )
      ]
      | inr other ↦ (
        told fs (codes "ROU NOK\n") uid,
        rw (check_credencials_lem uid pass ok, e, other),
        rw (e, other),
        λ u. rw (e, other) (stays fs uid u (some a) e),
        ok,
      )
    ]
  ]
