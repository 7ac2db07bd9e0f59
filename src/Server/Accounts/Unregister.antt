-- ===== src/Server/Accounts/Unregister.antt =====
-- `unregister` of src/server/commands.c against its contract, and its loop over the groups.
use projeto_rc.Base.{
  ℕ, suc, ◌≡◌, refl, ◌∙◌, inl, inr, true, false, none, some, List, [], ◌∷◌, arith, Bytes, codes,
  text_eq, Option-cases, Bool-cases, if◌then◌else◌, ◌⊎◌, All,
}
use projeto_rc.Base.Outcome.{done}
use projeto_rc.Disk.{FilePath, dir, file, Disk, lookup, erase, is_dir, depth, Os}
use projeto_rc.Disk.Laws.{erase_shrinks, lookup-erase, lookup-erase_self}
use projeto_rc.Files.{file_exists, delete_file, delete_directory, list_subdirectories}
use projeto_rc.Files.Allowed.{IsPermissive, remove_plain}
use projeto_rc.Files.Flat.{delete_directory_plain}
use projeto_rc.Files.Delete.{
  below, delete_directory-IsTree, delete_directory-outside, delete_directory-below,
}
use projeto_rc.Files.Laws.{erase-IsTree, child_none}
use projeto_rc.Sll.{items}
use projeto_rc.Server.Checks.{check_uid}
use projeto_rc.Server.Paths.{user_path, pass_txt, login_name, users_path, groups_path, group_path}
use projeto_rc.Server.Paths.Apart.{group_file-user_file, group_file-users, user_dir-user_file}
use projeto_rc.Server.Reply.{udp}
use projeto_rc.Server.Accounts.{leave_groups, remove_user}
use projeto_rc.Server.Accounts.Spec.{Account, account, HasAccounts, unregister_contract, Implements}
use projeto_rc.Server.Accounts.Credentials.{check_credencials_lem}
use projeto_rc.Server.Accounts.Keeps.{shrink-HasAccounts}
use projeto_rc.Server.Accounts.Refinement.{stays, account_ext}
use projeto_rc.Server.Accounts.Sessions.{account_dir}

abbrev member_path : Bytes → Bytes → FilePath
member_path uid g = uid ∷ group_path g

-- Nothing is added, and what is not there stays away.
abbrev Shrinks : Disk → Disk → Type 0
Shrinks fs fs' = (q : FilePath) → (lookup fs' q ≡ lookup fs q) ⊎ (lookup fs' q ≡ none)

Shrinks-trans : (fs gs hs : Disk) → Shrinks fs gs → Shrinks gs hs → Shrinks fs hs
Shrinks-trans fs gs hs a b q = ground (arith, a q, b q)

module _ {fs : Disk} (uid g : Bytes) (ok : HasAccounts fs)
    (valid : check_uid (some uid) ≡ true) where
  abbrev without_member : Disk
  without_member = erase (member_path uid g) fs

  pub member_not_dir : is_dir (lookup fs (member_path uid g)) ≡ false
  member_not_dir = elim (Option-cases (lookup fs (member_path uid g))) [
    | inl e ↦ rw e
    | inr (x, e) ↦ rw e (ok.members g uid x valid e)
  ]

  without_member-user_file :
      (n u : Bytes) → lookup without_member (n ∷ user_path u) ≡ lookup fs (n ∷ user_path u)
  without_member-user_file n u =
      rw (lookup-erase fs (member_path uid g) (n ∷ user_path u), group_file-user_file uid g n u)

  pub without_member-HasAccounts : HasAccounts without_member
  without_member-HasAccounts =
      shrink-HasAccounts ok
        (erase-IsTree uid (group_path g) ok.tree
          (λ m. child_none (member_path uid g) m ok.tree member_not_dir))
        (erase_shrinks fs (member_path uid g))
        (rw (lookup-erase fs (member_path uid g) users_path, group_file-users uid g))
        (λ u e. without_member-user_file pass_txt u)

  without_member-account : (u : Bytes) → account without_member u ≡ account fs u
  without_member-account u =
      account_ext fs without_member u (without_member-user_file pass_txt u)
        (without_member-user_file login_name u)

module _ (os : Os) (allowed : IsPermissive os) where
  -- The loop succeeds, keeps every account, and leaves the user's file in none of the groups.
  abbrev LeavesAll : Bytes → List Bytes → Disk → Type 0
  LeavesAll uid gs fs =
      (fs' : Disk) × (leave_groups os uid gs fs ≡ (fs', true))
      × HasAccounts fs'
      × ((u : Bytes) → account fs' u ≡ account fs u)
      × Shrinks fs fs'
      × All (λ g. lookup fs' (member_path uid g) ≡ none) gs

  leave_groups_lem :
      (uid : Bytes) (gs : List Bytes) (fs : Disk)
      → HasAccounts fs
      → check_uid (some uid) ≡ true
      → LeavesAll uid gs fs
  unfolding leave_groups file_exists delete_file
  leave_groups_lem uid [] fs ok valid = (fs, refl, ok, λ u. refl, λ q. inl refl, tt)
  leave_groups_lem uid (g ∷ gs) fs ok valid = elim (Option-cases (lookup fs (member_path uid g))) [
    | inl e ↦
        let (fs', d, ok', same, less, gone) = leave_groups_lem uid gs fs ok valid in
        (
          fs',
          rw (e, leave_groups) d,
          ok',
          same,
          less,
          (ground (arith, less (member_path uid g)), gone),
        )
    | inr (dir, e) ↦ absurd (ground (arith, ok.members g uid dir valid))
    | inr (file b, e) ↦
        let (fs', d, ok', same, less, gone) =
          leave_groups_lem uid gs (erase (member_path uid g) fs)
            (without_member-HasAccounts uid g ok valid) valid in
        (
          fs',
          rw (e, remove_plain os allowed (member_path uid g) fs b e, leave_groups) d,
          ok',
          λ u. same u ∙ without_member-account uid g ok valid u,
          Shrinks-trans fs (erase (member_path uid g) fs) fs' (erase_shrinks fs (member_path uid g))
              less,
          (
            ground (arith, less (member_path uid g), lookup-erase_self fs (member_path uid g)),
            gone,
          ),
        )
  ]

below_user_file : (uid n u : Bytes) → below (user_path uid) (n ∷ user_path u) ≡ text_eq uid u
below_user_file uid n u = rw (user_dir-user_file uid n u) (ground arith)

below_user_dir : (uid u : Bytes) → below (user_path uid) (user_path u) ≡ text_eq uid u
below_user_dir uid u = ground arith

below_users : (uid : Bytes) → below (user_path uid) users_path ≡ false
below_users uid = ground arith

module _ (os : Os) (k : ℕ) (uid : Bytes) {fs fs' : Disk} (ok : HasAccounts fs)
    (gone : delete_directory os k (user_path uid) fs ≡ done (fs', true)) where
  deleted-same : (q : FilePath) → below (user_path uid) q ≡ false → lookup fs' q ≡ lookup fs q
  deleted-same q b = delete_directory-outside os k (user_path uid) q fs (fs', true) ok.tree b gone

  deleted-none : (q : FilePath) → below (user_path uid) q ≡ true → lookup fs' q ≡ none
  deleted-none q b = delete_directory-below os k (user_path uid) q fs fs' ok.tree b gone

  deleted-Shrinks : Shrinks fs fs'
  deleted-Shrinks q = elim (Bool-cases (below (user_path uid) q)) [
    | inl e ↦ inr (deleted-none q e)
    | inr e ↦ inl (deleted-same q e)
  ]

  deleted-HasAccounts : HasAccounts fs'
  deleted-HasAccounts =
      shrink-HasAccounts ok
        (delete_directory-IsTree os k (user_path uid) fs (fs', true) ok.tree gone) deleted-Shrinks
        (deleted-same users_path (below_users uid))
        (λ u e. elim (Bool-cases (text_eq uid u)) [
          | inl same ↦
              absurd (ground (arith, deleted-none (user_path u) (below_user_dir uid u ∙ same)))
          | inr other ↦
              deleted-same (pass_txt ∷ user_path u) (below_user_file uid pass_txt u ∙ other)
        ])

  deleted-account : (u : Bytes) → account fs' u ≡ (if text_eq uid u then none else account fs u)
  deleted-account u = elim (Bool-cases (text_eq uid u)) [
    | inl same ↦ rw same (
        unfold account in
        rw (deleted-none (pass_txt ∷ user_path u) (below_user_file uid pass_txt u ∙ same), account))
    | inr other ↦ rw other (
        account_ext fs fs' u
          (deleted-same (pass_txt ∷ user_path u) (below_user_file uid pass_txt u ∙ other))
          (deleted-same (login_name ∷ user_path u) (below_user_file uid login_name u ∙ other)))
  ]

module _ (os : Os) (allowed : IsPermissive os) where
  deletes_user :
      (uid : Bytes) (fs : Disk) (a : Account)
      → HasAccounts fs
      → account fs uid ≡ some a
      → (fs' : Disk) × (delete_directory os (suc (depth fs)) (user_path uid) fs ≡ done (fs', true))
  deletes_user uid fs a ok e =
      delete_directory_plain os allowed (depth fs) uid users_path fs ok.tree
        (account_dir uid a ok e) (ok.plain uid)

  -- Where the system refuses no call, the accounts are in order and the uid is a valid one,
  -- `unregister` behind its checks comes to exactly one reply, RUN OK or RUN NOK, and removes the
  -- account exactly when it exists and the password is its own; no other account changes, and the
  -- accounts stay in order.
  pub remove_user-Implements :
      (uid pass : Bytes) (fs : Disk)
      → HasAccounts fs
      → check_uid (some uid) ≡ true
      → Implements (unregister_contract pass) uid fs (remove_user os uid pass fs)
  unfolding remove_user
  remove_user-Implements uid pass fs ok valid = elim (Option-cases (account fs uid)) [
    | inl e ↦ (
      record { disk = fs; sent = udp (codes "RUN NOK\n") ∷ []; value = some uid },
      rw (check_credencials_lem uid pass ok, e),
      rw e,
      λ u. rw e (stays fs uid u none e),
      ok,
    )
    | inr (a, e) ↦ elim (Bool-cases (text_eq a.pass pass)) [
      | inl same ↦
          let (fs1, gone) = deletes_user uid fs a ok e in
          let gs = items (list_subdirectories os groups_path fs1) in
          let (fs2, left, ok2, kept, _, _) =
            leave_groups_lem os allowed uid gs fs1
              (deleted-HasAccounts os (suc (depth fs)) uid ok gone) valid in
          (
            record { disk = fs2; sent = udp (codes "RUN OK\n") ∷ []; value = some uid },
            rw (check_credencials_lem uid pass ok, e, same, gone) (rw left),
            rw (e, same),
            λ u. rw (e, same) (kept u ∙ deleted-account os (suc (depth fs)) uid ok gone u),
            ok2,
          )
      | inr other ↦ (
        record { disk = fs; sent = udp (codes "RUN NOK\n") ∷ []; value = some uid },
        rw (check_credencials_lem uid pass ok, e, other),
        rw (e, other),
        λ u. rw (e, other) (stays fs uid u (some a) e),
        ok,
      )
    ]
  ]
