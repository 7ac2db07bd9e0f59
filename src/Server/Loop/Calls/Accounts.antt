-- ===== src/Server/Loop/Calls/Accounts.antt =====
-- The account commands of src/server/commands.c keep what the system calls keep.
use projeto_rc.Base.{
  ℕ, suc, ◌≡◌, inl, inr, Bool, true, false, Option, none, some, List, [], ◌∷◌, Bytes, ◌==◌,
  Bool-cases, Option-cases, arith,
}
use projeto_rc.Base.Outcome.{Outcome, Ensures, Ensures->>=, Ensures-done, Ensures-if}
use projeto_rc.Disk.{Disk, Os, depth}
use projeto_rc.Files.{
  directory_exists, file_exists, create_directory_abs, create_file, delete_file, delete_directory,
  list_subdirectories,
}
use projeto_rc.Files.Delete.{below, below_self, below_deeper, delete_directory_rule}
use projeto_rc.Sll.{items}
use projeto_rc.Util.Word.{Cursor, get_word}
use projeto_rc.Server.Reply.{Answer, text_of}
use projeto_rc.Server.Checks.{check_uid}
use projeto_rc.Server.Paths.{user_path, group_path, groups_path, pass_txt, login_name}
use projeto_rc.Server.Accounts.{
  check_credencials, is_logged_in, register, leave_groups, remove_user, log_in, log_out,
  with_credentials, both_valid, left_groups, deleted_user,
}
use projeto_rc.Server.Loop.Calls.{
  in_user, in_group, IsKept, Ensures-option, Keeps, KeepsBoth, with_cursor, ensured,
}

module _ (os : Os) (P : Disk → Type 0) (kept : IsKept os P) where
  left_groups-Keeps :
      (uid : Bytes) (r : Disk × Bool) → P r.0 → Ensures (Keeps P) (left_groups os uid r)
  left_groups-Keeps uid (fs, true) h = h
  left_groups-Keeps uid (fs, false) h = h

  valid_uid :
      (uid pass : Option Bytes) → both_valid uid pass ≡ true → check_uid (some (text_of uid)) ≡ true
  unfolding check_uid
  valid_uid none pass e = absurd (ground arith)
  valid_uid (some s) pass e = ground arith

  pub register-Keeps :
      (uid pass : Bytes) (fs : Disk) → P fs → Ensures (Keeps P) (register os uid pass fs)
  unfolding register create_directory_abs create_file
  register-Keeps uid pass fs h =
      Ensures-if (Keeps P) (directory_exists (user_path uid) fs) _ _ (λ e. h)
        λ e. Ensures-option (Keeps P) (create_directory_abs os (user_path uid) fs) _ _ h λ fs1 k.
          let h1 = kept.by_mkdir (user_path uid) fs fs1 h k in
          Ensures-option (Keeps P) (create_file os (user_path uid) pass_txt (some pass) fs1) _ _ h1
            λ fs2 l. kept.by_write (pass_txt ∷ user_path uid) pass fs1 fs2 h1 l

  leave_groups_keeps :
      (uid : Bytes) (gs : List Bytes) (fs : Disk)
      → check_uid (some uid) ≡ true
      → P fs
      → P (leave_groups os uid gs fs).0
  unfolding leave_groups delete_file
  leave_groups_keeps uid [] fs v h = h
  leave_groups_keeps uid (g ∷ gs) fs v h = elim (Bool-cases (file_exists (group_path g) uid fs)) [
    | inr e ↦ rw (e, leave_groups) (leave_groups_keeps uid gs fs v h)
    | inl e ↦ elim (Option-cases (delete_file os (group_path g) uid fs)) [
      | inl k ↦ rw (e, k, leave_groups) h
      | inr (fs1, k) ↦
          rw (e, k, leave_groups)
            (leave_groups_keeps uid gs fs1 v
              (kept.by_remove (uid ∷ group_path g) fs fs1 (in_group g uid v) h k))
    ]
  ]

  delete_user_keeps :
      (n : ℕ) (uid : Bytes) (fs : Disk)
      → P fs
      → Ensures (λ r. P r.0) (delete_directory os n (user_path uid) fs)
  delete_user_keeps n uid fs h = ensured (delete_directory os n (user_path uid) fs) λ r e.
      delete_directory_rule os (λ p. below (user_path uid) p ≡ true) P
        (λ m p b. below_deeper os (user_path uid) m p b)
        (λ p f g b k c. kept.by_remove p f g (in_user uid b) k c)
        (λ p f g b k c. kept.by_rmdir p f g (in_user uid b) k c) n (user_path uid) fs r
        (below_self (user_path uid)) h e

  deleted_user-Keeps :
      (uid : Bytes) (fs : Disk) (ok : Bool)
      → check_uid (some uid) ≡ true
      → P fs
      → Ensures (Keeps P) (deleted_user os uid (fs, ok))
  deleted_user-Keeps uid fs false v h = h
  deleted_user-Keeps uid fs true v h =
      left_groups-Keeps uid (leave_groups os uid (items (list_subdirectories os groups_path fs)) fs)
        (leave_groups_keeps uid _ fs v h)

  pub remove_user-Keeps :
      (uid pass : Bytes) (fs : Disk)
      → check_uid (some uid) ≡ true
      → P fs
      → Ensures (Keeps P) (remove_user os uid pass fs)
  unfolding remove_user
  remove_user-Keeps uid pass fs v h = Ensures->>= (Keeps P) (check_credencials uid pass fs) _ λ c _.
      Ensures-if (Keeps P) (c == 0) _ _
        (λ e.
          Ensures->>= (Keeps P) (delete_directory os (suc (depth fs)) (user_path uid) fs)
            (deleted_user os uid)
            λ r d.
              deleted_user-Keeps uid r.0 r.1 v
                (Ensures-done (λ r. P r.0) _ d (delete_user_keeps (suc (depth fs)) uid fs h)))
        (λ e. h)

  pub log_in-Keeps :
      (uid pass : Bytes) (fs : Disk) → P fs → Ensures (Keeps P) (log_in os uid pass fs)
  unfolding log_in create_file
  log_in-Keeps uid pass fs h = Ensures->>= (Keeps P) (check_credencials uid pass fs) _ λ c _.
      Ensures-if (Keeps P) (c == 0) _ _
        (λ e.
          Ensures-if (Keeps P) (is_logged_in uid fs) _ _ (λ k. h)
            λ k.
              Ensures-option (Keeps P) (create_file os (user_path uid) login_name none fs) _ _ h
                λ fs1 l. kept.by_write (login_name ∷ user_path uid) [] fs fs1 h l)
        (λ e. h)

  pub log_out-Keeps :
      (uid pass : Bytes) (fs : Disk) → P fs → Ensures (Keeps P) (log_out os uid pass fs)
  unfolding log_out delete_file
  log_out-Keeps uid pass fs h = Ensures->>= (Keeps P) (check_credencials uid pass fs) _ λ c _.
      Ensures-if (Keeps P) (c == 0) _ _
        (λ e.
          Ensures-if (Keeps P) (is_logged_in uid fs) _ _
            (λ k.
              Ensures-option (Keeps P) (delete_file os (user_path uid) login_name fs) _ _ h λ fs1 l.
                kept.by_remove (login_name ∷ user_path uid) fs fs1
                  (in_user uid (
                    below_deeper os (user_path uid) login_name (user_path uid)
                      (below_self (user_path uid))))
                  h l)
            (λ k. h))
        (λ e. h)

  pub with_credentials-Keeps :
      (refusal : Bytes) (body : Bytes → Bytes → Disk → Outcome Answer) (args : Cursor) (fs : Disk)
      → P fs
      → ((uid pass : Bytes) → check_uid (some uid) ≡ true → Ensures (Keeps P) (body uid pass fs))
      → Ensures (KeepsBoth P) (with_credentials os refusal body args fs)
  unfolding with_credentials
  with_credentials-Keeps refusal body args fs h k =
      Ensures->>= (KeepsBoth P) (get_word args) _ λ (uid, args1) _.
        Ensures->>= (KeepsBoth P) (get_word args1) _ λ (pass, args2) _. with_cursor P _ args2 (
          Ensures-if (Keeps P) (both_valid uid pass) _ _
            (λ e. k (text_of uid) (text_of pass) (valid_uid uid pass e)) (λ e. h))
