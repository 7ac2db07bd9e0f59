-- ===== src/Server/Loop/Calls/Groups.antt =====
-- The group commands of src/server/commands.c keep what the system calls keep.
use projeto_rc.Base.{
  ◌*◌, ltb, length, ◌+◌, ◌+◌, ltb, text_eq, ◌≡◌, inl, inr, Bool, true, false, not, Option, none,
  some, [], ◌∷◌, ◌++◌, Bytes, codes, ◌==◌, Option-cases, arith,
}
use projeto_rc.Base.Outcome.{
  Outcome, done, stop, ◌>>=◌, Ensures, Ensures->>=, Ensures-done, Ensures-if,
}
use projeto_rc.Base.Decimal.{print_padded}
use projeto_rc.Disk.{Disk, Os}
use projeto_rc.Files.{
  directory_exists, file_exists, create_directory, create_directory_abs, create_file, delete_file,
  list_subdirectories, list_subdirectories_ord,
}
use projeto_rc.Sll.{items, sll_size}
use projeto_rc.Util.Word.{Cursor, get_word}
use projeto_rc.Server.Reply.{Answer, text_of, open_read, scan_string}
use projeto_rc.Server.Checks.{check_uid, check_gid, check_gname}
use projeto_rc.Server.Paths.{user_path, group_path, groups_path, name_txt, msg_name}
use projeto_rc.Server.Accounts.{is_logged_in}
use projeto_rc.Server.Groups.{
  create_group, join_group, created, subscribe_to, subscribe, unsubscribe_from, unsubscribe,
  my_lines, groups_of, my_groups, groups, group_lines, new_gid,
}
use projeto_rc.Server.Loop.Calls.{in_group, IsKept, Ensures-option, Keeps, KeepsBoth, with_cursor}

module _ (os : Os) (P : Disk → Type 0) (kept : IsKept os P) where
  some_uid :
      (uid : Option Bytes) → not (check_uid uid) ≡ false → check_uid (some (text_of uid)) ≡ true
  unfolding check_uid
  some_uid none e = absurd (ground arith)
  some_uid (some s) e = ground arith

  create_group_keeps : (gid gname : Bytes) (fs : Disk) → P fs → P (create_group os gid gname fs).0
  unfolding create_group create_directory_abs create_directory create_file
  create_group_keeps gid gname fs h =
      elim (Option-cases (create_directory_abs os (group_path gid) fs)) [
        | inl a ↦ rw (a, create_group) h
        | inr (fs1, a) ↦
            let h1 : P fs1 = kept.by_mkdir (group_path gid) fs fs1 h a in
            elim (Option-cases (create_directory os (group_path gid) msg_name fs1)) [
              | inl b ↦ rw (a, b, create_group) h1
              | inr (fs2, b) ↦
                  let h2 : P fs2 = kept.by_mkdir (msg_name ∷ group_path gid) fs1 fs2 h1 b in
                  elim (Option-cases (create_file os (group_path gid) name_txt (some gname) fs2)) [
                    | inl c ↦ rw (a, b, c, create_group) h2
                    | inr (fs3, c) ↦
                        rw (a, b, c, create_group)
                          (kept.by_write (name_txt ∷ group_path gid) gname fs2 fs3 h2 c)
                  ]
            ]
      ]

  abbrev KeepsFirst : Answer × Bytes → Type 0
  KeepsFirst r = (Keeps P) r.0

  with_gid :
      (m : Outcome Answer) (gid : Bytes)
      → Ensures (Keeps P) m
      → Ensures KeepsFirst (m >>= λ a. done (a, gid))
  with_gid (done a) gid h = h
  with_gid (stop e) gid h = tt

  join_group_keeps :
      (uid gid gname : Bytes) (msg : Option Bytes) (fs : Disk)
      → P fs
      → Ensures KeepsFirst (join_group os uid gid gname msg fs)
  unfolding join_group create_file
  join_group_keeps uid gid gname msg fs h =
      Ensures-if KeepsFirst (not (directory_exists groups_path fs)) _ _ (λ e. h)
        λ e. Ensures->>= KeepsFirst (open_read (name_txt ∷ group_path gid) fs) _ λ text _.
          Ensures->>= KeepsFirst (scan_string 128 text) _ λ group_name _. with_gid _ gid (
            Ensures-if (Keeps P) (not (text_eq group_name gname)) _ _ (λ k. h)
              λ k.
                Ensures-option (Keeps P) (create_file os (group_path gid) uid none fs) _ _ h
                  λ fs1 l. kept.by_write (uid ∷ group_path gid) [] fs fs1 h l)

  created_keeps :
      (uid gid gname : Bytes) (fs : Disk) (ok : Bool)
      → P fs
      → Ensures KeepsFirst (created os uid gid gname (fs, ok))
  created_keeps uid gid gname fs false h = h
  created_keeps uid gid gname fs true h =
      join_group_keeps uid gid gname (some (codes "RGS NEW " ++ (gid ++ codes "\n"))) fs h

  subscribe_to_keeps :
      (uid gid gname : Bytes) (fs : Disk)
      → P fs
      → Ensures KeepsFirst (subscribe_to os uid gid gname fs)
  unfolding subscribe_to
  subscribe_to_keeps uid gid gname fs h =
      let new_id = sll_size (list_subdirectories os groups_path fs) + 1 in
      Ensures-if KeepsFirst (not (directory_exists (user_path uid) fs)) _ _ (λ e. h)
        λ e.
          Ensures-if KeepsFirst (text_eq gid new_gid) _ _
            (λ k.
              Ensures-if KeepsFirst (ltb 99 new_id) _ _
                (λ l. join_group_keeps uid gid gname (some (codes "RGS E_FULL\n")) fs h)
                λ l.
                  created_keeps uid (print_padded 2 new_id) gname _ _
                    (create_group_keeps (print_padded 2 new_id) gname fs h))
            (λ k. join_group_keeps uid gid gname none fs h)

  pub subscribe_keeps :
      (args : Cursor) (fs : Disk) → P fs → Ensures (KeepsBoth P) (subscribe os args fs)
  unfolding subscribe
  subscribe_keeps args fs h = Ensures->>= (KeepsBoth P) (get_word args) _ λ (uid, args1) _.
      Ensures->>= (KeepsBoth P) (get_word args1) _ λ (gid, args2) _.
        Ensures->>= (KeepsBoth P) (get_word args2) _ λ (gname, args3) _.
          Ensures-if (KeepsBoth P) (not (check_uid uid)) _ _ (λ e. h)
            λ e.
              Ensures-if (KeepsBoth P) (not (check_gid gid)) _ _ (λ k. h)
                λ k.
                  Ensures-if (KeepsBoth P) (not (check_gname gname)) _ _ (λ l. h)
                    λ l.
                      Ensures->>= (KeepsBoth P)
                        (subscribe_to os (text_of uid) (text_of gid) (text_of gname) fs) _
                        λ r d.
                          Ensures-done KeepsFirst _ d
                            (subscribe_to_keeps (text_of uid) (text_of gid) (text_of gname) fs h)

  unsubscribe_from-Keeps :
      (uid gid : Bytes) (fs : Disk)
      → check_uid (some uid) ≡ true
      → P fs
      → Ensures (Keeps P) (unsubscribe_from os uid gid fs)
  unfolding unsubscribe_from delete_file
  unsubscribe_from-Keeps uid gid fs v h =
      Ensures-if (Keeps P) (directory_exists (user_path uid) fs) _ _
        (λ a.
          Ensures-if (Keeps P) (directory_exists (group_path gid) fs) _ _
            (λ b.
              Ensures-if (Keeps P) (file_exists (group_path gid) uid fs) _ _
                (λ c.
                  Ensures-option (Keeps P) (delete_file os (group_path gid) uid fs) _ _ h
                    λ fs1 l. kept.by_remove (uid ∷ group_path gid) fs fs1 (in_group gid uid v) h l)
                (λ c. h))
            (λ b. h))
        (λ a. h)

  pub unsubscribe_keeps :
      (args : Cursor) (fs : Disk) → P fs → Ensures (KeepsBoth P) (unsubscribe os args fs)
  unfolding unsubscribe
  unsubscribe_keeps args fs h = Ensures->>= (KeepsBoth P) (get_word args) _ λ (uid, args1) _.
      Ensures->>= (KeepsBoth P) (get_word args1) _ λ (gid, args2) _. with_cursor P _ args2 (
        Ensures-if (Keeps P) (not (check_uid uid)) _ _ (λ e. h)
          λ e.
            Ensures-if (Keeps P) (not (check_gid gid)) _ _ (λ k. h)
              λ k. unsubscribe_from-Keeps (text_of uid) (text_of gid) fs (some_uid uid e) h)

  groups_of-Keeps : (uid : Bytes) (fs : Disk) → P fs → Ensures (Keeps P) (groups_of os uid fs)
  unfolding groups_of
  groups_of-Keeps uid fs h =
      Ensures-if (Keeps P) (not (directory_exists (user_path uid) fs)) _ _ (λ e. h)
        λ e.
          Ensures-if (Keeps P) (not (is_logged_in uid fs)) _ _ (λ k. h)
            λ k.
              Ensures->>= (Keeps P)
                (my_lines os uid (items (list_subdirectories_ord os groups_path fs)) fs) _
                λ r _. Ensures-if (Keeps P) (r.0 == 0) _ _ (λ l. h) (λ l. h)

  pub my_groups_keeps :
      (args : Cursor) (fs : Disk) → P fs → Ensures (KeepsBoth P) (my_groups os args fs)
  unfolding my_groups
  my_groups_keeps args fs h = Ensures->>= (KeepsBoth P) (get_word args) _ λ (uid, args1) _.
      with_cursor P _ args1 (
        Ensures-if (Keeps P) (not (check_uid uid)) _ _ (λ e. h)
          (λ e. groups_of-Keeps (text_of uid) fs h))

  pub groups_keeps : (args : Cursor) (fs : Disk) → P fs → Ensures (KeepsBoth P) (groups os args fs)
  unfolding groups
  groups_keeps args fs h =
      Ensures->>= (KeepsBoth P)
        (group_lines os (items (list_subdirectories_ord os groups_path fs)) fs) _
        λ lines _. with_cursor P _ args (
          Ensures-if (Keeps P)
            (ltb (33 * sll_size (list_subdirectories_ord os groups_path fs)) (length lines + 1)) _ _
            (λ e. tt) (λ e. h))
