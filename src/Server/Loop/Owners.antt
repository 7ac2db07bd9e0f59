-- ===== src/Server/Loop/Owners.antt =====
-- How many child processes of src/server/server.c are at the message of a number, step by step: it has
-- its directory, and its files are the next step.
use projeto_rc.Base.{
  ℕ, ◌+◌, ◌≤◌, ◌≡◌, refl, ◌⊎◌, inl, inr, not, ◌&&◌, Option, none, some, List, [], ◌∷◌, ◌++◌, Bytes,
  codes, arith, ltb, length, text_eq, text_eq_sound, Bool-cases, if◌then◌else◌,
}
use projeto_rc.Base.Outcome.{Outcome, done, stop, ◌>>=◌, Ensures, Ensures->>=, Ensures-if}
use projeto_rc.Base.Decimal.{print_padded}
use projeto_rc.Disk.{dir, Disk, lookup, Os}
use projeto_rc.Disk.Laws.{lookup-put_self}
use projeto_rc.Files.{directory_exists, create_directory, list_subdirectories}
use projeto_rc.Files.Laws.{mkdir_lem}
use projeto_rc.Sll.{sll_size}
use projeto_rc.Util.Word.{start}
use projeto_rc.Util.Stream.{read_fd, get_word_fd}
use projeto_rc.Server.Checks.{check_uid, check_gid}
use projeto_rc.Server.Paths.{group_path, msg_name}
use projeto_rc.Server.Reply.{Answer}
use projeto_rc.Server.Messages.{size_of, to_nul}
use projeto_rc.Server.Dispatch.{parse_udp_message}
use projeto_rc.Server.Loop.{
  Posting, Task, unread, numbered, made, Progress, ended, number_message, begin_post,
  make_directory, write_message, begin, advance, Connection, Machine, received, forked,
  accept_connection, select_round, still,
}
use projeto_rc.Server.Loop.Calls.{Ensures-option}
use projeto_rc.Server.Loop.Lasting.{message_path}

-- Whether the process has made the directory of a number in a group, and has the files to write.
abbrev pub owns : Bytes → Bytes → Task → ℕ
owns gid id (unread stream) = 0
owns gid id (numbered p) = 0
owns gid id (made p) = if text_eq p.gid gid && text_eq p.id id then 1 else 0

-- How many processes do.
abbrev pub owners : Bytes → Bytes → List Task → ℕ
owners gid id [] = 0
owners gid id (t ∷ ts) = owns gid id t + owners gid id ts

module _ (gid id : Bytes) where
  pub owners-append :
      (ts us : List Task) → owners gid id (ts ++ us) ≡ owners gid id ts + owners gid id us
  owners-append [] us = omega arith
  owners-append (t ∷ ts) us = omega (arith, owners-append ts us)

  owners-forked :
      (s : Option Bytes) (ts : List Task) → owners gid id (forked s ts) ≡ owners gid id ts
  owners-forked none ts = refl
  owners-forked (some s) ts = omega (arith, owners-append ts (unread s ∷ []))

  module _ (os : Os) where
    abbrev Quiet : Progress → Type 0
    Quiet r = owners gid id (still os r.task) ≡ 0

    ended-Quiet : (m : Outcome Answer) → Ensures Quiet (m >>= ended)
    ended-Quiet (done a) = refl
    ended-Quiet (stop e) = tt

    number_message-Quiet :
        (uid g text stream : Bytes) (fs : Disk)
        → Ensures Quiet (number_message os uid g text stream fs)
    unfolding number_message
    number_message-Quiet uid g text stream fs =
        let new =
          print_padded 4 (sll_size (list_subdirectories os (msg_name ∷ group_path g) fs) + 1) in
        Ensures-if Quiet (ltb 4 (length new)) _ _ (λ e. tt) (λ e. refl)

    begin_post-Quiet : (stream : Bytes) (fs : Disk) → Ensures Quiet (begin_post os stream fs)
    unfolding begin_post
    begin_post-Quiet stream fs = Ensures->>= Quiet (read_fd os 5 stream) _ λ (uid, rest1) _.
        Ensures->>= Quiet (read_fd os 1 rest1) _ λ (_, rest2) _.
          Ensures->>= Quiet (read_fd os 2 rest2) _ λ (g, rest3) _.
            Ensures->>= Quiet (read_fd os 1 rest3) _ λ (_, rest4) _.
              Ensures-if Quiet (not (check_uid (some (to_nul uid)) && check_gid (some (to_nul g))))
                _ _ (λ e. refl)
                λ e. Ensures->>= Quiet (get_word_fd 240 rest4) _ λ (tsize_str, rest5) _.
                  Ensures->>= Quiet (size_of tsize_str) _ λ tsize _.
                    Ensures->>= Quiet (read_fd os tsize rest5) _ λ (text, rest6) _.
                      Ensures-if Quiet (directory_exists (group_path g) fs) _ _
                        (λ k. number_message-Quiet uid g text rest6 fs) (λ k. refl)

    begin-Quiet : (stream : Bytes) (fs : Disk) → Ensures Quiet (begin os stream fs)
    unfolding begin
    begin-Quiet stream fs = Ensures->>= Quiet (read_fd os 3 stream) _ λ (command, rest1) _.
        Ensures->>= Quiet (read_fd os 1 rest1) _ λ (_, rest2) _.
          Ensures-if Quiet (text_eq (to_nul command) (codes "ULS")) _ _ (λ _. ended-Quiet _)
            λ _.
              Ensures-if Quiet (text_eq (to_nul command) (codes "PST")) _ _
                (λ _. begin_post-Quiet rest2 fs)
                λ _.
                  Ensures-if Quiet (text_eq (to_nul command) (codes "RTV")) _ _ (λ _. ended-Quiet _)
                    (λ _. refl)

    -- A step takes up no directory, or one that it made.
    abbrev pub TakesUp : Task → Disk → Progress → Type 0
    TakesUp t fs r =
        (owners gid id (still os r.task) ≤ owns gid id t)
        ⊎ ((lookup fs (message_path gid id) ≡ none)
            × (lookup r.disk (message_path gid id) ≡ some dir)
            × (owners gid id (still os r.task) ≤ 1))

    Quiet-TakesUp :
        (t : Task) (fs : Disk) (m : Outcome Progress) → Ensures Quiet m → Ensures (TakesUp t fs) m
    Quiet-TakesUp t fs (done r) h = inl (omega (arith, h))
    Quiet-TakesUp t fs (stop e) h = tt

    made_step :
        (p : Posting) (fs fs1 : Disk)
        → create_directory os (msg_name ∷ group_path p.gid) p.id fs ≡ some fs1
        → TakesUp (numbered p) fs (record { disk = fs1; sent = []; task = some (made p) })
    unfolding create_directory
    made_step p fs fs1 e = elim (Bool-cases (text_eq p.gid gid && text_eq p.id id)) [
      | inr k ↦ inl (ground arith)
      | inl k ↦
          let g : p.gid ≡ gid = ground (arith, text_eq_sound p.gid gid) in
          let i : p.id ≡ id = ground (arith, text_eq_sound p.id id) in
          let (same, free, _) = mkdir_lem os p.id (msg_name ∷ group_path p.gid) fs e in
          inr (
            rw (← g, ← i) free,
            rw (← g, ← i, same) (lookup-put_self fs (message_path p.gid p.id) dir),
            ground arith,
          )
    ]

    pub advance-TakesUp : (t : Task) (fs : Disk) → Ensures (TakesUp t fs) (advance os t fs)
    unfolding advance make_directory
    advance-TakesUp (unread stream) fs = Quiet-TakesUp (unread stream) fs _ (begin-Quiet stream fs)
    advance-TakesUp (numbered p) fs =
        Ensures-option (TakesUp (numbered p) fs)
          (create_directory os (msg_name ∷ group_path p.gid) p.id fs) _ _ (inl (omega arith))
          (made_step p fs)
    advance-TakesUp (made p) fs = Quiet-TakesUp (made p) fs _ (ended-Quiet (write_message os p fs))

    pub still_forked :
        (udp_set : Option (Option Bytes)) (tcp_set : Option Connection) (m : Machine)
        → Ensures
            (λ r. owners gid id r.0.tasks ≡ owners gid id m.tasks)
            (select_round os udp_set tcp_set m)
    unfolding accept_connection
    still_forked (some got) tcp_set m =
        Ensures->>= (λ r. owners gid id r.0.tasks ≡ owners gid id m.tasks)
          (parse_udp_message os (start (received got m.buffer)) m.disk) _ λ r e. refl
    still_forked none (some c) m = elim (Bool-cases c.fork) [
      | inl e ↦ rw e (owners-forked c.stream m.tasks)
      | inr e ↦ rw e refl
    ]
    still_forked none none m = refl
