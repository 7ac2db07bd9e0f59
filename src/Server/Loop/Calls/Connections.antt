-- ===== src/Server/Loop/Calls/Connections.antt =====
-- The steps of a child process of src/server/server.c keep what the system calls keep.
use projeto_rc.Base.{
  ◌+◌, Bool, true, false, not, ◌&&◌, some, [], ◌∷◌, Bytes, codes, ◌==◌, space, length, ltb, text_eq,
}
use projeto_rc.Base.Outcome.{
  Outcome, done, stop, ◌>>=◌, Ensures, Ensures->>=, Ensures-done, Ensures-if,
}
use projeto_rc.Base.Decimal.{print_padded}
use projeto_rc.Disk.{FilePath, Disk, Os, write_file}
use projeto_rc.Files.{
  directory_exists, create_directory, create_file, list_subdirectories, list_subdirectories_ord,
}
use projeto_rc.Sll.{sll_size, items}
use projeto_rc.Util.Stream.{read_fd, get_word_fd}
use projeto_rc.Server.Checks.{check_uid, check_gid, check_mid, atoi}
use projeto_rc.Server.Paths.{group_path, msg_name, name_txt}
use projeto_rc.Server.Reply.{Answer, open_read, scan_string}
use projeto_rc.Server.Messages.{
  ulist, retrieve, retrieve_from, message_parts, store_file, attach, posted, size_of, to_nul,
  resolve,
}
use projeto_rc.Server.Loop.{
  Posting, Task, unread, numbered, made, Progress, ended, number_message, begin_post,
  make_directory, write_message, begin, advance,
}
use projeto_rc.Server.Loop.Calls.{Keeps, IsKept, Ensures-option}

module _ (os : Os) (P : Disk → Type 0) (kept : IsKept os P) where
  abbrev KeepsStored : Disk × Bool → Type 0
  KeepsStored r = P r.0

  abbrev KeepsStep : Progress → Type 0
  KeepsStep p = P p.disk

  ended-Keeps : (m : Outcome Answer) → Ensures (Keeps P) m → Ensures KeepsStep (m >>= ended)
  ended-Keeps (done a) h = h
  ended-Keeps (stop e) h = tt

  ulist-Keeps : (stream : Bytes) (fs : Disk) → P fs → Ensures (Keeps P) (ulist os stream fs)
  unfolding ulist
  ulist-Keeps stream fs h = Ensures->>= (Keeps P) (read_fd os 2 stream) _ λ (gid, rest) _.
      Ensures-if (Keeps P) (not (check_gid (some (to_nul gid)))) _ _ (λ e. h)
        λ e.
          Ensures-if (Keeps P) (directory_exists (group_path gid) fs) _ _
            (λ k.
              Ensures->>= (Keeps P) (open_read (name_txt ∷ group_path gid) fs) _
                λ text _. Ensures->>= (Keeps P) (scan_string 25 text) _ λ group_name _. h)
            (λ k. h)

  retrieve-Keeps : (stream : Bytes) (fs : Disk) → P fs → Ensures (Keeps P) (retrieve os stream fs)
  unfolding retrieve retrieve_from
  retrieve-Keeps stream fs h = Ensures->>= (Keeps P) (get_word_fd 6 stream) _ λ (uid, rest1) _.
      Ensures->>= (Keeps P) (get_word_fd 3 rest1) _ λ (gid, rest2) _.
        Ensures->>= (Keeps P) (get_word_fd 5 rest2) _ λ (mid_str, rest3) _.
          let msgs_dir = msg_name ∷ group_path gid in
          let msg_list = list_subdirectories_ord os msgs_dir fs in
          Ensures-if (Keeps P)
            (not (check_uid (some uid) && check_gid (some gid) && check_mid (some mid_str))) _ _
            (λ e. tt)
            λ e.
              Ensures-if (Keeps P) (directory_exists (group_path gid) fs) _ _
                (λ k.
                  Ensures-if (Keeps P) (ltb (sll_size msg_list) (atoi mid_str)) _ _ (λ l. h)
                    λ l.
                      Ensures->>= (Keeps P)
                        (message_parts os msgs_dir (atoi mid_str) (items msg_list) fs) _
                        λ parts _. h)
                (λ k. h)

  store_file_keeps :
      (msg_dir : FilePath) (stream : Bytes) (fs : Disk)
      → P fs
      → Ensures KeepsStored (store_file os msg_dir stream fs)
  unfolding store_file create_directory
  store_file_keeps msg_dir stream fs h =
      Ensures->>= KeepsStored (get_word_fd 24 stream) _ λ (fname, rest1) _.
        Ensures-option KeepsStored (create_directory os msg_dir (codes "FILE") fs) _ _ h λ fs1 a.
          let h1 : P fs1 = kept.by_mkdir (codes "FILE" ∷ msg_dir) fs fs1 h a in
          Ensures->>= KeepsStored (get_word_fd 24 rest1) _ λ fsize_str _.
            Ensures->>= KeepsStored (size_of fsize_str.0) _ λ fsize _.
              Ensures->>= KeepsStored (read_fd os fsize fsize_str.1) _ λ file_data _.
                Ensures-option KeepsStored (resolve fs1 (codes "FILE" ∷ msg_dir) fname) _ _ tt
                  λ path _.
                    Ensures-option KeepsStored (write_file os path file_data.0 fs1) _ _ tt
                      λ fs2 b. kept.by_write path file_data.0 fs1 fs2 h1 b

  attach_keeps :
      (msg_dir : FilePath) (stream : Bytes) (fs : Disk)
      → P fs
      → Ensures KeepsStored (attach os msg_dir stream fs)
  unfolding attach
  attach_keeps msg_dir [] fs h = tt
  attach_keeps msg_dir (c ∷ stream) fs h =
      Ensures-if KeepsStored (c == space) _ _ (λ e. store_file_keeps msg_dir stream fs h) (λ e. h)

  posted-Keeps :
      (uid gid id : Bytes) (r : Disk × Bool) → P r.0 → Ensures (Keeps P) (posted os uid gid id r)
  posted-Keeps uid gid id (fs, true) h = h
  posted-Keeps uid gid id (fs, false) h = h

  write_message-Keeps : (p : Posting) (fs : Disk) → P fs → Ensures (Keeps P) (write_message os p fs)
  unfolding write_message create_file
  write_message-Keeps p fs h =
      let msg_dir = p.id ∷ msg_name ∷ group_path p.gid in
      Ensures-option (Keeps P) (create_file os msg_dir (codes "author.txt") (some p.uid) fs) _ _ h
        λ fs1 a.
          let h1 : P fs1 = kept.by_write (codes "author.txt" ∷ msg_dir) p.uid fs fs1 h a in
          Ensures-option (Keeps P)
            (create_file os msg_dir (codes "text.txt") (some (to_nul p.text)) fs1) _ _ h1
            λ fs2 b. Ensures->>= (Keeps P) (attach os msg_dir p.stream fs2) _ λ r c.
              posted-Keeps p.uid p.gid p.id r (
                Ensures-done KeepsStored _ c (
                  attach_keeps msg_dir p.stream fs2
                    (kept.by_write (codes "text.txt" ∷ msg_dir) (to_nul p.text) fs1 fs2 h1 b)))

  make_directory_keeps :
      (p : Posting) (fs : Disk) → P fs → Ensures KeepsStep (make_directory os p fs)
  unfolding make_directory create_directory
  make_directory_keeps p fs h =
      Ensures-option KeepsStep (create_directory os (msg_name ∷ group_path p.gid) p.id fs) _ _ h
        λ fs1 a. kept.by_mkdir (p.id ∷ msg_name ∷ group_path p.gid) fs fs1 h a

  number_message_keeps :
      (uid gid text stream : Bytes) (fs : Disk)
      → P fs
      → Ensures KeepsStep (number_message os uid gid text stream fs)
  unfolding number_message
  number_message_keeps uid gid text stream fs h =
      let id =
        print_padded 4 (sll_size (list_subdirectories os (msg_name ∷ group_path gid) fs) + 1) in
      Ensures-if KeepsStep (ltb 4 (length id)) _ _ (λ e. tt) (λ e. h)

  begin_post_keeps :
      (stream : Bytes) (fs : Disk) → P fs → Ensures KeepsStep (begin_post os stream fs)
  unfolding begin_post
  begin_post_keeps stream fs h = Ensures->>= KeepsStep (read_fd os 5 stream) _ λ (uid, rest1) _.
      Ensures->>= KeepsStep (read_fd os 1 rest1) _ λ (_, rest2) _.
        Ensures->>= KeepsStep (read_fd os 2 rest2) _ λ (gid, rest3) _.
          Ensures->>= KeepsStep (read_fd os 1 rest3) _ λ (_, rest4) _.
            Ensures-if KeepsStep
              (not (check_uid (some (to_nul uid)) && check_gid (some (to_nul gid)))) _ _ (λ e. h)
              λ e. Ensures->>= KeepsStep (get_word_fd 240 rest4) _ λ (tsize_str, rest5) _.
                Ensures->>= KeepsStep (size_of tsize_str) _ λ tsize _.
                  Ensures->>= KeepsStep (read_fd os tsize rest5) _ λ (text, rest6) _.
                    Ensures-if KeepsStep (directory_exists (group_path gid) fs) _ _
                      (λ k. number_message_keeps uid gid text rest6 fs h) (λ k. h)

  begin_keeps : (stream : Bytes) (fs : Disk) → P fs → Ensures KeepsStep (begin os stream fs)
  unfolding begin
  begin_keeps stream fs h = Ensures->>= KeepsStep (read_fd os 3 stream) _ λ (command, rest1) _.
      Ensures->>= KeepsStep (read_fd os 1 rest1) _ λ (_, rest2) _.
        Ensures-if KeepsStep (text_eq (to_nul command) (codes "ULS")) _ _
          (λ _. ended-Keeps _ (ulist-Keeps rest2 fs h))
          λ _.
            Ensures-if KeepsStep (text_eq (to_nul command) (codes "PST")) _ _
              (λ _. begin_post_keeps rest2 fs h)
              λ _.
                Ensures-if KeepsStep (text_eq (to_nul command) (codes "RTV")) _ _
                  (λ _. ended-Keeps _ (retrieve-Keeps rest2 fs h)) (λ _. h)

  -- A step of a child.
  pub advance_keeps : (t : Task) (fs : Disk) → P fs → Ensures KeepsStep (advance os t fs)
  unfolding advance
  advance_keeps (unread stream) fs h = begin_keeps stream fs h
  advance_keeps (numbered p) fs h = make_directory_keeps p fs h
  advance_keeps (made p) fs h = ended-Keeps _ (write_message-Keeps p fs h)
