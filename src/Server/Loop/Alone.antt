-- ===== src/Server/Loop/Alone.antt =====
-- A child of src/server/server.c that nothing interrupts: its steps come to what `parse_tcp_message`
-- does.
use projeto_rc.Base.{
  ℕ, suc, ◌+◌, ◌≡◌, refl, ◌∙◌, ◌&&◌, Option, none, some, List, [], ◌∷◌, ◌++◌, Bytes, codes, ltb,
  text_eq, length, Bool-cases, inl, inr,
}
use projeto_rc.Base.Outcome.{Outcome, done, stop, ◌>>=◌, >>=-alike}
use projeto_rc.Base.Decimal.{print_padded}
use projeto_rc.Disk.{Disk, Os}
use projeto_rc.Files.{directory_exists, create_directory, list_subdirectories}
use projeto_rc.Sll.{sll_size}
use projeto_rc.Util.Stream.{read_fd, get_word_fd}
use projeto_rc.Server.Checks.{check_uid, check_gid}
use projeto_rc.Server.Paths.{group_path, msg_name}
use projeto_rc.Server.Reply.{Answer, Message, reply}
use projeto_rc.Server.Messages.{ulist, retrieve, post, store_message, size_of, to_nul}
use projeto_rc.Server.Dispatch.{parse_tcp_message}
use projeto_rc.Server.Loop.{
  Posting, unread, made, Progress, ended, goes_on, go_on, number_message, begin_post,
  make_directory, write_message, begin, advance, alone,
}

abbrev pub result : Answer → Outcome (Disk × List Message)
result a = done (a.disk, a.sent)

module _ (os : Os) where
  -- What is left of a process after its first step.
  abbrev rest_of : ℕ → Progress → Outcome (Disk × List Message)
  rest_of n r = go_on (alone os n) r.disk r.sent r.task

  alike :
      {A : Type 0} (n : ℕ) (m : Outcome A) (f : A → Outcome Progress) (h : A → Outcome Answer)
      → ((a : A) → (f a >>= rest_of n) ≡ (h a >>= result))
      → ((m >>= f) >>= rest_of n) ≡ ((m >>= h) >>= result)
  alike n m f h = >>=-alike m f (rest_of n) h result

  ended_alike : (n : ℕ) (m : Outcome Answer) → ((m >>= ended) >>= rest_of n) ≡ (m >>= result)
  ended_alike n (done a) = refl
  ended_alike n (stop e) = refl

  unsent : (m : Outcome (Disk × List Message)) → (m >>= λ q. done (q.0, [] ++ q.1)) ≡ m
  unsent (done q) = refl
  unsent (stop e) = refl

  write_alone :
      (n : ℕ) (p : Posting) (fs : Disk)
      → alone os (suc n) (made p) fs ≡ (write_message os p fs >>= result)
  unfolding alone advance
  write_alone n p fs = ended_alike n (write_message os p fs)

  -- `mkdir` and what is behind it.
  make_alone :
      (n : ℕ) (p : Posting) (fs : Disk) (o : Option Disk)
      → (elim o as (λ _. Outcome Progress) [
        | none ↦ reply fs (codes "RPT NOK\n") none >>= ended
        | some fs1 ↦ goes_on fs1 (made p)
      ]
          >>= rest_of (suc n))
        ≡ (elim o as (λ _. Outcome Answer) [
          | none ↦ reply fs (codes "RPT NOK\n") none
          | some fs1 ↦ write_message os p fs1
        ]
            >>= result)
  make_alone n p fs none = refl
  make_alone n p fs (some fs1) = unsent _ ∙ write_alone n p fs1

  number_alone :
      (n : ℕ) (uid gid text stream : Bytes) (fs : Disk)
      → (number_message os uid gid text stream fs >>= rest_of (suc (suc n)))
        ≡ (store_message os uid gid text stream fs >>= result)
  unfolding number_message store_message write_message alone advance make_directory
  number_alone n uid gid text stream fs =
      let id =
        print_padded 4 (sll_size (list_subdirectories os (msg_name ∷ group_path gid) fs) + 1) in
      elim (Bool-cases (ltb 4 (length id))) [
        | inl e ↦ rw e refl
        | inr e ↦ rw e (
            unsent _
            ∙ make_alone n (record { uid = uid; gid = gid; id = id; text = text; stream = stream })
                fs (create_directory os (msg_name ∷ group_path gid) id fs))
      ]

  post_alone :
      (n : ℕ) (stream : Bytes) (fs : Disk)
      → (begin_post os stream fs >>= rest_of (suc (suc n))) ≡ (post os stream fs >>= result)
  unfolding begin_post post
  post_alone n stream fs = alike (suc (suc n)) (read_fd os 5 stream) _ _ λ (uid, rest1).
      alike (suc (suc n)) (read_fd os 1 rest1) _ _ λ (_, rest2).
        alike (suc (suc n)) (read_fd os 2 rest2) _ _ λ (gid, rest3).
          alike (suc (suc n)) (read_fd os 1 rest3) _ _ λ (_, rest4).
            elim (Bool-cases (check_uid (some (to_nul uid)) && check_gid (some (to_nul gid)))) [
              | inr e ↦ rw e refl
              | inl e ↦ rw e (
                  alike (suc (suc n)) (get_word_fd 240 rest4) _ _ λ (tsize_str, rest5).
                    alike (suc (suc n)) (size_of tsize_str) _ _ λ tsize.
                      alike (suc (suc n)) (read_fd os tsize rest5) _ _ λ (text, rest6).
                        elim (Bool-cases (directory_exists (group_path gid) fs)) [
                          | inl k ↦ rw k (number_alone n uid gid text rest6 fs)
                          | inr k ↦ rw k refl
                        ])
            ]

  -- A child process that nothing interrupts comes to its end in three steps at most, and the
  -- steps leave the disk and the messages that `parse_tcp_message` does, or stop where it stops.
  pub alone-parse_tcp_message :
      (stream : Bytes) (fs : Disk)
      → alone os 3 (unread stream) fs ≡ (parse_tcp_message os stream fs >>= result)
  unfolding alone advance begin parse_tcp_message
  alone-parse_tcp_message stream fs = alike 2 (read_fd os 3 stream) _ _ λ (command, rest1).
      alike 2 (read_fd os 1 rest1) _ _ λ (_, rest2).
        elim (Bool-cases (text_eq (to_nul command) (codes "ULS"))) [
          | inl e ↦ rw e (ended_alike 2 (ulist os rest2 fs))
          | inr e ↦ elim (Bool-cases (text_eq (to_nul command) (codes "PST"))) [
            | inl k ↦ rw (e, k) (post_alone 0 rest2 fs)
            | inr k ↦ elim (Bool-cases (text_eq (to_nul command) (codes "RTV"))) [
              | inl l ↦ rw (e, k, l) (ended_alike 2 (retrieve os rest2 fs))
              | inr l ↦ rw (e, k, l) refl
            ]
          ]
        ]
