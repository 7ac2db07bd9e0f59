-- ===== src/Joint/Retrieving.antt =====
-- The messages that `retrieve` of the server sends, as `retrieve` of the user's program reads them.
use projeto_rc.Base.{
  ℕ, suc, ◌≤◌, ◌<◌, ◌≡◌, refl, ◌∙◌, ap, true, false, Option, none, some, List, [], ◌∷◌, ◌++◌, ltb,
  arith, Bytes, codes, space, is_digit, text_eq, length, drop, all, All,
}
use projeto_rc.Base.Decimal.{print}
use projeto_rc.Base.Decimal.RoundTrip.{print-digits, value-print}
use projeto_rc.Base.Decimal.Length.{print-length, print-some}
use projeto_rc.Base.Outcome.{done}
use projeto_rc.Disk.{Os}
use projeto_rc.Util.Stream.{get_word_fd}
use projeto_rc.Util.Stream.Laws.{get_word_fd-word, read_fd-append}
use projeto_rc.Server.Dispatch.Words.{digits-IsWord}
use projeto_rc.Server.Checks.{atoi}
use projeto_rc.User.Session.{World, success, rounds_of}
use projeto_rc.User.Accounts.{buffer_size}
use projeto_rc.User.Messages.{retrieve_file, message_rows, message_list}
use projeto_rc.Joint.Posting.{size_of-print}
use projeto_rc.Joint.Letters.{
  Letter, file_text, after_mid, letters_text, letter_lines, letters_lines, saved_files,
  letters_files, FileFits, IsLetter,
}

-- The first word of the messages, and what stands behind it.
abbrev first_word : List Letter → Bytes
first_word [] = []
first_word (m ∷ ms) = m.mid

abbrev behind_word : List Letter → Bytes
behind_word [] = []
behind_word (m ∷ ms) = after_mid m (letters_text ms)

digits-slash : (s : Bytes) → all is_digit s ≡ true → text_eq s (codes "/") ≡ false
digits-slash [] h = refl
digits-slash (c ∷ s) h = ground arith

print_word :
    (n : ℕ) (rest : Bytes)
    → n < 2_147_483_648
    → get_word_fd buffer_size (print n ++ space ∷ rest) ≡ done (print n, rest)
print_word n rest small =
    get_word_fd-word buffer_size (print n) space rest (digits-IsWord _ (print-digits n)) refl
      (omega (arith, print-length 9 n (omega arith)))

rounds_of-digits :
    (s : Bytes)
    → all is_digit s ≡ true
    → 1 ≤ length s
    → atoi s < 2_147_483_648
    → rounds_of s ≡ done (atoi s, print (atoi s))
unfolding rounds_of
rounds_of-digits [] d l h = absurd (omega arith)
rounds_of-digits (c ∷ s) d l h = ground arith

pub rounds_of-print : (n : ℕ) → n < 2_147_483_648 → rounds_of (print n) ≡ done (n, print n)
rounds_of-print n h =
    let value : atoi (print n) ≡ n = value-print n in
    rounds_of-digits (print n) (print-digits n) (print-some n) (omega (arith, value))
    ∙ ap (λ k. done (k, print k)) value

module _ (os : Os) (w : World) where
  next_word :
      (ms : List Letter)
      → All (IsLetter w) ms
      → get_word_fd buffer_size (drop 1 (letters_text ms)) ≡ done (first_word ms, behind_word ms)
  next_word [] h = unfold get_word_fd in refl
  next_word (m ∷ ms) (h, hs) =
      get_word_fd-word buffer_size m.mid space (after_mid m (letters_text ms))
        (digits-IsWord m.mid h.mid_digits) refl (omega (arith, h.mid_length))

  first_word-slash :
      (ms : List Letter) → All (IsLetter w) ms → text_eq (first_word ms) (codes "/") ≡ false
  first_word-slash [] h = refl
  first_word-slash (m ∷ ms) (h, hs) = digits-slash m.mid h.mid_digits

  retrieve_file-text :
      (name content : Bytes) (ms : List Letter)
      → FileFits w (some (name, content))
      → retrieve_file os w
          (name ++ space ∷ (print (length content) ++ space ∷ (content ++ letters_text ms)))
        ≡ done ((name, content), drop 1 (letters_text ms))
  unfolding retrieve_file
  retrieve_file-text name content ms (word, short, writable, small) =
      rw
        (
          get_word_fd-word buffer_size name space
              (print (length content) ++ space ∷ (content ++ letters_text ms)) word refl
              (omega arith),
          print_word (length content) (content ++ letters_text ms) (omega arith),
          size_of-print (length content) small,
          read_fd-append os content (letters_text ms),
          writable,
        )
        refl

  -- One round of the loop, given those that follow.
  letter_row :
      (m : Letter) (ms : List Letter) (o : Option (Bytes × Bytes))
      → m.attached ≡ o
      → IsLetter w m
      → All (IsLetter w) ms
      → message_rows os w (length ms) (first_word ms) (behind_word ms)
        ≡ done (letters_lines ms, letters_files ms)
      → message_rows os w (suc (length ms)) m.mid (after_mid m (letters_text ms))
        ≡ done (letter_lines m.mid m.text o (letters_lines ms), saved_files o (letters_files ms))
  unfolding message_rows
  letter_row m ms none e h hs later =
      let tail : Bytes = letters_text ms in
      let m1 : ltb (length m.mid) 5 ≡ true = ground (arith, h.mid_length) in
      let m2 : ltb (length m.author) 6 ≡ true = ground (arith, h.author_length) in
      rw
        (
          get_word_fd-word buffer_size m.author space
              (print (length m.text) ++ space ∷ (m.text ++ file_text m.attached tail)) h.author_word
              refl (omega (arith, h.author_length)),
          m1,
          m2,
          print_word (length m.text) (m.text ++ file_text m.attached tail)
              (omega (arith, h.text_length)),
          size_of-print (length m.text) h.text_length,
          read_fd-append os m.text (file_text m.attached tail),
          e,
          next_word ms hs,
        )
        (ground (arith, first_word-slash ms hs, later))
  letter_row m ms (some (name, content)) e h hs later =
      let tail : Bytes = letters_text ms in
      let m1 : ltb (length m.mid) 5 ≡ true = ground (arith, h.mid_length) in
      let m2 : ltb (length m.author) 6 ≡ true = ground (arith, h.author_length) in
      let fits : FileFits w (some (name, content)) = rw e at h.file in
      rw
        (
          get_word_fd-word buffer_size m.author space
              (print (length m.text) ++ space ∷ (m.text ++ file_text m.attached tail)) h.author_word
              refl (omega (arith, h.author_length)),
          m1,
          m2,
          print_word (length m.text) (m.text ++ file_text m.attached tail)
              (omega (arith, h.text_length)),
          size_of-print (length m.text) h.text_length,
          read_fd-append os m.text (file_text m.attached tail),
          e,
          retrieve_file-text name content ms fits,
          next_word ms hs,
          later,
        )
        refl

  message_rows-letters :
      (ms : List Letter)
      → All (IsLetter w) ms
      → message_rows os w (length ms) (first_word ms) (behind_word ms)
        ≡ done (letters_lines ms, letters_files ms)
  message_rows-letters [] h = unfold message_rows in refl
  message_rows-letters (m ∷ ms) (h, hs) =
      letter_row m ms m.attached refl h hs (message_rows-letters ms hs)

  pub message_list-letters :
      (ms : List Letter)
      → 1 ≤ length ms
      → length ms < 2_147_483_648
      → All (IsLetter w) ms
      → message_list os w (codes "RRT OK " ++ (print (length ms) ++ letters_text ms))
        ≡ done (
          success (print (length ms) ++ codes " message(s) retrieved:") ∷ letters_lines ms,
          letters_files ms,
        )
  unfolding message_list
  message_list-letters [] l n h = absurd (omega arith)
  message_list-letters (m ∷ ms) l n (h, hs) =
      let body : Bytes = m.mid ++ space ∷ after_mid m (letters_text ms) in
      rw
        (
          print_word (suc (length ms)) body n,
          rounds_of-print (suc (length ms)) n,
          next_word (m ∷ ms) (h, hs),
          message_rows-letters (m ∷ ms) (h, hs),
        )
        refl
