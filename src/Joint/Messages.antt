-- ===== src/Joint/Messages.antt =====
-- `retrieve` from the server's disk to what the user's program shows.
use Prim.Native.Nat.{min}
use projeto_rc.Base.{
  ℕ, ◌+◌, ◌-◌, ◌≤◌, ◌<◌, ◌≡◌, refl, ◌∙◌, ap, true, false, some, List, [], ◌∷◌, ◌++◌, map, arith,
  Bytes, codes, length, length-append, ltb, All,
}
use projeto_rc.Base.Decimal.{print}
use projeto_rc.Base.Outcome.{done}
use projeto_rc.Disk.{Disk, Os}
use projeto_rc.Sll.{Sll, sll_size, items}
use projeto_rc.Files.{directory_exists, list_subdirectories_ord}
use projeto_rc.Server.Checks.{atoi}
use projeto_rc.Server.Messages.{message_parts, retrieve_from, reply_tcp}
use projeto_rc.Files.Listing.{list_subdirectories_ord-IsListing}
use projeto_rc.Sll.Laws.{sll_size-items}
use projeto_rc.Server.Paths.{group_path, msg_name}
use projeto_rc.Server.Reply.{Answer, tcp, uid_gid}
use projeto_rc.User.Session.{World, success}
use projeto_rc.User.Messages.{message_list}
use projeto_rc.Joint.Retrieving.{message_list-letters}
use projeto_rc.Joint.Letters.{Letter, IsLetter, letters_text, letters_lines, letters_files}
use projeto_rc.Joint.Sending.{
  IsStored, InWindow, letters_parts, letters_parts-newline, message_parts_lem, length-map,
}

module _ (os : Os) (w : World) (uid gid : Bytes) (mid : ℕ) (fs : Disk) where
  abbrev pub msgs : Sll
  msgs = list_subdirectories_ord os (msg_name ∷ group_path gid) fs

  msgs_size : sll_size msgs ≡ length (items msgs)
  msgs_size =
      sll_size-items msgs (list_subdirectories_ord-IsListing os (msg_name ∷ group_path gid) fs).1

  sends_letters :
      (old : List Bytes) (ms : List Letter) (later : List Bytes)
      → directory_exists (group_path gid) fs ≡ true
      → items msgs ≡ old ++ (map Letter.mid ms ++ later)
      → length old + 1 ≡ mid
      → 1 ≤ length ms
      → min 20 (length ms + length later) ≡ length ms
      → All (λ number. atoi number < mid) old
      → All (λ m. IsStored os fs (msg_name ∷ group_path gid) m × InWindow mid m.mid) ms
      → All (λ number. mid + 20 ≤ atoi number) later
      → retrieve_from os uid gid mid fs
        ≡ reply_tcp fs
            (codes "RRT OK " ++ (print (length ms) ++ letters_text ms))
            (some (uid_gid uid gid))
  unfolding retrieve_from
  sends_letters old ms later there listed first some_ms window before stored after =
      let size : sll_size msgs ≡ length old + (length ms + length later) = omega (
        arith,
        msgs_size,
        ap length listed,
        length-append old (map Letter.mid ms ++ later),
        length-append (map Letter.mid ms) later,
        length-map ms,
      ) in
      let enough : ltb (sll_size msgs) mid ≡ false = ground (arith, size) in
      let count : min 20 (sll_size msgs - mid + 1) ≡ length ms = omega (arith, size) in
      let parts : message_parts os (msg_name ∷ group_path gid) mid (items msgs) fs
          ≡ done (letters_parts os fs ms) =
        ap (λ l. message_parts os (msg_name ∷ group_path gid) mid l fs) listed
        ∙ message_parts_lem os fs (msg_name ∷ group_path gid) mid old ms later before stored
            after in
      rw (there, enough, count, parts, letters_parts-newline os fs ms) refl

  -- For a group that exists and whose sorted message directories are some numbered below the one
  -- asked for, as many as its number less one, then stored messages in the window of twenty from
  -- it, and then some past the window, where the window holds the first twenty from the number or
  -- all that there are and at least one, `retrieve` of the server behind its checks sends one
  -- text that `retrieve` of the user's program reads back in full: it prints their number and
  -- each message with its number and its text up to a NUL, and writes each file with its name and
  -- content. The numbers have at most four digits, the authors are words of five bytes, the names
  -- of the files are words shorter than 24 bytes that can be written, and texts and files are
  -- shorter than 2^31 - 1 bytes.
  pub retrieve_from-arrives :
      (old : List Bytes) (ms : List Letter) (later : List Bytes)
      → directory_exists (group_path gid) fs ≡ true
      → items msgs ≡ old ++ (map Letter.mid ms ++ later)
      → length old + 1 ≡ mid
      → 1 ≤ length ms
      → min 20 (length ms + length later) ≡ length ms
      → All (λ number. atoi number < mid) old
      → All (λ m. IsStored os fs (msg_name ∷ group_path gid) m × InWindow mid m.mid) ms
      → All (λ number. mid + 20 ≤ atoi number) later
      → All (IsLetter w) ms
      → (a : Answer) × (text : Bytes) × (retrieve_from os uid gid mid fs ≡ done a)
        × (a.sent ≡ tcp text ∷ [])
        × (message_list os w text
            ≡ done (
              success (print (length ms) ++ codes " message(s) retrieved:") ∷ letters_lines ms,
              letters_files ms,
            ))
  retrieve_from-arrives old ms later there listed first some_ms window before stored after fits = (
    record {
      disk = fs;
      sent = tcp (codes "RRT OK " ++ (print (length ms) ++ letters_text ms)) ∷ [];
      value = some (uid_gid uid gid);
    },
    codes "RRT OK " ++ (print (length ms) ++ letters_text ms),
    sends_letters old ms later there listed first some_ms window before stored after,
    refl,
    message_list-letters os w ms some_ms (omega (arith, window)) fits,
  )
