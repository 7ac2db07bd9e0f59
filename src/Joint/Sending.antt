-- ===== src/Joint/Sending.antt =====
-- The loop of the server's `retrieve` over the messages on its disk.
use projeto_rc.Base.{
  ℕ, suc, ◌+◌, ◌≤◌, ◌<◌, ◌≡◌, refl, sym, ◌∙◌, ap, true, false, Option, none, some, List, [], ◌∷◌,
  ◌++◌, append_assoc, append-nil, map, arith, Bytes, codes, space, length, take, ltb, leb, All,
}
use projeto_rc.Base.Decimal.Length.{print-length}
use projeto_rc.Base.Outcome.{done}
use projeto_rc.Disk.{FilePath, file, Disk, lookup, Os}
use projeto_rc.Sll.{Sll, node}
use projeto_rc.Files.{directory_exists, list_files}
use projeto_rc.Server.Checks.{atoi}
use projeto_rc.Server.Reply.{open_read}
use projeto_rc.Server.Messages.{file_part, message_part, message_parts}
use projeto_rc.Joint.Letters.{Letter, file_text, after_mid, letters_text}

file_text-append :
    (o : Option (Bytes × Bytes)) (tail : Bytes) → file_text o [] ++ tail ≡ file_text o tail
file_text-append none tail = refl
file_text-append (some (name, content)) tail = simp append_assoc

pub length-map : (ms : List Letter) → length (map Letter.mid ms) ≡ length ms
length-map [] = refl
length-map (m ∷ ms) = ap suc (length-map ms)

take_whole : (s : Bytes) → take (length s) s ≡ s
take_whole [] = refl
take_whole (c ∷ s) = ap (λ r. c ∷ r) (take_whole s)

-- Where a message's number stands to the numbers that are asked for.
abbrev pub InWindow : ℕ → Bytes → Type 0
InWindow mid number = (mid ≤ atoi number) × (atoi number < mid + 20)

module _ (os : Os) (fs : Disk) where
  -- The directory FILE of a message, with the file that readdir gives first.
  abbrev pub HasFile : FilePath → Option (Bytes × Bytes) → Type 0
  HasFile msg_dir none = directory_exists (codes "FILE" ∷ msg_dir) fs ≡ false
  HasFile msg_dir (some (name, content)) =
      (directory_exists (codes "FILE" ∷ msg_dir) fs ≡ true)
      × (size : ℕ) × (next : Sll) × (list_files os (codes "FILE" ∷ msg_dir) fs
          ≡ node name size next)
      × (length name < 24)
      × (length content < 2_147_483_647)
      × (lookup fs (name ∷ codes "FILE" ∷ msg_dir) ≡ some (file content))

  -- A message as `post` stores it.
  pub record IsStored (msgs_dir : FilePath) (m : Letter) : Type 0 where
    pub author : lookup fs (codes "author.txt" ∷ m.mid ∷ msgs_dir) ≡ some (file m.author)
    pub five : length m.author ≡ 5
    pub text : lookup fs (codes "text.txt" ∷ m.mid ∷ msgs_dir) ≡ some (file m.text)
    pub extra : HasFile (m.mid ∷ msgs_dir) m.attached

  pub open_read-file :
      (path : FilePath) (content : Bytes)
      → lookup fs path ≡ some (file content)
      → open_read path fs ≡ done content
  unfolding open_read
  open_read-file path content h = ground (arith, h)

  file_part_lem :
      (msg_dir : FilePath) (o : Option (Bytes × Bytes))
      → HasFile msg_dir o
      → file_part os msg_dir fs ≡ done (file_text o [])
  unfolding file_part
  file_part_lem msg_dir none h = rw h refl
  file_part_lem msg_dir (some (name, content)) (there, size, next, listed, short, small, h) =
      rw there (
        ground (
          arith,
          listed,
          open_read-file (name ∷ codes "FILE" ∷ msg_dir) content h,
          append-nil content,
          print-length 9 (length content) (omega arith),
        ))

  abbrev pub letter_part : Letter → Bytes
  letter_part m = space ∷ (m.mid ++ space ∷ after_mid m [])

  message_part_lem :
      (msgs_dir : FilePath) (m : Letter)
      → IsStored msgs_dir m
      → message_part os msgs_dir m.mid fs ≡ done (letter_part m)
  unfolding message_part
  message_part_lem msgs_dir m h =
      let five : ltb (length m.author) 5 ≡ false = ground (arith, h.five) in
      let first : take 5 m.author ≡ m.author =
        ap (λ n. take n m.author) (sym h.five) ∙ take_whole m.author in
      rw
        (
          open_read-file (codes "author.txt" ∷ m.mid ∷ msgs_dir) m.author h.author,
          open_read-file (codes "text.txt" ∷ m.mid ∷ msgs_dir) m.text h.text,
          file_part_lem (m.mid ∷ msgs_dir) m.attached h.extra,
          five,
          first,
        )
        refl

  abbrev pub letters_parts : List Letter → Bytes
  letters_parts [] = []
  letters_parts (m ∷ ms) = letter_part m ++ letters_parts ms

  letter_part-append :
      (m : Letter) (tail : Bytes)
      → letter_part m ++ tail ≡ space ∷ (m.mid ++ space ∷ after_mid m tail)
  letter_part-append m tail = simp (append_assoc, file_text-append m.attached tail)

  pub letters_parts-newline : (ms : List Letter) → letters_parts ms ++ codes "\n" ≡ letters_text ms
  letters_parts-newline [] = refl
  letters_parts-newline (m ∷ ms) =
      append_assoc (letter_part m) (letters_parts ms) (codes "\n")
      ∙ (ap (λ t. letter_part m ++ t) (letters_parts-newline ms)
          ∙ letter_part-append m (letters_text ms))

  module _ (msgs_dir : FilePath) (mid : ℕ) where
    parts_later :
        (later : List Bytes)
        → All (λ number. mid + 20 ≤ atoi number) later
        → message_parts os msgs_dir mid later fs ≡ done []
    unfolding message_parts
    parts_later [] h = refl
    parts_later (number ∷ later) (h, hs) =
        let below : ltb (atoi number) mid ≡ false = ground arith in
        let past : leb (mid + 20) (atoi number) ≡ true = ground arith in rw (below, past) refl

    parts_letters :
        (ms : List Letter) (later : List Bytes)
        → All (λ m. IsStored msgs_dir m × InWindow mid m.mid) ms
        → All (λ number. mid + 20 ≤ atoi number) later
        → message_parts os msgs_dir mid (map Letter.mid ms ++ later) fs ≡ done (letters_parts ms)
    unfolding message_parts
    parts_letters [] later h k = parts_later later k
    parts_letters (m ∷ ms) later ((stored, (low, high)), hs) k =
        let below : ltb (atoi m.mid) mid ≡ false = ground arith in
        let past : leb (mid + 20) (atoi m.mid) ≡ false = ground arith in
        rw (below, past, message_part_lem msgs_dir m stored, parts_letters ms later hs k) refl

    pub message_parts_lem :
        (old : List Bytes) (ms : List Letter) (later : List Bytes)
        → All (λ number. atoi number < mid) old
        → All (λ m. IsStored msgs_dir m × InWindow mid m.mid) ms
        → All (λ number. mid + 20 ≤ atoi number) later
        → message_parts os msgs_dir mid (old ++ (map Letter.mid ms ++ later)) fs
          ≡ done (letters_parts ms)
    unfolding message_parts
    message_parts_lem [] ms later o h k = parts_letters ms later h k
    message_parts_lem (number ∷ old) ms later (o, os') h k =
        let below : ltb (atoi number) mid ≡ true = ground arith in
        rw below (message_parts_lem old ms later os' h k)
