-- ===== src/Joint/Letters.antt =====
-- Messages as the server sends them, and as the user's program shows them.
use projeto_rc.Base.{
  ◌<◌, ◌≡◌, true, Option, none, some, List, [], ◌∷◌, ◌++◌, Bytes, codes, space, newline, is_digit,
  length, all,
}
use projeto_rc.Base.Decimal.{print}
use projeto_rc.Util.Word.Laws.{IsWord}
use projeto_rc.User.Session.{World, Line, info}
use projeto_rc.User.Messages.{message_line}

-- A message with its number, its author, its text, and the name and the content of a file.
pub record Letter : Type 0 where
  pub mid : Bytes
  pub author : Bytes
  pub text : Bytes
  pub attached : Option (Bytes × Bytes)

abbrev pub file_text : Option (Bytes × Bytes) → Bytes → Bytes
file_text none tail = tail
file_text (some (name, content)) tail =
    codes " / " ++ (name ++ space ∷ (print (length content) ++ space ∷ (content ++ tail)))

abbrev pub after_mid : Letter → Bytes → Bytes
after_mid m tail =
    m.author ++ space ∷ (print (length m.text) ++ space ∷ (m.text ++ file_text m.attached tail))

-- The messages as the server writes them, up to the newline at the end.
abbrev pub letters_text : List Letter → Bytes
letters_text [] = newline ∷ []
letters_text (m ∷ ms) = space ∷ (m.mid ++ space ∷ after_mid m (letters_text ms))

-- What the user's program shows, and the files that it writes.
abbrev pub letter_lines : Bytes → Bytes → Option (Bytes × Bytes) → List Line → List Line
letter_lines mid text none lines = message_line mid text ++ (info (codes "\n") ∷ lines)
letter_lines mid text (some saved) lines =
    message_line mid text ++ (info (codes " file stored: " ++ saved.0) ∷ info (codes "\n") ∷ lines)

abbrev pub letters_lines : List Letter → List Line
letters_lines [] = []
letters_lines (m ∷ ms) = letter_lines m.mid m.text m.attached (letters_lines ms)

abbrev pub saved_files : Option (Bytes × Bytes) → List (Bytes × Bytes) → List (Bytes × Bytes)
saved_files none files = files
saved_files (some saved) files = saved ∷ files

abbrev pub letters_files : List Letter → List (Bytes × Bytes)
letters_files [] = []
letters_files (m ∷ ms) = saved_files m.attached (letters_files ms)

abbrev pub FileFits : World → Option (Bytes × Bytes) → Type 0
FileFits w none = Unit
FileFits w (some (name, content)) =
    IsWord name × (length name < 24) × (w.writable name ≡ true) × (length content < 2_147_483_647)

-- A message that fits the buffers of the user's program.
pub record IsLetter (w : World) (m : Letter) : Type 0 where
  pub mid_digits : all is_digit m.mid ≡ true
  pub mid_length : length m.mid < 5
  pub author_word : IsWord m.author
  pub author_length : length m.author < 6
  pub text_length : length m.text < 2_147_483_647
  pub file : FileFits w m.attached
