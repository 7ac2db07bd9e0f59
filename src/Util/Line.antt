-- ===== src/Util/Line.antt =====
-- `get_line`, `get_quote`, `get_file_size` and `read_file` of src/common/util.c.
use mathlib.Core.List.{reverse}
use projeto_rc.Base.{
  ℕ, suc, ◌||◌, Option, none, some, [], ◌∷◌, ◌++◌, Bytes, nul, newline, ◌==◌, ltb, length, drop,
  if◌then◌else◌,
}
use projeto_rc.Base.Outcome.{Outcome, done, stop, out_of_bounds, ◌>>=◌}
use projeto_rc.Util.Word.{Cursor, c_string}

-- The bytes before the first newline, and those from it on.
abbrev pub until_newline : Bytes → Bytes × Bytes
until_newline [] = ([], [])
until_newline (c ∷ s) =
    let (line, rest) = until_newline s in if c == newline then ([], c ∷ s) else (c ∷ line, rest)

-- `fscanf(stream, "%[^\n]", buffer)` and the byte behind the line, for a buffer of `size` bytes. A line
-- without a byte is no match, and leaves the buffer as it was.
unfoldable pub get_line : ℕ → Bytes → Bytes → Outcome (Bytes × Bytes)
get_line size buffer input =
    let (line, rest) = until_newline input in
    if length line == 0
    then done (buffer, drop 1 rest)
    else if ltb (length line) size
    then done (line ++ nul ∷ drop (suc (length line)) buffer, drop 1 rest)
    else stop out_of_bounds

abbrev quote : ℕ
quote = b'"'

-- The loop that steps `size` to the first quote or NUL: what stands before it, that byte, and what
-- stands behind.
abbrev pub scan_quote : Bytes → Outcome (Bytes × ℕ × Bytes)
scan_quote [] = stop out_of_bounds
scan_quote (c ∷ s) =
    let later = scan_quote s in
    if c == quote || c == nul then done ([], c, s) else (do (w, d, r) ← later; done (c ∷ w, d, r))

-- `(*str)[size + 1] = '\0'`: the byte behind the one that ended the loop is cut off.
abbrev cut_quote : Bytes → ℕ → Bytes → ℕ → Bytes → Outcome (Option Bytes × Cursor)
cut_quote behind first word last [] = stop out_of_bounds
cut_quote behind first word last (d ∷ rest) = do
  text ← c_string (first ∷ (word ++ last ∷ nul ∷ []))
  done (
    some text,
    record {
      behind = nul ∷ last ∷ (reverse word ++ first ∷ behind);
      ahead = rest;
      ended = d == nul;
    },
  )

abbrev quote_at : Cursor → Bytes → Outcome (Option Bytes × Cursor)
quote_at cur [] = stop out_of_bounds
quote_at cur (x ∷ s) = do (w, c, rest) ← scan_quote s; cut_quote cur.behind x w c rest

-- The search starts at the second byte, whatever the first is.
unfoldable pub get_quote : Cursor → Outcome (Option Bytes × Cursor)
get_quote cur = if cur.ended then done (none, cur) else quote_at cur cur.ahead

abbrev pub get_file_size : Bytes → ℕ
get_file_size content = length content

-- What `read_file` leaves in the buffer.
abbrev pub read_file : Bytes → Bytes
read_file content = content ++ newline ∷ []
