-- ===== src/Util/Word.antt =====
-- `get_word` of src/common/util.c.
pub mod Laws
use mathlib.Core.List.{reverse}
use projeto_rc.Base.{
  ℕ, ◌≡◌, Bool, true, false, ◌||◌, Option, none, some, List, [], ◌∷◌, ◌++◌, ◌==◌, if◌then◌else◌,
  Bytes, nul, newline, space,
}
use projeto_rc.Base.Outcome.{Outcome, done, stop, out_of_bounds, ◌>>=◌}

-- A `char *` into a buffer, with the buffer: the bytes behind it (the nearest first) and those from
-- it on. `ended` says that the pointer is NULL.
pub record Cursor : Type 0 where
  pub behind : Bytes
  pub ahead : Bytes
  pub ended : Bool

abbrev pub start : Bytes → Cursor
start buffer = record { behind = []; ahead = buffer; ended = false }

-- The string at a pointer; reading it runs off a buffer that holds no NUL.
abbrev pub c_string : Bytes → Outcome Bytes
c_string [] = stop out_of_bounds
c_string (c ∷ s) =
    let rest = c_string s in if c == nul then done [] else (do t ← rest; done (c ∷ t))

abbrev pub is_stop : ℕ → Bool
is_stop c = c == space || c == nul || c == newline

-- The loop that steps `size` to the first space, NUL or newline: the word before it, the byte that
-- stopped the loop, and what stands behind that.
abbrev pub scan : Bytes → Outcome (Bytes × ℕ × Bytes)
scan [] = stop out_of_bounds
scan (c ∷ s) =
    let later = scan s in
    if is_stop c then done ([], c, s) else (do (w, d, r) ← later; done (c ∷ w, d, r))

-- `*str = NULL` behind a NUL, and the byte after the stopper otherwise.
abbrev pub advance : Bytes → ℕ → Bytes → Cursor
advance behind stopper rest = record { behind = behind; ahead = rest; ended = stopper == nul }

-- `(*str)[size - ((*str)[size - 1] == '\n')] = '\0'`. The byte before an empty word is the one behind
-- the pointer; if that is a newline it is overwritten, and the stopper stays in the text.
abbrev pub cut_word : Bytes → Bytes → ℕ → Bytes → Outcome (Option Bytes × Cursor)
cut_word [] [] c rest = stop out_of_bounds
cut_word (b ∷ behind) [] c rest =
    if b == newline
    then (do t ← c_string (c ∷ rest); done (some t, advance (c ∷ nul ∷ behind) c rest))
    else done (some [], advance (nul ∷ b ∷ behind) c rest)
cut_word behind (x ∷ word) c rest =
    done (some (x ∷ word), advance (nul ∷ (reverse (x ∷ word) ++ behind)) c rest)

-- A pointer at a space is not moved: the word is then the whole string from there.
abbrev pub word_at : Cursor → Bytes → Outcome (Option Bytes × Cursor)
word_at cur [] = stop out_of_bounds
word_at cur (x ∷ s) =
    if x == space
    then (do t ← c_string (x ∷ s); done (some t, cur))
    else (do (w, c, rest) ← scan (x ∷ s); cut_word cur.behind w c rest)

unfoldable pub get_word : Cursor → Outcome (Option Bytes × Cursor)
get_word cur = if cur.ended then done (none, cur) else word_at cur cur.ahead

-- The buffer that a cursor stands in.
abbrev pub buffer_of : Cursor → Bytes
buffer_of cur = reverse cur.behind ++ cur.ahead
