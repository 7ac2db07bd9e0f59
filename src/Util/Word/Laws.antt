-- ===== src/Util/Word/Laws.antt =====
-- `get_word` of src/common/util.c on the words of a text.
use mathlib.Core.List.{reverse}
use projeto_rc.Base.{ℕ, ◌≡◌, true, false, some, [], ◌∷◌, ◌++◌, arith, All, Bytes, nul}
use projeto_rc.Base.Outcome.{done}
use projeto_rc.Util.Word.{is_stop, scan, advance, get_word}

-- No byte of the word ends it.
abbrev pub IsWord : Bytes → Type 0
IsWord w = All (λ c. is_stop c ≡ false) w

scan_word :
    (w : Bytes) (c : ℕ) (rest : Bytes)
    → IsWord w
    → is_stop c ≡ true
    → scan (w ++ c ∷ rest) ≡ done (w, c, rest)
scan_word [] c rest h e = ground arith
scan_word (x ∷ w) c rest h e = ground (arith, scan_word w c rest h.1 e)

-- `get_word` on a word of at least one byte and a space, newline or NUL behind it returns the
-- word, and the cursor moves behind that byte, or to NULL after a NUL.
pub get_word-word :
    (x : ℕ) (w : Bytes) (c : ℕ) (rest behind : Bytes)
    → IsWord (x ∷ w)
    → is_stop c ≡ true
    → get_word (record { behind = behind; ahead = x ∷ (w ++ c ∷ rest); ended = false })
      ≡ done (some (x ∷ w), advance (nul ∷ (reverse (x ∷ w) ++ behind)) c rest)
unfolding get_word
get_word-word x w c rest behind h e = ground (arith, scan_word w c rest h.1 e)
