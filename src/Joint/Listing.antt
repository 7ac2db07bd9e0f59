-- ===== src/Joint/Listing.antt =====
-- The list of groups from the server's disk to the lines that `groups` of the user's program prints.
use mathlib.Core.List.{reverse}
use projeto_rc.Base.{
  ℕ, ◌≤◌, ◌<◌, ◌≡◌, refl, ◌∙◌, ap, inl, inr, true, false, some, List, [], ◌∷◌, ◌++◌, append_assoc,
  arith, Bytes, codes, nul, space, newline, text_eq, text_eq_sound, ltb, length, drop, All,
  if◌then◌else◌, Bool-cases, ◌==◌,
}
use projeto_rc.Base.Decimal.{digits, print}
use projeto_rc.Base.Decimal.RoundTrip.{digits_value, print-digits, value-print}
use projeto_rc.Base.Decimal.Length.{print-some}
use projeto_rc.Base.Outcome.{done}
use projeto_rc.Util.Word.{is_stop}
use projeto_rc.Util.Word.Laws.{IsWord, get_word-word}
use projeto_rc.Server.Dispatch.Words.{digits-IsWord}
use projeto_rc.User.Session.{
  Session, World, Line, info, success, warning, told, expect, read_word, response,
}
use projeto_rc.User.Groups.{group_rows, list_groups, response_size}
use projeto_rc.Server.Reply.{udp}
use projeto_rc.Joint.Turns.{ask-answer}
use projeto_rc.Joint.Retrieving.{rounds_of-print}

-- A group with its name and the number of its messages.
pub record Row : Type 0 where
  pub gid : Bytes
  pub name : Bytes
  pub count : Bytes

abbrev pub rows_text : Bytes → List Row → Bytes
rows_text tail [] = newline ∷ tail
rows_text tail (r ∷ rs) =
    space ∷ (r.gid ++ space ∷ (r.name ++ space ∷ (r.count ++ rows_text tail rs)))

abbrev pub rows_lines : List Row → List Line
rows_lines [] = []
rows_lines (r ∷ rs) =
    info
      (codes "\t[" ++ (r.gid ++ (codes "] " ++ (r.name ++ (codes " " ++ (r.count ++ codes "\n"))))))
    ∷ rows_lines rs

abbrev pub IsField : Bytes → Type 0
IsField w = IsWord w × (1 ≤ length w)

abbrev pub IsRow : Row → Type 0
IsRow r = IsField r.gid × IsField r.name × IsField r.count

rows_text-append : (rs : List Row) (tail : Bytes) → rows_text [] rs ++ tail ≡ rows_text tail rs
rows_text-append [] tail = refl
rows_text-append (r ∷ rs) tail = simp (append_assoc, rows_text-append rs tail)

rows_head :
    (tail : Bytes) (rs : List Row)
    → (c : ℕ) × ((c == nul) ≡ false)
      × (is_stop c ≡ true)
      × (rows_text tail rs ≡ c ∷ drop 1 (rows_text tail rs))
rows_head tail [] = (newline, refl, refl, refl)
rows_head tail (r ∷ rs) = (space, refl, refl, refl)

pub read_word-field :
    (w s behind : Bytes) (c : ℕ) (rest : Bytes)
    → IsField w
    → (c == nul) ≡ false
    → is_stop c ≡ true
    → s ≡ c ∷ rest
    → read_word (record { behind = behind; ahead = w ++ s; ended = false })
      ≡ done (w, record { behind = nul ∷ (reverse w ++ behind); ahead = rest; ended = false })
unfolding read_word
read_word-field [] s behind c rest (h, l) k e f = absurd (omega arith)
read_word-field (x ∷ w) s behind c rest (h, l) k e f =
    rw f (rw (get_word-word x w c rest behind h e, k) refl)

group_rows-rows :
    (rs : List Row) (tail behind : Bytes)
    → All IsRow rs
    → group_rows
        (length rs)
        (record { behind = behind; ahead = drop 1 (rows_text tail rs); ended = false })
      ≡ done (rows_lines rs)
unfolding group_rows
group_rows-rows [] tail behind h = refl
group_rows-rows (r ∷ rs) tail behind ((g, n, k), hs) =
    let (c, some_byte, stops, split) = rows_head tail rs in
    let behind1 : Bytes = nul ∷ (reverse r.gid ++ behind) in
    let behind2 : Bytes = nul ∷ (reverse r.name ++ behind1) in
    let last : Bytes = r.count ++ rows_text tail rs in
    rw
      (
        read_word-field r.gid (space ∷ (r.name ++ space ∷ last)) behind space
            (r.name ++ space ∷ last) g refl refl refl,
        read_word-field r.name (space ∷ last) behind1 space last n refl refl refl,
        read_word-field r.count (rows_text tail rs) behind2 c (drop 1 (rows_text tail rs)) k
            some_byte stops split,
        group_rows-rows rs tail (nul ∷ (reverse r.count ++ behind2)) hs,
      )
      refl

print-zero : (n : ℕ) → 1 ≤ n → text_eq (print n) (codes "0") ≡ false
print-zero n l = elim (Bool-cases (text_eq (print n) (codes "0"))) [
  | inr e ↦ e
  | inl e ↦
      let zero_value : digits_value 0 (print n) ≡ 0 =
        ap (digits_value 0) (text_eq_sound (print n) (codes "0") e) in
      absurd (omega (arith, zero_value, value-print n))
]

-- What `groups` prints for a list of groups.
abbrev pub listed : List Row → List Line
listed [] = warning (codes "There are no groups available\n") ∷ []
listed (r ∷ rs) = success (codes "List of groups:") ∷ rows_lines (r ∷ rs)

listed_lem :
    (rs : List Row)
    → (if text_eq (print (length rs)) (codes "0")
        then warning (codes "There are no groups available\n") ∷ []
        else success (codes "List of groups:") ∷ rows_lines rs)
      ≡ listed rs
listed_lem [] = unfold print digits in refl
listed_lem (r ∷ rs) = rw (print-zero (length (r ∷ rs)) (omega arith)) refl

pub list_groups-rows :
    (w : World) (s : Session) (rs : List Row)
    → All IsRow rs
    → length rs < 2_147_483_648
    → length (codes "RGL " ++ (print (length rs) ++ rows_text [] rs)) < response_size
    → w.answer (codes "GLS\n") ≡ some (codes "RGL " ++ (print (length rs) ++ rows_text [] rs))
    → list_groups w s ≡ done (told s (udp (codes "GLS\n")) (listed rs))
unfolding list_groups response expect
list_groups-rows w s rs h small short answer =
    let reply : Bytes = codes "RGL " ++ (print (length rs) ++ rows_text [] rs) in
    let fits : ltb (length reply) response_size ≡ true = ground arith in
    let (c, some_byte, stops, split) = rows_head (nul ∷ []) rs in
    let ending : (print (length rs) ++ rows_text [] rs) ++ nul ∷ []
        ≡ print (length rs) ++ rows_text (nul ∷ []) rs =
      append_assoc (print (length rs)) (rows_text [] rs) (nul ∷ [])
      ∙ ap (λ t. print (length rs) ++ t) (rows_text-append rs (nul ∷ [])) in
    ask-answer w s (codes "GLS\n") reply response_size _ answer
    ∙ rw
        (
          fits,
          ending,
          read_word-field (print (length rs)) (rows_text (nul ∷ []) rs)
              (nul ∷ reverse (codes "RGL")) c (drop 1 (rows_text (nul ∷ []) rs))
              (digits-IsWord _ (print-digits (length rs)), print-some (length rs)) some_byte stops
              split,
          rounds_of-print (length rs) small,
          group_rows-rows rs (nul ∷ [])
              (nul ∷ (reverse (print (length rs)) ++ (nul ∷ reverse (codes "RGL")))) h,
        )
        (ap (λ lines. done (told s (udp (codes "GLS\n")) lines)) (listed_lem rs))
