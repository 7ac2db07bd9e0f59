-- ===== src/User/Args.antt =====
-- The arguments of the user's program against what they ask for.
use projeto_rc.Base.{
  ◌<◌, ◌≡◌, inl, inr, refl, true, List, [], ◌∷◌, arith, Bytes, codes, ltb, text_eq, text_eq_sound,
  length, if◌then◌else◌, All, Bool-cases,
}
use projeto_rc.Base.Outcome.{done}
use projeto_rc.User.Accounts.{buffer_size}
use projeto_rc.User.Prompt.{flags, parse_args, default_to}

-- Flags, each with its text.
abbrev pub paired : List (Bytes × Bytes) → List Bytes
paired [] = []
paired ((flag, text) ∷ given) = flag ∷ text ∷ paired given

-- The text of the last of the flags of a name, or what stood before.
abbrev pub last_text : Bytes → Bytes → List (Bytes × Bytes) → Bytes
last_text name before [] = before
last_text name before ((flag, text) ∷ given) =
    last_text name (if text_eq flag name then text else before) given

flags-last_text :
    (given : List (Bytes × Bytes)) (dsip dsport : Bytes)
    → All (λ r. length r.1 < buffer_size) given
    → flags (paired given) (dsip, dsport)
      ≡ done (last_text (codes "-n") dsip given, last_text (codes "-p") dsport given)
unfolding flags
flags-last_text [] dsip dsport h = refl
flags-last_text ((flag, text) ∷ given) dsip dsport (h, hs) =
    let fits : ltb (length text) buffer_size ≡ true = ground arith in
    elim (Bool-cases (text_eq flag (codes "-n"))) [
      | inl e ↦ rw (text_eq_sound flag (codes "-n") e, fits) (flags-last_text given text dsport hs)
      | inr e ↦ elim (Bool-cases (text_eq flag (codes "-p"))) [
        | inl k ↦ rw (text_eq_sound flag (codes "-p") k, fits) (flags-last_text given dsip text hs)
        | inr k ↦ rw (e, k) (flags-last_text given dsip dsport hs)
      ]
    ]

-- On flags that each have a text of fewer than 128 bytes, `parse_args` of the user's program
-- gives the text of the last -n and of the last -p, and localhost and 58065 where there is none
-- or it is empty.
pub parse_args-last_text :
    (given : List (Bytes × Bytes))
    → All (λ r. length r.1 < buffer_size) given
    → parse_args (paired given)
      ≡ done (
        default_to (last_text (codes "-n") [] given) (codes "localhost"),
        default_to (last_text (codes "-p") [] given) (codes "58065"),
      )
unfolding parse_args
parse_args-last_text given h = rw (flags-last_text given [] [] h) refl
