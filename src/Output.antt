-- ===== src/Output.antt =====
-- src/common/libio.c: what the programs print, with its colours. The text is what `vprintf` makes of the
-- format and its arguments.
use projeto_rc.Base.{
  ℕ, Bool, true, false, ◌≡◌, refl, ap, ◌∙◌, Option, none, some, List, [], ◌∷◌, ◌++◌, Bytes, codes,
  ◌==◌, All, append_assoc, if◌then◌else◌,
}
use projeto_rc.User.Session.{Line, success, warning, error, info}

-- What goes to stdout and to stderr.
pub record Printed : Type 0 where
  pub out : Bytes
  pub err : Bytes

abbrev escape : ℕ
escape = 27

abbrev pub red : Bytes
red = escape ∷ codes "[0;31m"

abbrev pub green : Bytes
green = escape ∷ codes "[0;32m"

abbrev pub magenta : Bytes
magenta = escape ∷ codes "[0;35m"

abbrev pub no_colour : Bytes
no_colour = escape ∷ codes "[0m"

-- The text of `strerror(errno)`, if `errno` is not 0.
abbrev pub reason : Option Bytes → Bytes
reason none = []
reason (some text) = codes "\t" ++ (text ++ codes "\n")

abbrev pub text_or_nothing : Option Bytes → Bytes
text_or_nothing none = []
text_or_nothing (some text) = text

unfoldable pub throw_error : Option Bytes → Bytes → Printed
throw_error errno text = record {
  out = [];
  err = red ++ (text ++ (codes "\n" ++ (reason errno ++ no_colour)));
}

abbrev pub coloured : Bytes → Bytes → Printed
coloured colour text = record { out = colour ++ (text ++ (codes "\n" ++ no_colour)); err = [] }

-- A line by the function that prints it: `warning`, `success`, `info`, and `throw_error`.
unfoldable pub print_line : Option Bytes → Line → Printed
unfolding throw_error
print_line errno (warning text) = coloured magenta text
print_line errno (success text) = coloured green text
print_line errno (info text) = coloured no_colour text
print_line errno (error text) = throw_error errno text

unfoldable pub print_lines : Option Bytes → List Line → Printed
unfolding print_line
print_lines errno [] = record { out = []; err = [] }
print_lines errno (line ∷ lines) =
    let first = print_line errno line in
    let rest = print_lines errno lines in
    record { out = first.out ++ rest.out; err = first.err ++ rest.err }

-- A terminal: what is shown of bytes, inside an escape sequence or not. A sequence ends with its m.
unfoldable pub visible : Bool → Bytes → Bytes
visible inside [] = []
visible true (c ∷ s) =
    let after = visible false s in
    let within = visible true s in if c == b'm' then after else within
visible false (c ∷ s) =
    let after = visible false s in
    let within = visible true s in if c == escape then within else c ∷ after

abbrev pub IsPlainText : Bytes → Type 0
IsPlainText s = All (λ c. (c == escape) ≡ false) s

visible-append : (s t : Bytes) → IsPlainText s → visible false (s ++ t) ≡ s ++ visible false t
unfolding visible
visible-append [] t h = refl
visible-append (c ∷ s) t (plain, hs) = rw plain (ap (λ r. c ∷ r) (visible-append s t hs))

abbrev pub text_of_line : Line → Bytes
text_of_line (warning text) = text
text_of_line (success text) = text
text_of_line (info text) = text
text_of_line (error text) = text

abbrev is_error : Line → Bool
is_error (warning text) = false
is_error (success text) = false
is_error (info text) = false
is_error (error text) = true

-- The texts on the two streams, a line each, with the reason behind that of an error.
abbrev pub plain_out : List Line → Bytes
plain_out [] = []
plain_out (line ∷ lines) =
    (if is_error line then [] else text_of_line line ++ codes "\n") ++ plain_out lines

abbrev pub plain_err : Option Bytes → List Line → Bytes
plain_err errno [] = []
plain_err errno (line ∷ lines) =
    (if is_error line then text_of_line line ++ (codes "\n" ++ reason errno) else [])
    ++ plain_err errno lines

-- A text, its newline and the reset of the colour, in front of what follows.
after_text :
    (text rest : Bytes)
    → IsPlainText text
    → visible false ((text ++ (codes "\n" ++ no_colour)) ++ rest)
      ≡ (text ++ codes "\n") ++ visible false rest
unfolding visible
after_text text rest h =
    rw
      (
        append_assoc text (codes "\n" ++ no_colour) rest,
        append_assoc text (codes "\n") (visible false rest),
      )
      (visible-append text ((codes "\n" ++ no_colour) ++ rest) h)

reasoned :
    (errno : Option Bytes) (rest : Bytes)
    → IsPlainText (text_or_nothing errno)
    → visible false ((reason errno ++ no_colour) ++ rest) ≡ reason errno ++ visible false rest
unfolding visible
reasoned none rest h = refl
reasoned (some text) rest h =
    ap (λ r. b'\t' ∷ visible false (r ++ rest)) (append_assoc text (codes "\n") no_colour)
    ∙ ap (λ r. b'\t' ∷ r) (after_text text rest h)

after_error :
    (errno : Option Bytes) (text rest : Bytes)
    → IsPlainText text
    → IsPlainText (text_or_nothing errno)
    → visible false ((text ++ (codes "\n" ++ (reason errno ++ no_colour))) ++ rest)
      ≡ (text ++ (codes "\n" ++ reason errno)) ++ visible false rest
unfolding visible
after_error errno text rest h k =
    rw
      (
        append_assoc text (codes "\n" ++ (reason errno ++ no_colour)) rest,
        append_assoc text (codes "\n" ++ reason errno) (visible false rest),
      )
      (visible-append text ((codes "\n" ++ (reason errno ++ no_colour)) ++ rest) h
        ∙ ap (λ r. text ++ (codes "\n" ++ r)) (reasoned errno rest k))

print_line-visible :
    (errno : Option Bytes) (line : Line) (out err : Bytes)
    → IsPlainText (text_of_line line)
    → IsPlainText (text_or_nothing errno)
    → (visible false ((print_line errno line).out ++ out)
        ≡ (if is_error line then [] else text_of_line line ++ codes "\n") ++ visible false out)
      × (visible false ((print_line errno line).err ++ err)
          ≡ (if is_error line then text_of_line line ++ (codes "\n" ++ reason errno) else [])
            ++ visible false err)
unfolding print_line visible
print_line-visible errno (warning text) out err h k = (after_text text out h, refl)
print_line-visible errno (success text) out err h k = (after_text text out h, refl)
print_line-visible errno (info text) out err h k = (after_text text out h, refl)
print_line-visible errno (error text) out err h k = (refl, after_error errno text err h k)

-- Where no text has an escape character, a terminal that leaves the colours out shows of the
-- lines of `success`, `warning` and `info` on stdout exactly the texts, each with a newline, and
-- of those of `throw_error` on stderr the texts, each with a newline and with the line of the
-- reason if errno is set.
pub print_lines-visible :
    (errno : Option Bytes) (lines : List Line)
    → All (λ line. IsPlainText (text_of_line line)) lines
    → IsPlainText (text_or_nothing errno)
    → (visible false (print_lines errno lines).out ≡ plain_out lines)
      × (visible false (print_lines errno lines).err ≡ plain_err errno lines)
unfolding print_lines visible
print_lines-visible errno [] h k = (refl, refl)
print_lines-visible errno (line ∷ lines) (h, hs) k =
    let (a, b) = print_lines-visible errno lines hs k in
    let rest = print_lines errno lines in
    let (c, d) = print_line-visible errno line rest.out rest.err h k in
    (
      c ∙ ap (λ r. (if is_error line then [] else text_of_line line ++ codes "\n") ++ r) a,
      d
          ∙ ap
              (λ r.
                (if is_error line then text_of_line line ++ (codes "\n" ++ reason errno) else [])
                ++ r)
              b,
    )
