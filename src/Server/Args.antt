-- ===== src/Server/Args.antt =====
-- `parse_args` of src/server/server.c.
use projeto_rc.Base.{
  Bool, true, false, List, [], ◌∷◌, Bytes, codes, ltb, text_eq, length, if◌then◌else◌,
}
use projeto_rc.Base.Outcome.{Outcome, done, stop, out_of_bounds, null_string, ◌>>=◌}

-- The port in its buffer of 6 bytes, and whether the server is verbose. A `-p` at the end copies the
-- NULL behind the last argument.
unfoldable pub flags : List Bytes → Bytes × Bool → Outcome (Bytes × Bool)
flags [] got = done got
flags (flag ∷ []) (dsport, verbose) =
    if text_eq flag (codes "-v")
    then done (dsport, true)
    else if text_eq flag (codes "-p")
    then stop null_string
    else done (dsport, verbose)
flags (flag ∷ text ∷ args) (dsport, verbose) =
    let next = flags (text ∷ args) (dsport, if text_eq flag (codes "-v") then true else verbose) in
    let after = flags args (text, verbose) in
    if text_eq flag (codes "-v")
    then next
    else if text_eq flag (codes "-p")
    then (if ltb (length text) 6 then after else stop out_of_bounds)
    else next

abbrev default_to : Bytes → Bytes → Bytes
default_to [] text = text
default_to (c ∷ s) text = c ∷ s

unfoldable pub parse_args : List Bytes → Outcome (Bytes × Bool)
unfolding flags
parse_args args = do
  (dsport, verbose) ← flags args ([], false)
  done (default_to dsport (codes "58065"), verbose)
