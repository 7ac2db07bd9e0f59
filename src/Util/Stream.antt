-- ===== src/Util/Stream.antt =====
-- `read_fd` and `get_word_fd` of src/common/util.c. A connection is the bytes that the peer sends
-- before it closes its end.
pub mod Laws
use Prim.Native.Nat.{min, max}
use projeto_rc.Base.{
  ℕ, zero, suc, ◌-◌, Bool, List, [], ◌∷◌, ◌++◌, Bytes, ◌==◌, ltb, length, take, drop, if◌then◌else◌,
}
use projeto_rc.Base.Outcome.{Outcome, done, stop, out_of_bounds, hang, ◌>>=◌}
use projeto_rc.Disk.{Os}
use projeto_rc.Util.Word.{is_stop}

module _ (os : Os) where
  -- At least one byte while there is one, at most what is asked.
  abbrev pub read_size : ℕ → Bytes → ℕ
  read_size n s = max 1 (min (os.chunk n s) (min n (length s)))

  -- A read of no bytes is the end of the connection: the loop then asks for ever. Each other round
  -- gets a byte, so that `n` rounds are enough for `n` bytes.
  unfoldable pub read_loop : ℕ → ℕ → Bytes → Outcome (Bytes × Bytes)
  read_loop rounds zero s = done ([], s)
  read_loop rounds (suc n) [] = stop hang
  read_loop zero (suc n) (c ∷ s) = stop hang
  read_loop (suc rounds) (suc n) (c ∷ s) =
      let k = read_size (suc n) (c ∷ s) in
      do
        (more, rest) ← read_loop rounds (suc n - k) (drop k (c ∷ s))
        done (take k (c ∷ s) ++ more, rest)

  unfoldable pub read_fd : ℕ → Bytes → Outcome (Bytes × Bytes)
  unfolding read_loop
  read_fd size s = read_loop size size s

-- The word up to a space, a NUL, a newline or the end, and what stands behind.
abbrev pub word_fd : Bytes → Bytes × Bytes
word_fd [] = ([], [])
word_fd (c ∷ s) = let (w, rest) = word_fd s in if is_stop c then ([], s) else (c ∷ w, rest)

-- Into a buffer of `size` bytes, the terminating NUL included.
unfoldable pub get_word_fd : ℕ → Bytes → Outcome (Bytes × Bytes)
get_word_fd size s =
    if ltb (length (word_fd s).0) size then done (word_fd s) else stop out_of_bounds
