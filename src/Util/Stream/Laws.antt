-- ===== src/Util/Stream/Laws.antt =====
-- `read_fd` and `get_word_fd` of src/common/util.c on what a peer sends.
use projeto_rc.Base.{
  ℕ, zero, suc, ◌+◌, ◌-◌, ◌≤◌, ◌<◌, ◌≡◌, refl, ap, [], ◌∷◌, ◌++◌, arith, Bytes, length, take, drop,
  length-drop, length-append, drop-append, ◌∙◌, true,
}
use projeto_rc.Base.Outcome.{done, stop, hang}
use projeto_rc.Disk.{Os}
use projeto_rc.Util.Word.{is_stop}
use projeto_rc.Util.Word.Laws.{IsWord}
use projeto_rc.Util.Stream.{read_size, read_loop, read_fd, word_fd, get_word_fd}

take-nil : (m : ℕ) → take {A = ℕ} m [] ≡ []
take-nil zero = refl
take-nil (suc m) = refl

drop-nil : (m : ℕ) → drop {A = ℕ} m [] ≡ []
drop-nil zero = refl
drop-nil (suc m) = refl

take_split : (k m n : ℕ) (s : Bytes) → n ≡ k + m → take k s ++ take m (drop k s) ≡ take n s
take_split zero m n s h = let e : m ≡ n = omega arith in rw e
take_split (suc k) m zero s h = absurd (omega arith)
take_split (suc k) m (suc n) [] h = rw (take-nil m)
take_split (suc k) m (suc n) (c ∷ s) h = ap (λ r. c ∷ r) (take_split k m n s (omega arith))

drop_split : (k m n : ℕ) (s : Bytes) → n ≡ k + m → drop m (drop k s) ≡ drop n s
drop_split zero m n s h = let e : m ≡ n = omega arith in rw e
drop_split (suc k) m zero s h = absurd (omega arith)
drop_split (suc k) m (suc n) [] h = rw (drop-nil m)
drop_split (suc k) m (suc n) (c ∷ s) h = drop_split k m n s (omega arith)

pub take-append : (s t : Bytes) → take (length s) (s ++ t) ≡ s
take-append [] t = refl
take-append (c ∷ s) t = ap (λ r. c ∷ r) (take-append s t)

module _ (os : Os) where
  read_size_bounds :
      (n : ℕ) (c : ℕ) (s : Bytes)
      → (1 ≤ read_size os (suc n) (c ∷ s))
        × (read_size os (suc n) (c ∷ s) ≤ suc n)
        × (read_size os (suc n) (c ∷ s) ≤ length (c ∷ s))
  read_size_bounds n c s = omega arith

  read_loop_done :
      (rounds n : ℕ) (s : Bytes)
      → n ≤ rounds
      → n ≤ length s
      → read_loop os rounds n s ≡ done (take n s, drop n s)
  unfolding read_loop
  read_loop_done zero zero s h l = refl
  read_loop_done (suc rounds) zero s h l = refl
  read_loop_done zero (suc n) [] h l = absurd (omega arith)
  read_loop_done (suc rounds) (suc n) [] h l = absurd (omega arith)
  read_loop_done zero (suc n) (c ∷ s) h l = absurd (omega arith)
  read_loop_done (suc rounds) (suc n) (c ∷ s) h l =
      let (low, high, len) = read_size_bounds n c s in
      let k : ℕ = read_size os (suc n) (c ∷ s) in
      rw
        (read_loop_done rounds (suc n - k) (drop k (c ∷ s)) (omega arith)
          (omega (arith, length-drop k (c ∷ s))))
        (λ i. done (
          take_split k (suc n - k) (suc n) (c ∷ s) (omega arith) i,
          drop_split k (suc n - k) (suc n) (c ∷ s) (omega arith) i,
        ))

  -- When the peer sends at least the number of bytes asked for, `read_fd` takes exactly that many
  -- and leaves the rest, however many bytes each `read` returns.
  pub read_fd-take : (n : ℕ) (s : Bytes) → n ≤ length s → read_fd os n s ≡ done (take n s, drop n s)
  unfolding read_fd
  read_fd-take n s h = read_loop_done n n s (omega arith) h

  pub read_fd-append : (s t : Bytes) → read_fd os (length s) (s ++ t) ≡ done (s, t)
  read_fd-append s t =
      read_fd-take (length s) (s ++ t) (omega (arith, length-append s t))
      ∙ ((λ i. done (take-append s t i, drop-append s t i)))

  read_loop_hangs : (rounds n : ℕ) (s : Bytes) → length s < n → read_loop os rounds n s ≡ stop hang
  unfolding read_loop
  read_loop_hangs zero zero s l = absurd (omega arith)
  read_loop_hangs (suc rounds) zero s l = absurd (omega arith)
  read_loop_hangs zero (suc n) [] l = refl
  read_loop_hangs zero (suc n) (c ∷ s) l = refl
  read_loop_hangs (suc rounds) (suc n) [] l = refl
  read_loop_hangs (suc rounds) (suc n) (c ∷ s) l =
      let (low, high, len) = read_size_bounds n c s in
      let k : ℕ = read_size os (suc n) (c ∷ s) in
      rw
        (read_loop_hangs rounds (suc n - k) (drop k (c ∷ s)) (omega (arith, length-drop k (c ∷ s))))

  -- When the peer closes after fewer bytes than are asked for, `read_fd` never returns: its loop
  -- goes on with reads of no bytes.
  pub read_fd-hang : (n : ℕ) (s : Bytes) → length s < n → read_fd os n s ≡ stop hang
  unfolding read_fd
  read_fd-hang n s h = read_loop_hangs n n s h

word_fd_lem :
    (w : Bytes) (c : ℕ) (rest : Bytes)
    → IsWord w
    → is_stop c ≡ true
    → word_fd (w ++ c ∷ rest) ≡ (w, rest)
word_fd_lem [] c rest h e = ground arith
word_fd_lem (x ∷ w) c rest h e = ground (arith, word_fd_lem w c rest h.1 e)

-- `get_word_fd` returns a word that is shorter than its buffer and that a space, a NUL or a
-- newline ends, and leaves what stands behind that byte.
pub get_word_fd-word :
    (size : ℕ) (w : Bytes) (c : ℕ) (rest : Bytes)
    → IsWord w
    → is_stop c ≡ true
    → length w < size
    → get_word_fd size (w ++ c ∷ rest) ≡ done (w, rest)
unfolding get_word_fd
get_word_fd-word size w c rest h e fits = rw (word_fd_lem w c rest h e) (ground arith)
