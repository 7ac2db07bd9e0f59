-- ===== src/User/Messages/Ends.antt =====
-- The loop of `ulist` over the users ends, whatever the server sends.
use projeto_rc.Base.{
  ℕ, zero, suc, ◌+◌, refl, ◌≤◌, ◌<◌, ◌≡◌, inl, inr, List, [], ◌∷◌, ◌++◌, arith, Bytes, codes, ltb,
  text_eq, length, ◌==◌, Bool-cases,
}
use projeto_rc.Base.Outcome.{
  Outcome, done, stop, null_file, out_of_bounds, uninitialised, use_after_free, null_string,
  null_pointer, hang, ◌>>=◌, done_injective,
}
use projeto_rc.Util.Word.{is_stop}
use projeto_rc.Util.Stream.{word_fd, get_word_fd}
use projeto_rc.User.Session.{Line, info}
use projeto_rc.User.Accounts.{buffer_size}
use projeto_rc.User.Messages.{user_rows, user_list}

-- A run that comes to an end, or writes past the end of a buffer.
abbrev pub Halts {ℓ} : {A : Type ℓ} → Outcome A → Type 0
Halts (done a) = Unit
Halts (stop null_file) = ⊥
Halts (stop out_of_bounds) = Unit
Halts (stop uninitialised) = ⊥
Halts (stop use_after_free) = ⊥
Halts (stop null_string) = ⊥
Halts (stop null_pointer) = ⊥
Halts (stop hang) = ⊥

Halts->>= {ℓ κ} :
    {A : Type ℓ} {B : Type κ} (m : Outcome A) (f : A → Outcome B)
    → Halts m
    → ((a : A) → m ≡ done a → Halts (f a))
    → Halts (m >>= f)
Halts->>= (done a) f h k = k a refl
Halts->>= (stop null_file) f h k = h
Halts->>= (stop out_of_bounds) f h k = h
Halts->>= (stop uninitialised) f h k = h
Halts->>= (stop use_after_free) f h k = h
Halts->>= (stop null_string) f h k = h
Halts->>= (stop null_pointer) f h k = h
Halts->>= (stop hang) f h k = h

word_fd-length : (s : Bytes) → length (word_fd s).0 + length (word_fd s).1 ≤ length s
word_fd-length [] = omega arith
word_fd-length (c ∷ s) = elim (Bool-cases (is_stop c)) [
  | inl e ↦ rw e (omega arith)
  | inr e ↦ rw e (omega (arith, word_fd-length s))
]

get_word_fd-Halts : (size : ℕ) (s : Bytes) → Halts (get_word_fd size s)
unfolding get_word_fd
get_word_fd-Halts size s = elim (Bool-cases (ltb (length (word_fd s).0) size)) [
  | inl e ↦ rw e tt
  | inr e ↦ rw e tt
]

-- What stands behind a word is shorter by the word at least.
get_word_fd-length :
    (size : ℕ) (s : Bytes) (r : Bytes × Bytes)
    → get_word_fd size s ≡ done r
    → length r.0 + length r.1 ≤ length s
unfolding get_word_fd
get_word_fd-length size s r e = elim (Bool-cases (ltb (length (word_fd s).0) size)) [
  | inl k ↦ let same : word_fd s ≡ r = done_injective (rw k at e) in rw same at (word_fd-length s)
  | inr k ↦ absurd (let bad : stop out_of_bounds ≡ done r = rw k at e in ground arith)
]

rows_after :
    (n : ℕ) (name rest : Bytes)
    → (1 ≤ length name → Halts (user_rows n rest))
    → Halts (elim name as (λ _. Outcome (List Line)) [ [] ↦ done [] | c ∷ s ↦ user_rows n rest ])
rows_after n [] rest h = tt
rows_after n (c ∷ s) rest h = h (omega arith)

user_rows-Halts :
    (rounds : ℕ) (stream : Bytes) → length stream < rounds → Halts (user_rows rounds stream)
unfolding user_rows
user_rows-Halts zero stream h = absurd (omega arith)
user_rows-Halts (suc n) stream h =
    Halts->>= (get_word_fd buffer_size stream) _ (get_word_fd-Halts buffer_size stream) λ r e.
      Halts->>= (elim r.0 as (λ _. Outcome (List Line)) [ [] ↦ done [] | c ∷ s ↦ user_rows n r.1 ])
        (λ lines. done (info (codes "\t" ++ (r.0 ++ codes "\n")) ∷ lines))
        (rows_after n r.0 r.1
          λ k. user_rows-Halts n r.1 (omega (arith, get_word_fd-length buffer_size stream r e)))
        (λ lines _. tt)

-- The loop of `ulist` of the user's program over the users never goes on for ever, whatever the
-- server sends: it comes to an end or writes past the end of its buffer.
pub user_list-Halts : (gid stream : Bytes) → Halts (user_list gid stream)
unfolding user_list
user_list-Halts gid stream =
    Halts->>= (get_word_fd buffer_size stream) _ (get_word_fd-Halts buffer_size stream) λ r1 _.
      Halts->>= (get_word_fd buffer_size r1.1) _ (get_word_fd-Halts buffer_size r1.1) λ r2 _.
        elim (Bool-cases (text_eq r2.0 (codes "OK"))) [
          | inr e ↦ rw e tt
          | inl e ↦ rw e (
              Halts->>= (get_word_fd buffer_size r2.1) _ (get_word_fd-Halts buffer_size r2.1)
                λ r3 _. elim (Bool-cases (length r3.0 == 0)) [
                  | inl k ↦ rw k tt
                  | inr k ↦ rw k (
                      Halts->>= (user_rows (suc (length r3.1)) r3.1) _
                        (user_rows-Halts (suc (length r3.1)) r3.1 (omega arith)) λ lines _. tt)
                ])
        ]
