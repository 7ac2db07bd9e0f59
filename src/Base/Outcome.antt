-- ===== src/Base/Outcome.antt =====
-- What a run of C code comes to: a value, or the point past which the C standard, or an endless
-- loop, leaves nothing to say.
use mathlib.Core.Path.{◌≡◌, refl}
use mathlib.Core.Bool.{Bool, true, false}
use projeto_rc.Base.Tests.{if◌then◌else◌}

pub data Stop : Type 0 where
  -- a stdio call on the NULL that a failed `fopen` returned
  null_file : Stop
  -- a read or a write outside its buffer
  out_of_bounds : Stop
  -- a read of a variable that nothing was stored in
  uninitialised : Stop
  -- a use of memory after `free`
  use_after_free : Stop
  -- a call of a string function on NULL
  null_string : Stop
  -- a use of a pointer that is NULL or that nothing was stored in
  null_pointer : Stop
  -- a loop that waits for bytes that never come
  hang : Stop

pub data Outcome {ℓ} (A : Type ℓ) : Type ℓ where
  done : A → Outcome A
  stop : Stop → Outcome A

infixl 5 ◌>>=◌
abbrev pub ◌>>=◌ {ℓ κ} : {A : Type ℓ} {B : Type κ} → Outcome A → (A → Outcome B) → Outcome B
done a >>= f = f a
stop s >>= f = stop s

-- Inversion of a bind that comes to a value.
pub >>=-eq-done {ℓ κ} :
    {A : Type ℓ} {B : Type κ} (m : Outcome A) (f : A → Outcome B) {b : B}
    → (m >>= f) ≡ done b
    → (a : A) × (m ≡ done a) × (f a ≡ done b)
>>=-eq-done (done a) f h = (a, refl, h)
>>=-eq-done (stop s) f h = cc

pub done_injective {ℓ} : {A : Type ℓ} {a b : A} → done a ≡ done b → a ≡ b
done_injective h = cc

-- What a run that comes to a value leaves.
abbrev pub Ensures {ℓ} : {A : Type ℓ} → (A → Type 0) → Outcome A → Type 0
Ensures P (done a) = P a
Ensures P (stop s) = Unit

pub Ensures->>= {ℓ κ} :
    {A : Type ℓ} {B : Type κ} (P : B → Type 0) (m : Outcome A) (f : A → Outcome B)
    → ((a : A) → m ≡ done a → Ensures P (f a))
    → Ensures P (m >>= f)
Ensures->>= P (done a) f h = h a refl
Ensures->>= P (stop s) f h = tt

pub Ensures-done {ℓ} :
    {A : Type ℓ} (P : A → Type 0) (m : Outcome A) {a : A} → m ≡ done a → Ensures P m → P a
Ensures-done P m e h = rw e at h

pub Ensures-if {ℓ} :
    {A : Type ℓ} (P : A → Type 0) (b : Bool) (x y : Outcome A)
    → (b ≡ true → Ensures P x)
    → (b ≡ false → Ensures P y)
    → Ensures P (if b then x else y)
Ensures-if P true x y h k = h refl
Ensures-if P false x y h k = k refl

-- Two runs that begin alike and go on alike.
pub >>=-alike {ℓ κ μ ν} :
    {A : Type ℓ} {B : Type κ} {C : Type μ} {D : Type ν} (m : Outcome A) (f : A → Outcome B)
    (g : B → Outcome D) (h : A → Outcome C) (k : C → Outcome D)
    → ((a : A) → (f a >>= g) ≡ (h a >>= k))
    → ((m >>= f) >>= g) ≡ ((m >>= h) >>= k)
>>=-alike (done a) f g h k e = e a
>>=-alike (stop s) f g h k e = refl
