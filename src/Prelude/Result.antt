-- ===== src/Prelude/Result.antt =====
-- How a call ends: with a value, or with the process going down.
use mathlib.Core.Path.{◌≡◌, refl}
use mathlib.Core.Logic.{◌⊎◌, inl, inr}
use mathlib.Core.Option.{Option, none, some}

-- `out_of_range`: an exception of `at` or `compare` that nothing catches. `err_exit`: ERR_EXIT,
-- in a build and with options where it ends the process.
-- `bad_call`: a call through a null or absent function pointer. `unread`: a variable that sscanf
-- left unset. `overflow`: sprintf past the end of its buffer.
-- `bad_address`: an access to memory that is not mapped. `out_of_fuel`: not an end of the program, the model's bound on a recursion is spent.
pub data Fault : Type 0 where
  out_of_range err_exit bad_call unread overflow bad_address out_of_fuel : Fault

pub data Result {ℓ} (A : Type ℓ) : Type ℓ where
  ok : A → Result A
  err : Fault → Result A

infixl 5 ◌>>=◌
abbrev pub ◌>>=◌ {ℓ κ} : {A : Type ℓ} {B : Type κ} → Result A → (A → Result B) → Result B
err fault >>= next = err fault
ok value >>= next = next value

-- `o`, or the fault where it is empty
abbrev pub or_fault {ℓ} : {A : Type ℓ} → Fault → Option A → Result A
or_fault f none = err f
or_fault f (some a) = ok a

pub Result-cases {ℓ} :
    {A : Type ℓ} (r : Result A) → ((a : A) × (r ≡ ok a)) ⊎ ((f : Fault) × (r ≡ err f))
Result-cases (ok a) = inl (a, refl)
Result-cases (err f) = inr (f, refl)

pub >>=-eq-ok {ℓ κ} :
    {A : Type ℓ} {B : Type κ} (r : Result A) (next : A → Result B) {last : B}
    → (r >>= next) ≡ ok last
    → (value : A) × (r ≡ ok value) × (next value ≡ ok last)
>>=-eq-ok (err fault) next e = absurd (cc)
>>=-eq-ok (ok value) next e = (value, refl, e)

pub ok_injective : {A : Type 0} (a b : A) → ok a ≡ ok b → a ≡ b
ok_injective a b e = cc
