-- ===== src/Base/Errors.antt =====
-- Errors and panics of Go as values.
use mathlib.Core.Path.{◌≡◌, refl, ap, ◌∙◌}
use mathlib.Core.Logic.{◌≢◌, ◌⊎◌, inl, inr}
use native.Mathlib.Omega.{arith}
use cert_manager_essendi_xc.Base.Text.{Text}

-- An error value shows its text by `Error()`.
pub record Error : Type 0 where
  pub text : Text

-- The result of a call that returns `(A, error)`, or that panics.
pub data Outcome (A : Type 0) : Type 0 where
  ok : A → Outcome A
  err : Error → Outcome A
  panic : Outcome A

-- `if err != nil { return …, err }` behind a call.
infixl 5 ◌>>=◌ ◌>>◌
abbrev pub ◌>>=◌ : {A B : Type 0} → Outcome A → (A → Outcome B) → Outcome B
ok a >>= f = f a
err e >>= f = err e
panic >>= f = panic

abbrev pub ◌>>◌ : {B : Type 0} → Outcome (Unit {0}) → Outcome B → Outcome B
m >> k = m >>= λ _. k

-- A bind that succeeds had a value to go on with.
pub >>=-ok :
    {A B : Type 0} (m : Outcome A) (f : A → Outcome B) (b : B)
    → (m >>= f) ≡ ok b
    → (a : A) × (m ≡ ok a) × (f a ≡ ok b)
>>=-ok (ok a) f b h = (a, refl, h)
>>=-ok (err e) f b h = ground arith
>>=-ok panic f b h = ground arith

-- A bind that panics has a first part that panics, or a value at which the second part does.
pub >>=-panic :
    {A B : Type 0} (m : Outcome A) (f : A → Outcome B)
    → (m >>= f) ≡ panic
    → m ≢ panic
    → (a : A) × (m ≡ ok a) × (f a ≡ panic)
>>=-panic (ok a) f h n = (a, refl, h)
>>=-panic (err e) f h n = ground arith
>>=-panic panic f h n = absurd (n refl)

pub Outcome-cases :
    {A : Type 0} (m : Outcome A)
    → ((a : A) × (m ≡ ok a)) ⊎ (((e : Error) × (m ≡ err e)) ⊎ (m ≡ panic))
Outcome-cases (ok a) = inl (a, refl)
Outcome-cases (err e) = inr (inl (e, refl))
Outcome-cases panic = inr (inr refl)

-- A bind goes on with the value that its first part has.
pub >>=-from :
    {A B : Type 0} (m : Outcome A) (f : A → Outcome B) (a : A) (x : Outcome B)
    → m ≡ ok a
    → f a ≡ x
    → (m >>= f) ≡ x
>>=-from {A} m f a x h k = ap (λ (n : Outcome A). n >>= f) h ∙ k
