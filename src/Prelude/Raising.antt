-- ===== src/Prelude/Raising.antt =====
-- A call that returns or raises.
use mathlib.Core.Path.{◌≡◌, refl}
use mathlib.Core.Logic.{◌⊎◌, inl, inr}
use mathlib.Core.Bool.{Bool, true, false}

pub data Outcome {ℓ} (E A : Type ℓ) : Type ℓ where
  ok : A → Outcome E A
  raise : E → Outcome E A

-- To split on what a call does and keep the equation.
pub Outcome-cases :
    {E A : Type 0} (call : Outcome E A)
    → ((got : A) × (call ≡ ok got)) ⊎ ((error : E) × (call ≡ raise error))
Outcome-cases (ok got) = inl (got, refl)
Outcome-cases (raise error) = inr (error, refl)

infixl 5 ◌>>=◌ ◌>>◌
abbrev pub ◌>>=◌ : {E A B : Type 0} → Outcome E A → (A → Outcome E B) → Outcome E B
ok a >>= f = f a
raise e >>= f = raise e

abbrev pub ◌>>◌ : {E B : Type 0} → Outcome E (Unit {0}) → Outcome E B → Outcome E B
m >> k = m >>= λ _. k

-- `if test: raise e`
abbrev pub raise_if : {E : Type 0} → Bool → E → Outcome E (Unit {0})
raise_if true e = raise e
raise_if false e = ok tt

pub >>=-eq-ok :
    {E A B : Type 0} (call : Outcome E A) (rest : A → Outcome E B) {result : B}
    → (call >>= rest) ≡ ok result
    → (got : A) × (call ≡ ok got) × (rest got ≡ ok result)
>>=-eq-ok (raise e) rest h = cc
>>=-eq-ok (ok got) rest h = (got, refl, h)

pub >>-eq-ok :
    {E B : Type 0} (m : Outcome E (Unit {0})) (k : Outcome E B) {b : B}
    → (m >> k) ≡ ok b
    → (m ≡ ok tt) × (k ≡ ok b)
>>-eq-ok (ok tt) k h = (refl, h)
>>-eq-ok (raise e) k h = cc

-- A guard that did not raise.
pub raise_if-eq-ok : {E : Type 0} (test : Bool) (e : E) → raise_if test e ≡ ok tt → test ≡ false
raise_if-eq-ok true e h = cc
raise_if-eq-ok false e h = refl

-- The same outcome with its exception read as one of another type.
abbrev pub recast : {E F A : Type 0} → (E → F) → Outcome E A → Outcome F A
recast as_other (ok a) = ok a
recast as_other (raise e) = raise (as_other e)

pub recast-eq-ok :
    {E F A : Type 0} (as_other : E → F) (m : Outcome E A) {a : A}
    → recast as_other m ≡ ok a
    → m ≡ ok a
recast-eq-ok as_other (raise e) h = cc
recast-eq-ok as_other (ok b) h = cc h
