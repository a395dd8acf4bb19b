-- ===== src/Prelude/Tests.antt =====
-- Boolean tests on numbers and texts, the conditional, and case lemmas.
use Prim.Native.Nat.{ℕ, ◌≤◌, ◌<◌, compare, Ordering}
use Prim.Native.String.{String}
use mathlib.Core.Path.{◌≡◌, refl}
use mathlib.Core.Logic.{◌↔◌, ◌≢◌, ◌⊎◌, inl, inr}
use mathlib.Core.Bool.{Bool, true, false, ◌&&◌}
use mathlib.Core.Option.{Option, none, some}
use native.Mathlib.Omega.{arith}
use text.Mathlib.Text.{◌==◌ as str_eq}
use text.Mathlib.TextEquality.{eq_iff}

abbrev pub ltb : ℕ → ℕ → Bool
ltb a b = elim (compare a b) [ Ordering.lt ↦ true | _ ↦ false ]

abbrev pub leb : ℕ → ℕ → Bool
leb a b = elim (compare a b) [ Ordering.gt ↦ false | _ ↦ true ]

abbrev pub nat_beq : ℕ → ℕ → Bool
nat_beq a b = elim (compare a b) [ Ordering.eq ↦ true | _ ↦ false ]

infix 1 if◌then◌else◌
abbrev pub if◌then◌else◌ {ℓ} : {A : Type ℓ} → Bool → A → A → A
if true then x else y = x
if false then x else y = y

-- To split on a computed value and keep the equation.
pub Bool-cases : (b : Bool) → (b ≡ true) ⊎ (b ≡ false)
Bool-cases true = inl refl
Bool-cases false = inr refl

pub and_true : (a b : Bool) → (a && b) ≡ true → (a ≡ true) × (b ≡ true)
and_true a b h = ground arith

pub both_true : (a b : Bool) → a ≡ true → b ≡ true → (a && b) ≡ true
both_true a b h k = ground arith

-- `==` of Python, for the types whose values the code compares.
pub record Eq {ℓ} (T : Type ℓ) : Type ℓ where
  pub beq : T → T → Bool
  pub beq_iff : (v w : T) → (beq v w ≡ true) ↔ (v ≡ w)

infix 50 ◌==◌
abbrev pub ◌==◌ {ℓ} : {T : Type ℓ} ⦃tests : Eq T⦄ → T → T → Bool
◌==◌ ⦃tests⦄ = tests.beq

pub nat_beq_iff : (a b : ℕ) → (nat_beq a b ≡ true) ↔ (a ≡ b)
nat_beq_iff a b = ground arith

instance abbrev pub nat_eq : Eq ℕ
nat_eq = record { beq = nat_beq; beq_iff = nat_beq_iff }

instance abbrev pub string_eq : Eq String
string_eq = record { beq = str_eq; beq_iff = eq_iff }

module _ {ℓ} {A : Type ℓ} ⦃e : Eq A⦄ where
  abbrev pub option_beq : Option A → Option A → Bool
  option_beq none none = true
  option_beq none (some b) = false
  option_beq (some a) none = false
  option_beq (some a) (some b) = e.beq a b

  pub option_beq_iff : (a b : Option A) → (option_beq a b ≡ true) ↔ (a ≡ b)
  option_beq_iff none none = ((λ _. refl), (λ _. refl))
  option_beq_iff none (some b) = ((λ h. cc), (λ h. cc))
  option_beq_iff (some a) none = ((λ h. cc), (λ h. cc))
  option_beq_iff (some a) (some b) =
      ((λ h. cc ((e.beq_iff a b).0 h)), (λ h. (e.beq_iff a b).1 (ground arith)))

  instance abbrev pub option_eq : Eq (Option A)
  option_eq = record { beq = option_beq; beq_iff = option_beq_iff }

  pub ne_of_beq : (a b : A) → (a == b) ≡ false → a ≢ b
  ne_of_beq a b h p = cc (h, (e.beq_iff a b).1 p)

  pub beq_refl : (a : A) → (a == a) ≡ true
  beq_refl a = (e.beq_iff a a).1 refl

  pub beq_of_ne : (a b : A) → a ≢ b → (a == b) ≡ false
  beq_of_ne a b h = elim (Bool-cases (a == b)) [
    | inl same ↦ absurd (h ((e.beq_iff a b).0 same))
    | inr other ↦ other
  ]

pub Option-cases {ℓ} : {T : Type ℓ} (v : Option T) → (v ≡ none) ⊎ ((t : T) × (v ≡ some t))
Option-cases (some t) = inr (t, refl)
Option-cases none = inl refl

pub ltb→lt : (a b : ℕ) → ltb a b ≡ true → a < b
ltb→lt a b h = ground arith

pub leb→le : (a b : ℕ) → leb a b ≡ true → a ≤ b
leb→le a b h = ground arith
