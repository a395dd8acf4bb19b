-- ===== src/Temporal/Denote.antt =====
-- The instants that an envelope of temporal.py may denote, and what `lt3` says of them.
use mathlib.Core.Logic.{◌≢◌}
use joiny_mnemonic.Prelude.{
  ◌≤◌, ◌<◌, min, max, Bool, true, false, Option, none, some, ◌≡◌, ◌↔◌, inl, inr, arith,
  if◌then◌else◌, ltb, nat_eq, option_eq, option_beq_iff, Bool-cases,
}
use joiny_mnemonic.Temporal.Kleene.{Truth, truth_eq}
use joiny_mnemonic.Temporal.Envelopes.{
  Datetime, Envelope, definite, possible, lt3, eq3, now_envelope,
}

abbrev pub Above : Option Datetime → Datetime → Type 0
Above none t = Unit
Above (some l) t = l ≤ t

abbrev pub Below : Option Datetime → Datetime → Type 0
Below none t = Unit
Below (some h) t = t < h

abbrev pub Inside : Bool → Option Datetime → Option Datetime → Datetime → Type 0
Inside true lo hi t = lo ≡ some t
Inside false lo hi t = Above lo t × Below hi t

-- A singleton envelope is exactly `lo`, any other is the half-open range from `lo` to `hi`.
abbrev pub Denotes : Envelope → Datetime → Type 0
Denotes e t = Inside e.singleton e.lo e.hi t

module _ (a b : Envelope) (t u : Datetime) (ha : Denotes a t) (hb : Denotes b u) where
  definite_sound : definite a b ≡ true → t < u
  unfolding definite
  definite_sound h = ground arith

  impossible_sound : possible a b ≡ false → u ≤ t
  unfolding possible
  impossible_sound h = ground arith

definite-of_true : (a b : Envelope) → definite a b ≡ false → lt3 a b ≡ Truth.true → ⊥
unfolding lt3
definite-of_true a b e h = ground arith

possible-of_false : (a b : Envelope) → lt3 a b ≡ Truth.false → possible a b ≡ false
unfolding lt3
possible-of_false a b h = ground arith

-- An instant of `b` that is as early as the bounds allow, given one of each envelope.
abbrev early : Option Datetime → Datetime → Datetime → Datetime
early none t u = min u t
early (some l) t u = l

module _ (a b : Envelope) (t u : Datetime) (ha : Denotes a t) (hb : Denotes b u) where
  early-Denotes : Denotes b (early b.lo t u)
  early-Denotes = ground arith

  late-Denotes : definite a b ≡ false → Denotes a (max t (early b.lo t u))
  unfolding definite
  late-Denotes h = ground arith

-- `lt3` answers TRUE exactly when every instant of the first envelope lies below every instant
-- of the second, for two envelopes that denote something.
pub lt3-true_iff :
    (a b : Envelope) (t u : Datetime)
    → Denotes a t
    → Denotes b u
    → (lt3 a b ≡ Truth.true) ↔ ((t' u' : Datetime) → Denotes a t' → Denotes b u' → t' < u')
unfolding lt3
lt3-true_iff a b t u ha hb = elim (Bool-cases (definite a b)) [
  | inl e ↦ ((λ _ t' u' h k. definite_sound a b t' u' h k e), (λ _. rw e))
  | inr e ↦ (
    (λ h. absurd (definite-of_true a b e h)),
    (λ all. absurd (
        omega (
          arith,
          all (max t (early b.lo t u)) (early b.lo t u) (late-Denotes a b t u ha hb e)
              (early-Denotes a b t u ha hb),
        ))),
  )
]

pub lt3-true :
    (a b : Envelope) (t u : Datetime) → Denotes a t → Denotes b u → lt3 a b ≡ Truth.true → t < u
lt3-true a b t u ha hb h = (lt3-true_iff a b t u ha hb).0 h t u ha hb

-- `lt3` answers FALSE only when no instant of the first envelope lies below one of the second.
pub lt3-false :
    (a b : Envelope) (t u : Datetime) → lt3 a b ≡ Truth.false → Denotes a t → Denotes b u → u ≤ t
unfolding lt3
lt3-false a b t u h ha hb = impossible_sound a b t u ha hb (possible-of_false a b h)

-- `lt3` is transitive on the answer TRUE, for three envelopes that each denote some instant.
pub lt3_trans :
    (a b c : Envelope) (t u v : Datetime)
    → Denotes a t
    → Denotes b u
    → Denotes c v
    → lt3 a b ≡ Truth.true
    → lt3 b c ≡ Truth.true
    → lt3 a c ≡ Truth.true
lt3_trans a b c t u v ha hb hc p q = (lt3-true_iff a c t v ha hc).1 λ t' v' h k.
    omega (
      arith,
      (lt3-true_iff a b t u ha hb).0 p t' u h hb,
      (lt3-true_iff b c u v hb hc).0 q u v' hb k,
    )

-- A comparison of two instants is never UNKNOWN.
pub lt3-instants :
    (t u : Datetime)
    → lt3 (now_envelope t) (now_envelope u) ≡ (if ltb t u then Truth.true else Truth.false)
unfolding lt3 now_envelope
lt3-instants t u = ground arith

-- What an answer to `are these the same instant` claims of two instants.
abbrev pub SameInstant : Truth → Datetime → Datetime → Type 0
SameInstant Truth.true t u = t ≡ u
SameInstant Truth.false t u = t ≢ u
SameInstant Truth.unknown t u = Unit

-- Whatever instants two envelopes stand for, where `eq3` answers TRUE the instants are the same, and
-- where it answers FALSE they differ.
pub eq3_sound :
    (a b : Envelope) (t u : Datetime) → Denotes a t → Denotes b u → SameInstant (eq3 a b) t u
unfolding eq3
eq3_sound a b t u ha hb = ground (arith, lt3-true a b t u ha hb, lt3-true b a u t hb ha)

pub eq3_comm : (a b : Envelope) → eq3 a b ≡ eq3 b a
unfolding eq3
eq3_comm a b = ground (arith, option_beq_iff a.lo b.lo, option_beq_iff b.lo a.lo)
