-- ===== src/Temporal/Envelopes.antt =====
-- `Envelope` of temporal.py and the three-valued comparisons of envelopes.
use joiny_mnemonic.Prelude.{
  ℕ, Bool, true, false, not, ◌&&◌, ◌||◌, Option, none, some, if◌then◌else◌, ltb, ◌==◌, nat_eq,
  option_eq,
}
use joiny_mnemonic.Temporal.Kleene.{Truth, not3, truth_eq}

abbrev pub Datetime : Type 0
Datetime = ℕ

pub record Envelope : Type 0 where
  pub lo : Option Datetime
  pub hi : Option Datetime
  pub singleton : Bool

abbrev pub is_some {ℓ} : {A : Type ℓ} → Option A → Bool
is_some none = false
is_some (some x) = true

unfoldable pub known : Envelope → Bool
known e = e.singleton || (is_some e.lo || is_some e.hi)

abbrev pub unknown_envelope : Envelope
unknown_envelope = record { lo = none; hi = none; singleton = false }

-- What an absent bound stands for; the source writes -1 and 1.
pub data Infinity : Type 0 where
  minus plus : Infinity

abbrev is_minus : Infinity → Bool
is_minus minus = true
is_minus plus = false

-- `_lt`
unfoldable pub lt : Option Datetime → Option Datetime → Infinity → Infinity → Bool
lt none none minus plus = true
lt none none minus minus = false
lt none none plus _ = false
lt none (some b) a_infinite b_infinite = is_minus a_infinite
lt (some a) none a_infinite b_infinite = not (is_minus b_infinite)
lt (some a) (some b) a_infinite b_infinite = ltb a b

-- `_le`
unfoldable pub le : Option Datetime → Option Datetime → Infinity → Infinity → Bool
unfolding lt
le a b a_infinite b_infinite = not (lt b a b_infinite a_infinite)

-- Every instant of `a` lies below every instant of `b`.
unfoldable pub definite : Envelope → Envelope → Bool
unfolding lt le
definite a b =
    if a.singleton && b.singleton
    then lt a.lo b.lo minus plus
    else if a.singleton
    then lt a.lo b.lo minus minus
    else if b.singleton
    then le a.hi b.lo plus minus
    else le a.hi b.lo plus minus

-- Some instant of `a` lies below some instant of `b`.
unfoldable pub possible : Envelope → Envelope → Bool
unfolding lt
possible a b =
    if a.singleton && b.singleton
    then lt a.lo b.lo minus plus
    else if a.singleton
    then lt a.lo b.hi minus plus
    else if b.singleton
    then lt a.lo b.lo minus plus
    else lt a.lo b.hi minus plus

unfoldable pub lt3 : Envelope → Envelope → Truth
unfolding definite possible
lt3 a b = if definite a b then Truth.true else if possible a b then Truth.unknown else Truth.false

unfoldable pub le3 : Envelope → Envelope → Truth
unfolding not3
le3 a b = not3 (lt3 b a)

unfoldable pub eq3 : Envelope → Envelope → Truth
eq3 a b =
    if a.singleton && b.singleton
    then (if a.lo == b.lo then Truth.true else Truth.false)
    else if lt3 a b == Truth.true || lt3 b a == Truth.true
    then Truth.false
    else Truth.unknown

-- `now_envelope`, for an aware datetime
unfoldable pub now_envelope : Datetime → Envelope
now_envelope now = record { lo = some now; hi = some now; singleton = true }
