-- ===== src/Temporal/Kleene.antt =====
-- `Truth`, `and3`, `or3` and `not3` of temporal.py.
pub mod Laws
use joiny_mnemonic.Prelude.{Bool, List, any, if◌then◌else◌, Eq, ◌==◌, ◌≡◌, ◌↔◌, arith}

pub data Truth : Type 0 where
  true false unknown : Truth

-- `value is Truth.TRUE`, and so on
abbrev pub truth_beq : Truth → Truth → Bool
truth_beq Truth.true Truth.true = Bool.true
truth_beq Truth.false Truth.false = Bool.true
truth_beq Truth.unknown Truth.unknown = Bool.true
truth_beq _ _ = Bool.false

pub truth_beq_iff : (a b : Truth) → (truth_beq a b ≡ Bool.true) ↔ (a ≡ b)
truth_beq_iff Truth.true b = ground arith
truth_beq_iff Truth.false b = ground arith
truth_beq_iff Truth.unknown b = ground arith

instance abbrev pub truth_eq : Eq Truth
truth_eq = record { beq = truth_beq; beq_iff = truth_beq_iff }

unfoldable pub and3 : List Truth → Truth
and3 values =
    if any (λ value. value == Truth.false) values
    then Truth.false
    else if any (λ value. value == Truth.unknown) values
    then Truth.unknown
    else Truth.true

unfoldable pub or3 : List Truth → Truth
or3 values =
    if any (λ value. value == Truth.true) values
    then Truth.true
    else if any (λ value. value == Truth.unknown) values
    then Truth.unknown
    else Truth.false

unfoldable pub not3 : Truth → Truth
not3 value =
    if value == Truth.true
    then Truth.false
    else if value == Truth.false
    then Truth.true
    else Truth.unknown
