-- ===== src/Temporal/Intervals.antt =====
-- `Interval` of temporal.py, its relations, `validity_status` and `effective_end`.
use joiny_mnemonic.Prelude.{not, ◌&&◌, Option, none, some, [], ◌∷◌, if◌then◌else◌, ◌==◌}
use joiny_mnemonic.Temporal.Kleene.{Truth, and3, truth_eq}
use joiny_mnemonic.Temporal.Envelopes.{Envelope, known, lt3, le3, eq3}

pub record Interval : Type 0 where
  pub start : Envelope
  pub end : Envelope

unfoldable pub contains : Interval → Envelope → Truth
contains interval point = and3 (le3 interval.start point ∷ lt3 point interval.end ∷ [])

unfoldable pub overlaps : Interval → Interval → Truth
overlaps a b = and3 (lt3 a.start b.end ∷ lt3 b.start a.end ∷ [])

unfoldable pub equals : Interval → Interval → Truth
equals a b = and3 (eq3 a.start b.start ∷ eq3 a.end b.end ∷ [])

unfoldable pub precedes : Interval → Interval → Truth
precedes a b = le3 a.end b.start

unfoldable pub succeeds : Interval → Interval → Truth
unfolding precedes
succeeds a b = precedes b a

unfoldable pub meets : Interval → Interval → Truth
meets a b = eq3 a.end b.start

pub data ValidityStatus : Type 0 where
  current current_open expired not_yet_valid unknown : ValidityStatus

unfoldable pub validity_status : Interval → Envelope → ValidityStatus
validity_status interval now =
    if contains interval now == Truth.true
    then current
    else if lt3 now interval.start == Truth.true
    then not_yet_valid
    else if known interval.end && le3 interval.end now == Truth.true
    then expired
    else if not (known interval.end) && le3 interval.start now == Truth.true
    then current_open
    else ValidityStatus.unknown

unfoldable pub effective_end : Interval → Option Envelope → Envelope
effective_end interval none = interval.end
effective_end interval (some successor_start) =
    if not (known successor_start)
    then interval.end
    else if known interval.end
    then interval.end
    else successor_start

unfoldable pub possible_conflict : Interval → Interval → Truth
unfolding overlaps
possible_conflict a b = overlaps a b
