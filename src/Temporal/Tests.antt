-- ===== src/Temporal/Tests.antt =====
-- The theorems of Temporal on intervals of a few instants.
use joiny_mnemonic.Prelude.{ℕ, ◌<◌, false, some, ◌≡◌, refl, ◌↔◌, arith}
use joiny_mnemonic.Temporal.Kleene.{Truth}
use joiny_mnemonic.Temporal.Envelopes.{Datetime, Envelope, lt3, definite, lt, le}
use joiny_mnemonic.Temporal.Intervals.{Interval, validity_status}
use joiny_mnemonic.Temporal.Denote.{Denotes, lt3-true_iff}
use joiny_mnemonic.Temporal.Validity.{Claims, validity_status_sound}

abbrev range : ℕ → ℕ → Envelope
range a b = record { lo = some a; hi = some b; singleton = false }

range-Denotes : Denotes (range 10 20) 15
range-Denotes = (omega arith, omega arith)

later-Denotes : Denotes (range 30 40) 35
later-Denotes = (omega arith, omega arith)

last-Denotes : Denotes (range 50 60) 55
last-Denotes = (omega arith, omega arith)

below : lt3 (range 10 20) (range 30 40) ≡ Truth.true
unfolding lt3 definite lt le
below = refl

above : lt3 (range 30 40) (range 50 60) ≡ Truth.true
unfolding lt3 definite lt le
above = refl

lt3-true_iff_example :
    (lt3 (range 10 20) (range 30 40) ≡ Truth.true)
    ↔ ((t' u' : Datetime) → Denotes (range 10 20) t' → Denotes (range 30 40) u' → t' < u')
lt3-true_iff_example = lt3-true_iff (range 10 20) (range 30 40) 15 35 range-Denotes later-Denotes

abbrev decade : Interval
decade = record { start = range 10 20; end = range 50 60 }

validity_status_sound_example : Claims (validity_status decade (range 30 40)) decade 15 55 35
validity_status_sound_example =
    validity_status_sound decade (range 30 40) 15 55 35 range-Denotes last-Denotes later-Denotes
