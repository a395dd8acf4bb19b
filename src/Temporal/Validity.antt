-- ===== src/Temporal/Validity.antt =====
-- What `validity_status`, `overlaps` and `effective_end` of temporal.py say of the instants.
use joiny_mnemonic.Prelude.{◌≤◌, ◌<◌, true, false, some, ◌≡◌, arith, if◌then◌else◌, ltb}
use joiny_mnemonic.Temporal.Kleene.{Truth, and3, truth_eq}
use joiny_mnemonic.Temporal.Envelopes.{
  Datetime, Envelope, known, unknown_envelope, lt3, le3, now_envelope,
}
use joiny_mnemonic.Temporal.Intervals.{
  Interval, contains, overlaps, ValidityStatus, current, current_open, expired, not_yet_valid,
  validity_status, effective_end,
}
use joiny_mnemonic.Temporal.Denote.{Denotes, lt3-true, lt3-false, lt3-instants}

-- What a status claims of the start, the end and the present, each a denoted instant.
abbrev pub Claims : ValidityStatus → Interval → Datetime → Datetime → Datetime → Type 0
Claims current i s e n = (s ≤ n) × (n < e)
Claims current_open i s e n = (s ≤ n) × (known i.end ≡ false)
Claims expired i s e n = (e ≤ n) × (known i.end ≡ true)
Claims not_yet_valid i s e n = n < s
Claims ValidityStatus.unknown i s e n = Unit

module _ (a b : Envelope) (t u : Datetime) (ha : Denotes a t) (hb : Denotes b u) where
  pub le3-true : le3 a b ≡ Truth.true → t ≤ u
  unfolding le3
  le3-true h = ground (arith, lt3-false b a u t (ground arith) hb ha)

-- Whatever instants the start, the end and the present stand for: `current` is answered only with
-- the present from the start on and before the end, `expired` only from the end on, of an end that
-- is known, `not_yet_valid` only before the start, and `current_open` only from the start on, of an
-- end that is not known.
pub validity_status_sound :
    (i : Interval) (now : Envelope) (s e n : Datetime)
    → Denotes i.start s
    → Denotes i.end e
    → Denotes now n
    → Claims (validity_status i now) i s e n
unfolding validity_status contains and3
validity_status_sound i now s e n hs he hn = ground (
  arith,
  le3-true i.start now s n hs hn,
  le3-true i.end now e n he hn,
  lt3-true now i.end n e hn he,
  lt3-true now i.start n s hn hs,
)

-- For an interval between two known instants, the start before the end, and a known present, the
-- status is exact: not yet valid before the start, current before the end, expired from then on.
pub validity_status-instants :
    (s e n : Datetime)
    → s < e
    → validity_status (record { start = now_envelope s; end = now_envelope e }) (now_envelope n)
      ≡ (if ltb n s then not_yet_valid else if ltb n e then current else expired)
unfolding validity_status contains and3 le3 now_envelope known
validity_status-instants s e n h = ground (arith, lt3-instants n s, lt3-instants n e)

-- An interval from a known instant with an unknown end is not yet valid before it and open from it
-- on: it never expires.
pub validity_status-open :
    (s n : Datetime)
    → validity_status (record { start = now_envelope s; end = unknown_envelope }) (now_envelope n)
      ≡ (if ltb n s then not_yet_valid else current_open)
unfolding validity_status contains and3 le3 lt3 now_envelope known
validity_status-open s n = ground arith

pub overlaps_comm : (a b : Interval) → overlaps a b ≡ overlaps b a
unfolding overlaps and3
overlaps_comm a b = ground arith

-- A successor that starts at `v`, after the start `s` of a row with an unknown end, closes it: the
-- row is not yet valid before `s`, current before `v` and expired from `v` on.
pub effective_end_expires :
    (s v n : Datetime)
    → s < v
    → validity_status
        (record {
          start = now_envelope s;
          end =
              effective_end
                (record { start = now_envelope s; end = unknown_envelope })
                (some (now_envelope v));
        })
        (now_envelope n)
      ≡ (if ltb n s then not_yet_valid else if ltb n v then current else expired)
unfolding effective_end known now_envelope
effective_end_expires s v n h = unfold now_envelope in validity_status-instants s v n h
