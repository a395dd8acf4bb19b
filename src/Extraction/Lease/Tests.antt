-- ===== src/Extraction/Lease/Tests.antt =====
-- Two workers and a signal that comes during the round of one.
use joiny_mnemonic.Prelude.{
  false, none, some, List, [], ◌∷◌, nat_eq, string_eq, ◌≡◌, refl, ne_of_beq, arith,
}
use joiny_mnemonic.Extraction.Lease.{
  Wakeup, find_wakeup, update_wakeup, signal_extraction_worker, claim_extraction_worker,
  complete_extraction_worker_cycle,
}
use joiny_mnemonic.Extraction.Lease.Held.{Holds, Meanwhile, start, signalled, claimed}
use joiny_mnemonic.Extraction.Lease.Rounds.{
  claim_extraction_worker-exclusive, claim_extraction_worker-expired,
  complete_extraction_worker_cycle-signals,
}

abbrev signalled_once : List Wakeup
signalled_once =
    record { config_hash = "cfg"; generation = 1; owner = none; lease_until = none } ∷ []

abbrev taken : List Wakeup
taken =
    record { config_hash = "cfg"; generation = 1; owner = some "a"; lease_until = some 3600 } ∷ []

granted : claim_extraction_worker signalled_once "cfg" "a" 0 3600 ≡ (taken, some 1)
unfolding claim_extraction_worker find_wakeup update_wakeup
granted = refl

-- A signal, and a claim of another worker
abbrev busy : List Wakeup
busy = (claim_extraction_worker (signal_extraction_worker taken "cfg").0 "cfg" "b" 10 3600).0

others : Meanwhile "cfg" "a" 3600 taken 1 busy
others =
    claimed "cfg" "b" 10 3600 (signalled "cfg" start refl) (ne_of_beq "b" "a" refl) (omega arith)

claim_extraction_worker-exclusive_example :
    claim_extraction_worker busy "cfg" "b" 20 3600 ≡ (busy, none)
claim_extraction_worker-exclusive_example =
    claim_extraction_worker-exclusive "cfg" "a" 0 3600 1 signalled_once taken granted 1 busy others
      "b" 20 3600 (ne_of_beq "b" "a" refl) (omega arith)

claim_extraction_worker-expired_example :
    (claim_extraction_worker busy "cfg" "b" 3600 3600).1 ≡ some 2
claim_extraction_worker-expired_example =
    claim_extraction_worker-expired "cfg" "a" 0 3600 1 signalled_once taken granted 1 busy others
      "b" 3600 3600 (omega arith)

complete_extraction_worker_cycle-signals_example :
    (after : List Wakeup) × (complete_extraction_worker_cycle busy "cfg" "a" 1 30 3600
      ≡ (after, false, 2))
    × Holds "cfg" "a" 3630 2 after
complete_extraction_worker_cycle-signals_example =
    complete_extraction_worker_cycle-signals "cfg" "a" 0 3600 1 signalled_once taken granted 1 busy
      others 30 3600
