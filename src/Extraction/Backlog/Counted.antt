-- ===== src/Extraction/Backlog/Counted.antt =====
-- The counters of `process_backlog` in src/joiny_mnemonic/extraction.py.
use joiny_mnemonic.Prelude.{
  suc, ◌+◌, Bool, true, false, List, [], ◌∷◌, length, ok, >>=-eq-ok, ◌≡◌, arith,
}
use joiny_mnemonic.Store.{Event, Externals}
use joiny_mnemonic.Extraction.Queue.Pending.{RoundStamp}
use joiny_mnemonic.Extraction.Commit.{Tables, Words}
use joiny_mnemonic.Extraction.Backlog.{
  Extracted, Service, Counts, count, process_event, process_backlog,
}

-- Every event is counted once, and as a success or as a failure.
pub process_backlog-counts :
    (x : Externals) (std : Words) (service : Service) (t t' : Tables) (n n' : Counts)
    (rounds : List (Event × RoundStamp × Extracted))
    → process_backlog x std service t n rounds ≡ ok (t', n')
    → (n'.processed ≡ n.processed + length rounds)
      × (n'.succeeded + n'.failures ≡ n.succeeded + n.failures + length rounds)
unfolding process_backlog
process_backlog-counts x std service t t' n n' [] h =
    let same : n ≡ n' = cc h in (rw (← same) (omega arith), rw (← same) (omega arith))
process_backlog-counts x std service t t' n n' ((e, stamp, extracted) ∷ rest) h =
    let (got, _, more) = >>=-eq-ok (process_event x std service t e stamp extracted) _ h in
    let (all, parts) =
      process_backlog-counts x std service got.0 t' (count x std service got.1 n) n' rest more in
    counted got.1 all parts
  where
    counted :
        (b : Bool)
        → (n'.processed ≡ (count x std service b n).processed + length rest)
        → (n'.succeeded + n'.failures
            ≡ (count x std service b n).succeeded
              + (count x std service b n).failures
              + length rest)
        → (n'.processed ≡ n.processed + suc (length rest))
          × (n'.succeeded + n'.failures ≡ n.succeeded + n.failures + suc (length rest))
    counted true all parts = (omega arith, omega arith)
    counted false all parts = (omega arith, omega arith)
