-- ===== src/Extraction/Backlog.antt =====
-- `process_backlog` of src/joiny_mnemonic/extraction.py: the rounds of its loop, with what the extractor answers
-- or raises as an argument.
pub mod Settles
pub mod Counted
mod Tests
use joiny_mnemonic.Prelude.{
  ℕ, ◌+◌, String, Bool, true, false, some, List, [], ◌∷◌, if◌then◌else◌, Outcome, ok, raise, recast,
  ◌>>=◌,
}
use joiny_mnemonic.Store.{Event, Externals}
use joiny_mnemonic.Extraction.Queue.{
  Queue, ensure_extraction_run, start_extraction_attempt, finish_extraction_failure,
}
use joiny_mnemonic.Extraction.Queue.Pending.{RoundStamp, round_failure}
use joiny_mnemonic.Extraction.Commit.{
  ValidatedCandidate, Tables, CommitError, queue_error, Rejected, CandidateStamp, Commit, Words,
}
use joiny_mnemonic.Extraction.Commit.Steps.{commit_extraction_success}

-- The candidates of an answer, validated or rejected, and what their commit draws
pub record Answer : Type 0 where
  pub candidates : List (ValidatedCandidate × CandidateStamp)
  pub rejected : List Rejected
  pub raw_text : String
  pub attempt_id : String
  pub finished_at : String
  pub raw_id : String
  pub raw_created_at : String

-- What the extractor and `parse_candidates` do for an event: raise, with the code and the text of the
-- exception, or answer
pub data Extracted : Type 0 where
  failed : String → String → Extracted
  answered : Answer → Extracted

-- The configuration of a service, and the code and text of what a commit raises
pub record Service : Type 0 where
  pub config_hash : String
  pub max_retries : ℕ
  pub code_of : CommitError → String
  pub text_of : CommitError → String

-- The counters that `process_backlog` returns
pub record Counts : Type 0 where
  pub processed : ℕ
  pub succeeded : ℕ
  pub failures : ℕ

module _ (x : Externals) (std : Words) (service : Service) where
  abbrev pub commit_of : Event → String → ℕ → RoundStamp → Answer → Commit
  commit_of e run_id attempt_no stamp a = record {
    run_id = run_id;
    attempt_no = attempt_no;
    started_at = stamp.started_at;
    event = e;
    raw_text = a.raw_text;
    extractor_config_hash = service.config_hash;
    attempt_id = a.attempt_id;
    finished_at = a.finished_at;
    raw_id = a.raw_id;
    raw_created_at = a.raw_created_at;
  }

  -- The handler
  unfoldable pub handle :
      Tables → String → ℕ → RoundStamp → String → String → Outcome CommitError (Tables × Bool)
  handle t run_id attempt_no stamp code error = do
    q ← recast queue_error (
        finish_extraction_failure x t.queue
          (round_failure service.max_retries run_id attempt_no code error stamp))
    ok (record t { queue = q }, false)

  -- The `try` of a round: what the commit raises goes to the handler, its transaction rolled back.
  unfoldable pub attempt :
      Tables → Event → String → ℕ → RoundStamp → Extracted → Outcome CommitError (Tables × Bool)
  attempt t e run_id attempt_no stamp (failed code error) =
      handle t run_id attempt_no stamp code error
  attempt t e run_id attempt_no stamp (answered a) =
      elim (commit_extraction_success x std (commit_of e run_id attempt_no stamp a) t a.candidates
        a.rejected) [
          | ok done ↦ ok (done.0, true)
          | raise error ↦
              handle t run_id attempt_no stamp (service.code_of error) (service.text_of error)
        ]

  -- A round, and whether it succeeded
  unfoldable pub process_event :
      Tables → Event → RoundStamp → Extracted → Outcome CommitError (Tables × Bool)
  process_event t e stamp extracted = do
    (q₁, run_id) ←
        recast queue_error (ensure_extraction_run t.queue e.id service.config_hash stamp.run_id)
    (q₂, attempt_no) ←
        recast queue_error (start_extraction_attempt q₁ run_id stamp.start_id stamp.started_at)
    attempt (record t { queue = q₂ }) e run_id attempt_no stamp extracted

  abbrev pub count : Bool → Counts → Counts
  count true n = record {
    processed = n.processed + 1;
    succeeded = n.succeeded + 1;
    failures = n.failures;
  }
  count false n = record {
    processed = n.processed + 1;
    succeeded = n.succeeded;
    failures = n.failures + 1;
  }

  -- The loop of `process_backlog` over the events that are pending, each with what is drawn and extracted
  unfoldable pub process_backlog :
      Tables
      → Counts
      → List (Event × RoundStamp × Extracted)
      → Outcome CommitError (Tables × Counts)
  process_backlog t n [] = ok (t, n)
  process_backlog t n ((e, stamp, extracted) ∷ rest) = do
    (t₁, succeeded) ← process_event t e stamp extracted
    process_backlog t₁ (count succeeded n) rest
