-- ===== src/Extraction/Queue/Pending.antt =====
-- The events that wait for extraction in src/joiny_mnemonic/storage.py, and the failing round of
-- `process_backlog` in src/joiny_mnemonic/extraction.py.
use joiny_mnemonic.Prelude.{
  ℕ, zero, suc, String, Bool, true, not, ◌&&◌, ◌||◌, Option, none, some, List, [], ◌∷◌, reverse,
  if◌then◌else◌, ◌==◌, string_eq, nat_eq, option_eq, ltb, elem, any, keep, Outcome, ok, raise,
  ◌>>=◌,
}
use joiny_mnemonic.Store.{Event, Externals}
use joiny_mnemonic.Extraction.Queue.{
  Attempt, Failure, Queue, QueueError, Run, ensure_extraction_run, failures, find_run,
  finish_extraction_failure, start_extraction_attempt, unknown_seq,
}

-- The attempt of a run with the largest number
unfoldable pub latest_attempt : String → List Attempt → Option Attempt
latest_attempt run_id [] = none
latest_attempt run_id (a ∷ rest) =
    if a.run_id == run_id then newest (latest_attempt run_id rest) else latest_attempt run_id rest
  where
    newest : Option Attempt → Option Attempt
    newest none = some a
    newest (some b) = if ltb b.attempt_no a.attempt_no then some a else some b

abbrev pub has_succeeded : String → List Attempt → Bool
has_succeeded run_id attempts = any (λ a. a.run_id == run_id && a.outcome == "succeeded") attempts

-- The test of the latest attempt in `pending_extraction_events`
abbrev pub is_retried : Bool → ℕ → Option Attempt → Bool
is_retried retry_failed max_retries none = true
is_retried retry_failed max_retries (some a) =
    a.outcome == "retryable_failure" && ltb a.attempt_no max_retries
    || retry_failed && elem a.outcome failures

abbrev pub is_run_pending : Queue → Bool → ℕ → Option Run → Bool
is_run_pending q retry_failed max_retries none = true
is_run_pending q retry_failed max_retries (some r) =
    not (has_succeeded r.id q.attempts)
    && is_retried retry_failed max_retries (latest_attempt r.id q.attempts)

-- The events that extraction reads
abbrev pub is_conversation : Event → Bool
is_conversation e = e.kind == "message" && (e.role == some "user" || e.role == some "assistant")

-- Whether `pending_extraction_events` selects an event
unfoldable pub is_pending : Queue → String → Bool → ℕ → Event → Bool
is_pending q hash retry_failed max_retries e =
    is_conversation e && is_run_pending q retry_failed max_retries (find_run e.id hash q.runs)

abbrev pub take {ℓ} : {A : Type ℓ} → ℕ → List A → List A
take zero xs = []
take (suc n) [] = []
take (suc n) (x ∷ xs) = x ∷ take n xs

-- `rows[:limit]`, where a limit is given
abbrev pub limited {ℓ} : {A : Type ℓ} → Option ℕ → List A → List A
limited none rows = rows
limited (some n) rows = take n rows

-- `pending_extraction_events`
unfoldable pub pending_extraction_events : Queue → String → Option ℕ → Bool → ℕ → List Event
pending_extraction_events q hash limit retry_failed max_retries =
    limited limit (keep (is_pending q hash retry_failed max_retries) q.store.events)

-- What one round of the loop of `process_backlog` draws
pub record RoundStamp : Type 0 where
  pub run_id : String
  pub start_id : String
  pub started_at : String
  pub attempt_id : String
  pub finished_at : String

-- The failure that the handler of `process_backlog` writes
abbrev pub round_failure : ℕ → String → ℕ → String → String → RoundStamp → Failure
round_failure max_retries run_id attempt_no error_code error stamp = record {
  id = stamp.attempt_id;
  run_id = run_id;
  attempt_no = attempt_no;
  started_at = stamp.started_at;
  outcome = if ltb attempt_no max_retries then "retryable_failure" else "terminal_failure";
  error_code = error_code;
  redacted_error = error;
  finished_at = stamp.finished_at;
}

-- One round of the loop of `process_backlog` for an event on which the extractor, or the check of what
-- it answers, raises
unfoldable pub fail_round :
    Externals
    → Queue
    → String
    → ℕ
    → Event
    → String
    → String
    → RoundStamp
    → Outcome QueueError (Queue × ℕ)
fail_round x q hash max_retries e error_code error stamp = do
  (q₁, run_id) ← ensure_extraction_run q e.id hash stamp.run_id
  (q₂, attempt_no) ← start_extraction_attempt q₁ run_id stamp.start_id stamp.started_at
  q₃ ←
      finish_extraction_failure x q₂
        (round_failure max_retries run_id attempt_no error_code error stamp)
  ok (q₃, attempt_no)

-- The loop of `preceding_canonical_events`: the last messages before a place, in its branch
unfoldable pub preceding : ℕ → String → ℕ → List Event → List Event
preceding seq branch limit events = reverse (
    take limit
      (reverse (keep (λ e. ltb e.seq seq && (e.branch_id == branch && is_conversation e)) events)))

unfoldable pub event_at : ℕ → List Event → Option Event
event_at seq [] = none
event_at seq (e ∷ es) = if e.seq == seq then some e else event_at seq es

-- `preceding_canonical_events`
unfoldable pub preceding_canonical_events : Queue → ℕ → ℕ → Outcome QueueError (List Event)
unfolding preceding
preceding_canonical_events q seq limit =
    if ltb limit 1 then ok [] else elim (event_at seq q.store.events) [
      | none ↦ raise unknown_seq
      | some current ↦ ok (preceding seq current.branch_id limit q.store.events)
    ]
