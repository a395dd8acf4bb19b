-- ===== src/Extraction/Queue.antt =====
-- The queue of extraction runs and attempts in src/joiny_mnemonic/storage.py.
pub mod Pending
pub mod Attempts
pub mod Drained
pub mod Settled
mod Tests
use joiny_mnemonic.Prelude.{
  ℕ, zero, suc, ◌+◌, max, String, Bool, true, false, not, ◌&&◌, ◌||◌, Option, none, some, List, [],
  ◌∷◌, ◌++◌, reverse, if◌then◌else◌, ◌==◌, string_eq, nat_eq, option_eq, ltb, elem, any, keep,
  Outcome, ok, raise, raise_if, ◌>>=◌, ◌>>◌,
}
use joiny_mnemonic.Json.{Dict, obj}
use joiny_mnemonic.Store.{Event, Store, Externals}
use joiny_mnemonic.Store.Append.{json_text}
use joiny_mnemonic.Store.Ingest.{find_event}
use joiny_mnemonic.Memory.Derive.{prefix}

-- A row of `extractor_configs`, with the text of its descriptor
pub record Config : Type 0 where
  pub config_hash : String
  pub descriptor_json : String

-- A row of `extraction_runs`
pub record Run : Type 0 where
  pub id : String
  pub event_id : String
  pub config_hash : String

-- A row of `extraction_attempt_starts`
pub record AttemptStart : Type 0 where
  pub id : String
  pub run_id : String
  pub attempt_no : ℕ
  pub started_at : String

-- A row of `extraction_attempts`
pub record Attempt : Type 0 where
  pub id : String
  pub run_id : String
  pub attempt_no : ℕ
  pub outcome : String
  pub started_at : String
  pub finished_at : String
  pub error_code : Option String
  pub redacted_error : Option String
  pub raw_response_ref : Option String

-- The tables of the queue, each with the newest row first
pub record Queue : Type 0 where
  pub store : Store
  pub configs : List Config
  pub runs : List Run
  pub starts : List AttemptStart
  pub attempts : List Attempt

pub data QueueError : Type 0 where
  empty_config_hash config_collision unknown_event unknown_seq unknown_run : QueueError
  invalid_outcome integrity_error : QueueError

unfoldable pub find_config : String → List Config → Option Config
find_config hash [] = none
find_config hash (c ∷ cs) = if c.config_hash == hash then some c else find_config hash cs

-- `register_extractor_config`
unfoldable pub register_extractor_config :
    Externals → Queue → String → Dict → Outcome QueueError Queue
register_extractor_config x q hash descriptor =
    let encoded = json_text x (obj descriptor) in
    if hash == "" then raise empty_config_hash else elim (find_config hash q.configs) [
      | none ↦ ok (record q {
        configs = record { config_hash = hash; descriptor_json = encoded } ∷ q.configs;
      })
      | some c ↦ if c.descriptor_json == encoded then ok q else raise config_collision
    ]

-- `SELECT … FROM extraction_runs WHERE event_id=? AND extractor_config_hash=?`
unfoldable pub find_run : String → String → List Run → Option Run
find_run event_id hash [] = none
find_run event_id hash (r ∷ rs) =
    if r.event_id == event_id && r.config_hash == hash then some r else find_run event_id hash rs

abbrev pub has_run : String → List Run → Bool
has_run id rs = any (λ r. r.id == id) rs

-- `ensure_extraction_run`, with the identifier that the code draws
unfoldable pub ensure_extraction_run :
    Queue → String → String → String → Outcome QueueError (Queue × String)
ensure_extraction_run q event_id hash id = elim (find_run event_id hash q.runs) [
  | some r ↦ ok (q, r.id)
  | none ↦ elim (find_event event_id q.store.events) [
    | none ↦ raise unknown_event
    | some e ↦ elim (find_config hash q.configs) [
      | none ↦ raise integrity_error
      | some c ↦
          if has_run id q.runs
          then raise integrity_error
          else ok (
            record q {
              runs = record { id = id; event_id = event_id; config_hash = hash } ∷ q.runs;
            },
            id,
          )
    ]
  ]
]

-- `COALESCE(MAX(attempt_no), 0)` of a run
unfoldable pub last_start : String → List AttemptStart → ℕ
last_start run_id [] = 0
last_start run_id (s ∷ ss) =
    if s.run_id == run_id then max s.attempt_no (last_start run_id ss) else last_start run_id ss

-- `start_extraction_attempt`
unfoldable pub start_extraction_attempt :
    Queue → String → String → String → Outcome QueueError (Queue × ℕ)
start_extraction_attempt q run_id id started_at =
    let attempt_no = last_start run_id q.starts + 1 in
    if not (has_run run_id q.runs)
    then raise unknown_run
    else if any (λ s. s.id == id) q.starts
    then raise integrity_error
    else ok (
      record q {
        starts =
            record { id = id; run_id = run_id; attempt_no = attempt_no; started_at = started_at }
            ∷ q.starts;
      },
      attempt_no,
    )

-- The keys of `extraction_attempts`, and its foreign key
abbrev pub is_refused : Queue → Attempt → Bool
is_refused q a =
    any (λ b. b.id == a.id || b.run_id == a.run_id && b.attempt_no == a.attempt_no) q.attempts
    || not (has_run a.run_id q.runs)

-- `INSERT INTO extraction_attempts`
unfoldable pub insert_attempt : Queue → Attempt → Outcome QueueError Queue
insert_attempt q a =
    if is_refused q a then raise integrity_error else ok (record q { attempts = a ∷ q.attempts })

-- The arguments of `finish_extraction_failure`, with the identifier and the time that the code draws
pub record Failure : Type 0 where
  pub id : String
  pub run_id : String
  pub attempt_no : ℕ
  pub started_at : String
  pub outcome : String
  pub error_code : String
  pub redacted_error : String
  pub finished_at : String

abbrev pub failures : List String
failures = "retryable_failure" ∷ "terminal_failure" ∷ []

abbrev pub failed_attempt : Externals → Failure → Attempt
failed_attempt x f = record {
  id = f.id;
  run_id = f.run_id;
  attempt_no = f.attempt_no;
  outcome = f.outcome;
  started_at = f.started_at;
  finished_at = f.finished_at;
  error_code = some f.error_code;
  redacted_error = some (prefix 2000 (x.redact_text f.redacted_error).0);
  raw_response_ref = none;
}

unfoldable pub finish_extraction_failure : Externals → Queue → Failure → Outcome QueueError Queue
finish_extraction_failure x q f =
    if elem f.outcome failures then insert_attempt q (failed_attempt x f) else raise invalid_outcome
