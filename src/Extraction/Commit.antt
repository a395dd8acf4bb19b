-- ===== src/Extraction/Commit.antt =====
-- `commit_extraction_success` of src/joiny_mnemonic/storage.py: the candidates of an attempt that succeeded,
-- and the memories that they derive or support. What one call draws stands beside what it is drawn for.
pub mod Steps
pub mod Rounds
pub mod Kept
pub mod Linked
pub mod Agreed
pub mod Tests
use Prim.Native.String.{◌++◌ as text_append}
use joiny_mnemonic.Prelude.{
  ℕ, ◌+◌, String, Bool, true, false, not, ◌&&◌, ◌||◌, Option, none, some, List, [], ◌∷◌, ◌++◌, map,
  if◌then◌else◌, ◌==◌, string_eq, nat_eq, ltb, any, keep, length, sort_by, Outcome, ok, raise,
  raise_if, recast, ◌>>=◌, ◌>>◌,
}
use joiny_mnemonic.Json.{Json, Dict, empty, item, str, num, arr, obj, str_items}
use joiny_mnemonic.Provenance.{internal}
use joiny_mnemonic.Store.{Event, Store, StoreError, Externals}
use joiny_mnemonic.Store.Append.{NewEvent, Stamp, append_event_in_tx, json_text}
use joiny_mnemonic.Ledgers.{CandidateTransition, event_origin_evidence}
use joiny_mnemonic.Ledgers.Sources.{distinct}
use joiny_mnemonic.Memory.{Memory, by_created_at}
use joiny_mnemonic.Memory.Derive.{prefix}
use joiny_mnemonic.Extraction.Queue.{
  Run, Attempt, Queue, QueueError, insert_attempt, Attempt, find_run,
}

-- The extractor's answer for one candidate
pub record ProposedCandidate : Type 0 where
  pub memory_type : String
  pub normalized_content : String
  pub evidence_quote : String
  pub confidence : String

-- A candidate with what `validate_candidate` decided
pub record ValidatedCandidate : Type 0 where
  pub proposed : ProposedCandidate
  pub evidence_start : ℕ
  pub evidence_end : ℕ
  pub evidence_zone : String
  pub initial_status : String
  pub rule_id : String

-- A row of `extraction_candidates`; the columns that the call leaves empty are left out.
pub record CandidateRow : Type 0 where
  pub id : String
  pub run_id : String
  pub attempt_id : String
  pub proposed : ProposedCandidate
  pub evidence_start : ℕ
  pub evidence_end : ℕ
  pub evidence_zone : String
  pub created_at : String

-- A row of `extraction_raw_responses`, with the payload before its compression
pub record RawResponse : Type 0 where
  pub id : String
  pub attempt_id : String
  pub payload : String
  pub created_at : String

-- A row of `extraction_rejections`
pub record Rejection : Type 0 where
  pub id : String
  pub run_id : String
  pub attempt_id : String
  pub candidate_json : String
  pub error_code : String
  pub redacted_error : String
  pub created_at : String

-- A row of `candidate_memory_links`
pub record MemoryLink : Type 0 where
  pub id : String
  pub candidate_id : String
  pub memory_id : String
  pub relation : String
  pub source_event_id : String
  pub created_at : String

-- The tables that a commit writes: the memories in the order of insertion, the others newest first
pub record Tables : Type 0 where
  pub queue : Queue
  pub raw_responses : List RawResponse
  pub rejections : List Rejection
  pub candidates : List CandidateRow
  pub transitions : List CandidateTransition
  pub memories : List Memory
  pub links : List MemoryLink

pub data CommitError : Type 0 where
  queue_error : QueueError → CommitError
  store_error : StoreError → CommitError
  run_mismatch integrity_error : CommitError

-- A candidate that was rejected, with what is drawn for its row
pub record Rejected : Type 0 where
  pub candidate : Json
  pub error_code : String
  pub redacted_error : String
  pub id : String
  pub created_at : String

-- What is drawn for a candidate
pub record CandidateStamp : Type 0 where
  pub candidate_id : String
  pub created_at : String
  pub transition_id : String
  pub memory_id : String
  pub event : Stamp
  pub link_id : String

-- The arguments of a commit beside its candidates and rejections; `raw_text` is the text of the redacted
-- answer.
pub record Commit : Type 0 where
  pub run_id : String
  pub attempt_no : ℕ
  pub started_at : String
  pub event : Event
  pub raw_text : String
  pub extractor_config_hash : String
  pub attempt_id : String
  pub finished_at : String
  pub raw_id : String
  pub raw_created_at : String

-- The standard `str.split` of a text without blanks at its ends, and `str.casefold`
pub record Words : Type 0 where
  pub split : String → List String
  pub casefold : String → String

abbrev pub join_words : List String → String
join_words [] = ""
join_words (w ∷ []) = w
join_words (w ∷ v ∷ ws) = text_append w (text_append " " (join_words (v ∷ ws)))

-- `_normalized_key`
unfoldable pub normalized_key : Words → String → String
normalized_key std value = std.casefold (join_words (std.split value))

-- The `key` of a candidate: its type and its place
unfoldable pub same_place : ValidatedCandidate → ValidatedCandidate → Bool
same_place v w =
    v.proposed.memory_type == w.proposed.memory_type
    && (v.evidence_start == w.evidence_start && v.evidence_end == w.evidence_end)

-- `interpretations[key]`, the set of the keys of the candidates at one place
unfoldable pub interpretations : Words → List ValidatedCandidate → ValidatedCandidate → List String
interpretations std all v =
    distinct
      (map (λ w. normalized_key std w.proposed.normalized_content) (keep (λ w. same_place v w) all))

-- `candidate_key in conflicts`
unfoldable pub is_conflict : Words → List ValidatedCandidate → ValidatedCandidate → Bool
is_conflict std all v = ltb 1 (length (interpretations std all v))

-- The memory of `_existing_auto_memory_locked`: the first of those that match
unfoldable pub first_match : Words → String → List Memory → Option Memory
first_match std key [] = none
first_match std key (m ∷ ms) =
    if normalized_key std m.content == key then some m else first_match std key ms

unfoldable pub existing_auto_memory : Words → List Memory → String → String → Option Memory
existing_auto_memory std rows memory_type normalized =
    first_match std (normalized_key std normalized)
      (sort_by by_created_at (keep (λ m. m.memory_type == memory_type) rows))

-- `INSERT INTO extraction_raw_responses`
unfoldable pub insert_raw : Tables → RawResponse → Outcome CommitError Tables
insert_raw t r = do
  raise_if (any (λ old. old.id == r.id || old.attempt_id == r.attempt_id) t.raw_responses)
      integrity_error
  ok (record t { raw_responses = r ∷ t.raw_responses })

-- `INSERT INTO candidate_transitions`, with its foreign key of the event
unfoldable pub insert_transition : Tables → CandidateTransition → Outcome CommitError Tables
insert_transition t r = do
  raise_if (any (λ old. old.id == r.id) t.transitions) integrity_error
  raise_if (not (any (λ e. e.id == r.source_event_id) t.queue.store.events)) integrity_error
  ok (record t { transitions = r ∷ t.transitions })

-- The keys of `candidate_memory_links`
abbrev pub same_link : MemoryLink → MemoryLink → Bool
same_link l old =
    old.id == l.id
    || (old.candidate_id == l.candidate_id && old.memory_id == l.memory_id)
      && (old.relation == l.relation && old.source_event_id == l.source_event_id)

-- `INSERT INTO candidate_memory_links`
unfoldable pub insert_link : Tables → MemoryLink → Outcome CommitError Tables
insert_link t l = do
  raise_if (any (same_link l) t.links) integrity_error
  ok (record t { links = l ∷ t.links })

-- `INSERT OR IGNORE INTO extraction_candidates` ignores the row.
unfoldable pub is_ignored : CandidateRow → CandidateRow → Bool
is_ignored r old =
    old.id == r.id
    || (old.run_id == r.run_id && old.proposed.memory_type == r.proposed.memory_type)
      && (old.proposed.normalized_content == r.proposed.normalized_content
          && (old.evidence_start == r.evidence_start && old.evidence_end == r.evidence_end))

abbrev pub success_attempt : Commit → Attempt
success_attempt c = record {
  id = c.attempt_id;
  run_id = c.run_id;
  attempt_no = c.attempt_no;
  outcome = "succeeded";
  started_at = c.started_at;
  finished_at = c.finished_at;
  error_code = none;
  redacted_error = none;
  raw_response_ref = some c.raw_id;
}

abbrev pub raw_response : Commit → RawResponse
raw_response c = record {
  id = c.raw_id;
  attempt_id = c.attempt_id;
  payload = c.raw_text;
  created_at = c.raw_created_at;
}

abbrev pub candidate_row : Commit → ValidatedCandidate → CandidateStamp → CandidateRow
candidate_row c v s = record {
  id = s.candidate_id;
  run_id = c.run_id;
  attempt_id = c.attempt_id;
  proposed = v.proposed;
  evidence_start = v.evidence_start;
  evidence_end = v.evidence_end;
  evidence_zone = v.evidence_zone;
  created_at = s.created_at;
}

abbrev pub memory_link : Commit → CandidateStamp → String → String → MemoryLink
memory_link c s memory_id relation = record {
  id = s.link_id;
  candidate_id = s.candidate_id;
  memory_id = memory_id;
  relation = relation;
  source_event_id = c.event.id;
  created_at = s.created_at;
}
