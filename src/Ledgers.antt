-- ===== src/Ledgers.antt =====
-- The ledgers over the event log: what storage.py and task_storage.py in src/joiny_mnemonic share.
pub mod Sources
pub mod Tasks
pub mod Candidates
pub mod Requests
pub mod Policies
mod Tests
use joiny_mnemonic.Prelude.{
  ℕ, String, Bool, true, false, not, ◌||◌, Option, none, some, List, [], ◌∷◌, if◌then◌else◌, ◌==◌,
  string_eq, nat_eq, ltb,
}
use joiny_mnemonic.Json.{Json, Dict, Items, lookup}
use joiny_mnemonic.Provenance.{EventProvenance, origin_evidence_type as evidence_type}
use joiny_mnemonic.Transitions.{TransitionError}
use joiny_mnemonic.Store.{Event, Store, StoreError}

-- A row of `policy_ledger`, with `policy_json` decoded
pub record Policy : Type 0 where
  pub id : String
  pub version : ℕ
  pub policy_hash : String
  pub policy : Dict
  pub activation_event_id : String
  pub previous_policy_id : Option String
  pub operation : String
  pub origin_evidence_type : String
  pub created_at : String

-- A row of `task_versions`, with its JSON columns decoded
pub record TaskVersion : Type 0 where
  pub id : String
  pub task_key : String
  pub branch_id : String
  pub version : ℕ
  pub title : String
  pub status : String
  pub parent_task_key : Option String
  pub source_event_ids : List String
  pub snapshot_id : Option String
  pub metadata : Dict
  pub created_at : String

-- A row of `extraction_candidates` with the event of its run
pub record Candidate : Type 0 where
  pub id : String
  pub candidate_kind : String
  pub event_id : String

-- A row of `candidate_transitions`
pub record CandidateTransition : Type 0 where
  pub id : String
  pub candidate_id : String
  pub from_status : Option String
  pub to_status : String
  pub source_event_id : String
  pub actor : String
  pub rule_id : String
  pub origin_evidence_type : String
  pub replacement_candidate_id : Option String
  pub replacement_memory_id : Option String

-- A row of `finding_transitions`
pub record FindingTransition : Type 0 where
  pub id : String
  pub finding_id : String
  pub from_status : Option String
  pub to_status : String
  pub source_event_id : String
  pub actor : String
  pub origin_evidence_type : String

-- A row of `security_findings`
pub record Finding : Type 0 where
  pub id : String
  pub incident_key : String
  pub finding_type : String
  pub details : Dict
  pub source_event_id : String
  pub created_at : String

-- The tables, each with the newest row first
pub record Ledgers : Type 0 where
  pub store : Store
  pub policies : List Policy
  pub tasks : List TaskVersion
  pub bindings : List (String × String)
  pub memory_ids : List String
  pub candidates : List Candidate
  pub candidate_transitions : List CandidateTransition
  pub findings : List Finding
  pub finding_transitions : List FindingTransition

-- What the methods raise, one constructor for each `raise`; the two first carry what they call raises.
pub data LedgerError : Type 0 where
  store_error : StoreError → LedgerError
  rule_error : TransitionError → LedgerError
  empty_key_or_title unsupported_status key_on_other_branch : LedgerError
  not_started_active stale_source unknown_task session_bound_elsewhere : LedgerError
  unsupported_candidate_status replacement_missing unknown_candidate : LedgerError
  candidate_without_event unsupported_settlement_status not_a_settlement : LedgerError
  unsupported_finding_status unknown_finding : LedgerError
  unsupported_candidate_request illegal_finding_request failed_assertion : LedgerError
  unsupported_policy_operation unknown_policy_source : LedgerError
  origin_mismatch untrusted_policy : LedgerError

-- `ORDER BY version DESC LIMIT 1`
unfoldable pub latest_policy : List Policy → Option Policy
latest_policy [] = none
latest_policy (p ∷ ps) = newer (latest_policy ps)
  where
    newer : Option Policy → Option Policy
    newer none = some p
    newer (some q) = if ltb q.version p.version then some p else some q

-- `bool(value)` of a decoded value; zeros that are no natural number are written so by `json.dumps`.
abbrev pub is_true : Option Json → Bool
is_true none = false
is_true (some Json.null) = false
is_true (some (Json.bool b)) = b
is_true (some (Json.nat n)) = not (n == 0)
is_true (some (Json.num s)) = not (s == "0.0" || s == "-0.0")
is_true (some (Json.str s)) = not (s == "")
is_true (some (Json.arr Items.nil)) = false
is_true (some (Json.arr (Items.cons v vs))) = true
is_true (some (Json.obj Dict.empty)) = false
is_true (some (Json.obj (Dict.item k v d))) = true

abbrev allows_delegation : Option Policy → Bool
allows_delegation none = false
allows_delegation (some p) = is_true (lookup "agent_settlement_delegation_enabled" p.policy)

-- `_delegation_enabled_locked`
unfoldable pub delegation_enabled : Ledgers → Bool
unfolding latest_policy
delegation_enabled l = allows_delegation (latest_policy l.policies)

-- `_event_origin_evidence`
unfoldable pub event_origin_evidence : (String → String) → Event → String
event_origin_evidence casefold e =
    let event : EventProvenance = record {
      role = e.role;
      origin_channel = e.origin_channel;
      origin_adapter = e.origin_adapter;
      payload = e.payload;
    } in
    evidence_type casefold event
