-- ===== src/Store.antt =====
-- The canonical tables of src/joiny_mnemonic/storage.py: branches, sessions, events, receipts.
-- A method that raises inside a transaction leaves the tables as they were, so a write returns the
-- new tables or an error. The full-text index is off (`fts_enabled` is false).
pub mod Lineage
pub mod Append
pub mod Ingest
pub mod Sound
pub mod Retry
pub mod History
pub mod Verify
pub mod Views
pub mod Artifacts
pub mod Reach
pub mod Search
pub mod Tests
use joiny_mnemonic.Prelude.{ℕ, String, Bool, Option, none, some, List, [], ◌∷◌}
use joiny_mnemonic.Json.{Json, Dict}

pub record Branch : Type 0 where
  pub id : String
  pub parent_id : Option String
  pub fork_event_seq : Option ℕ

pub record Session : Type 0 where
  pub id : String
  pub branch_id : String

-- A row of `events`, with `payload_json` and `files_json` decoded
pub record Event : Type 0 where
  pub seq : ℕ
  pub id : String
  pub branch_id : String
  pub session_id : Option String
  pub kind : String
  pub role : Option String
  pub origin_channel : String
  pub origin_adapter : Option String
  pub content : String
  pub payload : Dict
  pub files : List String
  pub created_at : String
  pub previous_hash : Option String
  pub content_hash : String
  pub chain_hash : String

pub record Receipt : Type 0 where
  pub receipt_key : String
  pub event_ids : List String

-- The branches stand newest first, the events in the order of `seq`.
pub record Store : Type 0 where
  pub branches : List Branch
  pub sessions : List Session
  pub events : List Event
  pub receipts : List Receipt

-- The tables after `_initialize` of a new database
abbrev pub initial : Store
initial = record {
  branches = record { id = "main"; parent_id = none; fork_event_seq = none } ∷ [];
  sessions = [];
  events = [];
  receipts = [];
}

-- What the methods raise, one constructor for each `raise`. `integrity_error` is SQLite's, for a
-- repeated key; `out_of_fuel` is no outcome of the code (`lineage_total` shows that none occurs).
pub data StoreError : Type 0 where
  bad_branch_id unknown_parent_branch fork_outside_history : StoreError
  unknown_branch lineage_cycle out_of_fuel : StoreError
  unknown_session session_on_other_branch missing_adapter : StoreError
  empty_receipt_key no_events receipt_without_event unknown_event : StoreError
  no_sources missing_sources invisible_sources : StoreError
  integrity_error : StoreError

pub record Redaction : Type 0 where
  pub rule : String
  pub count : ℕ

-- The standard library's `sha256` and `json.dumps`, and the redactor that a store is built with.
pub record Externals : Type 0 where
  pub sha256 : String → String
  pub sha256_bytes : List ℕ → String
  pub dumps : Json → String
  pub redact_text : String → String × List Redaction
  pub redact_payload : Dict → Dict × List Redaction
  pub redact_files : List String → List String × List Redaction
