-- ===== src/Memory/Derive.antt =====
-- `derive_memory` of src/joiny_mnemonic/storage.py, with `common_event_trace` of
-- src/joiny_mnemonic/storage_support.py and `assert_agent_finalized_authority` of
-- src/joiny_mnemonic/finalization_storage.py. What `_normalize_temporal_input` answers is an argument,
-- and so are the identifier and the times that the code draws.
use Prim.Native.String.{◌++◌ as text_append}
use joiny_mnemonic.Prelude.{
  ℕ, zero, suc, ◌+◌, String, Bool, true, not, Option, none, some, List, [], ◌∷◌, ◌++◌, map,
  if◌then◌else◌, ◌==◌, string_eq, option_eq, elem, any, Outcome, ok, raise, raise_if, recast, ◌>>=◌,
  ◌>>◌,
}
use joiny_mnemonic.Json.{Dict, empty, item, str, num, arr, obj, lookup, is_text, opt_str, str_items}
use joiny_mnemonic.Provenance.{internal, host_assistant_finalization}
use joiny_mnemonic.Store.{Event, integrity_error, Externals}
use joiny_mnemonic.Store.Append.{NewEvent, Stamp, append_event_in_tx}
use joiny_mnemonic.Store.Ingest.{find_event}
use joiny_mnemonic.Ledgers.{event_origin_evidence}
use joiny_mnemonic.Ledgers.Sources.{distinct, source_rows, assert_source_events}
use joiny_mnemonic.Memory.{
  Memory, Memories, MemoryError, store_error, unsupported_memory_type, risk_out_of_range,
  negative_cost, not_one_source, not_a_stop_event, unknown_superseded, superseded_outside_lineage,
  find_memory, all_memories, list_memories,
}

-- The arguments of `derive_memory`
pub record NewMemory : Type 0 where
  pub memory_type : String
  pub content : String
  pub source_event_ids : List String
  pub summary : String
  pub files : List String
  pub branch_id : String
  pub risk : String
  pub retrieval_cost : String
  pub supersedes_id : Option String
  pub metadata : Dict
  pub temporal_expression : Option String

-- The answer of `_normalize_temporal_input`
pub record TemporalFields : Type 0 where
  pub valid_from : Option String
  pub valid_to : Option String
  pub valid_from_precision : Option String
  pub valid_to_precision : Option String

-- What one call draws: an identifier, the stamp of the event, and the time of the record
pub record MemoryStamp : Type 0 where
  pub memory_id : String
  pub event : Stamp
  pub created_at : String

-- The standard library on text and on floating point literals: `str.casefold`, `0.0 <= v <= 1.0`, `v < 0`
pub record Standard : Type 0 where
  pub casefold : String → String
  pub is_fraction : String → Bool
  pub is_negative : String → Bool

abbrev pub memory_types : List String
memory_types =
    "fact" ∷ "decision" ∷ "task" ∷ "preference" ∷ "failure" ∷ "lesson" ∷ "summary" ∷ "index" ∷ []

-- `s[:n]`
abbrev pub prefix : ℕ → String → String
prefix zero s = String.[]
prefix (suc n) String.[] = String.[]
prefix (suc n) (String.◌∷◌ c s) = String.◌∷◌ c (prefix n s)

-- The one value that all rows agree on
unfoldable pub agreed : List (Option String) → Option String
agreed [] = none
agreed (v ∷ vs) = if any (λ w. not (w == v)) vs then none else v

abbrev pub rows_or_none : Option (List Event) → List Event
rows_or_none none = []
rows_or_none (some rows) = rows

-- `common_event_trace`: the session and the adapter
unfoldable pub common_event_trace : List Event → List String → Option String × Option String
common_event_trace events ids =
    let rows = rows_or_none (source_rows events ids) in
    (agreed (map (λ e. e.session_id) rows), agreed (map (λ e. e.origin_adapter) rows))

-- The event of the one source that an assistant's final record may have
unfoldable pub check_stop : (String → String) → Option Event → Outcome MemoryError (Unit {0})
check_stop casefold none = raise not_a_stop_event
check_stop casefold (some e) =
    raise_if (not (event_origin_evidence casefold e == host_assistant_finalization))
      not_a_stop_event

unfoldable pub check_one_source :
    (String → String) → List Event → List String → Outcome MemoryError (Unit {0})
check_one_source casefold events [] = raise not_one_source
check_one_source casefold events (id ∷ []) = check_stop casefold (find_event id events)
check_one_source casefold events (id ∷ other ∷ ids) = raise not_one_source

unfoldable pub assert_agent_finalized_authority :
    (String → String) → List Event → Dict → List String → Outcome MemoryError (Unit {0})
assert_agent_finalized_authority casefold events metadata ids =
    if is_text (lookup "authority_level" metadata) "agent_finalized"
    then check_one_source casefold events ids
    else ok tt

-- The row that is superseded must be seen in the branch; the version is the next one.
unfoldable pub next_version : Memories → String → Option String → Outcome MemoryError ℕ
next_version m branch_id none = ok 1
next_version m branch_id (some id) = if id == "" then ok 1 else elim (find_memory id m.rows) [
  | none ↦ raise unknown_superseded
  | some previous ↦ do
    seen ← recast store_error (list_memories m branch_id (all_memories true))
    raise_if (not (any (λ r. r.id == id) seen)) superseded_outside_lineage
    ok (previous.version + 1)
]

-- The foreign key of `supersedes_id`
abbrev pub refers : List Memory → Option String → Bool
refers rows none = true
refers rows (some id) = any (λ r. r.id == id) rows

abbrev or_prefix : String → String → String
or_prefix summary content = if summary == "" then prefix 240 content else summary

abbrev redact_option : Externals → Option String → Option String
redact_option x none = none
redact_option x (some s) = some (x.redact_text s).0

-- The arguments after the redactions, with each source named once
unfoldable pub safe : Externals → NewMemory → NewMemory
safe x n = record n {
  content = (x.redact_text n.content).0;
  summary = (x.redact_text (or_prefix n.summary n.content)).0;
  files = (x.redact_files n.files).0;
  metadata = (x.redact_payload n.metadata).0;
  temporal_expression = redact_option x n.temporal_expression;
  source_event_ids = distinct n.source_event_ids;
}

-- The event of a derivation, for arguments that are safe
unfoldable pub derivation :
    NewMemory → TemporalFields → String → Option String × Option String → NewEvent
derivation n t id trace = record {
  branch_id = n.branch_id;
  session_id = trace.0;
  kind = "state";
  role = none;
  content = text_append "derived " (text_append n.memory_type (text_append ": " n.summary));
  origin_channel = internal;
  origin_adapter = trace.1;
  payload = item "operation" (str "derive_memory") (
      item "memory_id" (str id) (
        item "memory_type" (str n.memory_type) (
          item "content" (str n.content) (
            item "summary" (str n.summary) (
              item "source_event_ids" (arr (str_items n.source_event_ids)) (
                item "files" (arr (str_items n.files)) (
                  item "risk" (num n.risk) (
                    item "retrieval_cost" (num n.retrieval_cost) (
                      item "supersedes_id" (opt_str n.supersedes_id) (
                        item "metadata" (obj n.metadata) (
                          item "valid_from" (opt_str t.valid_from) (
                            item "valid_to" (opt_str t.valid_to) (
                              item "valid_from_precision" (opt_str t.valid_from_precision) (
                                item "valid_to_precision" (opt_str t.valid_to_precision) (
                                  item "temporal_expression" (opt_str n.temporal_expression)
                                    empty)))))))))))))));
  files = n.files;
}

unfoldable pub memory_row : NewMemory → TemporalFields → MemoryStamp → ℕ → Event → Memory
memory_row n t stamp version e = record {
  id = stamp.memory_id;
  branch_id = n.branch_id;
  memory_type = n.memory_type;
  content = n.content;
  summary = n.summary;
  files = n.files;
  risk = n.risk;
  retrieval_cost = n.retrieval_cost;
  version = version;
  source_event_ids = n.source_event_ids;
  supersedes_id = n.supersedes_id;
  cursor_seq = e.seq;
  created_at = stamp.created_at;
  metadata = n.metadata;
  valid_from = t.valid_from;
  valid_to = t.valid_to;
  valid_from_precision = t.valid_from_precision;
  valid_to_precision = t.valid_to_precision;
  temporal_expression = n.temporal_expression;
}

-- `INSERT INTO memory_records`
unfoldable pub insert_memory : Memories → Memory → Outcome MemoryError (Memories × Memory)
insert_memory m r = do
  raise_if (any (λ old. old.id == r.id) m.rows) (store_error integrity_error)
  raise_if (not (refers m.rows r.supersedes_id)) (store_error integrity_error)
  ok (record m { rows = m.rows ++ r ∷ [] }, r)

module _ (x : Externals) (std : Standard) where
  -- The transaction of `derive_memory`, for arguments that are safe
  unfoldable pub derive_safe :
      Memories
      → NewMemory
      → Outcome MemoryError TemporalFields
      → MemoryStamp
      → Outcome MemoryError (Memories × Memory)
  derive_safe m n temporal stamp = do
    recast store_error (assert_source_events m.store n.source_event_ids n.branch_id)
    assert_agent_finalized_authority std.casefold m.store.events n.metadata n.source_event_ids
    t ← temporal
    version ← next_version m n.branch_id n.supersedes_id
    let trace = common_event_trace m.store.events n.source_event_ids
    (s, e) ←
        recast store_error
          (append_event_in_tx x m.store (derivation n t stamp.memory_id trace) stamp.event)
    insert_memory (record m { store = s }) (memory_row n t stamp version e)

  unfoldable pub derive_memory :
      Memories
      → NewMemory
      → Outcome MemoryError TemporalFields
      → MemoryStamp
      → Outcome MemoryError (Memories × Memory)
  derive_memory m n temporal stamp = do
    raise_if (not (elem n.memory_type memory_types)) unsupported_memory_type
    raise_if (not (std.is_fraction n.risk)) risk_out_of_range
    raise_if (std.is_negative n.retrieval_cost) negative_cost
    derive_safe m (safe x n) temporal stamp
