-- ===== src/Memory/Tests.antt =====
-- Two derivations in a store of one event and two branches, and the theorems of Memory on them.
use joiny_mnemonic.Prelude.{
  String, true, false, Option, none, some, List, [], ◌∷◌, any, Outcome, ok, raise, ◌≡◌, refl, arith,
  ne_of_beq, string_eq, sort_by, insert_by,
}
use joiny_mnemonic.Json.{Dict, empty, item, str, lookup, is_text}
use joiny_mnemonic.Provenance.{origin_evidence_type}
use joiny_mnemonic.Store.{Event, initial, Externals}
use joiny_mnemonic.Store.Append.{append_event_in_tx, redacted, event_row, json_text}
use joiny_mnemonic.Store.Ingest.{find_event}
use joiny_mnemonic.Store.Lineage.{find_branch, lineage, walk, tighten}
use joiny_mnemonic.Store.Tests.{forked_store, forked_store-IsSound}
use joiny_mnemonic.Ledgers.{event_origin_evidence}
use joiny_mnemonic.Ledgers.Sources.{
  distinct, source_rows, is_invisible, check_visible, assert_source_events,
}
use joiny_mnemonic.Memory.{
  Memory, Memories, MemoryError, find_memory, all_memories, fits, select_memories, present,
  list_memories, memories_as_of,
}
use joiny_mnemonic.Memory.Derive.{
  NewMemory, TemporalFields, MemoryStamp, Standard, agreed, common_event_trace, check_stop,
  check_one_source, assert_agent_finalized_authority, next_version, safe, derivation, memory_row,
  insert_memory, derive_safe, derive_memory,
}
use joiny_mnemonic.Memory.Kept.{memories_as_of-derive_memory}
use joiny_mnemonic.Memory.Versions.{IsHistory, derive_memory-IsHistory}
use joiny_mnemonic.Memory.Current.{named, list_memories-superseded}
use joiny_mnemonic.Memory.Trusted.{IsFinalRecord, derive_memory-finalized}

abbrev plain : Externals
plain = record {
  sha256 = λ s. s;
  sha256_bytes = λ bs. "";
  dumps = λ v. "x";
  redact_text = λ s. (s, []);
  redact_payload = λ d. (d, []);
  redact_files = λ fs. (fs, []);
}

abbrev standard : Standard
standard = record { casefold = λ s. s; is_fraction = λ v. true; is_negative = λ v. false }

abbrev fact : String → Option String → Dict → NewMemory
fact content supersedes metadata = record {
  memory_type = "fact";
  content = content;
  source_event_ids = "evt_1" ∷ [];
  summary = content;
  files = [];
  branch_id = "main";
  risk = "0.0";
  retrieval_cost = "1.0";
  supersedes_id = supersedes;
  metadata = metadata;
  temporal_expression = none;
}

abbrev timeless : Outcome MemoryError TemporalFields
timeless = ok (record {
  valid_from = none;
  valid_to = none;
  valid_from_precision = none;
  valid_to_precision = none;
})

abbrev drawn : String → String → MemoryStamp
drawn memory event = record {
  memory_id = memory;
  event = record { event_id = event; created_at = "2026-07-01T12:00:01+00:00" };
  created_at = "2026-07-01T12:00:01+00:00";
}

abbrev nothing : Memories
nothing = record { store = forked_store; rows = [] }

-- What a call returned
abbrev returned : Outcome MemoryError (Memories × Memory) → Memories
returned (ok (m, r)) = m
returned (raise e) = nothing

abbrev absent : Memory
absent = record {
  id = "";
  branch_id = "";
  memory_type = "";
  content = "";
  summary = "";
  files = [];
  risk = "";
  retrieval_cost = "";
  version = 0;
  source_event_ids = [];
  supersedes_id = none;
  cursor_seq = 0;
  created_at = "";
  metadata = empty;
  valid_from = none;
  valid_to = none;
  valid_from_precision = none;
  valid_to_precision = none;
  temporal_expression = none;
}

abbrev recorded : Outcome MemoryError (Memories × Memory) → Memory
recorded (ok (m, r)) = r
recorded (raise e) = absent

abbrev first_call : Outcome MemoryError (Memories × Memory)
first_call =
    derive_memory plain standard nothing (fact "green" none empty) timeless (drawn "mem_1" "evt_2")

abbrev once : Memories
once = returned first_call

first_returns : first_call ≡ ok (once, recorded first_call)
unfolding derive_memory derive_safe safe distinct assert_source_events source_rows find_event
    check_visible is_invisible lineage walk find_branch tighten assert_agent_finalized_authority
    lookup next_version common_event_trace agreed derivation append_event_in_tx redacted event_row
    json_text memory_row insert_memory
first_returns = refl

memories_as_of-derive_memory_example :
    memories_as_of once "side" (some 1) ≡ memories_as_of nothing "side" (some 1)
memories_as_of-derive_memory_example =
    memories_as_of-derive_memory plain standard nothing (fact "green" none empty) timeless
      (drawn "mem_1" "evt_2") once (recorded first_call) first_returns "side" 1 (omega arith)

nothing-IsHistory : IsHistory nothing
nothing-IsHistory = record {
  sound = forked_store-IsSound;
  past = tt;
  follows = tt;
  references = tt;
}

once-IsHistory : IsHistory once
once-IsHistory =
    derive_memory-IsHistory plain standard nothing (fact "green" none empty) timeless
      (drawn "mem_1" "evt_2") once (recorded first_call) first_returns nothing-IsHistory

derive_memory-IsHistory_example : IsHistory once
derive_memory-IsHistory_example =
    derive_memory-IsHistory plain standard nothing (fact "green" none empty) timeless
      (drawn "mem_1" "evt_2") once (recorded first_call) first_returns nothing-IsHistory

abbrev second_call : Outcome MemoryError (Memories × Memory)
second_call =
    derive_memory plain standard once (fact "blue" (some "mem_1") empty) timeless
      (drawn "mem_2" "evt_3")

abbrev twice : Memories
twice = returned second_call

second_returns : second_call ≡ ok (twice, recorded second_call)
unfolding derive_memory derive_safe safe distinct assert_source_events source_rows find_event
    check_visible is_invisible lineage walk find_branch tighten assert_agent_finalized_authority
    lookup next_version find_memory list_memories select_memories fits present sort_by insert_by
    common_event_trace agreed derivation append_event_in_tx redacted event_row json_text memory_row
    insert_memory
second_returns = refl

list_memories-superseded_example :
    (current : List Memory) × (list_memories twice "main" (all_memories false) ≡ ok current)
    × (any (named "mem_1") current ≡ false)
    × (any (named (recorded second_call).id) current ≡ true)
list_memories-superseded_example =
    list_memories-superseded plain standard once (fact "blue" (some "mem_1") empty) timeless
      (drawn "mem_2" "evt_3") twice (recorded second_call) second_returns once-IsHistory "mem_1"
      refl (ne_of_beq "mem_1" "" refl)

-- The assistant's final message, as a host's Stop hook delivers it
abbrev stop_event : Event
stop_event = record {
  seq = 1;
  id = "evt_1";
  branch_id = "main";
  session_id = none;
  kind = "message";
  role = some "assistant";
  origin_channel = "host_hook";
  origin_adapter = some "claude";
  content = "done";
  payload = item "hook_event_name" (str "Stop") (item "_joiny_origin_adapter" (str "claude") empty);
  files = [];
  created_at = "2026-07-01T12:00:00+00:00";
  previous_hash = none;
  content_hash = "x";
  chain_hash = "x";
}

abbrev stopped : Memories
stopped = record { store = record initial { events = stop_event ∷ [] }; rows = [] }

abbrev final_claim : Dict
final_claim = item "authority_level" (str "agent_finalized") empty

abbrev final_call : Outcome MemoryError (Memories × Memory)
final_call =
    derive_memory plain standard stopped (fact "green" none final_claim) timeless
      (drawn "mem_1" "evt_2")

final_returns : final_call ≡ ok (returned final_call, recorded final_call)
unfolding derive_memory derive_safe safe distinct assert_source_events source_rows find_event
    check_visible is_invisible lineage walk find_branch tighten assert_agent_finalized_authority
    check_one_source check_stop event_origin_evidence origin_evidence_type lookup next_version
    common_event_trace agreed derivation append_event_in_tx redacted event_row json_text memory_row
    insert_memory
final_returns = refl

claims_final :
    is_text (lookup "authority_level" (recorded final_call).metadata) "agent_finalized" ≡ true
unfolding derive_memory derive_safe safe distinct assert_source_events source_rows find_event
    check_visible is_invisible lineage walk find_branch tighten assert_agent_finalized_authority
    check_one_source check_stop event_origin_evidence origin_evidence_type lookup next_version
    common_event_trace agreed derivation append_event_in_tx redacted event_row json_text memory_row
    insert_memory
claims_final = refl

derive_memory-finalized_example :
    IsFinalRecord (λ s. s) stopped.store.events (recorded final_call).source_event_ids
derive_memory-finalized_example =
    derive_memory-finalized plain standard stopped (fact "green" none final_claim) timeless
      (drawn "mem_1" "evt_2") (returned final_call) (recorded final_call) final_returns claims_final
