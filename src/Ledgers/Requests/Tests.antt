-- ===== src/Ledgers/Requests/Tests.antt =====
-- A candidate request and a security finding on a store of one event.
use joiny_mnemonic.Prelude.{String, none, some, [], ◌∷◌, ok, ◌≡◌, refl, inl}
use joiny_mnemonic.Json.{empty, item, str, null, obj, lookup}
use joiny_mnemonic.Provenance.{origin_evidence_type}
use joiny_mnemonic.Transitions.{validate_transition, validate_flow}
use joiny_mnemonic.Store.{Event, initial, Externals}
use joiny_mnemonic.Store.Append.{append_event_in_tx, redacted, event_row, json_text}
use joiny_mnemonic.Store.Ingest.{find_event}
use joiny_mnemonic.Store.Lineage.{find_branch, lineage, walk, tighten, covers}
use joiny_mnemonic.Ledgers.{
  Ledgers, CandidateTransition, delegation_enabled, latest_policy, event_origin_evidence,
}
use joiny_mnemonic.Ledgers.Sources.{event_visible}
use joiny_mnemonic.Ledgers.Candidates.{
  candidate_status, find_candidate, join_event, joined, gate, insert_candidate, insert_finding,
}
use joiny_mnemonic.Ledgers.Candidates.Gated.{AreGated}
use joiny_mnemonic.Ledgers.Requests.{
  Draws, CandidateRequest, latest_candidate_transition, find_incident, record_request, new_request,
  request_from, append_candidate_request, insert_new_finding, finding_from_event,
  record_security_finding,
}
use joiny_mnemonic.Ledgers.Requests.Repeated.{append_candidate_request-IsGated}

abbrev same_case : String → String
same_case s = s

abbrev plain : Externals
plain = record {
  sha256 = λ s. s;
  sha256_bytes = λ bs. "";
  dumps = λ v. "x";
  redact_text = λ s. (s, []);
  redact_payload = λ d. (d, []);
  redact_files = λ fs. (fs, []);
}

abbrev noon : String
noon = "2026-07-01T12:00:00+00:00"

abbrev prompt : Event
prompt = record {
  seq = 1;
  id = "evt_1";
  branch_id = "main";
  session_id = none;
  kind = "message";
  role = some "user";
  origin_channel = "host_hook";
  origin_adapter = some "claude";
  content = "hello";
  payload = empty;
  files = [];
  created_at = noon;
  previous_hash = none;
  content_hash = "x";
  chain_hash = "x";
}

abbrev begin : Ledgers
begin = record {
  store = record initial { events = prompt ∷ [] };
  policies = [];
  tasks = [];
  bindings = [];
  memory_ids = [];
  candidates = record { id = "cand_1"; candidate_kind = "extraction"; event_id = "evt_1" } ∷ [];
  candidate_transitions = [];
  findings = [];
  finding_transitions = [];
}

-- The first row of a candidate
abbrev auto : CandidateTransition
auto = record {
  id = "ctr_0";
  candidate_id = "cand_1";
  from_status = none;
  to_status = "auto";
  source_event_id = "evt_1";
  actor = "extractor";
  rule_id = "extracted";
  origin_evidence_type = "external_untrusted";
  replacement_candidate_id = none;
  replacement_memory_id = none;
}

abbrev with_auto : Ledgers
with_auto = record begin { candidate_transitions = auto ∷ [] }

abbrev confirm : CandidateRequest
confirm = record {
  candidate_id = "cand_1";
  request_status = "confirmation_requested";
  branch_id = "main";
  action = "confirm";
  origin_evidence_type = "external_untrusted";
  replacement_candidate_id = none;
  replacement_memory_id = none;
}

abbrev draws : String → Draws
draws id = record {
  event = record { event_id = id; created_at = noon };
  transition_id = "ctr_1";
  finding_id = "finding_1";
}

abbrev request : Event
request = record {
  seq = 2;
  id = "evt_2";
  branch_id = "main";
  session_id = none;
  kind = "state";
  role = none;
  origin_channel = "internal";
  origin_adapter = none;
  content = "candidate confirm requested: cand_1";
  payload = item "operation" (str "confirmation_requested") (
      item "candidate_id" (str "cand_1") (
        item "replacement_candidate_id" null (
          item "replacement_memory_id" null
            (item "origin_evidence_type" (str "external_untrusted") empty))));
  files = [];
  created_at = noon;
  previous_hash = some "x";
  content_hash = "x";
  chain_hash = "xx";
}

abbrev asked : CandidateTransition
asked = record {
  id = "ctr_1";
  candidate_id = "cand_1";
  from_status = some "auto";
  to_status = "confirmation_requested";
  source_event_id = "evt_2";
  actor = "request_reducer";
  rule_id = "untrusted_confirm_request";
  origin_evidence_type = "external_untrusted";
  replacement_candidate_id = none;
  replacement_memory_id = none;
}

abbrev with_request : Ledgers
with_request = record with_auto {
  store = record initial { events = prompt ∷ request ∷ [] };
  candidate_transitions = asked ∷ auto ∷ [];
}

ask_once :
    append_candidate_request same_case plain with_auto confirm (draws "evt_2")
    ≡ ok (with_request, request, "ctr_1")
unfolding append_candidate_request request_from new_request record_request
    latest_candidate_transition joined join_event find_candidate find_event append_event_in_tx
    redacted event_row json_text find_branch gate insert_candidate event_visible covers lineage walk
    tighten validate_transition validate_flow delegation_enabled latest_policy event_origin_evidence
    origin_evidence_type lookup
ask_once = refl

abbrev recorded : Ledgers
recorded = record begin {
  store = record initial {
    events =
        prompt
        ∷ record request {
          content = "security finding: chain_broken";
          payload = item "operation" (str "security_finding") (
              item "finding_type" (str "chain_broken")
                (item "incident_key" (str "incident") (item "details" (obj empty) empty)));
        }
        ∷ [];
  };
  findings =
      record {
        id = "finding_1";
        incident_key = "incident";
        finding_type = "chain_broken";
        details = empty;
        source_event_id = "evt_2";
        created_at = noon;
      }
      ∷ [];
  finding_transitions =
      record {
        id = "ctr_1";
        finding_id = "finding_1";
        from_status = none;
        to_status = "active";
        source_event_id = "evt_2";
        actor = "integrity_monitor";
        origin_evidence_type = "external_untrusted";
      }
      ∷ [];
}

record_once :
    record_security_finding same_case plain begin "chain_broken" "incident" empty (draws "evt_2")
    ≡ ok (recorded, "finding_1")
unfolding record_security_finding find_incident finding_from_event insert_new_finding insert_finding
    append_event_in_tx redacted event_row json_text find_branch
record_once = refl

first_auto : candidate_status "cand_1" [] ≡ none
unfolding candidate_status
first_auto = refl

append_candidate_request-IsGated_example : AreGated with_request.candidate_transitions
append_candidate_request-IsGated_example =
    append_candidate_request-IsGated same_case plain with_auto confirm (draws "evt_2") with_request
      request "ctr_1" ask_once (inl (refl, first_auto), tt)
