-- ===== src/Ledgers/Tests.antt =====
-- A task and a settlement on a store of two events, and the theorems of Ledgers on them.
use joiny_mnemonic.Prelude.{
  ℕ, nat_eq, String, Bool, true, false, none, some, [], ◌∷◌, if◌then◌else◌, ◌==◌, string_eq, ok,
  ◌≡◌, refl, ◌⊎◌, inr,
}
use joiny_mnemonic.Json.{empty, lookup}
use joiny_mnemonic.Provenance.{origin_evidence_type}
use joiny_mnemonic.Transitions.{validate_transition, validate_flow, validate_reopen, is_blank}
use joiny_mnemonic.Store.{Event, initial, Externals}
use joiny_mnemonic.Store.Ingest.{find_event}
use joiny_mnemonic.Store.Lineage.{find_branch, lineage, walk, tighten, covers}
use joiny_mnemonic.Ledgers.{
  Ledgers, TaskVersion, delegation_enabled, latest_policy, event_origin_evidence,
}
use joiny_mnemonic.Ledgers.Sources.{
  distinct, source_rows, is_invisible, check_visible, assert_source_events, event_visible,
}
use joiny_mnemonic.Ledgers.Tasks.{
  NewTask, TaskStamp, latest_task, create_task_version, create_from, insert_task, task_row,
  advance_task, decide_task, decide_from, bind_task_session, add_binding,
}
use joiny_mnemonic.Ledgers.Tasks.Authority.{IsTrusted, create_task_version-finished}
use joiny_mnemonic.Ledgers.Tasks.Log.{IsTaskLog, create_task_version-IsTaskLog}
use joiny_mnemonic.Ledgers.Candidates.{
  Change, candidate_status, find_candidate, join_event, joined, gate, insert_candidate,
  change_candidate, change_from, settle_from, settle_candidate, finding_status, insert_finding,
  change_finding, finding_from, transition_finding,
}
use joiny_mnemonic.Ledgers.Candidates.Gated.{AreGated, candidate_transitions-IsGated}

abbrev same_case : String → String
same_case s = s

abbrev plain : Externals
plain = record {
  sha256 = λ s. s;
  sha256_bytes = λ bs. "";
  dumps = λ v. "x";
  redact_text = λ s. (s, []);
  redact_payload = λ d. (d, []);
  redact_files = λ fs. (fs, []);
}

-- A message that a host hook delivered for the user
abbrev message : ℕ → String → Event
message seq id = record {
  seq = seq;
  id = id;
  branch_id = "main";
  session_id = none;
  kind = "message";
  role = some "user";
  origin_channel = "host_hook";
  origin_adapter = some "claude";
  content = "hello";
  payload = empty;
  files = [];
  created_at = "2026-07-01T12:00:00+00:00";
  previous_hash = none;
  content_hash = "";
  chain_hash = id;
}

abbrev begin : Ledgers
begin = record {
  store = record initial {
    sessions = record { id = "ses_1"; branch_id = "main" } ∷ [];
    events = message 1 "evt_1" ∷ message 2 "evt_2" ∷ message 3 "evt_3" ∷ [];
  };
  policies = [];
  tasks = [];
  bindings = [];
  memory_ids = [];
  candidates =
      record { id = "cand_1"; candidate_kind = "task_completion"; event_id = "evt_1" } ∷ [];
  candidate_transitions = [];
  findings = [];
  finding_transitions = [];
}

abbrev task : String → String → Bool → String → NewTask
task status source reopen reason = record {
  task_key = "docs";
  branch_id = "main";
  title = "Write the docs";
  status = status;
  source_event_ids = source ∷ [];
  parent_task_key = none;
  snapshot_id = none;
  metadata = empty;
  reopen = reopen;
  transition_reason = reason;
}

abbrev drawn : String → TaskStamp
drawn id = record { task_id = id; created_at = "2026-07-01T12:00:00+00:00" }

abbrev version : ℕ → String → String → TaskVersion
version n status source = record {
  id = if n == 1 then "task_1" else if n == 2 then "task_2" else "task_3";
  task_key = "docs";
  branch_id = "main";
  version = n;
  title = "Write the docs";
  status = status;
  parent_task_key = none;
  source_event_ids = source ∷ [];
  snapshot_id = none;
  metadata = empty;
  created_at = "2026-07-01T12:00:00+00:00";
}

abbrev with_one : Ledgers
with_one = record begin { tasks = version 1 "active" "evt_1" ∷ [] }

abbrev with_two : Ledgers
with_two = record begin { tasks = version 2 "completed" "evt_2" ∷ version 1 "active" "evt_1" ∷ [] }

abbrev with_three : Ledgers
with_three = record begin {
  tasks =
      version 3 "active" "evt_3" ∷ version 2 "completed" "evt_2" ∷ version 1 "active" "evt_1" ∷ [];
}

start_task :
    create_task_version same_case plain begin (task "active" "evt_1" false "") (drawn "task_1")
    ≡ ok (with_one, version 1 "active" "evt_1")
unfolding create_task_version create_from insert_task task_row latest_task distinct source_rows
    find_event check_visible is_invisible assert_source_events lineage walk find_branch tighten
start_task = refl

finish_task :
    create_task_version same_case plain with_one
      (task "completed" "evt_2" false "")
      (drawn "task_2")
    ≡ ok (with_two, version 2 "completed" "evt_2")
unfolding create_task_version create_from insert_task task_row latest_task distinct source_rows
    find_event check_visible is_invisible assert_source_events lineage walk find_branch tighten
    advance_task decide_task decide_from event_visible covers validate_transition validate_flow
    delegation_enabled latest_policy event_origin_evidence origin_evidence_type lookup
finish_task = refl

reopen_task :
    create_task_version same_case plain with_two
      (task "active" "evt_3" true "more to do")
      (drawn "task_3")
    ≡ ok (with_three, version 3 "active" "evt_3")
unfolding create_task_version create_from insert_task task_row latest_task distinct source_rows
    find_event check_visible is_invisible assert_source_events lineage walk find_branch tighten
    advance_task decide_task decide_from event_visible covers validate_transition validate_reopen
    is_blank delegation_enabled latest_policy event_origin_evidence origin_evidence_type lookup
reopen_task = refl

create_task_version-finished_example :
    (with_one ≡ with_two) ⊎ IsTrusted same_case with_one (task "completed" "evt_2" false "")
create_task_version-finished_example =
    create_task_version-finished same_case plain with_one (task "completed" "evt_2" false "")
      (drawn "task_2") with_two (version 2 "completed" "evt_2") finish_task refl

latest_is_finished : latest_task "docs" with_two.tasks ≡ some (version 2 "completed" "evt_2")
unfolding latest_task
latest_is_finished = refl

create_task_version-IsTaskLog_example : IsTaskLog with_one.tasks
create_task_version-IsTaskLog_example =
    create_task_version-IsTaskLog same_case plain begin (task "active" "evt_1" false "")
      (drawn "task_1") with_one (version 1 "active" "evt_1") start_task tt

abbrev docs : String
docs = "docs"

abbrev bound_one : Ledgers
bound_one = record with_one { bindings = ("ses_1", "docs") ∷ [] }

bind_one : bind_task_session with_one "ses_1" "docs" ≡ ok bound_one
unfolding bind_task_session add_binding
bind_one = refl

abbrev apply : String → Change
apply id = record {
  id = id;
  subject_id = "cand_1";
  to_status = "applied";
  source_event_id = "evt_2";
  actor = "operator";
  rule_id = "manual";
  replacement_candidate_id = none;
  replacement_memory_id = none;
}

abbrev applied : Ledgers
applied = record begin {
  candidate_transitions =
      record {
        id = "ctr_1";
        candidate_id = "cand_1";
        from_status = some "pending";
        to_status = "applied";
        source_event_id = "evt_2";
        actor = "operator";
        rule_id = "manual";
        origin_evidence_type = "host_logical_user";
        replacement_candidate_id = none;
        replacement_memory_id = none;
      }
      ∷ [];
}

apply_once : settle_candidate same_case begin (apply "ctr_1") ≡ ok (applied, some "ctr_1")
unfolding settle_candidate settle_from joined join_event find_candidate find_event candidate_status
    change_from change_candidate insert_candidate gate event_visible covers lineage walk find_branch
    tighten validate_transition validate_flow delegation_enabled latest_policy event_origin_evidence
    origin_evidence_type lookup
apply_once = refl

candidate_transitions-IsGated_example : AreGated applied.candidate_transitions
candidate_transitions-IsGated_example =
    candidate_transitions-IsGated same_case begin (apply "ctr_1") applied (some "ctr_1")
      (inr apply_once) tt

abbrev acknowledge : Change
acknowledge = record (apply "ftr_2") { subject_id = "find_1"; to_status = "acknowledged" }

abbrev requested : Ledgers
requested = record begin {
  finding_transitions =
      record {
        id = "ftr_1";
        finding_id = "find_1";
        from_status = some "open";
        to_status = "acknowledgement_requested";
        source_event_id = "evt_1";
        actor = "agent";
        origin_evidence_type = "agent_delegated";
      }
      ∷ [];
}

abbrev confirmed : Ledgers
confirmed = record requested {
  finding_transitions =
      record {
        id = "ftr_2";
        finding_id = "find_1";
        from_status = some "acknowledgement_requested";
        to_status = "acknowledged";
        source_event_id = "evt_2";
        actor = "operator";
        origin_evidence_type = "host_logical_user";
      }
      ∷ requested.finding_transitions;
}

acknowledge_once : transition_finding same_case requested acknowledge ≡ ok (confirmed, some "ftr_2")
unfolding transition_finding finding_from change_finding insert_finding finding_status find_event
    gate event_visible covers lineage walk find_branch tighten validate_transition validate_flow
    delegation_enabled latest_policy event_origin_evidence origin_evidence_type lookup
acknowledge_once = refl
