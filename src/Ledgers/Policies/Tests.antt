-- ===== src/Ledgers/Policies/Tests.antt =====
-- The first policy of a project, activated by a message of the user.
use joiny_mnemonic.Prelude.{true, none, some, [], ◌∷◌, ok, ◌≡◌, refl}
use joiny_mnemonic.Json.{Dict, empty, item, bool, lookup}
use joiny_mnemonic.Provenance.{origin_evidence_type}
use joiny_mnemonic.Store.{Event, initial, Externals}
use joiny_mnemonic.Store.Append.{json_text}
use joiny_mnemonic.Store.Ingest.{find_event}
use joiny_mnemonic.Ledgers.{
  Policy, Ledgers, latest_policy, is_true, delegation_enabled, event_origin_evidence,
}
use joiny_mnemonic.Ledgers.Policies.{
  PolicyStamp, policy_activation_allowed, active_policy, activate_from, activate_policy,
}
use joiny_mnemonic.Ledgers.Policies.Granted.{IsGranted, activate_policy-active}

abbrev plain : Externals
plain = record {
  sha256 = λ s. s;
  sha256_bytes = λ bs. "";
  dumps = λ v. "x";
  redact_text = λ s. (s, []);
  redact_payload = λ d. (d, []);
  redact_files = λ fs. (fs, []);
}

abbrev message : Event
message = record {
  seq = 1;
  id = "evt_1";
  branch_id = "main";
  session_id = none;
  kind = "message";
  role = some "user";
  origin_channel = "host_hook";
  origin_adapter = some "claude";
  content = "hello";
  payload = empty;
  files = [];
  created_at = "2026-07-01T12:00:00+00:00";
  previous_hash = none;
  content_hash = "x";
  chain_hash = "x";
}

abbrev begin : Ledgers
begin = record {
  store = record initial { events = message ∷ [] };
  policies = [];
  tasks = [];
  bindings = [];
  memory_ids = [];
  candidates = [];
  candidate_transitions = [];
  findings = [];
  finding_transitions = [];
}

abbrev delegating : Dict
delegating = item "agent_settlement_delegation_enabled" (bool true) empty

abbrev first_policy : Policy
first_policy = record {
  id = "policy_1";
  version = 1;
  policy_hash = "x";
  policy = delegating;
  activation_event_id = "evt_1";
  previous_policy_id = none;
  operation = "activated";
  origin_evidence_type = "host_logical_user";
  created_at = "2026-07-01T12:00:01+00:00";
}

abbrev with_policy : Ledgers
with_policy = record begin { policies = first_policy ∷ [] }

abbrev drawn : PolicyStamp
drawn = record { policy_id = "policy_1"; created_at = "2026-07-01T12:00:01+00:00" }

activate_first :
    activate_policy (λ s. s) plain begin delegating "evt_1" none "activated" drawn
    ≡ ok (with_policy, first_policy)
unfolding activate_policy activate_from policy_activation_allowed find_event latest_policy json_text
    event_origin_evidence origin_evidence_type lookup
activate_first = refl

activate_policy-active_example :
    (active_policy with_policy ≡ some first_policy)
    × (delegation_enabled with_policy
        ≡ is_true (lookup "agent_settlement_delegation_enabled" delegating))
    × (first_policy.activation_event_id ≡ "evt_1")
    × IsGranted (λ s. s) begin.store.events first_policy
activate_policy-active_example =
    activate_policy-active (λ s. s) plain begin delegating "evt_1" none "activated" drawn
      with_policy first_policy activate_first
