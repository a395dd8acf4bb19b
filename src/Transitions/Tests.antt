-- ===== src/Transitions/Tests.antt =====
-- The theorems of Transitions on requests about a candidate.
use joiny_mnemonic.Prelude.{
  String, true, false, some, none, ◌≡◌, refl, ◌↔◌, ◌≢◌, ne_of_beq, string_eq,
}
use joiny_mnemonic.Json.{empty, item, str, lookup}
use joiny_mnemonic.Provenance.{
  EventProvenance, origin_evidence_type, external_untrusted, local_operator, host_logical_user,
  host_hook, internal, public_api,
}
use joiny_mnemonic.Transitions.{
  Request, validate_transition, validate_flow, candidate_rule, workstream_rule,
}
use joiny_mnemonic.Transitions.Gate.{IsPermitted, accepted, validate_transition_iff}
use joiny_mnemonic.Transitions.Ledger.{Step, Run, here, step}
use joiny_mnemonic.Transitions.Trust.{candidate, rule_for, untrusted_never_settles}

abbrev change : String → String → String → Request
change current target origin = record {
  current = current;
  target = target;
  origin = origin;
  source_visible = true;
  delegated_enabled = false;
  reopen = false;
  reason = "";
  system_actor = false;
}

validate_transition_iff_example :
    (validate_transition workstream_rule (change "active" "completed" host_logical_user)
      ≡ accepted (change "active" "completed" host_logical_user))
    ↔ IsPermitted workstream_rule (change "active" "completed" host_logical_user)
validate_transition_iff_example =
    validate_transition_iff workstream_rule (change "active" "completed" host_logical_user)

ask : Step candidate_rule "quarantined" "confirmation_requested"
unfolding validate_transition validate_flow
ask = record {
  request = change "quarantined" "confirmation_requested" external_untrusted;
  from_s = refl;
  to_t = refl;
  closed = refl;
  is_accepted = refl;
}

confirm : Step candidate_rule "confirmation_requested" "confirmed"
unfolding validate_transition validate_flow
confirm = record {
  request = change "confirmation_requested" "confirmed" host_logical_user;
  from_s = refl;
  to_t = refl;
  closed = refl;
  is_accepted = refl;
}

ask_again : Step candidate_rule "confirmed" "supersession_requested"
unfolding validate_transition validate_flow
ask_again = record {
  request = change "confirmed" "supersession_requested" external_untrusted;
  from_s = refl;
  to_t = refl;
  closed = refl;
  is_accepted = refl;
}

supersede : Step candidate_rule "supersession_requested" "superseded"
unfolding validate_transition validate_flow
supersede = record {
  request = change "supersession_requested" "superseded" local_operator;
  from_s = refl;
  to_t = refl;
  closed = refl;
  is_accepted = refl;
}

life : Run candidate_rule 4 "quarantined" "superseded"
life = step ask (step confirm (step ask_again (step supersede here)))

abbrev claim : EventProvenance
claim = record {
  role = some "user";
  origin_channel = public_api;
  origin_adapter = none;
  payload = item "requested_by" (str "operator") empty;
}

abbrev same_case : String → String
same_case s = s

says_nothing : external_untrusted ≡ origin_evidence_type same_case claim
unfolding origin_evidence_type lookup
says_nothing = refl

untrusted_never_settles_example :
    validate_transition
      (rule_for candidate)
      (change "confirmation_requested" "confirmed" external_untrusted)
    ≢ accepted (change "confirmation_requested" "confirmed" external_untrusted)
untrusted_never_settles_example =
    untrusted_never_settles same_case candidate claim
      (change "confirmation_requested" "confirmed" external_untrusted)
      (ne_of_beq claim.origin_channel host_hook refl) (ne_of_beq claim.origin_channel internal refl)
      says_nothing refl refl
