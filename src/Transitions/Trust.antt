-- ===== src/Transitions/Trust.antt =====
-- The authority of an event and the transitions that it can cause: untrusted text can request, and
-- it can never settle.
use joiny_mnemonic.Prelude.{
  String, Bool, true, false, ◌||◌, ◌≡◌, refl, ◌≢◌, inl, inr, string_eq, elem, ◌∙◌,
}
use joiny_mnemonic.Provenance.{
  EventProvenance, origin_evidence_type, origin_evidence_type_untrusted, external_untrusted,
  host_hook, internal,
}
use joiny_mnemonic.Transitions.{
  TransitionRule, Request, workstream_rule, candidate_rule, finding_rule, settlement_rule,
  validate_transition,
}
use joiny_mnemonic.Transitions.Gate.{IsPermitted, accepted, validate_transition_iff}

-- The four rules of transition_rules.py
pub data Entity : Type 0 where
  workstream candidate finding settlement : Entity

abbrev pub rule_for : Entity → TransitionRule
rule_for workstream = workstream_rule
rule_for candidate = candidate_rule
rule_for finding = finding_rule
rule_for settlement = settlement_rule

untrusted_everywhere :
    (e : Entity)
    → (elem external_untrusted (rule_for e).trusted_origins ≡ false)
      × (elem external_untrusted (rule_for e).reopen_origins ≡ false)
untrusted_everywhere workstream = (refl, refl)
untrusted_everywhere candidate = (refl, refl)
untrusted_everywhere finding = (refl, refl)
untrusted_everywhere settlement = (refl, refl)

-- A request for a protected target, or to reopen a terminal state.
abbrev pub is_protected : TransitionRule → Request → Bool
is_protected rule q = q.reopen || elem q.target rule.trusted_targets

unpermitted :
    (e : Entity) (q : Request)
    → q.origin ≡ external_untrusted
    → q.system_actor ≡ false
    → is_protected (rule_for e) q ≡ true
    → ¬ IsPermitted (rule_for e) q
unpermitted e q o a h p =
    let (origins, reopens) = untrusted_everywhere e in
    elim p.way [
      | inl (_, may) ↦ cc (may.trusted, rw (← o) at reopens)
      | inr (closed, may) ↦
          let trusted = may.trusted in
          let outside = rw (← o) at origins in
          let protected = rw closed at h in cc (rw (a, protected, outside) at trusted)
    ]

-- A request whose origin is the evidence type of an event of the public API, or of any channel but
-- the host's and the process's own, and that no system actor makes, changes no status to a protected
-- one and reopens nothing, for each of the four rules, whatever the event's payload claims.
pub untrusted_never_settles :
    (casefold : String → String) (e : Entity) (event : EventProvenance) (q : Request)
    → event.origin_channel ≢ host_hook
    → event.origin_channel ≢ internal
    → q.origin ≡ origin_evidence_type casefold event
    → q.system_actor ≡ false
    → is_protected (rule_for e) q ≡ true
    → validate_transition (rule_for e) q ≢ accepted q
untrusted_never_settles casefold e event q h k o a p accepts =
    unpermitted e q (o ∙ origin_evidence_type_untrusted casefold event h k) a p
      ((validate_transition_iff (rule_for e) q).0 accepts)
