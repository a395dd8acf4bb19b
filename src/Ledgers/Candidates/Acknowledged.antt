-- ===== src/Ledgers/Candidates/Acknowledged.antt =====
-- Who acknowledges a security finding of src/joiny_mnemonic/storage.py.
use joiny_mnemonic.Prelude.{
  String, true, false, not, Option, none, some, [], ◌∷◌, string_eq, elem, ok, raise_if, >>=-eq-ok,
  >>-eq-ok, ◌≡◌, refl, Option-cases, inl, inr,
}
use joiny_mnemonic.Transitions.{finding_rule, user_or_operator}
use joiny_mnemonic.Transitions.Ledger.{no_reopen}
use joiny_mnemonic.Store.{Event}
use joiny_mnemonic.Store.Ingest.{find_event}
use joiny_mnemonic.Ledgers.{Ledgers, unsupported_finding_status, event_origin_evidence}
use joiny_mnemonic.Ledgers.Sources.{event_visible}
use joiny_mnemonic.Ledgers.Candidates.{
  Change, finding_status, gate, change_finding, finding_from, transition_finding,
}
use joiny_mnemonic.Ledgers.Candidates.Gated.{gate-cases}

-- The event that acknowledged a finding
pub record Acknowledges (casefold : String → String) (l : Ledgers) (c : Change) : Type 0 where
  pub source : Event
  pub at : find_event c.source_event_id l.store.events ≡ some source
  pub seen : event_visible l.store source "main" ≡ ok true
  pub origin : elem (event_origin_evidence casefold source) user_or_operator ≡ true

module _ (casefold : String → String) (l : Ledgers) (c : Change) (l' : Ledgers) (id : String)
    (acknowledged : c.to_status ≡ "acknowledged") where
  changed-Acknowledges :
      (current : String) (e : Event)
      → find_event c.source_event_id l.store.events ≡ some e
      → change_finding casefold l c current e ≡ ok (l', some id)
      → Acknowledges casefold l c
  unfolding change_finding
  changed-Acknowledges current e at h =
      let (d, passed, h₁) =
        >>=-eq-ok (gate casefold l finding_rule e "main" current c.to_status false) _ h in
      let (seen, ways) =
        gate-cases casefold l finding_rule e "main" current c.to_status false d passed in
      elim ways [
        | inr (same, _) ↦ cc (rw same at h₁)
        | inl (_, permitted) ↦
            let trusted = (no_reopen permitted refl).trusted in
            record { source = e; at = at; seen = seen; origin = rw acknowledged at trusted }
      ]

  from-Acknowledges :
      (current : Option String)
      → finding_from casefold l c current ≡ ok (l', some id)
      → Acknowledges casefold l c
  unfolding finding_from
  from-Acknowledges none h = cc h
  from-Acknowledges (some current) h =
      elim (Option-cases (find_event c.source_event_id l.store.events)) [
        | inl missing ↦ cc (rw (finding_from, missing) at h)
        | inr (e, at) ↦ changed-Acknowledges current e at (rw (finding_from, at) at h)
      ]

  -- A call that records the acknowledgement of a finding rests on an event that the main branch sees and
  -- whose origin is the user or the operator: no delegated agent acknowledges one, whatever the policy.
  pub transition_finding-acknowledged :
      transition_finding casefold l c ≡ ok (l', some id) → Acknowledges casefold l c
  unfolding transition_finding
  transition_finding-acknowledged h =
      let (_, h₁) =
        >>-eq-ok
          (raise_if (not (elem c.to_status ("acknowledgement_requested" ∷ "acknowledged" ∷ [])))
            unsupported_finding_status)
          _ h in
      from-Acknowledges (finding_status c.subject_id l.finding_transitions) h₁
