-- ===== src/Ledgers/Candidates/Once.antt =====
-- A settlement of src/joiny_mnemonic/storage.py is consumed once: its repetition records nothing.
use joiny_mnemonic.Prelude.{
  String, Bool, true, Option, none, some, ◌==◌, string_eq, map, elem, elem_ind, ok, ◌≡◌, refl, sym,
  ap, ◌∙◌, beq_refl,
}
use joiny_mnemonic.Transitions.{TransitionRule, settlement_flow, settlement_rule}
use joiny_mnemonic.Transitions.Gate.{validate_transition_repeat}
use joiny_mnemonic.Store.{Event, Store}
use joiny_mnemonic.Store.Ingest.{find_event}
use joiny_mnemonic.Ledgers.{Ledgers}
use joiny_mnemonic.Ledgers.Sources.{event_visible}
use joiny_mnemonic.Ledgers.Candidates.{
  Change, candidate_status, find_candidate, join_event, joined, change_request, gate,
  change_candidate, change_from, or_pending, settle_from, settle_candidate,
}
use joiny_mnemonic.Ledgers.Candidates.Gated.{
  Changed, same, moved, change_from-cases, settle_candidate-cases,
}

-- No supported status is the empty text.
supported_status :
    (to : String) → elem to (map (λ row. row.0) settlement_flow) ≡ true → or_pending (some to) ≡ to
supported_status to h =
    elem_ind (λ v. or_pending (some v) ≡ v) to (map (λ row. row.0) settlement_flow)
      (refl, (refl, (refl, (refl, tt)))) h

module _ (casefold : String → String) (l : Ledgers) where
  -- From the status that is asked for, a visible source changes nothing.
  change_candidate-same :
      (rule : TransitionRule) (c : Change) (branch : String) (e : Event) (system : Bool)
      → event_visible l.store e branch ≡ ok true
      → change_candidate casefold l rule c branch c.to_status e system ≡ ok (l, none)
  unfolding change_candidate gate
  change_candidate-same rule c branch e system seen =
      let q = change_request casefold l e true c.to_status c.to_status system in
      rw (seen, validate_transition_repeat rule q refl refl)

  change_from-same :
      (rule : TransitionRule) (c : Change) (branch current : String) (e : Event) (system : Bool)
      → find_event c.source_event_id l.store.events ≡ some e
      → event_visible l.store e branch ≡ ok true
      → current ≡ c.to_status
      → change_from casefold l rule c branch current system ≡ ok (l, none)
  unfolding change_from
  change_from-same rule c branch current e system at seen status =
      rw (change_from, at, status) (change_candidate-same rule c branch e system seen)

-- What a repetition reads is as the first call left it.
record IsAfter (l : Ledgers) (c : Change) (l' : Ledgers) : Type 0 where
  store : l'.store ≡ l.store
  candidates : l'.candidates ≡ l.candidates
  status : or_pending (candidate_status c.subject_id l'.candidate_transitions) ≡ c.to_status

module _ (casefold : String → String) (l : Ledgers) where
  Changed-IsAfter :
      (c : Change) (e : Event) (system : Bool) (l' : Ledgers) (r : Option String)
      → elem c.to_status (map (λ row. row.0) settlement_flow) ≡ true
      → Changed casefold l settlement_rule
          (record c { replacement_candidate_id = none; replacement_memory_id = none })
          (or_pending (candidate_status c.subject_id l.candidate_transitions))
          e
          system
          l'
          r
      → IsAfter l c l'
  unfolding candidate_status
  Changed-IsAfter c e system l' r supported (same status kept _) = record {
    store = ap (λ (v : Ledgers). v.store) (sym kept);
    candidates = ap (λ (v : Ledgers). v.candidates) (sym kept);
    status =
        ap (λ (v : Ledgers). or_pending (candidate_status c.subject_id v.candidate_transitions))
          (sym kept)
        ∙ status;
  }
  Changed-IsAfter c e system l' r supported (moved gated made) = record {
    store = ap (λ (v : Ledgers). v.store) (sym made);
    candidates = ap (λ (v : Ledgers). v.candidates) (sym made);
    status =
        ap (λ (v : Ledgers). or_pending (candidate_status c.subject_id v.candidate_transitions))
          (sym made)
        ∙ rw (beq_refl c.subject_id) (supported_status c.to_status supported);
  }

  joined-after :
      (l' : Ledgers) (id : String)
      → l'.store ≡ l.store
      → l'.candidates ≡ l.candidates
      → joined l' id ≡ joined l id
  unfolding joined
  joined-after l' id store candidates =
      ap (λ v. join_event l'.store.events (find_candidate id v)) candidates
      ∙ ap (λ (v : Store). join_event v.events (find_candidate id l.candidates)) store

  -- A settlement that is repeated, with the same source and whatever identifier the second call
  -- draws, returns no transition and leaves the ledgers as they are.
  pub settle_candidate-again :
      (c : Change) (l' : Ledgers) (r : Option String) (id : String)
      → settle_candidate casefold l c ≡ ok (l', r)
      → settle_candidate casefold l' (record c { id = id }) ≡ ok (l', none)
  unfolding settle_candidate settle_from
  settle_candidate-again c l' r id h =
      let (supported, (row, at, settles, rest)) = settle_candidate-cases casefold l c l' r h in
      let c₁ : Change = record c {
        replacement_candidate_id = none;
        replacement_memory_id = none;
      } in
      let current = or_pending (candidate_status c.subject_id l.candidate_transitions) in
      let system = c.actor == "system" in
      let (e, source, seen, changed) =
        change_from-cases casefold l settlement_rule c₁ row.1.branch_id current system l' r rest in
      let z = Changed-IsAfter c e system l' r supported changed in
      let c₂ : Change = record c₁ { id = id } in
      rw
        (
          settle_candidate,
          supported,
          joined-after l' c.subject_id z.store z.candidates ∙ at,
          settles,
        )
        (change_from-same casefold l' settlement_rule c₂ row.1.branch_id
          (or_pending (candidate_status c.subject_id l'.candidate_transitions)) e system
          (ap (λ (v : Store). find_event c.source_event_id v.events) z.store ∙ source)
          (ap (λ v. event_visible v e row.1.branch_id) z.store ∙ seen) z.status)
