-- ===== src/Ledgers/Candidates/Gated.antt =====
-- What the candidate ledger of src/joiny_mnemonic/storage.py records, and on whose authority.
use mathlib.Core.Path.{subst}
use joiny_mnemonic.Prelude.{
  String, Bool, true, false, not, ◌&&◌, ◌||◌, Option, none, some, List, [], ◌∷◌, ◌==◌, string_eq,
  map, any, elem, get, ok, raise_if, recast, recast-eq-ok, >>=-eq-ok, >>-eq-ok, ◌≡◌, refl, sym, ap,
  ◌∙◌, ◌⊎◌, Bool-cases, Option-cases, inl, inr,
}
use joiny_mnemonic.Transitions.{
  TransitionRule, TransitionDecision, targets, validate_transition, candidate_flow, settlement_flow,
  candidate_rule, settlement_rule,
}
use joiny_mnemonic.Transitions.Gate.{
  IsPermitted, validate_transition_iff, validate_transition-cases, validate_transition-visible,
}
use joiny_mnemonic.Transitions.Ledger.{no_reopen}
use joiny_mnemonic.Store.{Event, integrity_error}
use joiny_mnemonic.Store.Append.{is_truthy}
use joiny_mnemonic.Store.Ingest.{find_event}
use joiny_mnemonic.Ledgers.{
  Candidate, CandidateTransition, Ledgers, store_error, rule_error, unsupported_candidate_status,
  replacement_missing,
}
use joiny_mnemonic.Ledgers.Sources.{event_visible}
use joiny_mnemonic.Ledgers.Candidates.{
  Change, candidate_status, joined, has_replacements, change_request, gate, candidate_row,
  insert_candidate, change_candidate, change_from, transition_from, transition_candidate,
  or_pending, settle_from, settle_candidate,
}

-- A recorded move is an edge of the rule's table, and a protected target has a trusted origin, unless
-- the process itself is the actor.
pub record Gated (rule : TransitionRule) (system : Bool) (row : CandidateTransition) : Type 0 where
  pub before : String
  pub is_before : row.from_status ≡ some before
  pub edge : elem row.to_status (targets (get before rule.flow)) ≡ true
  pub trusted :
      (system
        || (not (elem row.to_status rule.trusted_targets)
            || elem row.origin_evidence_type rule.trusted_origins))
      ≡ true

-- A row names no status before it and is the first of its candidate, or it names the status that its
-- candidate had (for a settlement, `pending` where there was none or
-- a blank one) and is gated by one of the rules.
abbrev pub IsGated : List CandidateTransition → CandidateTransition → Type 0
IsGated older row =
    let was = candidate_status row.candidate_id older in
    ((row.from_status ≡ none) × (was ≡ none))
    ⊎ (((row.from_status ≡ was) × Gated candidate_rule false row)
        ⊎ ((row.from_status ≡ some (or_pending was))
            × Gated settlement_rule (row.actor == "system") row))

-- Each row of the ledger, after those that are older
abbrev pub AreGated : List CandidateTransition → Type 0
AreGated [] = Unit
AreGated (row ∷ older) = IsGated older row × AreGated older

module _ (casefold : String → String) (l : Ledgers) where
  pub gate-cases :
      (rule : TransitionRule) (e : Event) (branch current target : String) (system : Bool)
      (d : TransitionDecision)
      → gate casefold l rule e branch current target system ≡ ok d
      → (event_visible l.store e branch ≡ ok true)
        × (((d.changed ≡ true)
              × IsPermitted rule (change_request casefold l e true current target system))
            ⊎ ((d.changed ≡ false) × (current ≡ target)))
  unfolding gate
  gate-cases rule e branch current target system d h =
      let (visible, seen, h₁) =
        >>=-eq-ok (recast store_error (event_visible l.store e branch)) _ h in
      let q = change_request casefold l e visible current target system in
      let passed = recast-eq-ok rule_error (validate_transition rule q) h₁ in
      let sees : visible ≡ true = validate_transition-visible rule q d passed in
      let looked = recast-eq-ok store_error (event_visible l.store e branch) seen in
      (
        looked ∙ ap ok sees,
        elim (validate_transition-cases rule q d passed) [
          | inl (changed, accepts) ↦ inl (
            changed,
            subst (λ v. IsPermitted rule (change_request casefold l e v current target system)) sees
                ((validate_transition_iff rule q).0 accepts),
          )
          | inr same ↦ inr same
        ],
      )

  -- What a call did: nothing, for a status that was current, or one row in front of the others.
  pub data Changed (rule : TransitionRule) (c : Change) (current : String) (e : Event)
      (system : Bool) (l' : Ledgers) (r : Option String) : Type 0 where
    same : current ≡ c.to_status → l ≡ l' → r ≡ none → Changed rule c current e system l' r
    moved :
        Gated rule system (candidate_row casefold c current e)
        → record l {
          candidate_transitions = candidate_row casefold c current e ∷ l.candidate_transitions;
        }
          ≡ l'
        → Changed rule c current e system l' r

  pub IsPermitted-Gated :
      (rule : TransitionRule) (c : Change) (current : String) (e : Event) (system : Bool)
      → IsPermitted rule (change_request casefold l e true current c.to_status system)
      → Gated rule system (candidate_row casefold c current e)
  IsPermitted-Gated rule c current e system p =
      let may = no_reopen p refl in
      record { before = current; is_before = refl; edge = may.edge; trusted = may.trusted }

  pub change_candidate-Changed :
      (rule : TransitionRule) (c : Change) (branch current : String) (e : Event) (system : Bool)
      (l' : Ledgers) (r : Option String)
      → change_candidate casefold l rule c branch current e system ≡ ok (l', r)
      → (event_visible l.store e branch ≡ ok true) × Changed rule c current e system l' r
  unfolding change_candidate insert_candidate
  change_candidate-Changed rule c branch current e system l' r h =
      let (d, passed, h₁) =
        >>=-eq-ok (gate casefold l rule e branch current c.to_status system) _ h in
      let (seen, ways) = gate-cases rule e branch current c.to_status system d passed in
      (
        seen,
        elim ways [
          | inr (kept, status) ↦ let h₂ = rw kept at h₁ in same status (cc h₂) (cc h₂)
          | inl (changed, p) ↦
              let row = candidate_row casefold c current e in
              let bad =
                not (has_replacements l c) || any (λ t. t.id == row.id) l.candidate_transitions in
              let made = record l { candidate_transitions = row ∷ l.candidate_transitions } in
              let (_, h₂) =
                >>-eq-ok (raise_if bad (store_error integrity_error)) (ok (made, some row.id))
                  (rw changed at h₁) in
              moved (IsPermitted-Gated rule c current e system p) (cc h₂)
        ],
      )

  -- The source of a call that returned
  pub change_from-cases :
      (rule : TransitionRule) (c : Change) (branch current : String) (system : Bool) (l' : Ledgers)
      (r : Option String)
      → change_from casefold l rule c branch current system ≡ ok (l', r)
      → (e : Event) × (find_event c.source_event_id l.store.events ≡ some e)
        × (event_visible l.store e branch ≡ ok true)
        × Changed rule c current e system l' r
  unfolding change_from
  change_from-cases rule c branch current system l' r h =
      elim (Option-cases (find_event c.source_event_id l.store.events)) [
        | inl missing ↦ cc (rw (change_from, missing) at h)
        | inr (e, at) ↦
            let (seen, changed) =
              change_candidate-Changed rule c branch current e system l' r
                (rw (change_from, at) at h) in
            (e, at, seen, changed)
      ]

  Changed-All :
      (rule : TransitionRule) (c : Change) (current : String) (e : Event) (system : Bool)
      (l' : Ledgers) (r : Option String)
      → (Gated rule system (candidate_row casefold c current e)
          → IsGated l.candidate_transitions (candidate_row casefold c current e))
      → Changed rule c current e system l' r
      → AreGated l.candidate_transitions
      → AreGated l'.candidate_transitions
  Changed-All rule c current e system l' r to (same status kept _) all =
      subst (λ (v : Ledgers). AreGated v.candidate_transitions) kept all
  Changed-All rule c current e system l' r to (moved gated made) all =
      subst (λ (v : Ledgers). AreGated v.candidate_transitions) made (to gated, all)

  transition_candidate-IsGated :
      (c : Change) (l' : Ledgers) (r : Option String)
      → transition_candidate casefold l c ≡ ok (l', r)
      → AreGated l.candidate_transitions
      → AreGated l'.candidate_transitions
  unfolding transition_candidate transition_from
  transition_candidate-IsGated c l' r h all =
      let (_, h₁) =
        >>-eq-ok
          (raise_if (not (elem c.to_status (map (λ row. row.0) candidate_flow)))
            unsupported_candidate_status)
          _ h in
      let (_, h₂) =
        >>-eq-ok
          (raise_if
            (c.to_status == "superseded"
              && not (is_truthy c.replacement_candidate_id || is_truthy c.replacement_memory_id))
            replacement_missing)
          _ h₁ in
      elim (Option-cases (candidate_status c.subject_id l.candidate_transitions)) [
        | inl unknown ↦ cc (rw (transition_from, unknown) at h₂)
        | inr (current, status) ↦ elim (Option-cases (joined l c.subject_id)) [
          | inl apart ↦ cc (rw (status, transition_from, apart) at h₂)
          | inr (row, at) ↦
              let (e, _, _, changed) =
                change_from-cases candidate_rule c row.1.branch_id current false l' r
                  (rw (status, transition_from, at) at h₂) in
              Changed-All candidate_rule c current e false l' r (λ g. inr (inl (sym status, g)))
                changed all
        ]
      ]

  -- A settlement that returned found its candidate, and changed it from its status.
  pub settle_candidate-cases :
      (c : Change) (l' : Ledgers) (r : Option String)
      → settle_candidate casefold l c ≡ ok (l', r)
      → let c' : Change = record c {
        replacement_candidate_id = none;
        replacement_memory_id = none;
      } in
        (elem c.to_status (map (λ row. row.0) settlement_flow) ≡ true)
        × ((row : Candidate × Event) × (joined l c.subject_id ≡ some row)
            × ((row.0.candidate_kind == "extraction") ≡ false)
            × (change_from casefold l settlement_rule c' row.1.branch_id
                  (or_pending (candidate_status c.subject_id l.candidate_transitions))
                  (c.actor == "system")
                ≡ ok (l', r)))
  unfolding settle_candidate settle_from
  settle_candidate-cases c l' r h =
      let known = elem c.to_status (map (λ row. row.0) settlement_flow) in
      elim (Bool-cases known) [
        | inr unknown ↦ cc (rw (settle_candidate, unknown) at h)
        | inl supported ↦ elim (Option-cases (joined l c.subject_id)) [
          | inl apart ↦ cc (rw (settle_candidate, supported, apart) at h)
          | inr (row, at) ↦ elim (Bool-cases (row.0.candidate_kind == "extraction")) [
            | inl extraction ↦ cc (rw (settle_candidate, supported, at, extraction) at h)
            | inr settles ↦
                (supported, (row, at, settles, rw (settle_candidate, supported, at, settles) at h))
          ]
        ]
      ]

  settle_candidate-IsGated :
      (c : Change) (l' : Ledgers) (r : Option String)
      → settle_candidate casefold l c ≡ ok (l', r)
      → AreGated l.candidate_transitions
      → AreGated l'.candidate_transitions
  settle_candidate-IsGated c l' r h all =
      let c' : Change = record c {
        replacement_candidate_id = none;
        replacement_memory_id = none;
      } in
      let current = or_pending (candidate_status c.subject_id l.candidate_transitions) in
      let (_, (row, _, _, rest)) = settle_candidate-cases c l' r h in
      let (e, _, _, changed) =
        change_from-cases settlement_rule c' row.1.branch_id current (c.actor == "system") l' r
          rest in
      Changed-All settlement_rule c' current e (c.actor == "system") l' r (λ g. inr (inr (refl, g)))
        changed all

  -- Where each row of the candidate ledger either names no status before it and is the first of its
  -- candidate, or names the status that the rows before it give its candidate (for a settlement,
  -- `pending` where they give none or a blank one), is a move that the flow table of candidates or of
  -- settlements has, and records a protected status only with a trusted origin or, for a settlement,
  -- with the process itself as the actor, this is still so after a call of `transition_candidate` or of
  -- `settle_candidate`.
  pub candidate_transitions-IsGated :
      (c : Change) (l' : Ledgers) (r : Option String)
      → (transition_candidate casefold l c ≡ ok (l', r))
        ⊎ (settle_candidate casefold l c ≡ ok (l', r))
      → AreGated l.candidate_transitions
      → AreGated l'.candidate_transitions
  candidate_transitions-IsGated c l' r (inl h) all = transition_candidate-IsGated c l' r h all
  candidate_transitions-IsGated c l' r (inr h) all = settle_candidate-IsGated c l' r h all
