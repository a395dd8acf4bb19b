-- ===== src/Ledgers/Candidates.antt =====
-- Candidates and security findings of src/joiny_mnemonic/storage.py: `transition_candidate`,
-- `settle_candidate` and `transition_finding`.
pub mod Gated
pub mod Once
pub mod Acknowledged
use joiny_mnemonic.Prelude.{
  ℕ, String, Bool, true, false, not, ◌&&◌, ◌||◌, Option, none, some, List, [], ◌∷◌, if◌then◌else◌,
  ◌==◌, string_eq, map, any, elem, get, Outcome, ok, raise, raise_if, recast, ◌>>=◌, ◌>>◌,
}
use joiny_mnemonic.Transitions.{
  TransitionRule, Request, TransitionDecision, validate_transition, candidate_flow, settlement_flow,
  candidate_rule, settlement_rule, finding_rule,
}
use joiny_mnemonic.Store.{Event, unknown_event, integrity_error}
use joiny_mnemonic.Store.Append.{is_truthy}
use joiny_mnemonic.Store.Ingest.{find_event}
use joiny_mnemonic.Ledgers.{
  Candidate, CandidateTransition, FindingTransition, Ledgers, LedgerError, store_error, rule_error,
  unsupported_candidate_status, replacement_missing, unknown_candidate, candidate_without_event,
  unsupported_settlement_status, not_a_settlement, unsupported_finding_status, unknown_finding,
  delegation_enabled, event_origin_evidence,
}
use joiny_mnemonic.Ledgers.Sources.{event_visible}

-- The arguments of the three methods, with the identifier that the code draws
pub record Change : Type 0 where
  pub id : String
  pub subject_id : String
  pub to_status : String
  pub source_event_id : String
  pub actor : String
  pub rule_id : String
  pub replacement_candidate_id : Option String
  pub replacement_memory_id : Option String

-- `_candidate_status_locked`
unfoldable pub candidate_status : String → List CandidateTransition → Option String
candidate_status id [] = none
candidate_status id (t ∷ ts) =
    if t.candidate_id == id then some t.to_status else candidate_status id ts

unfoldable pub finding_status : String → List FindingTransition → Option String
finding_status id [] = none
finding_status id (t ∷ ts) = if t.finding_id == id then some t.to_status else finding_status id ts

unfoldable pub find_candidate : String → List Candidate → Option Candidate
find_candidate id [] = none
find_candidate id (c ∷ cs) = if c.id == id then some c else find_candidate id cs

-- The candidate joined with the event of its run, from the two tables
unfoldable pub join_event : List Event → Option Candidate → Option (Candidate × Event)
join_event events none = none
join_event events (some c) = elim (find_event c.event_id events) [
  | none ↦ none
  | some e ↦ some (c, e)
]

unfoldable pub joined : Ledgers → String → Option (Candidate × Event)
joined l id = join_event l.store.events (find_candidate id l.candidates)

abbrev is_row {ℓ} : {A : Type ℓ} → Option String → (String → Option A) → Bool
is_row none find = true
is_row (some id) find = elim (find id) [ none ↦ false | some row ↦ true ]

-- The foreign keys of a replacement
abbrev pub has_replacements : Ledgers → Change → Bool
has_replacements l c =
    is_row c.replacement_candidate_id (λ id. find_candidate id l.candidates)
    && elim c.replacement_memory_id [ none ↦ true | some id ↦ elem id l.memory_ids ]

-- `status or "pending"`
abbrev pub or_pending : Option String → String
or_pending none = "pending"
or_pending (some status) = if status == "" then "pending" else status

module _ (casefold : String → String) where
  abbrev pub change_request : Ledgers → Event → Bool → String → String → Bool → Request
  change_request l e visible current target system = record {
    current = current;
    target = target;
    origin = event_origin_evidence casefold e;
    source_visible = visible;
    delegated_enabled = delegation_enabled l;
    reopen = false;
    reason = "";
    system_actor = system;
  }

  -- What the methods ask of `validate_transition`
  unfoldable pub gate :
      Ledgers
      → TransitionRule
      → Event
      → String
      → String
      → String
      → Bool
      → Outcome LedgerError TransitionDecision
  gate l rule e branch_id current target system = do
    visible ← recast store_error (event_visible l.store e branch_id)
    recast rule_error (validate_transition rule (change_request l e visible current target system))

  abbrev pub candidate_row : Change → String → Event → CandidateTransition
  candidate_row c current e = record {
    id = c.id;
    candidate_id = c.subject_id;
    from_status = some current;
    to_status = c.to_status;
    source_event_id = c.source_event_id;
    actor = c.actor;
    rule_id = c.rule_id;
    origin_evidence_type = event_origin_evidence casefold e;
    replacement_candidate_id = c.replacement_candidate_id;
    replacement_memory_id = c.replacement_memory_id;
  }

  -- `INSERT INTO candidate_transitions`
  unfoldable pub insert_candidate :
      Ledgers → CandidateTransition → Bool → Outcome LedgerError (Ledgers × Option String)
  insert_candidate l row keys = do
    raise_if (not keys || any (λ t. t.id == row.id) l.candidate_transitions)
        (store_error integrity_error)
    ok (record l { candidate_transitions = row ∷ l.candidate_transitions }, some row.id)

  -- From the status that is current, for a source that has a row
  unfoldable pub change_candidate :
      Ledgers
      → TransitionRule
      → Change
      → String
      → String
      → Event
      → Bool
      → Outcome LedgerError (Ledgers × Option String)
  change_candidate l rule c branch_id current e system = do
    decision ← gate l rule e branch_id current c.to_status system
    if not decision.changed
        then ok (l, none)
        else insert_candidate l (candidate_row c current e) (has_replacements l c)

  -- `SELECT * FROM events WHERE id=?` of the source, and the rest
  unfoldable pub change_from :
      Ledgers
      → TransitionRule
      → Change
      → String
      → String
      → Bool
      → Outcome LedgerError (Ledgers × Option String)
  change_from l rule c branch_id current system =
      elim (find_event c.source_event_id l.store.events) [
        | none ↦ raise (store_error unknown_event)
        | some e ↦ change_candidate l rule c branch_id current e system
      ]

  -- `transition_candidate`, from the current status of the candidate
  unfoldable pub transition_from :
      Ledgers → Change → Option String → Outcome LedgerError (Ledgers × Option String)
  transition_from l c none = raise unknown_candidate
  transition_from l c (some current) = elim (joined l c.subject_id) [
    | none ↦ raise candidate_without_event
    | some row ↦ change_from l candidate_rule c row.1.branch_id current false
  ]

  unfoldable pub transition_candidate :
      Ledgers → Change → Outcome LedgerError (Ledgers × Option String)
  transition_candidate l c = do
    raise_if (not (elem c.to_status (map (λ row. row.0) candidate_flow)))
        unsupported_candidate_status
    raise_if
        (c.to_status == "superseded"
          && not (is_truthy c.replacement_candidate_id || is_truthy c.replacement_memory_id))
        replacement_missing
    transition_from l c (candidate_status c.subject_id l.candidate_transitions)

  -- `settle_candidate`, for the candidate joined with its event
  unfoldable pub settle_from :
      Ledgers → Change → Option (Candidate × Event) → Outcome LedgerError (Ledgers × Option String)
  settle_from l c none = raise unknown_candidate
  settle_from l c (some row) =
      if row.0.candidate_kind == "extraction"
      then raise not_a_settlement
      else change_from l settlement_rule c row.1.branch_id
          (or_pending (candidate_status c.subject_id l.candidate_transitions)) (c.actor == "system")

  -- `settle_candidate`; a change of it names no replacement.
  unfoldable pub settle_candidate : Ledgers → Change → Outcome LedgerError (Ledgers × Option String)
  settle_candidate l c = do
    raise_if (not (elem c.to_status (map (λ row. row.0) settlement_flow)))
        unsupported_settlement_status
    settle_from l (record c { replacement_candidate_id = none; replacement_memory_id = none })
        (joined l c.subject_id)

  abbrev pub finding_row : Change → String → Event → FindingTransition
  finding_row c current e = record {
    id = c.id;
    finding_id = c.subject_id;
    from_status = some current;
    to_status = c.to_status;
    source_event_id = c.source_event_id;
    actor = c.actor;
    origin_evidence_type = event_origin_evidence casefold e;
  }

  -- `INSERT INTO finding_transitions`
  unfoldable pub insert_finding :
      Ledgers → FindingTransition → Outcome LedgerError (Ledgers × Option String)
  insert_finding l row = do
    raise_if (any (λ t. t.id == row.id) l.finding_transitions) (store_error integrity_error)
    ok (record l { finding_transitions = row ∷ l.finding_transitions }, some row.id)

  unfoldable pub change_finding :
      Ledgers → Change → String → Event → Outcome LedgerError (Ledgers × Option String)
  change_finding l c current e = do
    decision ← gate l finding_rule e "main" current c.to_status false
    if not decision.changed then ok (l, none) else insert_finding l (finding_row c current e)

  unfoldable pub finding_from :
      Ledgers → Change → Option String → Outcome LedgerError (Ledgers × Option String)
  finding_from l c none = raise unknown_finding
  finding_from l c (some current) = elim (find_event c.source_event_id l.store.events) [
    | none ↦ raise (store_error unknown_event)
    | some e ↦ change_finding l c current e
  ]

  unfoldable pub transition_finding :
      Ledgers → Change → Outcome LedgerError (Ledgers × Option String)
  transition_finding l c = do
    raise_if (not (elem c.to_status ("acknowledgement_requested" ∷ "acknowledged" ∷ [])))
        unsupported_finding_status
    finding_from l c (finding_status c.subject_id l.finding_transitions)
