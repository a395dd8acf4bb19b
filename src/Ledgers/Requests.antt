-- ===== src/Ledgers/Requests.antt =====
-- The requests that reach the ledgers of src/joiny_mnemonic/storage.py as events of their own:
-- `record_security_finding`, `append_finding_ack_request` and `append_candidate_request`.
pub mod Repeated
pub mod Findings
mod Tests
use Prim.Native.String.{◌++◌ as text_append}
use joiny_mnemonic.Prelude.{
  ℕ, String, Bool, true, false, not, ◌||◌, Option, none, some, List, [], ◌∷◌, if◌then◌else◌, ◌==◌,
  string_eq, any, elem, get, Outcome, ok, raise, raise_if, recast, ◌>>=◌, ◌>>◌,
}
use joiny_mnemonic.Json.{Dict, empty, item, str, obj, opt_str}
use joiny_mnemonic.Provenance.{external_untrusted, internal}
use joiny_mnemonic.Transitions.{targets, candidate_rule, finding_rule, finding_flow}
use joiny_mnemonic.Store.{Event, Store, Externals, integrity_error}
use joiny_mnemonic.Store.Append.{NewEvent, Stamp, append_event_in_tx}
use joiny_mnemonic.Store.Ingest.{find_event}
use joiny_mnemonic.Ledgers.{
  Candidate, CandidateTransition, Finding, FindingTransition, Ledgers, LedgerError, store_error,
  unknown_candidate, candidate_without_event, unknown_finding, unsupported_candidate_request,
  illegal_finding_request, failed_assertion,
}
use joiny_mnemonic.Ledgers.Candidates.{
  Change, has_replacements, joined, gate, candidate_row, insert_candidate, finding_row,
  insert_finding,
}

-- An event of the process itself, with no session, no role and no files
abbrev pub state_event : String → String → Dict → NewEvent
state_event branch_id content payload = record {
  branch_id = branch_id;
  session_id = none;
  kind = "state";
  role = none;
  content = content;
  origin_channel = internal;
  origin_adapter = none;
  payload = payload;
  files = [];
}

-- The identifiers and the time that one request draws
pub record Draws : Type 0 where
  pub event : Stamp
  pub transition_id : String
  pub finding_id : String

-- `SELECT … ORDER BY rowid DESC LIMIT 1`
unfoldable pub latest_candidate_transition :
    String → List CandidateTransition → Option CandidateTransition
latest_candidate_transition id [] = none
latest_candidate_transition id (t ∷ ts) =
    if t.candidate_id == id then some t else latest_candidate_transition id ts

unfoldable pub latest_finding_transition :
    String → List FindingTransition → Option FindingTransition
latest_finding_transition id [] = none
latest_finding_transition id (t ∷ ts) =
    if t.finding_id == id then some t else latest_finding_transition id ts

unfoldable pub find_incident : String → List Finding → Option Finding
find_incident key [] = none
find_incident key (f ∷ fs) = if f.incident_key == key then some f else find_incident key fs

-- The arguments of `append_candidate_request`
pub record CandidateRequest : Type 0 where
  pub candidate_id : String
  pub request_status : String
  pub branch_id : String
  pub action : String
  pub origin_evidence_type : String
  pub replacement_candidate_id : Option String
  pub replacement_memory_id : Option String

abbrev pub request_statuses : List String
request_statuses = "confirmation_requested" ∷ "rejection_requested" ∷ "supersession_requested" ∷ []

abbrev pub request_event : CandidateRequest → NewEvent
request_event q =
    state_event q.branch_id
      (text_append "candidate " (text_append q.action (text_append " requested: " q.candidate_id)))
      (item "operation" (str q.request_status) (
        item "candidate_id" (str q.candidate_id) (
          item "replacement_candidate_id" (opt_str q.replacement_candidate_id) (
            item "replacement_memory_id" (opt_str q.replacement_memory_id)
              (item "origin_evidence_type" (str q.origin_evidence_type) empty)))))

abbrev pub request_change : CandidateRequest → Event → String → Change
request_change q e transition_id = record {
  id = transition_id;
  subject_id = q.candidate_id;
  to_status = q.request_status;
  source_event_id = e.id;
  actor = "request_reducer";
  rule_id = text_append "untrusted_" (text_append q.action "_request");
  replacement_candidate_id = q.replacement_candidate_id;
  replacement_memory_id = q.replacement_memory_id;
}

abbrev pub finding_change : String → Event → String → Change
finding_change finding_id e transition_id = record {
  id = transition_id;
  subject_id = finding_id;
  to_status = "acknowledgement_requested";
  source_event_id = e.id;
  actor = "request_reducer";
  rule_id = "";
  replacement_candidate_id = none;
  replacement_memory_id = none;
}

-- The event of a request that was made before, and its transition
unfoldable pub made_before :
    Ledgers → String → String → Outcome LedgerError (Ledgers × Event × String)
made_before l source_event_id transition_id = elim (find_event source_event_id l.store.events) [
  | none ↦ raise failed_assertion
  | some e ↦ ok (l, e, transition_id)
]

module _ (casefold : String → String) (x : Externals) where
  -- The gate without delegation: the policy is not read for a request.
  abbrev pub undelegated : Ledgers → Ledgers
  undelegated l = record l { policies = [] }

  -- After the event: the gate and the row
  unfoldable pub record_request :
      Ledgers
      → CandidateRequest
      → String
      → String
      → Event
      → String
      → Outcome LedgerError (Ledgers × Event × String)
  record_request l q current branch_id e transition_id = do
    let c : Change = request_change q e transition_id
    _ ← gate casefold (undelegated l) candidate_rule e branch_id current q.request_status false
    (l', _) ←
        insert_candidate casefold l (candidate_row casefold c current e) (has_replacements l c)
    ok (l', e, transition_id)

  -- A request from another status: the event is appended, and the row names it.
  unfoldable pub new_request :
      Ledgers → CandidateRequest → String → Draws → Outcome LedgerError (Ledgers × Event × String)
  new_request l q current drawn = elim (joined l q.candidate_id) [
    | none ↦ raise candidate_without_event
    | some row ↦ do
      (store, e) ← recast store_error (append_event_in_tx x l.store (request_event q) drawn.event)
      record_request (record l { store = store }) q current row.1.branch_id e drawn.transition_id
  ]

  unfoldable pub request_from :
      Ledgers
      → CandidateRequest
      → Draws
      → Option CandidateTransition
      → Outcome LedgerError (Ledgers × Event × String)
  request_from l q drawn none = raise unknown_candidate
  request_from l q drawn (some latest) =
      if latest.to_status == q.request_status
      then made_before l latest.source_event_id latest.id
      else new_request l q latest.to_status drawn

  unfoldable pub append_candidate_request :
      Ledgers → CandidateRequest → Draws → Outcome LedgerError (Ledgers × Event × String)
  append_candidate_request l q drawn = do
    raise_if (not (elem q.request_status request_statuses)) unsupported_candidate_request
    request_from l q drawn (latest_candidate_transition q.candidate_id l.candidate_transitions)

  abbrev pub ack_event : String → String → String → NewEvent
  ack_event finding_id branch_id evidence =
      state_event branch_id (text_append "security finding acknowledgement requested: " finding_id)
        (item "operation" (str "acknowledgement_requested")
          (item "finding_id" (str finding_id) (item "origin_evidence_type" (str evidence) empty)))

  -- After the event of an acknowledgement request: the gate and the row
  unfoldable pub record_ack :
      Ledgers
      → String
      → String
      → String
      → Event
      → String
      → Outcome LedgerError (Ledgers × Event × String)
  record_ack l finding_id branch_id current e transition_id = do
    let c : Change = finding_change finding_id e transition_id
    _ ← gate casefold (undelegated l) finding_rule e branch_id current c.to_status false
    (l', _) ← insert_finding casefold l (finding_row casefold c current e)
    ok (l', e, transition_id)

  unfoldable pub ack_from :
      Ledgers
      → String
      → String
      → String
      → Draws
      → Option FindingTransition
      → Outcome LedgerError (Ledgers × Event × String)
  ack_from l finding_id branch_id evidence drawn none = raise unknown_finding
  ack_from l finding_id branch_id evidence drawn (some latest) =
      if latest.to_status == "acknowledgement_requested"
      then made_before l latest.source_event_id latest.id
      else if not (elem "acknowledgement_requested" (targets (get latest.to_status finding_flow)))
      then raise illegal_finding_request
      else do
        (store, e) ←
            recast store_error
              (append_event_in_tx x l.store (ack_event finding_id branch_id evidence) drawn.event)
        record_ack (record l { store = store }) finding_id branch_id latest.to_status e
            drawn.transition_id

  unfoldable pub append_finding_ack_request :
      Ledgers → String → String → String → Draws → Outcome LedgerError (Ledgers × Event × String)
  append_finding_ack_request l finding_id branch_id evidence drawn =
      ack_from l finding_id branch_id evidence drawn
        (latest_finding_transition finding_id l.finding_transitions)

  abbrev pub finding_event : String → String → Dict → NewEvent
  finding_event finding_type incident_key details =
      state_event "main" (text_append "security finding: " finding_type) (
        item "operation" (str "security_finding") (
          item "finding_type" (str finding_type)
            (item "incident_key" (str incident_key) (item "details" (obj details) empty))))

  abbrev pub new_finding_row : String → String → Dict → Event → Draws → Finding
  new_finding_row finding_type incident_key details e drawn = record {
    id = drawn.finding_id;
    incident_key = incident_key;
    finding_type = finding_type;
    details = details;
    source_event_id = e.id;
    created_at = drawn.event.created_at;
  }

  abbrev pub first_transition : Event → Draws → FindingTransition
  first_transition e drawn = record {
    id = drawn.transition_id;
    finding_id = drawn.finding_id;
    from_status = none;
    to_status = "active";
    source_event_id = e.id;
    actor = "integrity_monitor";
    origin_evidence_type = external_untrusted;
  }

  -- The two rows of a new finding
  unfoldable pub insert_new_finding :
      Ledgers → Finding → FindingTransition → Outcome LedgerError (Ledgers × String)
  insert_new_finding l found first = do
    raise_if (any (λ f. f.id == found.id) l.findings) (store_error integrity_error)
    (l', _) ← insert_finding casefold (record l { findings = found ∷ l.findings }) first
    ok (l', found.id)

  unfoldable pub finding_from_event :
      Ledgers → String → String → Dict → Draws → Outcome LedgerError (Ledgers × String)
  finding_from_event l finding_type incident_key details drawn = do
    (store, e) ←
        recast store_error (
          append_event_in_tx x l.store (finding_event finding_type incident_key details)
            drawn.event)
    insert_new_finding (record l { store = store })
        (new_finding_row finding_type incident_key details e drawn) (first_transition e drawn)

  unfoldable pub record_security_finding :
      Ledgers → String → String → Dict → Draws → Outcome LedgerError (Ledgers × String)
  record_security_finding l finding_type incident_key details drawn =
      elim (find_incident incident_key l.findings) [
        | some existing ↦ ok (l, existing.id)
        | none ↦ finding_from_event l finding_type incident_key details drawn
      ]
