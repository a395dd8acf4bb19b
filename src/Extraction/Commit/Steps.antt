-- ===== src/Extraction/Commit/Steps.antt =====
-- The loop of `commit_extraction_success` in src/joiny_mnemonic/storage.py, and the whole call.
use Prim.Native.String.{◌++◌ as text_append}
use joiny_mnemonic.Prelude.{
  String, Bool, not, ◌&&◌, none, some, List, [], ◌∷◌, ◌++◌, map, if◌then◌else◌, ◌==◌, string_eq,
  nat_eq, any, Outcome, ok, raise, raise_if, recast, ◌>>=◌, ◌>>◌,
}
use joiny_mnemonic.Json.{Dict, empty, item, str, num, arr, str_items}
use joiny_mnemonic.Provenance.{internal}
use joiny_mnemonic.Store.{Event, Externals}
use joiny_mnemonic.Store.Append.{NewEvent, append_event_in_tx, json_text}
use joiny_mnemonic.Ledgers.{CandidateTransition, event_origin_evidence}
use joiny_mnemonic.Memory.{Memory}
use joiny_mnemonic.Memory.Derive.{prefix}
use joiny_mnemonic.Extraction.Queue.{Run, insert_attempt}
use joiny_mnemonic.Extraction.Commit.{
  ValidatedCandidate, Rejection, Tables, CommitError, queue_error, store_error, run_mismatch,
  integrity_error, Rejected, CandidateStamp, Commit, Words, is_conflict, existing_auto_memory,
  insert_raw, insert_transition, insert_link, is_ignored, success_attempt, raw_response,
  candidate_row, memory_link,
}

module _ (x : Externals) (std : Words) (c : Commit) where
  abbrev pub rejection : Rejected → Rejection
  rejection r = record {
    id = r.id;
    run_id = c.run_id;
    attempt_id = c.attempt_id;
    candidate_json = json_text x r.candidate;
    error_code = r.error_code;
    redacted_error = prefix 2000 (x.redact_text r.redacted_error).0;
    created_at = r.created_at;
  }

  unfoldable pub insert_rejections : Tables → List Rejected → Outcome CommitError Tables
  insert_rejections t [] = ok t
  insert_rejections t (r ∷ rs) =
      if any (λ old. old.id == r.id) t.rejections
      then raise integrity_error
      else insert_rejections (record t { rejections = rejection r ∷ t.rejections }) rs

  -- The status and the rule of a candidate's first transition
  abbrev pub first_status : List ValidatedCandidate → ValidatedCandidate → String
  first_status all v = if is_conflict std all v then "quarantined" else v.initial_status

  abbrev pub first_rule : List ValidatedCandidate → ValidatedCandidate → String
  first_rule all v = if is_conflict std all v then "conflicting_interpretations" else v.rule_id

  abbrev pub first_transition :
      List ValidatedCandidate → ValidatedCandidate → CandidateStamp → CandidateTransition
  first_transition all v s = record {
    id = s.transition_id;
    candidate_id = s.candidate_id;
    from_status = none;
    to_status = first_status all v;
    source_event_id = c.event.id;
    actor = "extractor";
    rule_id = first_rule all v;
    origin_evidence_type = event_origin_evidence std.casefold c.event;
    replacement_candidate_id = none;
    replacement_memory_id = none;
  }

  abbrev pub auto_derivation : ValidatedCandidate → CandidateStamp → NewEvent
  auto_derivation v s = record {
    branch_id = c.event.branch_id;
    session_id = none;
    kind = "state";
    role = none;
    content = text_append "auto-derived " (
        text_append v.proposed.memory_type
          (text_append ": " (prefix 240 v.proposed.normalized_content)));
    origin_channel = internal;
    origin_adapter = none;
    payload = item "operation" (str "auto_derive_memory") (
        item "memory_id" (str s.memory_id) (
          item "source_event_ids" (arr (str_items (c.event.id ∷ []))) (
            item "extraction_run_id" (str c.run_id) (
              item "candidate_id" (str s.candidate_id)
                (item "extractor_config_hash" (str c.extractor_config_hash) empty)))));
    files = c.event.files;
  }

  abbrev pub auto_metadata : ValidatedCandidate → CandidateStamp → Dict
  auto_metadata v s = item "origin" (str "auto") (
      item "authority_level" (str "auto") (
        item "origin_evidence_type" (str "extractor") (
          item "extraction_run_id" (str c.run_id) (
            item "candidate_id" (str s.candidate_id) (
              item "extractor_config_hash" (str c.extractor_config_hash) (
                item "confidence" (num v.proposed.confidence)
                  (item "evidence_zone" (str v.evidence_zone) empty)))))))

  abbrev pub auto_memory : ValidatedCandidate → CandidateStamp → Event → Memory
  auto_memory v s e = record {
    id = s.memory_id;
    branch_id = c.event.branch_id;
    memory_type = v.proposed.memory_type;
    content = v.proposed.normalized_content;
    summary = prefix 240 v.proposed.normalized_content;
    files = c.event.files;
    risk = "0.0";
    retrieval_cost = "1.25";
    version = 1;
    source_event_ids = c.event.id ∷ [];
    supersedes_id = none;
    cursor_seq = e.seq;
    created_at = s.created_at;
    metadata = auto_metadata v s;
    valid_from = none;
    valid_to = none;
    valid_from_precision = none;
    valid_to_precision = none;
    temporal_expression = none;
  }

  -- The event and the memory of a candidate that no memory matches
  unfoldable pub auto_derive :
      Tables → ValidatedCandidate → CandidateStamp → Outcome CommitError Tables
  auto_derive t v s = do
    (written, e) ←
        recast store_error (append_event_in_tx x t.queue.store (auto_derivation v s) s.event)
    raise_if (any (λ m. m.id == s.memory_id) t.memories) integrity_error
    ok (record t {
      queue = record t.queue { store = written };
      memories = t.memories ++ auto_memory v s e ∷ [];
    })

  -- The part of a round after `initial_status != "auto"`
  unfoldable pub link_auto :
      Tables → ValidatedCandidate → CandidateStamp → Outcome CommitError Tables
  link_auto t v s =
      elim (existing_auto_memory std t.memories v.proposed.memory_type
        v.proposed.normalized_content) [
          | some m ↦ insert_link t (memory_link c s m.id "supports")
          | none ↦ do
            derived ← auto_derive t v s
            insert_link derived (memory_link c s s.memory_id "derived")
        ]

  -- A round of the loop over the candidates, with the identifier that it appends
  unfoldable pub commit_candidate :
      List ValidatedCandidate
      → Tables
      → ValidatedCandidate
      → CandidateStamp
      → Outcome CommitError (Tables × List String)
  commit_candidate all t v s =
      let row = candidate_row c v s in
      if any (is_ignored row) t.candidates then ok (t, []) else (do
        t₁ ←
            insert_transition (record t { candidates = row ∷ t.candidates })
              (first_transition all v s)
        t₂ ← if first_status all v == "auto" then link_auto t₁ v s else ok t₁
        ok (t₂, s.candidate_id ∷ []))

  unfoldable pub commit_candidates :
      List ValidatedCandidate
      → Tables
      → List (ValidatedCandidate × CandidateStamp)
      → Outcome CommitError (Tables × List String)
  commit_candidates all t [] = ok (t, [])
  commit_candidates all t ((v, s) ∷ rest) = do
    (t₁, ids) ← commit_candidate all t v s
    (t₂, more) ← commit_candidates all t₁ rest
    ok (t₂, ids ++ more)

  -- `run is None or run["event_id"] != event.id`
  abbrev pub is_run_of : Run → Bool
  is_run_of r = r.id == c.run_id && r.event_id == c.event.id

  -- `commit_extraction_success`
  unfoldable pub commit_extraction_success :
      Tables
      → List (ValidatedCandidate × CandidateStamp)
      → List Rejected
      → Outcome CommitError (Tables × List String)
  commit_extraction_success t candidates rejected = do
    raise_if (not (any is_run_of t.queue.runs)) run_mismatch
    q ← recast queue_error (insert_attempt t.queue (success_attempt c))
    t₁ ← insert_raw (record t { queue = q }) (raw_response c)
    t₂ ← insert_rejections t₁ rejected
    commit_candidates (map (λ p. p.0) candidates) t₂ candidates
