-- ===== src/Extraction/Commit/Tests.antt =====
-- One answer of the extractor: two candidates with the same text, and two that read one place differently.
use joiny_mnemonic.Prelude.{
  ℕ, String, true, false, some, none, List, [], ◌∷◌, ◌++◌, map, ◌==◌, string_eq, nat_eq, option_eq,
  any, All, insert_by, sort_by, Outcome, ok, raise, ◌≡◌, refl,
}
use joiny_mnemonic.Json.{empty}
use joiny_mnemonic.Store.{Event, initial, Externals}
use joiny_mnemonic.Store.Append.{append_event_in_tx, redacted, event_row, json_text}
use joiny_mnemonic.Store.Lineage.{find_branch}
use joiny_mnemonic.Store.Lineage.Chain.{root}
use joiny_mnemonic.Store.Lineage.Order.{cons, nil}
use joiny_mnemonic.Store.Sound.{IsSound}
use joiny_mnemonic.Provenance.{origin_evidence_type}
use joiny_mnemonic.Ledgers.{CandidateTransition, event_origin_evidence}
use joiny_mnemonic.Ledgers.Sources.{distinct}
use joiny_mnemonic.Extraction.Queue.{Run, find_run, insert_attempt}
use joiny_mnemonic.Extraction.Queue.Pending.{pending_extraction_events}
use joiny_mnemonic.Extraction.Queue.Settled.{same}
use joiny_mnemonic.Extraction.Commit.{
  ValidatedCandidate, Tables, CommitError, CandidateStamp, Commit, Words, normalized_key,
  same_place, interpretations, is_conflict, first_match, existing_auto_memory, insert_raw,
  insert_transition, insert_link, is_ignored,
}
use joiny_mnemonic.Extraction.Commit.Steps.{
  insert_rejections, auto_derive, link_auto, commit_candidate, commit_candidates,
  commit_extraction_success,
}
use joiny_mnemonic.Extraction.Commit.Kept.{
  commit_extraction_success-IsSound, commit_extraction_success-processed,
}
use joiny_mnemonic.Extraction.Commit.Linked.{IsLinked, commit_extraction_success-IsLinked}
use joiny_mnemonic.Extraction.Commit.Agreed.{IsAgreed, commit_extraction_success-agreed}

abbrev pub plain : Externals
plain = record {
  sha256 = λ s. s;
  sha256_bytes = λ bs. "";
  dumps = λ v. "x";
  redact_text = λ s. (s, []);
  redact_payload = λ d. (d, []);
  redact_files = λ fs. (fs, []);
}

abbrev pub words : Words
words = record { split = λ s. s ∷ []; casefold = λ s. s }

abbrev pub message : Event
message = record {
  seq = 1;
  id = "evt_1";
  branch_id = "main";
  session_id = none;
  kind = "message";
  role = some "user";
  origin_channel = "public_api";
  origin_adapter = none;
  content = "hello hello";
  payload = empty;
  files = [];
  created_at = "2026-07-01T12:00:00+00:00";
  previous_hash = none;
  content_hash = "c";
  chain_hash = "h";
}

abbrev run_one : Run
run_one = record { id = "run_1"; event_id = "evt_1"; config_hash = "cfg" }

abbrev pub start : Tables
start = record {
  queue = record {
    store = record initial { events = message ∷ [] };
    configs = record { config_hash = "cfg"; descriptor_json = "x" } ∷ [];
    runs = run_one ∷ [];
    starts =
        record {
          id = "start_1";
          run_id = "run_1";
          attempt_no = 1;
          started_at = "2026-07-01T12:00:01+00:00";
        }
        ∷ [];
    attempts = [];
  };
  raw_responses = [];
  rejections = [];
  candidates = [];
  transitions = [];
  memories = [];
  links = [];
}

abbrev candidate : String → String → ℕ → ℕ → ValidatedCandidate
candidate memory_type text first past = record {
  proposed = record {
    memory_type = memory_type;
    normalized_content = text;
    evidence_quote = "hello";
    confidence = "0.9";
  };
  evidence_start = first;
  evidence_end = past;
  evidence_zone = "prose";
  initial_status = "auto";
  rule_id = "exact_prose_above_threshold";
}

abbrev drawn : String → String → String → String → String → CandidateStamp
drawn candidate_id transition_id memory_id event_id link_id = record {
  candidate_id = candidate_id;
  created_at = "2026-07-01T12:00:03+00:00";
  transition_id = transition_id;
  memory_id = memory_id;
  event = record { event_id = event_id; created_at = "2026-07-01T12:00:03+00:00" };
  link_id = link_id;
}

abbrev pub answer : List (ValidatedCandidate × CandidateStamp)
answer =
    (candidate "fact" "hello" 0 5, drawn "cand_1" "ctr_1" "mem_1" "evt_2" "cml_1")
    ∷ (candidate "fact" "hello" 6 11, drawn "cand_2" "ctr_2" "mem_2" "evt_3" "cml_2")
    ∷ (candidate "decision" "yes" 0 5, drawn "cand_3" "ctr_3" "mem_3" "evt_4" "cml_3")
    ∷ (candidate "decision" "no" 0 5, drawn "cand_4" "ctr_4" "mem_4" "evt_5" "cml_4")
    ∷ []

abbrev commit : Commit
commit = record {
  run_id = "run_1";
  attempt_no = 1;
  started_at = "2026-07-01T12:00:01+00:00";
  event = message;
  raw_text = "x";
  extractor_config_hash = "cfg";
  attempt_id = "attempt_1";
  finished_at = "2026-07-01T12:00:02+00:00";
  raw_id = "raw_1";
  raw_created_at = "2026-07-01T12:00:02+00:00";
}

abbrev tables_of : Outcome CommitError (Tables × List String) → Tables
tables_of (ok (t, ids)) = t
tables_of (raise e) = start

abbrev after : Tables
after = tables_of (commit_extraction_success plain words commit start answer [])

abbrev created : List String
created = "cand_1" ∷ "cand_2" ∷ "cand_3" ∷ "cand_4" ∷ []

commit_done : commit_extraction_success plain words commit start answer [] ≡ ok (after, created)
unfolding commit_extraction_success insert_attempt insert_raw insert_rejections commit_candidates
    commit_candidate is_ignored insert_transition is_conflict interpretations same_place
    normalized_key distinct link_auto existing_auto_memory first_match sort_by insert_by insert_link
    auto_derive append_event_in_tx redacted event_row json_text find_branch event_origin_evidence
    origin_evidence_type
commit_done = refl

-- The second candidate supports the memory of the first; the two readings of one place wait for review.
two_links :
    map {B = String × String × String} (λ l. (l.candidate_id, l.memory_id, l.relation)) after.links
    ≡ ("cand_2", "mem_1", "supports") ∷ ("cand_1", "mem_1", "derived") ∷ []
unfolding commit_extraction_success insert_attempt insert_raw insert_rejections commit_candidates
    commit_candidate is_ignored insert_transition is_conflict interpretations same_place
    normalized_key distinct link_auto existing_auto_memory first_match sort_by insert_by insert_link
    auto_derive append_event_in_tx redacted event_row json_text find_branch event_origin_evidence
    origin_evidence_type
two_links = refl

start-IsSound : IsSound start.queue.store
unfolding find_branch
start-IsSound = record {
  forest = root _ refl;
  ordered = cons message [] tt nil;
  forks = (tt, tt);
  placed = ((λ h. cc h), tt);
}

commit_extraction_success-IsSound_example : IsSound after.queue.store
commit_extraction_success-IsSound_example =
    commit_extraction_success-IsSound plain words commit start after answer [] created commit_done
      start-IsSound

start_run : find_run "evt_1" "cfg" start.queue.runs ≡ some run_one
unfolding find_run
start_run = refl

commit_extraction_success-processed_example :
    any (λ e. e.id == "evt_1") (pending_extraction_events after.queue "cfg" none true 3) ≡ false
commit_extraction_success-processed_example =
    commit_extraction_success-processed plain words commit start after answer [] created commit_done
      "cfg" run_one start_run refl after.queue none true 3 same

commit_extraction_success-IsLinked_example : IsLinked words after
commit_extraction_success-IsLinked_example =
    commit_extraction_success-IsLinked plain words commit start after answer [] created commit_done
      (record { linked = tt; supported = tt })

commit_extraction_success-agreed_example :
    (new : List CandidateTransition) × (after.transitions ≡ new ++ start.transitions)
    × All (λ tr. tr.to_status ≡ "auto" → IsAgreed words answer tr) new
commit_extraction_success-agreed_example =
    commit_extraction_success-agreed plain words commit answer start after [] created commit_done
