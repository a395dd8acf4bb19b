-- ===== src/Store/Tests.antt =====
-- Runs of the store on small tables, and the theorems of Store on them.
use Prim.Native.String.{count}
use joiny_mnemonic.Prelude.{
  ℕ, String, true, false, Option, none, some, List, [], ◌∷◌, ok, ◌≡◌, refl, ◌≢◌, ne_of_beq,
  string_eq, keep, last?, ◌&&◌, ◌⊎◌, if◌then◌else◌, ◌==◌, Bool-cases, inl, inr,
}
use joiny_mnemonic.Json.{Json, empty, str, obj, lookup, sort_json}
use joiny_mnemonic.Store.{Branch, Event, Store, initial, Externals}
use joiny_mnemonic.Store.Append.{
  NewEvent, Stamp, append_event_in_tx, redacted, event_row, json_text,
}
use joiny_mnemonic.Store.Ingest.{
  Draft, Ingress, append_events_once_in, append_batch, write_batch, find_receipt,
}
use joiny_mnemonic.Store.Lineage.{
  find_branch, lineage, walk, query_events, all_events, create_branch, add_branch, select_all,
  select, selects, insert_row, sort_rows, within, or_tip, tip, covers, tighten,
}
use joiny_mnemonic.Store.Lineage.Chain.{chain}
use joiny_mnemonic.Store.Lineage.Visible.{query_events_lem}
use joiny_mnemonic.Store.Sound.{IsSound, initial-IsSound}
use joiny_mnemonic.Store.History.{
  append_event_in_tx-IsSound, create_branch-IsSound, query_events-append_other,
}
use joiny_mnemonic.Store.History.Forks.{query_events-create_branch}
use joiny_mnemonic.Store.Verify.{
  verify_chain, verify_rows, verify_artifacts, verify_views, canonical,
}
use joiny_mnemonic.Store.Verify.Tamper.{verify_rows_tamper, SameRows, Collides}
use joiny_mnemonic.Store.Retry.{append_events_once_retry}
use joiny_mnemonic.Store.Reach.{Writes, done, after, forked, appended, Writes-IsSound}
use joiny_mnemonic.Store.Reach.Log.{Writes-verify_chain}

-- A digest that is its text, one text for every value, and no redaction.
abbrev plain : Externals
plain = record {
  sha256 = λ s. s;
  sha256_bytes = λ bs. "";
  dumps = λ v. "x";
  redact_text = λ s. (s, []);
  redact_payload = λ d. (d, []);
  redact_files = λ fs. (fs, []);
}

abbrev zeros : String
zeros = "0000000000000000000000000000000000000000000000000000000000000000"

abbrev ones : String
ones = "1111111111111111111111111111111111111111111111111111111111111111"

abbrev content_of : Json → String
content_of (obj d) = elim (lookup "content" d) [ some (str s) ↦ s | other ↦ "" ]
content_of other = ""

abbrev digest : String → String
digest s = if s == "bye" then ones else zeros

-- A digest of 64 characters, of the content alone, which tells "bye" from all other texts
abbrev coarse : Externals
coarse = record {
  sha256 = digest;
  sha256_bytes = λ bs. "";
  dumps = content_of;
  redact_text = λ s. (s, []);
  redact_payload = λ d. (d, []);
  redact_files = λ fs. (fs, []);
}

abbrev said : String → String → NewEvent
said branch content = record {
  branch_id = branch;
  session_id = none;
  kind = "message";
  role = some "user";
  content = content;
  origin_channel = "public_api";
  origin_adapter = none;
  payload = empty;
  files = [];
}

abbrev at_noon : String → Stamp
at_noon id = record { event_id = id; created_at = "2026-07-01T12:00:00+00:00" }

abbrev row : ℕ → String → String → String → Option String → String → Event
row seq id branch content previous chain_hash = record {
  seq = seq;
  id = id;
  branch_id = branch;
  session_id = none;
  kind = "message";
  role = some "user";
  origin_channel = "public_api";
  origin_adapter = none;
  content = content;
  payload = empty;
  files = [];
  created_at = "2026-07-01T12:00:00+00:00";
  previous_hash = previous;
  content_hash = "x";
  chain_hash = chain_hash;
}

abbrev pub first_row : Event
first_row = row 1 "evt_1" "main" "hello" none "x"

abbrev pub second_row : Event
second_row = row 2 "evt_2" "main" "again" (some "x") "xx"

abbrev one_event : Store
one_event = record initial { events = first_row ∷ [] }

abbrev two_events : Store
two_events = record initial { events = first_row ∷ second_row ∷ [] }

abbrev pub side_row : Branch
side_row = record { id = "side"; parent_id = some "main"; fork_event_seq = some 1 }

abbrev pub main_row : Branch
main_row = record { id = "main"; parent_id = none; fork_event_seq = none }

abbrev pub forked_store : Store
forked_store = record one_event { branches = side_row ∷ main_row ∷ [] }

abbrev pub forked_two : Store
forked_two = record two_events { branches = side_row ∷ main_row ∷ [] }

append_first :
    append_event_in_tx plain initial (said "main" "hello") (at_noon "evt_1")
    ≡ ok (one_event, first_row)
unfolding append_event_in_tx redacted event_row json_text find_branch
append_first = refl

append_second :
    append_event_in_tx plain forked_store (said "main" "again") (at_noon "evt_2")
    ≡ ok (forked_two, second_row)
unfolding append_event_in_tx redacted event_row json_text find_branch
append_second = refl

fork_side : create_branch one_event "side" "main" none ≡ ok forked_store
unfolding create_branch add_branch query_events lineage walk find_branch select_all select selects
    sort_rows insert_row tighten
fork_side = refl

main_history : query_events one_event "main" all_events ≡ ok (first_row ∷ [])
unfolding query_events lineage walk find_branch select_all select selects sort_rows insert_row
    tighten
main_history = refl

-- The side branch keeps its view of the parent, and no event of the parent's future.
side_history : query_events forked_two "side" all_events ≡ ok (first_row ∷ [])
unfolding query_events lineage walk find_branch select_all select selects sort_rows insert_row
    tighten
side_history = refl

main_is_there : find_branch "main" initial.branches ≡ some main_row
unfolding find_branch
main_is_there = refl

pub side_is_there : find_branch "side" forked_store.branches ≡ some side_row
unfolding find_branch
side_is_there = refl

one_event-IsSound : IsSound one_event
one_event-IsSound =
    append_event_in_tx-IsSound plain initial (said "main" "hello") (at_noon "evt_1") one_event
      first_row initial-IsSound append_first

pub forked_store-IsSound : IsSound forked_store
forked_store-IsSound =
    create_branch-IsSound one_event "side" "main" none forked_store one_event-IsSound fork_side

pub forked_two-IsSound : IsSound forked_two
forked_two-IsSound =
    append_event_in_tx-IsSound plain forked_store (said "main" "again") (at_noon "evt_2") forked_two
      second_row forked_store-IsSound append_second

public_is_live : (said "main" "hello").origin_channel ≢ "legacy_untrusted"
public_is_live = ne_of_beq "public_api" "legacy_untrusted" refl

writes : Writes plain initial forked_two
writes =
    after
      (after
        (after done
          (appended (said "main" "hello") (at_noon "evt_1") first_row public_is_live append_first))
        (forked "side" "main" none fork_side))
      (appended (said "main" "again") (at_noon "evt_2") second_row public_is_live append_second)

Writes-IsSound_example : IsSound forked_two
Writes-IsSound_example = Writes-IsSound writes

Writes-verify_chain_example : verify_chain plain forked_two [] [] ≡ none
Writes-verify_chain_example = Writes-verify_chain writes

query_events_lem_example :
    query_events forked_store "side" all_events
    ≡ ok (
        keep
          (λ e. covers (chain forked_store.branches "side" none) e && selects all_events e)
          forked_store.events)
query_events_lem_example =
    query_events_lem forked_store "side" side_row all_events forked_store-IsSound.forest
      forked_store-IsSound.ordered side_is_there

query_events-append_other_example :
    query_events forked_two "side" all_events ≡ query_events forked_store "side" all_events
query_events-append_other_example =
    query_events-append_other plain forked_store (said "main" "again") (at_noon "evt_2") forked_two
      second_row "side" side_row all_events forked_store-IsSound append_second side_is_there
      (ne_of_beq "side" "main" refl)

no_history : query_events initial "main" all_events ≡ ok []
unfolding query_events lineage walk find_branch select_all select selects sort_rows insert_row
    tighten
no_history = refl

query_events-create_branch_example :
    query_events forked_store "side" all_events
    ≡ ok (
        keep
          (λ e. within (some (or_tip none (tip (last? (first_row ∷ []))))) e.seq)
          (first_row ∷ []))
query_events-create_branch_example =
    query_events-create_branch one_event "side" "main" none forked_store all_events (first_row ∷ [])
      (first_row ∷ []) one_event-IsSound fork_side main_history main_history

empty_log : verify_chain plain initial [] [] ≡ none
unfolding verify_chain verify_rows verify_artifacts verify_views
empty_log = refl

-- A row that `coarse` seals, after a row or first
abbrev sealed : Option String → String → String → Event
sealed previous content content_hash = record first_row {
  content = content;
  previous_hash = previous;
  content_hash = content_hash;
  chain_hash = zeros;
}

abbrev log : List Event
log = sealed none "hello" zeros ∷ sealed (some zeros) "bye" ones ∷ []

-- The first row was exchanged for one of the same digest.
abbrev forged : List Event
forged = sealed none "hallo" zeros ∷ sealed (some zeros) "bye" ones ∷ []

log_verifies : verify_rows coarse none log ≡ none
unfolding verify_rows canonical json_text sort_json lookup
log_verifies = refl

forged_verifies : verify_rows coarse none forged ≡ none
unfolding verify_rows canonical json_text sort_json lookup
forged_verifies = refl

digest_count : (s : String) → count (digest s) ≡ 64
digest_count s = elim (Bool-cases (s == "bye")) [ inl e ↦ rw e refl | inr e ↦ rw e refl ]

verify_rows_tamper_example : SameRows coarse log forged ⊎ Collides coarse none none log forged
verify_rows_tamper_example =
    verify_rows_tamper coarse digest_count log forged refl log_verifies forged_verifies refl

abbrev from_api : Ingress
from_api = record {
  branch_id = "main";
  session_id = none;
  origin_channel = "public_api";
  origin_adapter = none;
}

abbrev draft : String → Draft
draft content = record {
  kind = "message";
  role = some "user";
  content = content;
  payload = empty;
  files = [];
}

abbrev with_receipt : Store
with_receipt = record one_event {
  receipts = record { receipt_key = "key"; event_ids = "evt_1" ∷ [] } ∷ [];
}

first_call :
    append_events_once_in plain initial "key" from_api ((draft "hello", at_noon "evt_1") ∷ [])
    ≡ ok (with_receipt, first_row ∷ [], true)
unfolding append_events_once_in find_receipt write_batch append_batch append_event_in_tx redacted
    event_row json_text find_branch
first_call = refl

append_events_once_retry_example :
    append_events_once_in plain with_receipt "key" from_api ((draft "other", at_noon "evt_2") ∷ [])
    ≡ ok (with_receipt, first_row ∷ [], false)
append_events_once_retry_example =
    append_events_once_retry plain initial "key" from_api ((draft "hello", at_noon "evt_1") ∷ [])
      with_receipt (first_row ∷ []) from_api (draft "other") (at_noon "evt_2") [] first_call
