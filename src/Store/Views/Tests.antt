-- ===== src/Store/Views/Tests.antt =====
-- A view of one tool output, whose content the redactor changes.
use joiny_mnemonic.Prelude.{none, some, List, [], ◌∷◌, map, ok, ◌≡◌, ◌↔◌, refl}
use joiny_mnemonic.Json.{empty}
use joiny_mnemonic.Store.{Event, Store, initial, Externals}
use joiny_mnemonic.Store.Append.{json_text}
use joiny_mnemonic.Store.Ingest.{find_event}
use joiny_mnemonic.Store.Verify.{
  bad_view, canonical, verify_rows, verify_artifacts, verify_views, verify_chain,
}
use joiny_mnemonic.Store.Views.{
  NewView, ViewRow, ViewStamp, view_row, find_view, insert_view, save_tool_output_view,
}
use joiny_mnemonic.Store.Views.Hashed.{save_tool_output_view-verifies}

-- A redactor that hides every text, and a digest that is the text
abbrev hiding : Externals
hiding = record {
  sha256 = λ s. s;
  sha256_bytes = λ bs. "";
  dumps = λ v. "x";
  redact_text = λ s. ("[REDACTED]", []);
  redact_payload = λ d. (d, []);
  redact_files = λ fs. (fs, []);
}

abbrev output : Event
output = record {
  seq = 1;
  id = "evt_1";
  branch_id = "main";
  session_id = none;
  kind = "tool_output";
  role = some "tool";
  origin_channel = "host_hook";
  origin_adapter = none;
  content = "done";
  payload = empty;
  files = [];
  created_at = "2026-07-01T12:00:00+00:00";
  previous_hash = none;
  content_hash = "x";
  chain_hash = "x";
}

abbrev store : Store
store = record initial { events = output ∷ [] }

abbrev view : NewView
view = record {
  event_id = "evt_1";
  level = "compact";
  reducer = "log";
  reducer_version = "1";
  content = "token=abc";
  source_hash = "x";
  content_hash = "token=abc";
  measures = record {
    raw_bytes = 4;
    view_bytes = 9;
    raw_tokens = 1;
    view_tokens = 3;
    latency_ns = 5;
  };
  metadata = empty;
}

abbrev stamp : ViewStamp
stamp = record { view_id = "view_1"; created_at = "2026-07-01T12:00:01+00:00" }

abbrev saved_rows : List ViewRow
saved_rows = view_row hiding view stamp ∷ []

save_view :
    save_tool_output_view hiding store [] view stamp ≡ ok (saved_rows, view_row hiding view stamp)
unfolding save_tool_output_view find_event insert_view find_view
save_view = refl

verified : verify_chain hiding store [] [] ≡ none
unfolding verify_chain verify_rows verify_artifacts verify_views canonical json_text
verified = refl

broken : verify_chain hiding store [] (map (λ w. w.view) saved_rows) ≡ some (bad_view "view_1")
unfolding verify_chain verify_rows verify_artifacts verify_views canonical json_text find_event
broken = refl

save_tool_output_view-verifies_example :
    (verify_chain hiding store [] (map (λ w. w.view) saved_rows) ≡ none)
    ↔ (hiding.sha256 (hiding.redact_text view.content).0 ≡ view.content_hash)
save_tool_output_view-verifies_example =
    save_tool_output_view-verifies hiding store [] saved_rows view stamp
      (view_row hiding view stamp) save_view [] verified refl
