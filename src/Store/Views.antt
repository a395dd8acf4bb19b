-- ===== src/Store/Views.antt =====
-- `save_tool_output_view`, `get_tool_output_view` and `get_tool_output_view_by_id` of
-- src/joiny_mnemonic/storage.py.
pub mod Hashed
mod Tests
use Prim.Native.String.{compare}
use text.Mathlib.Text.{is_le}
use joiny_mnemonic.Prelude.{
  ℕ, String, Bool, true, false, not, ◌&&◌, ◌||◌, Option, none, some, List, [], ◌∷◌, map,
  if◌then◌else◌, ◌==◌, string_eq, any, keep, elem, Outcome, ok, raise, raise_if, ◌>>=◌, ◌>>◌,
}
use joiny_mnemonic.Json.{Dict}
use joiny_mnemonic.Store.{Event, Store, Externals}
use joiny_mnemonic.Store.Ingest.{find_event}
use joiny_mnemonic.Store.Verify.{ToolView}

-- The columns of a view that `verify_chain` does not read
pub record Measures : Type 0 where
  pub raw_bytes : ℕ
  pub view_bytes : ℕ
  pub raw_tokens : ℕ
  pub view_tokens : ℕ
  pub latency_ns : ℕ

-- The arguments of `save_tool_output_view`
pub record NewView : Type 0 where
  pub event_id : String
  pub level : String
  pub reducer : String
  pub reducer_version : String
  pub content : String
  pub source_hash : String
  pub content_hash : String
  pub measures : Measures
  pub metadata : Dict

-- A row of `tool_output_views`
pub record ViewRow : Type 0 where
  pub view : ToolView
  pub level : String
  pub reducer : String
  pub reducer_version : String
  pub measures : Measures
  pub metadata : Dict
  pub created_at : String

-- The identifier and the time that a call draws
pub record ViewStamp : Type 0 where
  pub view_id : String
  pub created_at : String

pub data ViewError : Type 0 where
  unsupported_level unknown_event not_tool_output wrong_source lost_row unknown_view : ViewError

abbrev pub view_row : Externals → NewView → ViewStamp → ViewRow
view_row x v stamp = record {
  view = record {
    id = stamp.view_id;
    event_id = v.event_id;
    content = (x.redact_text v.content).0;
    content_hash = v.content_hash;
    source_hash = v.source_hash;
  };
  level = v.level;
  reducer = v.reducer;
  reducer_version = v.reducer_version;
  measures = v.measures;
  metadata = (x.redact_payload v.metadata).0;
  created_at = stamp.created_at;
}

-- `UNIQUE(event_id, level, reducer, reducer_version)`
abbrev pub same_key : NewView → ViewRow → Bool
same_key v r =
    (r.view.event_id == v.event_id && r.level == v.level)
    && (r.reducer == v.reducer && r.reducer_version == v.reducer_version)

unfoldable pub find_view : NewView → List ViewRow → Option ViewRow
find_view v [] = none
find_view v (r ∷ rs) = if same_key v r then some r else find_view v rs

-- `INSERT OR IGNORE INTO tool_output_views`
unfoldable pub insert_view : Externals → List ViewRow → NewView → ViewStamp → List ViewRow
insert_view x rows v stamp =
    if any (λ r. r.view.id == stamp.view_id || same_key v r) rows
    then rows
    else view_row x v stamp ∷ rows

-- The row that is read back
abbrev pub read_back : NewView → List ViewRow → Outcome ViewError (List ViewRow × ViewRow)
read_back v rows = elim (find_view v rows) [ none ↦ raise lost_row | some r ↦ ok (rows, r) ]

-- `save_tool_output_view`, on the rows with the newest first
unfoldable pub save_tool_output_view :
    Externals
    → Store
    → List ViewRow
    → NewView
    → ViewStamp
    → Outcome ViewError (List ViewRow × ViewRow)
save_tool_output_view x s rows v stamp = do
  raise_if (not (elem v.level ("compact" ∷ "summary" ∷ []))) unsupported_level
  elim (find_event v.event_id s.events) [
    | none ↦ raise unknown_event
    | some e ↦ do
      raise_if (not (e.kind == "tool_output")) not_tool_output
      raise_if (not (e.content_hash == v.source_hash)) wrong_source
      read_back v (insert_view x rows v stamp)
  ]

-- `ORDER BY created_at DESC LIMIT 1`
unfoldable pub latest_view : Option ViewRow → List ViewRow → Option ViewRow
latest_view best [] = best
latest_view none (r ∷ rs) = latest_view (some r) rs
latest_view (some b) (r ∷ rs) =
    latest_view (if is_le (compare r.created_at b.created_at) then some b else some r) rs

-- `get_tool_output_view`
unfoldable pub get_tool_output_view : List ViewRow → String → String → Option ViewRow
get_tool_output_view rows event_id level =
    latest_view none (keep (λ r. r.view.event_id == event_id && r.level == level) rows)

-- `get_tool_output_view_by_id`
unfoldable pub get_tool_output_view_by_id : List ViewRow → String → Outcome ViewError ViewRow
get_tool_output_view_by_id [] id = raise unknown_view
get_tool_output_view_by_id (r ∷ rs) id =
    if r.view.id == id then ok r else get_tool_output_view_by_id rs id
