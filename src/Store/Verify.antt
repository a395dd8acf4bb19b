-- ===== src/Store/Verify.antt =====
-- `verify_chain` of src/joiny_mnemonic/storage.py.
mod Rows
pub mod Tamper
pub mod Append
use Prim.Native.String.{◌++◌ as text_append}
use joiny_mnemonic.Prelude.{
  ℕ, String, Bool, true, false, not, ◌&&◌, ◌||◌, Option, none, some, List, [], ◌∷◌, if◌then◌else◌,
  ◌==◌, string_eq, option_eq,
}
use joiny_mnemonic.Json.{Dict, empty, item, str, arr, obj, opt_str, str_items}
use joiny_mnemonic.Store.{Event, Store, Externals}
use joiny_mnemonic.Store.Append.{json_text, hash_or_empty}
use joiny_mnemonic.Store.Ingest.{find_event}

-- The columns of `artifacts` and of `tool_output_views` that the method reads
pub record Artifact : Type 0 where
  pub id : String
  pub content_hash : String
  pub bytes : List ℕ

pub record ToolView : Type 0 where
  pub id : String
  pub event_id : String
  pub content : String
  pub content_hash : String
  pub source_hash : String

-- The message of a failure, with the identifier in it
pub data Broken : Type 0 where
  bad_previous_hash bad_event bad_artifact bad_view bad_view_source : String → Broken

abbrev origin_fields : Event → Dict
origin_fields e =
    if not (e.origin_channel == "legacy_untrusted")
    then item "origin_channel" (str e.origin_channel)
        (item "origin_adapter" (opt_str e.origin_adapter) empty)
    else empty

-- `values`, in the order in which the code writes it
abbrev pub row_fields : Event → Dict
row_fields e = item "id" (str e.id) (
    item "branch_id" (str e.branch_id) (
      item "session_id" (opt_str e.session_id) (
        item "kind" (str e.kind) (
          item "role" (opt_str e.role) (
            item "content" (str e.content) (
              item "payload" (obj e.payload) (
                item "files" (arr (str_items e.files))
                  (item "created_at" (str e.created_at) (origin_fields e)))))))))

module _ (x : Externals) where
  -- The canonical text of a row
  unfoldable pub canonical : Event → String
  canonical e = json_text x (obj (row_fields e))

  -- The loop over the events, from the hash of the row before
  unfoldable pub verify_rows : Option String → List Event → Option Broken
  verify_rows previous [] = none
  verify_rows previous (e ∷ es) =
      let content_hash = x.sha256 (canonical e) in
      let chain_hash = x.sha256 (text_append (hash_or_empty previous) content_hash) in
      if not (e.previous_hash == previous)
      then some (bad_previous_hash e.id)
      else if not (e.content_hash == content_hash) || not (e.chain_hash == chain_hash)
      then some (bad_event e.id)
      else verify_rows (some chain_hash) es

  unfoldable pub verify_artifacts : List Artifact → Option Broken
  verify_artifacts [] = none
  verify_artifacts (a ∷ as') =
      if not (x.sha256_bytes a.bytes == a.content_hash)
      then some (bad_artifact a.id)
      else verify_artifacts as'

  -- The views joined with their events; a view without an event is not in the join.
  unfoldable pub verify_views : List Event → List ToolView → Option Broken
  verify_views events [] = none
  verify_views events (v ∷ vs) = elim (find_event v.event_id events) [
    | none ↦ verify_views events vs
    | some e ↦
        if not (x.sha256 v.content == v.content_hash)
        then some (bad_view v.id)
        else if not (v.source_hash == e.content_hash)
        then some (bad_view_source v.id)
        else verify_views events vs
  ]

  -- `none` is the answer `(True, None)`.
  unfoldable pub verify_chain : Store → List Artifact → List ToolView → Option Broken
  verify_chain s artifacts views = elim (verify_rows none s.events) [
    | some broken ↦ some broken
    | none ↦ elim (verify_artifacts artifacts) [
      | some broken ↦ some broken
      | none ↦ verify_views s.events views
    ]
  ]
