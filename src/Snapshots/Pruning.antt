-- ===== src/Snapshots/Pruning.antt =====
-- `prune_snapshot_blobs` of src/joiny_mnemonic/storage.py. What the call draws for a snapshot is a function of its
-- identifier; an error does not carry the list of the protected snapshots, and a `snapshot_id` of a usage sample
-- is a text.
pub mod Guarded
mod Tests
use Prim.Native.String.{◌++◌ as text_append}
use joiny_mnemonic.Prelude.{
  ℕ, String, Bool, true, false, not, ◌&&◌, ◌||◌, Option, none, some, List, [], ◌∷◌, map,
  if◌then◌else◌, ◌==◌, string_eq, nat_eq, option_eq, ltb, any, length, Outcome, ok, raise, raise_if,
  recast, ◌>>=◌, ◌>>◌,
}
use joiny_mnemonic.Json.{Json, Dict, Items, empty, item, str, arr, obj, nil, cons, lookup, is_text}
use joiny_mnemonic.Provenance.{internal}
use joiny_mnemonic.Store.{Event, StoreError, Externals}
use joiny_mnemonic.Store.Append.{NewEvent, Stamp, append_event_in_tx}
use joiny_mnemonic.Ledgers.{TaskVersion}
use joiny_mnemonic.Ledgers.Sources.{distinct}
use joiny_mnemonic.Snapshots.{
  Body, full, legacy, SnapshotRow, Snapshots, SnapshotError, find_snapshot, get_snapshot,
}

-- A row of `snapshot_prunings`
pub record PruningRow : Type 0 where
  pub id : String
  pub snapshot_id : String
  pub state_sha256 : Option String
  pub source_event_id : String
  pub created_at : String

-- The tables that the call reads and writes; of a usage sample the metadata, where it is a dictionary
pub record PruneTables : Type 0 where
  pub snapshots : Snapshots
  pub prunings : List PruningRow
  pub usage : List (Option Dict)
  pub tasks : List TaskVersion

pub data PruneError : Type 0 where
  snapshot_error : SnapshotError → PruneError
  store_error : StoreError → PruneError
  nothing_requested unknown_snapshot not_prunable protected_snapshot integrity_error : PruneError

pub record PruneStamp : Type 0 where
  pub event : Stamp
  pub count_text : ℕ → String
  pub pruning_id : String → String
  pub created_at : String → String

-- A usage sample names the snapshot.
abbrev pub is_used : String → Option Dict → Bool
is_used id none = false
is_used id (some metadata) = not (id == "") && is_text (lookup "snapshot_id" metadata) id

-- No version of the task is later.
abbrev pub is_latest : List TaskVersion → TaskVersion → Bool
is_latest tasks t = not (any (λ o. o.task_key == t.task_key && ltb t.version o.version) tasks)

-- The latest version of a task that is active or blocked needs the snapshot.
abbrev pub is_needed : List TaskVersion → String → TaskVersion → Bool
is_needed tasks id t =
    is_latest tasks t
    && ((t.status == "active" || t.status == "blocked") && t.snapshot_id == some id)

-- `snapshot_id in protected`
unfoldable pub is_protected : PruneTables → String → Bool
is_protected t id = any (is_used id) t.usage || any (is_needed t.tasks id) t.tasks

-- The checks of one snapshot before the transaction
unfoldable pub check_row :
    Externals
    → (String → Option Json)
    → PruneTables
    → String
    → Option SnapshotRow
    → Outcome PruneError (Unit {0})
check_row x loads t id none = raise unknown_snapshot
check_row x loads t id (some row) = elim row.body [
  | legacy delta ↦ raise not_prunable
  | full blob ↦ elim blob [
    | none ↦ ok tt
    | some b ↦ do _ ← recast snapshot_error (get_snapshot x loads t.snapshots id); ok tt
  ]
]

unfoldable pub preflight :
    Externals → (String → Option Json) → PruneTables → List String → Outcome PruneError (Unit {0})
preflight x loads t [] = ok tt
preflight x loads t (id ∷ ids) = do
  check_row x loads t id (find_snapshot id t.snapshots.rows)
  preflight x loads t ids

-- The row has a blob.
abbrev pub has_blob : SnapshotRow → Bool
has_blob row = elim row.body [
  | legacy delta ↦ false
  | full blob ↦ elim blob [ none ↦ false | some b ↦ true ]
]

-- `rows`: of the snapshots that are asked for, those with a blob
unfoldable pub stored_rows : List SnapshotRow → List String → List SnapshotRow
stored_rows rows [] = []
stored_rows rows (id ∷ ids) =
    let rest = stored_rows rows ids in
    elim (find_snapshot id rows) [
      | none ↦ rest
      | some row ↦ if has_blob row then row ∷ rest else rest
    ]

abbrev pub item_of : SnapshotRow → Json
item_of row = obj (
    item "snapshot_id" (str row.id)
      (item "state_sha256" (elim row.state_sha256 [ none ↦ str "None" | some s ↦ str s ]) empty))

abbrev pub items_of : List SnapshotRow → Items
items_of [] = nil
items_of (r ∷ rs) = cons (item_of r) (items_of rs)

abbrev pub pruning_event : PruneStamp → String → List SnapshotRow → NewEvent
pruning_event stamp branch_id rows = record {
  branch_id = branch_id;
  session_id = none;
  kind = "state";
  role = none;
  content =
      text_append "pruned " (text_append (stamp.count_text (length rows)) " snapshot blob(s)");
  origin_channel = internal;
  origin_adapter = some "snapshot_pruner";
  payload =
      item "operation" (str "snapshots_pruned") (item "snapshots" (arr (items_of rows)) empty);
  files = [];
}

-- `UPDATE snapshots SET state_blob=NULL WHERE id=?`
unfoldable pub clear_blob : String → List SnapshotRow → List SnapshotRow
clear_blob id [] = []
clear_blob id (r ∷ rs) =
    (if r.id == id then record r { body = full none } else r) ∷ clear_blob id rs

abbrev pub pruning_row : PruneStamp → Event → SnapshotRow → PruningRow
pruning_row stamp e r = record {
  id = stamp.pruning_id r.id;
  snapshot_id = r.id;
  state_sha256 = r.state_sha256;
  source_event_id = e.id;
  created_at = stamp.created_at r.id;
}

-- The loop over `items`
unfoldable pub prune_rows :
    PruneStamp → Event → PruneTables → List SnapshotRow → Outcome PruneError PruneTables
prune_rows stamp e t [] = ok t
prune_rows stamp e t (r ∷ rs) =
    let row = pruning_row stamp e r in
    if any (λ old. old.id == row.id || old.snapshot_id == row.snapshot_id) t.prunings
    then raise integrity_error
    else prune_rows stamp e
        (record t {
          snapshots = record t.snapshots { rows = clear_blob r.id t.snapshots.rows };
          prunings = row ∷ t.prunings;
        })
        rs

-- The part of the transaction after an empty list of rows was sent back
unfoldable pub prune_stored :
    Externals
    → PruneTables
    → String
    → PruneStamp
    → List SnapshotRow
    → Outcome PruneError (PruneTables × List String)
prune_stored x t branch_id stamp rows = do
  raise_if (any (λ r. is_protected t r.id) rows) protected_snapshot
  (written, e) ←
      recast store_error
        (append_event_in_tx x t.snapshots.store (pruning_event stamp branch_id rows) stamp.event)
  t' ← prune_rows stamp e (record t { snapshots = record t.snapshots { store = written } }) rows
  ok (t', map (λ r. r.id) rows)

-- `prune_snapshot_blobs`, with the identifiers that were pruned
unfoldable pub prune_snapshot_blobs :
    Externals
    → (String → Option Json)
    → PruneTables
    → List String
    → String
    → PruneStamp
    → Outcome PruneError (PruneTables × List String)
prune_snapshot_blobs x loads t ids branch_id stamp = do
  raise_if (length ids == 0) nothing_requested
  preflight x loads t (distinct ids)
  let rows = stored_rows t.snapshots.rows (distinct ids)
  if length rows == 0 then ok (t, []) else prune_stored x t branch_id stamp rows
