-- ===== src/Snapshots/Creation.antt =====
-- `create_snapshot` and `snapshot_tail` of src/joiny_mnemonic/storage.py. `loads` stands for `json.loads`.
use joiny_mnemonic.Prelude.{
  ℕ, String, Bool, true, not, Option, none, some, List, ◌∷◌, ◌==◌, string_eq, nat_eq, option_eq,
  get, any, last?, Outcome, ok, raise, raise_if, recast, ◌>>=◌, ◌>>◌,
}
use joiny_mnemonic.Json.{Json, Dict, obj}
use joiny_mnemonic.Store.{Event, Externals}
use joiny_mnemonic.Store.Append.{json_text}
use joiny_mnemonic.Store.Lineage.{Lineage, within, lineage, Query, all_events, query_events, tip}
use joiny_mnemonic.Snapshots.{
  Snapshot, SnapshotError, SnapshotRow, Snapshots, beyond_target, full, get_snapshot, given,
  integrity_error, latest_visible_snapshot, not_an_object, outside_target, parent_beyond_fork,
  parent_outside_lineage, readable, store_error,
}

-- The identifier and the time that a call draws, and `SNAPSHOT_REPLAY_CODE_VERSION`
pub record SnapshotStamp : Type 0 where
  pub snapshot_id : String
  pub created_at : String
  pub replay_code_version : String

-- The parent of the call, or the latest visible one
abbrev pub parent_of : Snapshots → Lineage → Option String → Option String
parent_of t steps (some id) = some id
parent_of t steps none = elim (latest_visible_snapshot t steps) [
  | none ↦ none
  | some row ↦ some row.id
]

-- `lineage_limits`
unfoldable pub check_limit :
    Lineage → Snapshot → SnapshotError → SnapshotError → Outcome SnapshotError (Unit {0})
check_limit steps s outside beyond = elim (get s.row.branch_id steps) [
  | none ↦ raise outside
  | some cutoff ↦ raise_if (not (within cutoff s.row.cursor_seq)) beyond
]

-- What follows on a value that is an object
abbrev pub when_object :
    Option Json
    → (Dict → Outcome SnapshotError (Snapshots × Snapshot))
    → Outcome SnapshotError (Snapshots × Snapshot)
when_object (some (obj d)) f = f d
when_object _ f = raise not_an_object

-- The foreign key of the parent
abbrev pub refers : List SnapshotRow → Option String → Bool
refers rows none = true
refers rows (some id) = any (λ r. r.id == id) rows

unfoldable pub insert_snapshot :
    Snapshots → SnapshotRow → Dict → Outcome SnapshotError (Snapshots × Snapshot)
insert_snapshot t row state = do
  raise_if (any (λ old. old.id == row.id) t.rows) integrity_error
  raise_if (not (refers t.rows row.parent_snapshot_id)) integrity_error
  ok (record t { rows = row ∷ t.rows }, record { row = row; state = state })

abbrev pub tail_query : ℕ → Query
tail_query cursor = record all_events { after_seq = cursor }

-- `snapshot_tail`, for a target branch that is given
unfoldable pub snapshot_tail : Snapshots → Snapshot → String → Outcome SnapshotError (List Event)
snapshot_tail t s target = do
  steps ← recast store_error (lineage t.store.branches target)
  check_limit steps s outside_target beyond_target
  recast store_error (query_events t.store target (tail_query s.row.cursor_seq))

module _ (x : Externals) (loads : String → Option Json) where
  unfoldable pub check_parent :
      Snapshots → Lineage → Option String → Outcome SnapshotError (Unit {0})
  check_parent t steps parent = elim (given parent) [
    | none ↦ ok tt
    | some id ↦ do
      above ← get_snapshot x loads t id
      check_limit steps above parent_outside_lineage parent_beyond_fork
  ]

  -- The row of a new snapshot
  abbrev pub snapshot_row : String → Dict → String → Option String → ℕ → SnapshotStamp → SnapshotRow
  snapshot_row text project branch_id parent cursor_seq stamp = record {
    id = stamp.snapshot_id;
    branch_id = branch_id;
    parent_snapshot_id = parent;
    cursor_seq = cursor_seq;
    body = full (some (readable text));
    state_sha256 = some (x.sha256 text);
    replay_code_version = stamp.replay_code_version;
    project = project;
    created_at = stamp.created_at;
  }

  -- The transaction of `create_snapshot`, for a state that was written as `text` and read again
  unfoldable pub create_from :
      Snapshots
      → String
      → Dict
      → Dict
      → String
      → Option String
      → SnapshotStamp
      → Outcome SnapshotError (Snapshots × Snapshot)
  create_from t text state project branch_id parent stamp = do
    steps ← recast store_error (lineage t.store.branches branch_id)
    check_parent t steps (parent_of t steps parent)
    history ← recast store_error (query_events t.store branch_id all_events)
    insert_snapshot t
        (snapshot_row text project branch_id (parent_of t steps parent) (tip (last? history)) stamp)
        state

  unfoldable pub create_snapshot :
      Snapshots
      → Dict
      → Dict
      → String
      → Option String
      → SnapshotStamp
      → Outcome SnapshotError (Snapshots × Snapshot)
  create_snapshot t state project branch_id parent stamp =
      let text = json_text x (obj state) in
      when_object (loads text) (λ again. create_from t text again project branch_id parent stamp)
