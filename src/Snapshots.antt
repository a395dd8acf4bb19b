-- ===== src/Snapshots.antt =====
-- The snapshots of src/joiny_mnemonic/storage.py: `_apply_snapshot_delta`, `_materialize_snapshot_locked`,
-- `_latest_visible_snapshot_row_locked` and `get_snapshot`. The finding that a failed check records is left out.
-- `loads` stands for `json.loads`, which may fail.
pub mod Creation
pub mod Materialized
pub mod Created
pub mod Tails
pub mod Pruning
pub mod Tests
use Prim.Native.String.{compare}
use text.Mathlib.Text.{is_le}
use joiny_mnemonic.Prelude.{
  ℕ, zero, suc, ◌+◌, String, Bool, true, false, not, ◌&&◌, ◌||◌, Option, none, some, List, [], ◌∷◌,
  ◌++◌, if◌then◌else◌, ◌==◌, string_eq, nat_eq, option_eq, ltb, elem, get, any, keep, last?, length,
  Outcome, ok, raise, raise_if, recast, ◌>>=◌, ◌>>◌,
}
use joiny_mnemonic.Json.{Json, Dict, empty, item, null, obj, lookup, assign, remove}
use joiny_mnemonic.Store.{Event, Store, StoreError, Externals}
use joiny_mnemonic.Store.Append.{json_text}
use joiny_mnemonic.Store.Lineage.{Lineage, within, lineage, Query, all_events, query_events, tip}

-- What an operation of `json-patch-v2` does to the last key of its path; another `op` does nothing there.
pub data KeyChange : Type 0 where
  put : Json → KeyChange
  pop : KeyChange
  neither : KeyChange

-- A decoded operation: those with an empty path, whose value is a dictionary, and a change at a path
pub data Operation : Type 0 where
  reset : Dict → Operation
  clear : Operation
  skip : Operation
  change : List String → String → KeyChange → Operation

-- A decoded delta
pub data Delta : Type 0 where
  incremental : List String → Dict → Delta
  patch : List Operation → Delta
  other_format : Dict → Delta

-- `state_blob`: what `zlib.decompress` refuses, what is no UTF-8, and the text of any other
pub data Blob : Type 0 where
  corrupt : Blob
  not_text : Blob
  readable : String → Blob

-- The state of a row, by its `state_format`; a blob may be pruned, and a delta unreadable.
pub data Body : Type 0 where
  full : Option Blob → Body
  legacy : Option Delta → Body

-- A row of `snapshots`, with its JSON columns decoded
pub record SnapshotRow : Type 0 where
  pub id : String
  pub branch_id : String
  pub parent_snapshot_id : Option String
  pub cursor_seq : ℕ
  pub body : Body
  pub state_sha256 : Option String
  pub replay_code_version : String
  pub project : Dict
  pub created_at : String

-- The canonical tables, and the snapshots with the newest first
pub record Snapshots : Type 0 where
  pub store : Store
  pub rows : List SnapshotRow

-- `Snapshot`
pub record Snapshot : Type 0 where
  pub row : SnapshotRow
  pub state : Dict

pub data SnapshotError : Type 0 where
  store_error : StoreError → SnapshotError
  lineage_cycle unknown_snapshot pruned_blob : SnapshotError
  zlib_error hash_mismatch unreadable_state out_of_fuel : SnapshotError
  not_an_object parent_outside_lineage parent_beyond_fork : SnapshotError
  outside_target beyond_target integrity_error : SnapshotError

-- `child = target.get(key)`, where anything but a dictionary is replaced by a new one
abbrev pub child : Option Json → Dict
child (some (obj d)) = d
child _ = empty

abbrev pub at_key : KeyChange → String → Dict → Dict
at_key (put value) key d = assign key value d
at_key pop key d = remove key d
at_key neither key d = d

-- The walk along a path
unfoldable pub edit : List String → String → KeyChange → Dict → Dict
edit [] key c d = at_key c key d
edit (k ∷ ks) key c d = assign k (obj (edit ks key c (child (lookup k d)))) d

unfoldable pub apply_operation : Dict → Operation → Dict
apply_operation state (reset value) = value
apply_operation state clear = empty
apply_operation state skip = state
apply_operation state (change path key c) = edit path key c state

unfoldable pub apply_operations : Dict → List Operation → Dict
apply_operations state [] = state
apply_operations state (o ∷ os) = apply_operations (apply_operation state o) os

abbrev pub remove_all : List String → Dict → Dict
remove_all [] d = d
remove_all (k ∷ ks) d = remove_all ks (remove k d)

-- `state.update(values)`
abbrev pub update : Dict → Dict → Dict
update d empty = d
update d (item k v values) = update (assign k v d) values

-- `_apply_snapshot_delta`
unfoldable pub apply_snapshot_delta : Dict → Delta → Dict
apply_snapshot_delta parent (incremental removed values) = update (remove_all removed parent) values
apply_snapshot_delta parent (patch operations) = apply_operations parent operations
apply_snapshot_delta parent (other_format state) = state

unfoldable pub find_snapshot : String → List SnapshotRow → Option SnapshotRow
find_snapshot id [] = none
find_snapshot id (r ∷ rs) = if r.id == id then some r else find_snapshot id rs

-- A parent that is given; an empty identifier is none.
abbrev pub given : Option String → Option String
given none = none
given (some id) = if id == "" then none else some id

-- `latest_visible`: the rows that one step of the lineage sees, and whose state is there
abbrev pub is_available : Body → Bool
is_available (full none) = false
is_available (full (some blob)) = true
is_available (legacy delta) = true

unfoldable pub visible_rows : List SnapshotRow → Lineage → List SnapshotRow
visible_rows rows [] = []
visible_rows rows ((branch, cutoff) ∷ steps) =
    keep (λ r. (branch == r.branch_id && within cutoff r.cursor_seq) && is_available r.body) rows
    ++ visible_rows rows steps

-- The order of the pairs `(cursor_seq, created_at)`
abbrev pub is_newer : SnapshotRow → SnapshotRow → Bool
is_newer a b =
    if a.cursor_seq == b.cursor_seq
    then not (is_le (compare a.created_at b.created_at))
    else ltb b.cursor_seq a.cursor_seq

-- `max(candidates, key=…)`: the first of the largest
unfoldable pub newest_row : Option SnapshotRow → List SnapshotRow → Option SnapshotRow
newest_row best [] = best
newest_row none (r ∷ rs) = newest_row (some r) rs
newest_row (some b) (r ∷ rs) = newest_row (if is_newer r b then some r else some b) rs

unfoldable pub latest_visible_snapshot : Snapshots → Lineage → Option SnapshotRow
latest_visible_snapshot t steps = newest_row none (visible_rows t.rows steps)

module _ (x : Externals) (loads : String → Option Json) where
  -- The check of the digest that stands at the end of both formats
  abbrev pub with_digest : SnapshotRow → String → Dict → Outcome SnapshotError Snapshot
  with_digest row text state =
      if row.state_sha256 == some (x.sha256 text)
      then ok (record { row = row; state = state })
      else raise hash_mismatch

  -- What `json.loads` gives for the text of a blob
  abbrev pub decoded : SnapshotRow → String → Option Json → Outcome SnapshotError Snapshot
  decoded row text none = raise unreadable_state
  decoded row text (some (obj state)) = with_digest row text state
  decoded row text (some _) = raise hash_mismatch

  unfoldable pub full_state : SnapshotRow → Option Blob → Outcome SnapshotError Snapshot
  full_state row none = raise pruned_blob
  full_state row (some corrupt) = raise zlib_error
  full_state row (some not_text) = raise unreadable_state
  full_state row (some (readable text)) = decoded row text (loads text)

  unfoldable pub legacy_state : SnapshotRow → Option Delta → Dict → Outcome SnapshotError Snapshot
  legacy_state row none parent = raise unreadable_state
  legacy_state row (some delta) parent =
      let state = apply_snapshot_delta parent delta in
      with_digest row (json_text x (obj state)) state

  -- The state of a row, where `above` materializes its parent
  unfoldable pub from_parent :
      (String → Outcome SnapshotError Snapshot)
      → SnapshotRow
      → Option Delta
      → Option String
      → Outcome SnapshotError Snapshot
  from_parent above row delta none = legacy_state row delta empty
  from_parent above row delta (some parent) = do s ← above parent; legacy_state row delta s.state

  unfoldable pub row_state :
      (String → Outcome SnapshotError Snapshot)
      → SnapshotRow
      → Body
      → Outcome SnapshotError Snapshot
  row_state above row (full blob) = full_state row blob
  row_state above row (legacy delta) = from_parent above row delta (given row.parent_snapshot_id)

  -- `_materialize_snapshot_locked`, with fuel for its recursion
  unfoldable pub materialize :
      ℕ → List SnapshotRow → List String → String → Outcome SnapshotError Snapshot
  materialize zero rows seen id = raise out_of_fuel
  materialize (suc fuel) rows seen id =
      let above = materialize fuel rows (id ∷ seen) in
      if elem id seen then raise lineage_cycle else elim (find_snapshot id rows) [
        | none ↦ raise unknown_snapshot
        | some row ↦ row_state above row row.body
      ]

  -- Fuel for each row, and one round more
  unfoldable pub get_snapshot : Snapshots → String → Outcome SnapshotError Snapshot
  get_snapshot t id = materialize (suc (length t.rows)) t.rows [] id
