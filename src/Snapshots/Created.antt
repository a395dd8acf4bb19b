-- ===== src/Snapshots/Created.antt =====
-- `create_snapshot` of src/joiny_mnemonic/storage.py, and what is read back.
use mathlib.Core.Path.{subst}
use joiny_mnemonic.Prelude.{
  ℕ, String, not, Option, none, some, List, ◌∷◌, ◌==◌, string_eq, option_eq, any, last?, Outcome,
  ok, raise_if, recast, >>=-eq-ok, >>-eq-ok, recast-eq-ok, ◌≡◌, refl, beq_refl,
}
use joiny_mnemonic.Json.{Json, Dict, obj, null, bool, nat, num, str, arr}
use joiny_mnemonic.Store.{Event, Externals}
use joiny_mnemonic.Store.Append.{json_text}
use joiny_mnemonic.Store.Lineage.{lineage, query_events, all_events, tip}
use joiny_mnemonic.Snapshots.{
  SnapshotRow, Snapshots, Snapshot, SnapshotError, store_error, integrity_error, find_snapshot,
  full_state, row_state, materialize, get_snapshot,
}
use joiny_mnemonic.Snapshots.Creation.{
  SnapshotStamp, parent_of, check_parent, when_object, refers, insert_snapshot, snapshot_row,
  create_from, create_snapshot,
}

-- What a creation did
pub record Created (x : Externals) (loads : String → Option Json) (t : Snapshots) (state : Dict)
    (branch_id : String) (t' : Snapshots) (s : Snapshot) : Type 0 where
  pub reads : get_snapshot x loads t' s.row.id ≡ ok s
  pub is_state : loads (json_text x (obj state)) ≡ some (obj s.state)
  pub added : t' ≡ record t { rows = s.row ∷ t.rows }
  pub history : List Event
  pub seen : query_events t.store branch_id all_events ≡ ok history
  pub point : s.row.cursor_seq ≡ tip (last? history)

is_object :
    (v : Option Json) (f : Dict → Outcome SnapshotError (Snapshots × Snapshot))
    {result : Snapshots × Snapshot}
    → when_object v f ≡ ok result
    → (d : Dict) × (v ≡ some (obj d)) × (f d ≡ ok result)
is_object none f h = cc h
is_object (some (obj d)) f h = (d, refl, h)
is_object (some null) f h = cc h
is_object (some (bool b)) f h = cc h
is_object (some (nat n)) f h = cc h
is_object (some (num n)) f h = cc h
is_object (some (str s)) f h = cc h
is_object (some (arr vs)) f h = cc h

insert_snapshot-eq-ok :
    (t : Snapshots) (row : SnapshotRow) (state : Dict) (t' : Snapshots) (s : Snapshot)
    → insert_snapshot t row state ≡ ok (t', s)
    → (record t { rows = row ∷ t.rows } ≡ t') × (record { row = row; state = state } ≡ s)
unfolding insert_snapshot
insert_snapshot-eq-ok t row state t' s h =
    let (_, h₁) = >>-eq-ok (raise_if (any (λ old. old.id == row.id) t.rows) integrity_error) _ h in
    let (_, h₂) =
      >>-eq-ok (raise_if (not (refers t.rows row.parent_snapshot_id)) integrity_error) _ h₁ in
    (cc h₂, cc h₂)

module _ (x : Externals) (loads : String → Option Json) where
  reads_back :
      (t : Snapshots) (text : String) (state project : Dict) (branch_id : String)
      (parent : Option String) (cursor : ℕ) (stamp : SnapshotStamp)
      → loads text ≡ some (obj state)
      → let row = snapshot_row x loads text project branch_id parent cursor stamp in
        get_snapshot x loads (record t { rows = row ∷ t.rows }) row.id
        ≡ ok (record { row = row; state = state })
  unfolding get_snapshot materialize find_snapshot row_state full_state
  reads_back t text state project branch_id parent cursor stamp at =
      rw (get_snapshot, materialize, beq_refl stamp.snapshot_id, at, beq_refl (x.sha256 text)) refl

  -- A snapshot that was created is read back as it was returned, its state is the one that was given, written
  -- as JSON and read again, and its cursor is the last event that its branch saw.
  pub create_snapshot-Created :
      (t t' : Snapshots) (state project : Dict) (branch_id : String) (parent : Option String)
      (stamp : SnapshotStamp) (s : Snapshot)
      → create_snapshot x loads t state project branch_id parent stamp ≡ ok (t', s)
      → Created x loads t state branch_id t' s
  unfolding create_snapshot create_from
  create_snapshot-Created t t' state project branch_id parent stamp s h =
      let text = json_text x (obj state) in
      let (again, at, h₁) =
        is_object (loads text) (λ d. create_from x loads t text d project branch_id parent stamp)
          h in
      let (steps, _, h₂) =
        >>=-eq-ok (recast store_error (lineage t.store.branches branch_id)) _ h₁ in
      let (_, h₃) = >>-eq-ok (check_parent x loads t steps (parent_of t steps parent)) _ h₂ in
      let (history, seen, h₄) =
        >>=-eq-ok (recast store_error (query_events t.store branch_id all_events)) _ h₃ in
      let row =
        snapshot_row x loads text project branch_id (parent_of t steps parent) (tip (last? history))
          stamp in
      let (tables, result) = insert_snapshot-eq-ok t row again t' s h₄ in
      let made : Created x loads t state branch_id (record t { rows = row ∷ t.rows })
          (record { row = row; state = again }) =
        record {
          reads =
              reads_back t text again project branch_id (parent_of t steps parent)
                (tip (last? history)) stamp at;
          is_state = at;
          added = refl;
          history = history;
          seen = recast-eq-ok store_error _ seen;
          point = refl;
        } in
      subst (λ v. Created x loads t state branch_id v s) tables
        (subst (Created x loads t state branch_id (record t { rows = row ∷ t.rows })) result made)
