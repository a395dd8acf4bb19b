-- ===== src/Snapshots/Tests.antt =====
-- A snapshot of one event, restored after a second, and a table with a cycle.
use joiny_mnemonic.Prelude.{
  String, Option, none, some, List, [], ◌∷◌, ◌++◌, leb, keep, ok, raise, ◌≡◌, ◌≢◌, refl,
}
use joiny_mnemonic.Json.{Json, empty, item, nat, obj, lookup, assign, remove}
use joiny_mnemonic.Store.{Event, Externals}
use joiny_mnemonic.Store.Append.{json_text}
use joiny_mnemonic.Store.Lineage.{
  find_branch, lineage, walk, tighten, query_events, select_all, select, selects, sort_rows,
  insert_row, all_events,
}
use joiny_mnemonic.Store.Tests.{second_row, main_row, forked_store, forked_two, forked_two-IsSound}
use joiny_mnemonic.Snapshots.{
  patch, change, put, pop, incremental, legacy, full, readable, SnapshotRow, Snapshots, Snapshot,
  edit, apply_operation, apply_operations, apply_snapshot_delta, find_snapshot, out_of_fuel,
  visible_rows, newest_row, latest_visible_snapshot, full_state, row_state, materialize,
  get_snapshot,
}
use joiny_mnemonic.Snapshots.Creation.{
  SnapshotStamp, check_limit, check_parent, insert_snapshot, create_from, create_snapshot,
  snapshot_tail,
}
use joiny_mnemonic.Snapshots.Materialized.{IsVerified, get_snapshot_ends, get_snapshot-IsVerified}
use joiny_mnemonic.Snapshots.Created.{Created, create_snapshot-Created}
use joiny_mnemonic.Snapshots.Tails.{snapshot_tail-history}

abbrev pub plain : Externals
plain = record {
  sha256 = λ s. s;
  sha256_bytes = λ bs. "";
  dumps = λ v. "{}";
  redact_text = λ s. (s, []);
  redact_payload = λ d. (d, []);
  redact_files = λ fs. (fs, []);
}

abbrev pub loads : String → Option Json
loads text = some (obj empty)

abbrev pub begin : Snapshots
begin = record { store = forked_store; rows = [] }

abbrev stamp : SnapshotStamp
stamp = record {
  snapshot_id = "snp_1";
  created_at = "2026-07-01T12:00:00+00:00";
  replay_code_version = "2";
}

abbrev pub first_snapshot : SnapshotRow
first_snapshot = record {
  id = "snp_1";
  branch_id = "main";
  parent_snapshot_id = none;
  cursor_seq = 1;
  body = full (some (readable "{}"));
  state_sha256 = some "{}";
  replay_code_version = "2";
  project = empty;
  created_at = "2026-07-01T12:00:00+00:00";
}

abbrev taken : Snapshot
taken = record { row = first_snapshot; state = empty }

abbrev with_snapshot : Snapshots
with_snapshot = record begin { rows = first_snapshot ∷ [] }

take_snapshot :
    create_snapshot plain loads begin empty empty "main" none stamp ≡ ok (with_snapshot, taken)
unfolding create_snapshot create_from json_text lineage walk find_branch tighten
    latest_visible_snapshot visible_rows newest_row check_parent query_events select_all select
    selects sort_rows insert_row insert_snapshot
take_snapshot = refl

create_snapshot-Created_example : Created plain loads begin empty "main" with_snapshot taken
create_snapshot-Created_example =
    create_snapshot-Created plain loads begin with_snapshot empty empty "main" none stamp taken
      take_snapshot

read_snapshot : get_snapshot plain loads with_snapshot "snp_1" ≡ ok taken
unfolding get_snapshot materialize find_snapshot row_state full_state
read_snapshot = refl

get_snapshot-IsVerified_example : IsVerified plain loads with_snapshot.rows "snp_1" taken
get_snapshot-IsVerified_example =
    get_snapshot-IsVerified plain loads with_snapshot "snp_1" taken read_snapshot

-- A delta that sets a key two levels down and drops another
patched :
    apply_snapshot_delta
      (item "index" (obj (item "a" (nat 1) empty)) empty)
      (patch (change ("index" ∷ "b" ∷ []) "c" (put (nat 2)) ∷ change ("index" ∷ []) "a" pop ∷ []))
    ≡ item "index" (obj (item "b" (obj (item "c" (nat 2) empty)) empty)) empty
unfolding apply_snapshot_delta apply_operations apply_operation edit lookup assign remove
patched = refl

abbrev turning : String → String → SnapshotRow
turning id parent = record first_snapshot {
  id = id;
  parent_snapshot_id = some parent;
  body = legacy (some (incremental [] empty));
}

abbrev cycle : Snapshots
cycle = record begin { rows = turning "snp_a" "snp_b" ∷ turning "snp_b" "snp_a" ∷ [] }

get_snapshot_ends_example : get_snapshot plain loads cycle "snp_a" ≢ raise out_of_fuel
get_snapshot_ends_example = get_snapshot_ends plain loads cycle "snp_a"

abbrev later : Snapshots
later = record with_snapshot { store = forked_two }

main_is_there : find_branch "main" later.store.branches ≡ some main_row
unfolding find_branch
main_is_there = refl

tail_of_main : snapshot_tail later taken "main" ≡ ok (second_row ∷ [])
unfolding snapshot_tail lineage walk find_branch tighten check_limit query_events select_all select
    selects sort_rows insert_row
tail_of_main = refl

snapshot_tail-history_example :
    (history : List Event) × (query_events later.store "main" all_events ≡ ok history)
    × (history ≡ keep (λ e. leb e.seq taken.row.cursor_seq) history ++ second_row ∷ [])
snapshot_tail-history_example =
    snapshot_tail-history later taken "main" main_row (second_row ∷ []) forked_two-IsSound
      main_is_there tail_of_main
