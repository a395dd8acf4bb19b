-- ===== src/Snapshots/Pruning/Tests.antt =====
-- Two snapshots, one of which a usage sample names.
use joiny_mnemonic.Prelude.{String, true, none, some, List, [], ◌∷◌, Outcome, ok, raise, ◌≡◌, refl}
use joiny_mnemonic.Json.{empty, item, str, lookup}
use joiny_mnemonic.Store.Append.{append_event_in_tx, redacted, event_row, json_text}
use joiny_mnemonic.Store.Lineage.{find_branch}
use joiny_mnemonic.Ledgers.Sources.{distinct}
use joiny_mnemonic.Snapshots.{
  full, SnapshotRow, find_snapshot, full_state, row_state, materialize, get_snapshot,
}
use joiny_mnemonic.Snapshots.Tests.{plain, loads, first_snapshot, begin}
use joiny_mnemonic.Snapshots.Pruning.{
  PruneTables, PruneError, protected_snapshot, PruneStamp, is_protected, check_row, preflight,
  stored_rows, clear_blob, prune_rows, prune_stored, prune_snapshot_blobs,
}
use joiny_mnemonic.Snapshots.Pruning.Guarded.{prune_snapshot_blobs-protected}

abbrev second_snapshot : SnapshotRow
second_snapshot = record first_snapshot { id = "snp_2" }

abbrev tables : PruneTables
tables = record {
  snapshots = record begin { rows = second_snapshot ∷ first_snapshot ∷ [] };
  prunings = [];
  usage = some (item "snapshot_id" (str "snp_1") empty) ∷ [];
  tasks = [];
}

abbrev stamp : PruneStamp
stamp = record {
  event = record { event_id = "evt_2"; created_at = "2026-07-01T12:00:00+00:00" };
  count_text = λ n. "1";
  pruning_id = λ id. "spr_1";
  created_at = λ id. "2026-07-01T12:00:00+00:00";
}

abbrev tables_of : Outcome PruneError (PruneTables × List String) → PruneTables
tables_of (ok (t, ids)) = t
tables_of (raise e) = tables

abbrev after : PruneTables
after = tables_of (prune_snapshot_blobs plain loads tables ("snp_2" ∷ []) "main" stamp)

prune_second :
    prune_snapshot_blobs plain loads tables ("snp_2" ∷ []) "main" stamp ≡ ok (after, "snp_2" ∷ [])
unfolding prune_snapshot_blobs preflight check_row distinct find_snapshot get_snapshot materialize
    row_state full_state stored_rows prune_stored is_protected lookup append_event_in_tx redacted
    event_row json_text find_branch prune_rows clear_blob
prune_second = refl

second_is_cleared :
    find_snapshot "snp_2" after.snapshots.rows ≡ some (record second_snapshot { body = full none })
unfolding prune_snapshot_blobs preflight check_row distinct find_snapshot get_snapshot materialize
    row_state full_state stored_rows prune_stored is_protected lookup append_event_in_tx redacted
    event_row json_text find_branch prune_rows clear_blob
second_is_cleared = refl

first_is_refused :
    prune_snapshot_blobs plain loads tables ("snp_2" ∷ "snp_1" ∷ []) "main" stamp
    ≡ raise protected_snapshot
unfolding prune_snapshot_blobs preflight check_row distinct find_snapshot get_snapshot materialize
    row_state full_state stored_rows prune_stored is_protected lookup
first_is_refused = refl

first_is_protected : is_protected tables "snp_1" ≡ true
unfolding is_protected lookup
first_is_protected = refl

prune_snapshot_blobs-protected_example :
    find_snapshot "snp_1" after.snapshots.rows ≡ find_snapshot "snp_1" tables.snapshots.rows
prune_snapshot_blobs-protected_example =
    prune_snapshot_blobs-protected plain loads tables after ("snp_2" ∷ []) ("snp_2" ∷ []) "main"
      stamp prune_second "snp_1" first_is_protected
