-- ===== src/Snapshots/Pruning/Guarded.antt =====
-- What `prune_snapshot_blobs` of src/joiny_mnemonic/storage.py leaves alone.
use joiny_mnemonic.Prelude.{
  String, true, false, ◌||◌, Option, List, [], ◌∷◌, ◌==◌, string_eq, nat_eq, any, length, ok,
  raise_if, recast, >>=-eq-ok, >>-eq-ok, raise_if-eq-ok, ◌≡◌, refl, sym, ap, ◌∙◌, arith, Bool-cases,
  inl, inr, eq_iff,
}
use joiny_mnemonic.Json.{Json}
use joiny_mnemonic.Store.{Event, Externals}
use joiny_mnemonic.Store.Append.{append_event_in_tx}
use joiny_mnemonic.Ledgers.Sources.{distinct}
use joiny_mnemonic.Snapshots.{SnapshotRow, find_snapshot}
use joiny_mnemonic.Snapshots.Pruning.{
  PruneTables, PruneStamp, store_error, nothing_requested, protected_snapshot, is_protected,
  preflight, stored_rows, pruning_event, clear_blob, pruning_row, prune_rows, prune_stored,
  prune_snapshot_blobs,
}

clear_blob-find :
    (id other : String) (rs : List SnapshotRow)
    → (other == id) ≡ false
    → find_snapshot id (clear_blob other rs) ≡ find_snapshot id rs
unfolding clear_blob find_snapshot
clear_blob-find id other [] apart = refl
clear_blob-find id other (r ∷ rs) apart = elim (Bool-cases (r.id == other)) [
  | inl here ↦
      let away : (r.id == id) ≡ false = rw ((eq_iff r.id other).0 here) apart in
      rw (here, away) (clear_blob-find id other rs apart)
  | inr elsewhere ↦ rw (elsewhere, clear_blob-find id other rs apart) refl
]

prune_rows-find :
    (stamp : PruneStamp) (e : Event) (t t' : PruneTables) (rs : List SnapshotRow) (id : String)
    → any (λ r. r.id == id) rs ≡ false
    → prune_rows stamp e t rs ≡ ok t'
    → find_snapshot id t'.snapshots.rows ≡ find_snapshot id t.snapshots.rows
unfolding prune_rows
prune_rows-find stamp e t t' [] id apart h =
    let same : t ≡ t' = cc h in ap (λ v. find_snapshot id v.snapshots.rows) (sym same)
prune_rows-find stamp e t t' (r ∷ rs) id apart h =
    let row = pruning_row stamp e r in
    elim (Bool-cases
      (any (λ old. old.id == row.id || old.snapshot_id == row.snapshot_id) t.prunings)) [
        | inl taken ↦ cc (rw (prune_rows, taken) at h)
        | inr free ↦
            prune_rows-find stamp e
              (record t {
                snapshots = record t.snapshots { rows = clear_blob r.id t.snapshots.rows };
                prunings = row ∷ t.prunings;
              })
              t' rs id (ground arith) (rw (prune_rows, free) at h)
            ∙ clear_blob-find id r.id t.snapshots.rows (ground arith)
      ]

not_among :
    (t : PruneTables) (id : String) (rs : List SnapshotRow)
    → is_protected t id ≡ true
    → any (λ r. is_protected t r.id) rs ≡ false
    → any (λ r. r.id == id) rs ≡ false
not_among t id [] kept clear = refl
not_among t id (r ∷ rs) kept clear = elim (Bool-cases (r.id == id)) [
  | inl here ↦
      let own : is_protected t r.id ≡ true = rw ((eq_iff r.id id).0 here) kept in
      cc (rw own at clear)
  | inr other ↦ rw other (not_among t id rs kept (ground arith))
]

module _ (x : Externals) (loads : String → Option Json) (t t' : PruneTables)
    (ids pruned : List String) (branch_id : String) (stamp : PruneStamp) where
  prune_stored-find :
      (rows : List SnapshotRow) (id : String)
      → is_protected t id ≡ true
      → prune_stored x t branch_id stamp rows ≡ ok (t', pruned)
      → find_snapshot id t'.snapshots.rows ≡ find_snapshot id t.snapshots.rows
  unfolding prune_stored
  prune_stored-find rows id kept h =
      let (guard, h₁) =
        >>-eq-ok (raise_if (any (λ r. is_protected t r.id) rows) protected_snapshot) _ h in
      let (got, _, h₂) =
        >>=-eq-ok
          (recast store_error (
            append_event_in_tx x t.snapshots.store (pruning_event stamp branch_id rows)
              stamp.event))
          _ h₁ in
      let start = record t { snapshots = record t.snapshots { store = got.0 } } in
      let (end, loop, same) = >>=-eq-ok (prune_rows stamp got.1 start rows) _ h₂ in
      let state : end ≡ t' = cc same in
      ap (λ v. find_snapshot id v.snapshots.rows) (sym state)
      ∙ prune_rows-find stamp got.1 start end rows id
          (not_among t id rows kept (raise_if-eq-ok _ _ guard)) loop

  -- A snapshot that a usage sample names, or that the latest version of an active or blocked task needs, has
  -- the same row after every call that returns, its blob included, whatever snapshots the call asks for.
  pub prune_snapshot_blobs-protected :
      prune_snapshot_blobs x loads t ids branch_id stamp ≡ ok (t', pruned)
      → (id : String) → is_protected t id ≡ true
      → find_snapshot id t'.snapshots.rows ≡ find_snapshot id t.snapshots.rows
  unfolding prune_snapshot_blobs
  prune_snapshot_blobs-protected h id kept =
      let rows = stored_rows t.snapshots.rows (distinct ids) in
      let (_, h₁) = >>-eq-ok (raise_if (length ids == 0) nothing_requested) _ h in
      let (_, h₂) = >>-eq-ok (preflight x loads t (distinct ids)) _ h₁ in
      elim (Bool-cases (length rows == 0)) [
        | inl nothing ↦
            let same : t ≡ t' = cc (rw nothing at h₂) in
            ap (λ v. find_snapshot id v.snapshots.rows) (sym same)
        | inr some_rows ↦ prune_stored-find rows id kept (rw some_rows at h₂)
      ]
