-- ===== src/Ledgers/Sources.antt =====
-- `_assert_source_events` of src/joiny_mnemonic/storage.py, and the visibility of one event.
pub mod Visible
use joiny_mnemonic.Prelude.{
  String, Bool, true, false, not, Option, none, some, List, [], ◌∷◌, ◌==◌, string_eq, ltb, any,
  keep, get, Outcome, ok, raise, raise_if, ◌>>=◌,
}
use joiny_mnemonic.Store.{Event, Store, StoreError, no_sources, missing_sources, invisible_sources}
use joiny_mnemonic.Store.Ingest.{find_event}
use joiny_mnemonic.Store.Lineage.{Lineage, lineage, covers}

-- `tuple(dict.fromkeys(values))`: the first occurrence of each value
unfoldable pub distinct : List String → List String
distinct [] = []
distinct (v ∷ vs) = v ∷ keep (λ w. not (w == v)) (distinct vs)

abbrev pub with_row : Option Event → Option (List Event) → Option (List Event)
with_row (some e) (some rows) = some (e ∷ rows)
with_row (some e) none = none
with_row none rows = none

-- `SELECT … FROM events WHERE id IN (…)`, or nothing when an identifier has no row
unfoldable pub source_rows : List Event → List String → Option (List Event)
source_rows events [] = some []
source_rows events (id ∷ ids) = with_row (find_event id events) (source_rows events ids)

-- Whether a row lies outside the lineage, read as a dictionary of cutoffs
unfoldable pub is_invisible : Lineage → Event → Bool
is_invisible steps e = elim (get e.branch_id steps) [
  | none ↦ true
  | some none ↦ false
  | some (some cutoff) ↦ ltb cutoff e.seq
]

-- The test of the rows that were found
unfoldable pub check_visible : Store → String → List Event → Outcome StoreError (Unit {0})
check_visible s branch_id rows = do
  steps ← lineage s.branches branch_id
  raise_if (any (is_invisible steps) rows) invisible_sources

unfoldable pub assert_source_events : Store → List String → String → Outcome StoreError (Unit {0})
assert_source_events s [] branch_id = raise no_sources
assert_source_events s (id ∷ ids) branch_id = elim (source_rows s.events (distinct (id ∷ ids))) [
  | none ↦ raise missing_sources
  | some rows ↦ check_visible s branch_id rows
]

-- `_event_visible_locked`
unfoldable pub event_visible : Store → Event → String → Outcome StoreError Bool
event_visible s e branch_id = do steps ← lineage s.branches branch_id; ok (covers steps e)
