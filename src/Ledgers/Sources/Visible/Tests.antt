-- ===== src/Ledgers/Sources/Visible/Tests.antt =====
-- The sources of a record in a branch with one event of its parent.
use joiny_mnemonic.Prelude.{String, List, [], none, ◌∷◌, ok, All, ◌≡◌, ◌≢◌, ◌↔◌}
use joiny_mnemonic.Store.Lineage.Chain.{chain}
use joiny_mnemonic.Store.Tests.{side_row, forked_store, forked_store-IsSound, side_is_there}
use joiny_mnemonic.Ledgers.Sources.{assert_source_events}
use joiny_mnemonic.Ledgers.Sources.Visible.{IsSource, assert_source_events_iff}

abbrev sources : List String
sources = "evt_1" ∷ []

assert_source_events_iff_example : (assert_source_events forked_store sources "side" ≡ ok tt) ↔ (
    sources ≢ []
    × All (IsSource forked_store.events (chain forked_store.branches "side" none)) sources)
assert_source_events_iff_example =
    assert_source_events_iff forked_store "side" side_row forked_store-IsSound side_is_there sources
