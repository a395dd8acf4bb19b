-- ===== src/Memory/Trusted.antt =====
-- What a derived memory of src/joiny_mnemonic/storage.py rests on.
use mathlib.Core.Path.{subst}
use joiny_mnemonic.Prelude.{
  String, true, false, not, none, some, List, [], ◌∷◌, ◌++◌, ◌==◌, string_eq, any, All, Outcome, ok,
  raise_if-eq-ok, ◌≡◌, ◌≢◌, refl, sym, ap, arith, Option-cases, inl, inr, eq_iff, beq_refl,
}
use joiny_mnemonic.Json.{lookup, is_text}
use joiny_mnemonic.Provenance.{host_assistant_finalization}
use joiny_mnemonic.Store.{Event, Externals}
use joiny_mnemonic.Store.Ingest.{find_event}
use joiny_mnemonic.Store.Lineage.Chain.{chain}
use joiny_mnemonic.Store.Sound.{IsSound}
use joiny_mnemonic.Ledgers.{event_origin_evidence}
use joiny_mnemonic.Ledgers.Sources.Visible.{IsSource, assert_source_events_iff}
use joiny_mnemonic.Memory.{Memory, Memories, MemoryError, not_a_stop_event, find_memory, get_memory}
use joiny_mnemonic.Memory.Derive.{
  NewMemory, TemporalFields, MemoryStamp, Standard, check_stop, check_one_source,
  assert_agent_finalized_authority, safe, derivation, memory_row, derive_memory,
}
use joiny_mnemonic.Memory.Derived.{derive_memory-Derived}
use joiny_mnemonic.Memory.Versions.{Derived-Appended}

-- One source, the event of a host's Stop hook with the assistant's final record
pub record IsFinalRecord (casefold : String → String) (events : List Event) (ids : List String)
    : Type 0 where
  pub id : String
  pub source : Event
  pub only : ids ≡ id ∷ []
  pub at : find_event id events ≡ some source
  pub origin : event_origin_evidence casefold source ≡ host_assistant_finalization

check_one_source-IsFinalRecord :
    (casefold : String → String) (events : List Event) (ids : List String)
    → check_one_source casefold events ids ≡ ok tt
    → IsFinalRecord casefold events ids
unfolding check_one_source check_stop
check_one_source-IsFinalRecord casefold events [] h = cc h
check_one_source-IsFinalRecord casefold events (id ∷ other ∷ ids) h = cc h
check_one_source-IsFinalRecord casefold events (id ∷ []) h =
    elim (Option-cases (find_event id events)) [
      | inl missing ↦ cc (rw (check_one_source, missing) at h)
      | inr (e, at) ↦
          let test = event_origin_evidence casefold e == host_assistant_finalization in
          let passed =
            raise_if-eq-ok (not test) not_a_stop_event (rw (check_one_source, at) at h) in
          record {
            id = id;
            source = e;
            only = refl;
            at = at;
            origin =
                (eq_iff (event_origin_evidence casefold e) host_assistant_finalization).0
                  (ground arith);
          }
    ]

find_memory-last :
    (rows : List Memory) (r : Memory)
    → any (λ v. v.id == r.id) rows ≡ false
    → find_memory r.id (rows ++ r ∷ []) ≡ some r
unfolding find_memory
find_memory-last [] r new = rw (beq_refl r.id) refl
find_memory-last (v ∷ vs) r new = ground (arith, find_memory-last vs r)

module _ (x : Externals) (std : Standard) (m : Memories) (n : NewMemory)
    (temporal : Outcome MemoryError TemporalFields) (stamp : MemoryStamp) (m' : Memories)
    (r : Memory) (h : derive_memory x std m n temporal stamp ≡ ok (m', r)) where
  -- A record that claims the authority of an agent's final answer has one source, and that source is the
  -- event by which a host finalized the assistant's message, by the channel that it came through.
  pub derive_memory-finalized :
      is_text (lookup "authority_level" r.metadata) "agent_finalized" ≡ true
      → IsFinalRecord std.casefold m.store.events r.source_event_ids
  unfolding assert_agent_finalized_authority memory_row
  derive_memory-finalized claim =
      let d = derive_memory-Derived x std m stamp m' r n temporal h in
      let metadata : r.metadata ≡ (safe x n).metadata = ap (λ v. v.metadata) d.row in
      let ids : r.source_event_ids ≡ (safe x n).source_event_ids =
        ap (λ v. v.source_event_ids) d.row in
      let claimed : is_text (lookup "authority_level" (safe x n).metadata) "agent_finalized"
          ≡ true =
        subst (λ v. is_text (lookup "authority_level" v) "agent_finalized" ≡ true) metadata claim in
      subst (IsFinalRecord std.casefold m.store.events) (sym ids) (
        check_one_source-IsFinalRecord std.casefold m.store.events (safe x n).source_event_ids
          (rw (assert_agent_finalized_authority, claimed) at d.authority))

  -- In a well-formed store, the record that a derivation returns is the one that `get_memory` finds, and
  -- its sources are one event or more, each of which the chain of the record's branch covers.
  pub derive_memory-get_memory :
      IsSound m.store
      → (get_memory m' r.id ≡ ok r)
        × (r.source_event_ids ≢ [])
        × All (IsSource m.store.events (chain m.store.branches r.branch_id none)) r.source_event_ids
  unfolding get_memory memory_row derivation safe
  derive_memory-get_memory sound =
      let d = derive_memory-Derived x std m stamp m' r n temporal h in
      let (row, at) = (Derived-Appended d).branch in
      let sources =
        (assert_source_events_iff m.store n.branch_id row sound at (safe x n).source_event_ids).0
          d.sources in
      (
        rw (d.state, get_memory, find_memory-last m.rows r d.unused) refl,
        rw d.row sources.0,
        rw d.row sources.1,
      )
