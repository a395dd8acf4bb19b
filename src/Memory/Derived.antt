-- ===== src/Memory/Derived.antt =====
-- What a successful `derive_memory` of src/joiny_mnemonic/storage.py did.
use mathlib.Core.Path.{subst}
use joiny_mnemonic.Prelude.{
  ℕ, Bool, true, false, not, [], ◌∷◌, ◌++◌, ◌==◌, string_eq, elem, any, Outcome, ok, raise_if,
  recast, >>=-eq-ok, >>-eq-ok, recast-eq-ok, raise_if-eq-ok, ◌≡◌, refl, sym, ap, ◌∙◌,
}
use joiny_mnemonic.Store.{Event, Store, integrity_error, Externals}
use joiny_mnemonic.Store.Append.{append_event_in_tx}
use joiny_mnemonic.Ledgers.Sources.{assert_source_events}
use joiny_mnemonic.Memory.{
  Memory, Memories, MemoryError, store_error, unsupported_memory_type, risk_out_of_range,
  negative_cost,
}
use joiny_mnemonic.Memory.Derive.{
  NewMemory, TemporalFields, MemoryStamp, Standard, memory_types, common_event_trace,
  assert_agent_finalized_authority, next_version, refers, safe, derivation, memory_row,
  insert_memory, derive_safe, derive_memory,
}

pub record Derived (x : Externals) (std : Standard) (m : Memories) (n : NewMemory)
    (stamp : MemoryStamp) (m' : Memories) (r : Memory) : Type 0 where
  pub fields : TemporalFields
  pub version : ℕ
  pub written : Store
  pub event : Event
  pub sources : assert_source_events m.store n.source_event_ids n.branch_id ≡ ok tt
  pub authority :
      assert_agent_finalized_authority std.casefold m.store.events n.metadata n.source_event_ids
      ≡ ok tt
  pub next : next_version m n.branch_id n.supersedes_id ≡ ok version
  pub append :
      append_event_in_tx x m.store
        (derivation n fields stamp.memory_id (common_event_trace m.store.events n.source_event_ids))
        stamp.event
      ≡ ok (written, event)
  pub unused : any (λ old. old.id == r.id) m.rows ≡ false
  pub refers_to : refers m.rows r.supersedes_id ≡ true
  pub row : r ≡ memory_row n fields stamp version event
  pub state : m' ≡ record { store = written; rows = m.rows ++ r ∷ [] }

-- What an insertion did
record Inserted (m : Memories) (v : Memory) (m' : Memories) (r : Memory) : Type 0 where
  unused : any (λ old. old.id == v.id) m.rows ≡ false
  refers_to : not (refers m.rows v.supersedes_id) ≡ false
  same : v ≡ r
  state : record m { rows = m.rows ++ v ∷ [] } ≡ m'

insert_memory-Inserted :
    (m : Memories) (v : Memory) (m' : Memories) (r : Memory)
    → insert_memory m v ≡ ok (m', r)
    → Inserted m v m' r
unfolding insert_memory
insert_memory-Inserted m v m' r h =
    let taken = any (λ old. old.id == v.id) m.rows in
    let dangling = not (refers m.rows v.supersedes_id) in
    let (h₁, h₂) = >>-eq-ok (raise_if taken (store_error integrity_error)) _ h in
    let (h₃, h₄) =
      >>-eq-ok (raise_if dangling (store_error integrity_error))
        (ok (record m { rows = m.rows ++ v ∷ [] }, v)) h₂ in
    record {
      unused = raise_if-eq-ok taken _ h₁;
      refers_to = raise_if-eq-ok dangling _ h₃;
      same = cc h₄;
      state = cc h₄;
    }

not_false : (b : Bool) → not b ≡ false → b ≡ true
not_false true h = refl
not_false false h = cc

module _ (x : Externals) (std : Standard) (m : Memories) (stamp : MemoryStamp) (m' : Memories)
    (r : Memory) where
  -- The insertion, where all before it passed
  insertion-Derived :
      (n : NewMemory) (fields : TemporalFields) (version : ℕ) (written : Store) (event : Event)
      → assert_source_events m.store n.source_event_ids n.branch_id ≡ ok tt
      → assert_agent_finalized_authority std.casefold m.store.events n.metadata n.source_event_ids
        ≡ ok tt
      → next_version m n.branch_id n.supersedes_id ≡ ok version
      → append_event_in_tx x m.store
          (derivation n fields stamp.memory_id
            (common_event_trace m.store.events n.source_event_ids))
          stamp.event
        ≡ ok (written, event)
      → insert_memory (record m { store = written }) (memory_row n fields stamp version event)
        ≡ ok (m', r)
      → Derived x std m n stamp m' r
  insertion-Derived n fields version written event sources authority next append h =
      let v = memory_row n fields stamp version event in
      let i = insert_memory-Inserted (record m { store = written }) v m' r h in
      record {
        fields = fields;
        version = version;
        written = written;
        event = event;
        sources = sources;
        authority = authority;
        next = next;
        append = append;
        unused = subst (λ w. any (λ old. old.id == w.id) m.rows ≡ false) i.same i.unused;
        refers_to =
            subst (λ w. refers m.rows w.supersedes_id ≡ true) i.same (not_false _ i.refers_to);
        row = sym i.same;
        state =
            sym i.state
            ∙ ap {B = Memories} (λ w. record { store = written; rows = m.rows ++ w ∷ [] }) i.same;
      }

  derive_safe-Derived :
      (n : NewMemory) (temporal : Outcome MemoryError TemporalFields)
      → derive_safe x std m n temporal stamp ≡ ok (m', r)
      → Derived x std m n stamp m' r
  unfolding derive_safe
  derive_safe-Derived n temporal h =
      let (sources, h₁) =
        >>-eq-ok (recast store_error (assert_source_events m.store n.source_event_ids n.branch_id))
          _ h in
      let (authority, h₂) =
        >>-eq-ok
          (assert_agent_finalized_authority std.casefold m.store.events n.metadata
            n.source_event_ids)
          _ h₁ in
      let (fields, _, h₃) = >>=-eq-ok temporal _ h₂ in
      let (version, next, h₄) = >>=-eq-ok (next_version m n.branch_id n.supersedes_id) _ h₃ in
      let trace = common_event_trace m.store.events n.source_event_ids in
      let (got, append, h₅) =
        >>=-eq-ok
          (recast store_error
            (append_event_in_tx x m.store (derivation n fields stamp.memory_id trace) stamp.event))
          _ h₄ in
      insertion-Derived n fields version got.0 got.1 (recast-eq-ok store_error _ sources) authority
        next (recast-eq-ok store_error _ append) h₅

  pub derive_memory-Derived :
      (n : NewMemory) (temporal : Outcome MemoryError TemporalFields)
      → derive_memory x std m n temporal stamp ≡ ok (m', r)
      → Derived x std m (safe x n) stamp m' r
  unfolding derive_memory
  derive_memory-Derived n temporal h =
      let (_, h₁) =
        >>-eq-ok (raise_if (not (elem n.memory_type memory_types)) unsupported_memory_type) _ h in
      let (_, h₂) = >>-eq-ok (raise_if (not (std.is_fraction n.risk)) risk_out_of_range) _ h₁ in
      let (_, h₃) = >>-eq-ok (raise_if (std.is_negative n.retrieval_cost) negative_cost) _ h₂ in
      derive_safe-Derived (safe x n) temporal h₃
