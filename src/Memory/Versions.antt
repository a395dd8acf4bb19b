-- ===== src/Memory/Versions.antt =====
-- The supersession links of the memory table of src/joiny_mnemonic/storage.py.
use mathlib.Core.Path.{subst}
use joiny_mnemonic.Prelude.{
  ℕ, ◌+◌, ◌<◌, String, true, not, Option, none, some, List, [], ◌∷◌, ◌++◌, ◌==◌, string_eq, any,
  any-append, All, All-snoc, last?, last-snoc, Outcome, ok, raise_if, recast, >>=-eq-ok, >>-eq-ok,
  ◌≡◌, ◌≢◌, refl, sym, ap, ◌∙◌, arith, Bool-cases, Option-cases, inl, inr, beq_of_ne,
}
use joiny_mnemonic.Store.{Store, Externals}
use joiny_mnemonic.Store.Append.{next_seq}
use joiny_mnemonic.Store.Sound.{
  IsSound, Appended, append_event_in_tx-Appended, Appended-seq, Appended-IsSound,
}
use joiny_mnemonic.Memory.{
  Memory, Memories, MemoryError, store_error, superseded_outside_lineage, find_memory, all_memories,
  list_memories,
}
use joiny_mnemonic.Memory.Derive.{
  NewMemory, TemporalFields, MemoryStamp, Standard, common_event_trace, next_version, refers,
  derivation, memory_row, derive_memory,
}
use joiny_mnemonic.Memory.Derived.{Derived, derive_memory-Derived}

-- A superseding row is the next version of an earlier row.
abbrev pub Follows : List Memory → Memory → Type 0
Follows rows r =
    (id : String)
    → r.supersedes_id ≡ some id
    → id ≢ ""
    → (previous : Memory) × (find_memory id rows ≡ some previous)
      × (r.version ≡ previous.version + 1)
      × (previous.cursor_seq < r.cursor_seq)

-- The foreign key of a row
abbrev pub Refers : List Memory → Memory → Type 0
Refers rows r = refers rows r.supersedes_id ≡ true

pub record IsHistory (m : Memories) : Type 0 where
  pub sound : IsSound m.store
  pub past : All (λ r. r.cursor_seq < next_seq (last? m.store.events)) m.rows
  pub follows : All (Follows m.rows) m.rows
  pub references : All (Refers m.rows) m.rows

find_memory-snoc :
    (id : String) (rows : List Memory) (r old : Memory)
    → find_memory id rows ≡ some old
    → find_memory id (rows ++ r ∷ []) ≡ some old
unfolding find_memory
find_memory-snoc id [] r old h = cc h
find_memory-snoc id (v ∷ vs) r old h = elim (Bool-cases (v.id == id)) [
  | inl here ↦ rw here (rw here at h)
  | inr other ↦ rw other (find_memory-snoc id vs r old (rw other at h))
]

find_memory_ind :
    (P : Memory → Type 0) (id : String) (rows : List Memory) (r : Memory)
    → All P rows
    → find_memory id rows ≡ some r
    → P r
unfolding find_memory
find_memory_ind P id [] r all h = cc h
find_memory_ind P id (v ∷ vs) r all h = elim (Bool-cases (v.id == id)) [
  | inl here ↦ subst P (cc (rw here at h)) all.0
  | inr other ↦ find_memory_ind P id vs r all.1 (rw other at h)
]

Follows-snoc : (rows : List Memory) (r v : Memory) → Follows rows v → Follows (rows ++ r ∷ []) v
Follows-snoc rows r v h id link named =
    let (old, at, version, later) = h id link named in
    (old, find_memory-snoc id rows r old at, version, later)

refers-snoc :
    (rows : List Memory) (r : Memory) (id : Option String)
    → refers rows id ≡ true
    → refers (rows ++ r ∷ []) id ≡ true
refers-snoc rows r none h = refl
refers-snoc rows r (some id) h = rw (any-append (λ v. v.id == id) rows (r ∷ []), h) refl

All-impl :
    (P Q : Memory → Type 0) (rows : List Memory)
    → ((r : Memory) → P r → Q r)
    → All P rows
    → All Q rows
All-impl P Q [] f h = tt
All-impl P Q (r ∷ rs) f h = (f r h.0, All-impl P Q rs f h.1)

-- What `next_version` found
next_version-previous :
    (m : Memories) (branch id : String) (version : ℕ)
    → next_version m branch (some id) ≡ ok version
    → id ≢ ""
    → (old : Memory) × (find_memory id m.rows ≡ some old) × (version ≡ old.version + 1)
unfolding next_version
next_version-previous m branch id version h named = elim (Option-cases (find_memory id m.rows)) [
  | inl missing ↦ cc (rw (next_version, beq_of_ne id "" named, missing) at h)
  | inr (old, at) ↦
      let k = rw (next_version, beq_of_ne id "" named, at) at h in
      let (seen, _, k₁) =
        >>=-eq-ok (recast store_error (list_memories m branch (all_memories true))) _ k in
      let (_, k₂) =
        >>-eq-ok (raise_if (not (any (λ r. r.id == id) seen)) superseded_outside_lineage) _ k₁ in
      (old, at, cc k₂)
]

module _ {x : Externals} {std : Standard} {m : Memories} {n : NewMemory} {stamp : MemoryStamp}
    {m' : Memories} {r : Memory} (d : Derived x std m n stamp m' r) where
  pub Derived-Appended :
      Appended x m.store
        (derivation n d.fields stamp.memory_id
          (common_event_trace m.store.events n.source_event_ids))
        stamp.event
        d.written
        d.event
  Derived-Appended = append_event_in_tx-Appended x m.store _ stamp.event d.written d.event d.append

  Derived-seq : d.event.seq ≡ next_seq (last? m.store.events)
  Derived-seq = Appended-seq Derived-Appended

  Derived-row_seq : r.cursor_seq ≡ d.event.seq
  unfolding memory_row
  Derived-row_seq = ap (λ v. v.cursor_seq) d.row

  next_seq-written : next_seq (last? d.written.events) ≡ d.event.seq + 1
  next_seq-written =
      rw (ap (λ (v : Store). v.events) Derived-Appended.store, last-snoc m.store.events d.event)
        refl

  Derived-Follows :
      All (λ v. v.cursor_seq < next_seq (last? m.store.events)) m.rows → Follows m.rows r
  unfolding memory_row
  Derived-Follows past id link named =
      let asked : n.supersedes_id ≡ some id = sym (ap (λ v. v.supersedes_id) d.row) ∙ link in
      let (old, at, version) =
        next_version-previous m n.branch_id id d.version (rw asked at d.next) named in
      let before =
        find_memory_ind (λ v. v.cursor_seq < next_seq (last? m.store.events)) id m.rows old past
          at in
      (
        old,
        at,
        ap (λ v. v.version) d.row ∙ version,
        omega (arith, before, Derived-row_seq, Derived-seq),
      )

  pub Derived-IsHistory : IsHistory m → IsHistory m'
  Derived-IsHistory history =
      let linked = Derived-Follows history.past in
      subst IsHistory (sym d.state) (record {
        sound = Appended-IsSound Derived-Appended history.sound;
        past = rw next_seq-written (
            All-snoc (λ v. v.cursor_seq < d.event.seq + 1) m.rows r
              (All-impl _ _ m.rows (λ v k. omega (arith, k, Derived-seq)) history.past)
              (omega (arith, Derived-row_seq)));
        follows =
            All-snoc (Follows (m.rows ++ r ∷ [])) m.rows r
              (All-impl _ _ m.rows (Follows-snoc m.rows r) history.follows)
              (Follows-snoc m.rows r r linked);
        references =
            All-snoc (Refers (m.rows ++ r ∷ [])) m.rows r
              (All-impl _ _ m.rows (λ v. refers-snoc m.rows r v.supersedes_id) history.references)
              (refers-snoc m.rows r r.supersedes_id d.refers_to);
      })

module _ (x : Externals) (std : Standard) (m : Memories) (n : NewMemory)
    (temporal : Outcome MemoryError TemporalFields) (stamp : MemoryStamp) (m' : Memories)
    (r : Memory) (h : derive_memory x std m n temporal stamp ≡ ok (m', r)) where
  -- A derivation keeps the memory history well formed: the store is, each record lies in the past of the
  -- log, refers to a record that exists, and, where it supersedes one, has the next version and a later
  -- place in the log. So no chain of supersessions returns to where it began.
  pub derive_memory-IsHistory : IsHistory m → IsHistory m'
  derive_memory-IsHistory history =
      Derived-IsHistory (derive_memory-Derived x std m stamp m' r n temporal h) history
