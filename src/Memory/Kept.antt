-- ===== src/Memory/Kept.antt =====
-- What a derivation leaves as it was, in src/joiny_mnemonic/storage.py.
use mathlib.Core.Path.{fun_ext}
use mathlib.Core.List.{append-nil}
use joiny_mnemonic.Prelude.{
  ℕ, ◌<◌, String, Bool, true, false, ◌&&◌, none, some, List, [], ◌∷◌, ◌++◌, reverse, ◌==◌,
  string_eq, keep, sort_by, keep-snoc, last?, Outcome, ok, ◌>>=◌, ◌≡◌, ◌≢◌, refl, sym, ap, ◌∙◌,
  arith,
}
use joiny_mnemonic.Store.{Branch, Event, Store, Externals}
use joiny_mnemonic.Store.Append.{next_seq}
use joiny_mnemonic.Store.Lineage.{find_branch, Lineage, within, lineage, covers}
use joiny_mnemonic.Store.Lineage.Chain.{chain, lineage_total}
use joiny_mnemonic.Store.Lineage.Visible.{covers-reverse}
use joiny_mnemonic.Store.Sound.{
  IsSound, Appended-seq, Appended-branch_id, append_event_in_tx-Appended,
}
use joiny_mnemonic.Store.History.{covers-later}
use joiny_mnemonic.Memory.{
  Memory, Memories, MemoryError, MemoryQuery, fits, select_memories, present, list_memories,
  limited_steps, by_cursor, memories_as_of,
}
use joiny_mnemonic.Memory.Derive.{
  NewMemory, TemporalFields, MemoryStamp, Standard, common_event_trace, derivation, memory_row,
  safe, derive_memory,
}
use joiny_mnemonic.Memory.Derived.{Derived, derive_memory-Derived}

keep-snoc_none :
    (p : Memory → Bool) (rows : List Memory) (r : Memory)
    → p r ≡ false
    → keep p (rows ++ r ∷ []) ≡ keep p rows
keep-snoc_none p rows r h = keep-snoc p rows r ∙ rw h (append-nil (keep p rows))

-- A row in a place that the steps do not cover is not selected.
pub select_memories_hidden :
    (p : Memory → Bool) (rows : List Memory) (r : Memory) (e : Event) (steps : Lineage)
    → r.branch_id ≡ e.branch_id
    → r.cursor_seq ≡ e.seq
    → covers steps e ≡ false
    → select_memories p (rows ++ r ∷ []) steps ≡ select_memories p rows steps
unfolding select_memories covers
select_memories_hidden p rows r e [] b c hidden = refl
select_memories_hidden p rows r e ((branch, cutoff) ∷ steps) b c hidden =
    let here : (branch == r.branch_id && within cutoff r.cursor_seq) ≡ false =
      rw (b, c) (ground arith) in
    rw
      (
        keep-snoc_none (λ v. (branch == v.branch_id && within cutoff v.cursor_seq) && p v) rows r
            (rw here refl),
        select_memories_hidden p rows r e steps b c (ground arith),
      )
      refl

limited-hidden :
    (limit : ℕ) (e : Event) (steps : Lineage)
    → limit < e.seq
    → covers (limited_steps (some limit) steps) e ≡ false
unfolding covers
limited-hidden limit e [] late = refl
limited-hidden limit e ((branch, none) ∷ steps) late =
    ground (arith, limited-hidden limit e steps late)
limited-hidden limit e ((branch, some cutoff) ∷ steps) late =
    ground (arith, limited-hidden limit e steps late)

then_same :
    {E A B : Type 0} (o : Outcome E A) (f g : A → Outcome E B)
    → ((a : A) → f a ≡ g a)
    → (o >>= f) ≡ (o >>= g)
then_same o f g h = ap (λ k. o >>= k) (fun_ext h)

-- The place of the record and of its event
pub record Placed (m : Memories) (branch : String) (m' : Memories) (r : Memory) : Type 0 where
  pub event : Event
  pub branches : m'.store.branches ≡ m.store.branches
  pub rows : m'.rows ≡ m.rows ++ r ∷ []
  pub row_branch : r.branch_id ≡ event.branch_id
  pub row_seq : r.cursor_seq ≡ event.seq
  pub in_branch : event.branch_id ≡ branch
  pub seq : event.seq ≡ next_seq (last? m.store.events)

pub Derived-Placed :
    {x : Externals} {std : Standard} {m : Memories} {n : NewMemory} {stamp : MemoryStamp}
    {m' : Memories} {r : Memory}
    → Derived x std m n stamp m' r
    → Placed m n.branch_id m' r
unfolding memory_row derivation
Derived-Placed {x} {std} {m} {n} {stamp} {m'} {r} d =
    let event =
      derivation n d.fields stamp.memory_id
        (common_event_trace m.store.events n.source_event_ids) in
    let a = append_event_in_tx-Appended x m.store event stamp.event d.written d.event d.append in
    record {
      event = d.event;
      branches = ap (λ v. v.store.branches) d.state ∙ ap (λ (v : Store). v.branches) a.store;
      rows = ap (λ v. v.rows) d.state;
      row_branch = ap (λ v. v.branch_id) d.row ∙ sym (Appended-branch_id a);
      row_seq = ap (λ v. v.cursor_seq) d.row;
      in_branch = Appended-branch_id a;
      seq = Appended-seq a;
    }

module _ (x : Externals) (std : Standard) (m : Memories) (n : NewMemory)
    (temporal : Outcome MemoryError TemporalFields) (stamp : MemoryStamp) (m' : Memories)
    (r : Memory) where
  -- The memories of any branch as of a point of the log that existed before a derivation are the same
  -- after it: what was known at that point is not rewritten.
  pub memories_as_of-derive_memory :
      derive_memory x std m n temporal stamp ≡ ok (m', r)
      → (branch : String) (point : ℕ) → point < next_seq (last? m.store.events)
      → memories_as_of m' branch (some point) ≡ memories_as_of m branch (some point)
  unfolding memories_as_of safe
  memories_as_of-derive_memory h branch point before =
      let p = Derived-Placed (derive_memory-Derived x std m stamp m' r n temporal h) in
      rw (p.branches, p.rows)
        (then_same (lineage m.store.branches branch) _ _ (λ steps.
          ap (λ rows. ok (sort_by by_cursor rows))
            (select_memories_hidden (λ _. true) m.rows r p.event (limited_steps (some point) steps)
              p.row_branch p.row_seq (limited-hidden point p.event steps (rw p.seq before)))))

  -- In a well-formed store, a derivation changes what no list of memories of any other known branch
  -- returns, whatever the filters.
  pub list_memories-derive_other :
      derive_memory x std m n temporal stamp ≡ ok (m', r)
      → IsSound m.store
      → (branch : String) (row : Branch) → find_branch branch m.store.branches ≡ some row
      → branch ≢ n.branch_id
      → (q : MemoryQuery) → list_memories m' branch q ≡ list_memories m branch q
  unfolding list_memories safe
  list_memories-derive_other h sound branch row at other q =
      let p = Derived-Placed (derive_memory-Derived x std m stamp m' r n temporal h) in
      let steps = chain m.store.branches branch none in
      let hidden =
        covers-later m.store.branches branch (next_seq (last? m.store.events)) p.event sound.forest
          sound.forks (omega (arith, p.seq)) (λ same. other (same ∙ p.in_branch)) in
      rw (p.branches, p.rows, lineage_total m.store.branches branch row sound.forest at)
        (ap (λ rows. ok (present q rows))
          (select_memories_hidden (fits q) m.rows r p.event (reverse steps) p.row_branch p.row_seq
            (covers-reverse steps p.event ∙ hidden)))
