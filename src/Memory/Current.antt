-- ===== src/Memory/Current.antt =====
-- Which memories are current after a derivation, in src/joiny_mnemonic/storage.py.
use joiny_mnemonic.Prelude.{
  String, Bool, true, false, not, ◌&&◌, none, some, List, [], ◌∷◌, ◌++◌, reverse, if◌then◌else◌,
  ◌==◌, string_eq, any, any-append, any-sort_by, keep, keep-snoc, All, Outcome, ok, ◌≡◌, ◌≢◌, refl,
  ap, ◌∙◌, arith, Bool-cases, Option-cases, inl, inr, eq_iff, beq_refl, beq_of_ne, both_true,
}
use joiny_mnemonic.Store.{Event, Externals}
use joiny_mnemonic.Store.Lineage.{Lineage, within, covers}
use joiny_mnemonic.Store.Lineage.Chain.{chain, lineage_total}
use joiny_mnemonic.Store.Lineage.Visible.{covers-reverse}
use joiny_mnemonic.Store.History.{covers-own}
use joiny_mnemonic.Memory.{
  Memory, Memories, MemoryError, all_memories, fits, select_memories, is_superseded, by_created_at,
  present, list_memories,
}
use joiny_mnemonic.Memory.Derive.{
  NewMemory, TemporalFields, MemoryStamp, Standard, safe, derivation, memory_row, derive_memory,
}
use joiny_mnemonic.Memory.Derived.{derive_memory-Derived}
use joiny_mnemonic.Memory.Kept.{Derived-Placed}
use joiny_mnemonic.Memory.Versions.{IsHistory, Refers, Derived-Appended}

-- A test that some row passes is passed by some selected row, where that row is covered.
select_memories-shown :
    (p t : Memory → Bool) (rows : List Memory) (r : Memory) (e : Event) (steps : Lineage)
    → r.branch_id ≡ e.branch_id
    → r.cursor_seq ≡ e.seq
    → p r ≡ true
    → t r ≡ true
    → covers steps e ≡ true
    → any t (select_memories p (rows ++ r ∷ []) steps) ≡ true
unfolding select_memories covers
select_memories-shown p t rows r e [] b c fit test seen = cc seen
select_memories-shown p t rows r e ((branch, cutoff) ∷ steps) b c fit test seen =
    let here : Memory → Bool = λ v. (branch == v.branch_id && within cutoff v.cursor_seq) && p v in
    let rest = select_memories p (rows ++ r ∷ []) steps in
    rw
      (
        any-append t (keep here (rows ++ r ∷ [])) rest,
        keep-snoc here rows r,
        any-append t (keep here rows) (if here r then r ∷ [] else []),
      )
      (elim (Bool-cases (branch == e.branch_id && within cutoff e.seq)) [
        | inl at ↦
            let place : (branch == r.branch_id && within cutoff r.cursor_seq) ≡ true =
              rw (b, c) at in
            let chosen : here r ≡ true = both_true _ _ place fit in ground arith
        | inr away ↦
            let ih = select_memories-shown p t rows r e steps b c fit test (rw away at seen) in
            ground (arith, ih)
      ])

any-keep :
    (p t : Memory → Bool) (rows : List Memory) → any t rows ≡ false → any t (keep p rows) ≡ false
any-keep p t [] h = refl
any-keep p t (r ∷ rs) h = ground (arith, any-keep p t rs)

-- A test that no row passes is passed by no selected row.
select_memories-none :
    (p t : Memory → Bool) (rows : List Memory) (steps : Lineage)
    → any t rows ≡ false
    → any t (select_memories p rows steps) ≡ false
unfolding select_memories
select_memories-none p t rows [] h = refl
select_memories-none p t rows ((branch, cutoff) ∷ steps) h =
    let here : Memory → Bool = λ v. (branch == v.branch_id && within cutoff v.cursor_seq) && p v in
    rw
      (
        any-append t (keep here rows) (select_memories p rows steps),
        any-keep here t rows h,
        select_memories-none p t rows steps h,
      )
      refl

keep_true : (rows : List Memory) → keep (λ _. true) rows ≡ rows
keep_true [] = refl
keep_true (r ∷ rs) = ap (λ v. r ∷ v) (keep_true rs)

any-keep_none :
    (p t : Memory → Bool) (rows : List Memory)
    → ((r : Memory) → t r ≡ true → p r ≡ false)
    → any t (keep p rows) ≡ false
any-keep_none p t [] h = refl
any-keep_none p t (r ∷ rs) h = ground (arith, h r, any-keep_none p t rs h)

any-keep_some :
    (p t : Memory → Bool) (rows : List Memory)
    → ((r : Memory) → t r ≡ true → p r ≡ true)
    → any t rows ≡ true
    → any t (keep p rows) ≡ true
any-keep_some p t [] h k = cc k
any-keep_some p t (r ∷ rs) h k = ground (arith, h r, any-keep_some p t rs h)

abbrev pub named : String → Memory → Bool
named id r = r.id == id

any-present :
    (t : Memory → Bool) (rows : List Memory)
    → any t (present (all_memories false) rows)
      ≡ any t (keep (λ r. not (is_superseded rows r.id)) rows)
unfolding present
any-present t rows =
    rw keep_true (any-sort_by t by_created_at (keep (λ r. not (is_superseded rows r.id)) rows))

present-superseded :
    (rows : List Memory) (id : String)
    → is_superseded rows id ≡ true
    → any (named id) (present (all_memories false) rows) ≡ false
present-superseded rows id h =
    any-present (named id) rows
    ∙ any-keep_none (λ r. not (is_superseded rows r.id)) (named id) rows
        (λ r same. ap not (ap (is_superseded rows) ((eq_iff r.id id).0 same) ∙ h))

present-shown :
    (rows : List Memory) (id : String)
    → is_superseded rows id ≡ false
    → any (named id) rows ≡ true
    → any (named id) (present (all_memories false) rows) ≡ true
present-shown rows id h at =
    any-present (named id) rows
    ∙ any-keep_some (λ r. not (is_superseded rows r.id)) (named id) rows
        (λ r same. ap not (ap (is_superseded rows) ((eq_iff r.id id).0 same) ∙ h)) at

-- An identifier that no row has is superseded by no row.
not_superseded :
    (table rows : List Memory) (id : String)
    → All (Refers table) rows
    → any (named id) table ≡ false
    → is_superseded rows id ≡ false
not_superseded table [] id refs new = refl
not_superseded table (r ∷ rs) id refs new = elim (Option-cases r.supersedes_id) [
  | inl none' ↦ rw none' (not_superseded table rs id refs.1 new)
  | inr (old, link) ↦ elim (Bool-cases (old == id)) [
    | inr other ↦ rw (link, other) (ground (arith, not_superseded table rs id refs.1 new))
    | inl same ↦ cc (rw (link, (eq_iff old id).0 same) at refs.0, new)
  ]
]

abbrev supersedes : String → Memory → Bool
supersedes id other = elim other.supersedes_id [
  | none ↦ false
  | some old ↦ not (old == "") && old == id
]

supersedes-link :
    (r : Memory) (old : String) → r.supersedes_id ≡ some old → old ≢ "" → supersedes old r ≡ true
supersedes-link r old link named' = rw (link, beq_of_ne old "" named', beq_refl old) refl

new_unsuperseded :
    (rows : List Memory) (r : Memory)
    → All (Refers rows) rows
    → Refers rows r
    → any (named r.id) rows ≡ false
    → any (supersedes r.id) (rows ++ r ∷ []) ≡ false
new_unsuperseded rows r references own new =
    rw
      (
        any-append (supersedes r.id) rows (r ∷ []),
        not_superseded rows rows r.id references new,
        not_superseded rows (r ∷ []) r.id (own, tt) new,
      )
      refl

module _ (x : Externals) (std : Standard) (m : Memories) (n : NewMemory)
    (temporal : Outcome MemoryError TemporalFields) (stamp : MemoryStamp) (m' : Memories)
    (r : Memory) (h : derive_memory x std m n temporal stamp ≡ ok (m', r)) where
  -- After a derivation that supersedes a record, the list of the branch's current memories is returned, and
  -- it has the new record and not the superseded one.
  pub list_memories-superseded :
      IsHistory m
      → (old : String) → n.supersedes_id ≡ some old
      → old ≢ ""
      → (current : List Memory) × (list_memories m' n.branch_id (all_memories false) ≡ ok current)
        × (any (named old) current ≡ false)
        × (any (named r.id) current ≡ true)
  unfolding list_memories safe memory_row derivation
  list_memories-superseded history old asked not_empty =
      let d = derive_memory-Derived x std m stamp m' r n temporal h in
      let p = Derived-Placed d in
      let (row, at) = (Derived-Appended d).branch in
      let steps = chain m.store.branches n.branch_id none in
      let table = m.rows ++ r ∷ [] in
      let chosen = select_memories (fits (all_memories false)) table (reverse steps) in
      let seen =
        covers-reverse steps p.event
        ∙ covers-own m.store.branches n.branch_id row p.event at p.in_branch in
      let link : r.supersedes_id ≡ some old = ap (λ v. v.supersedes_id) d.row ∙ asked in
      let fit : fits (all_memories false) r ≡ true = unfold fits in refl in
      let gone : is_superseded chosen old ≡ true =
        select_memories-shown (fits (all_memories false)) (supersedes old) m.rows r p.event
          (reverse steps) p.row_branch p.row_seq fit (supersedes-link r old link not_empty) seen in
      let alive : is_superseded chosen r.id ≡ false =
        select_memories-none (fits (all_memories false)) (supersedes r.id) table (reverse steps)
          (new_unsuperseded m.rows r history.references d.refers_to d.unused) in
      let listed =
        select_memories-shown (fits (all_memories false)) (named r.id) m.rows r p.event
          (reverse steps) p.row_branch p.row_seq fit (beq_refl r.id) seen in
      (
        present (all_memories false) chosen,
        rw
            (
              p.branches,
              p.rows,
              lineage_total m.store.branches n.branch_id row history.sound.forest at,
            )
            refl,
        present-superseded chosen old gone,
        present-shown chosen r.id alive listed,
      )
