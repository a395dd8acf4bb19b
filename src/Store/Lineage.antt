-- ===== src/Store/Lineage.antt =====
-- Branches of src/joiny_mnemonic/storage.py: `create_branch`, `_lineage_locked`, `query_events`,
-- and `_event_visible_locked` of src/joiny_mnemonic/task_storage.py.
pub mod Chain
pub mod Order
pub mod Visible
use Prim.Native.String.{compare}
use text.Mathlib.Text.{is_le}
use joiny_mnemonic.Prelude.{
  ℕ, zero, suc, ◌+◌, ◌-◌, min, String, Bool, true, false, not, ◌&&◌, ◌||◌, Option, none, some, List,
  [], ◌∷◌, ◌++◌, reverse, if◌then◌else◌, ◌==◌, string_eq, nat_eq, ltb, leb, elem, any, keep, length,
  last?, Outcome, ok, raise, ◌>>=◌, ◌>>◌, raise_if,
}
use joiny_mnemonic.Store.{
  Branch, Event, Store, StoreError, bad_branch_id, unknown_parent_branch, fork_outside_history,
  unknown_branch, lineage_cycle, out_of_fuel, integrity_error,
}

-- `SELECT … FROM branches WHERE id=?`
unfoldable pub find_branch : String → List Branch → Option Branch
find_branch id [] = none
find_branch id (b ∷ bs) = if b.id == id then some b else find_branch id bs

abbrev pub Lineage : Type 0
Lineage = List (String × Option ℕ)

-- `cutoff if parent_cutoff is None else parent_cutoff if cutoff is None else min(…)`
unfoldable pub tighten : Option ℕ → Option ℕ → Option ℕ
tighten cutoff none = cutoff
tighten none (some fork) = some fork
tighten (some cutoff) (some fork) = some (min cutoff fork)

-- The `while` loop, in the order in which it appends. Each round but the last visits a new row.
unfoldable pub walk :
    ℕ → List Branch → Option String → Option ℕ → List String → Outcome StoreError Lineage
walk fuel rows none cutoff visited = ok []
walk zero rows (some current) cutoff visited = raise out_of_fuel
walk (suc fuel) rows (some current) cutoff visited =
    if elem current visited then raise lineage_cycle else elim (find_branch current rows) [
      | none ↦ raise unknown_branch
      | some row ↦ do
        rest ← walk fuel rows row.parent_id (tighten cutoff row.fork_event_seq) (current ∷ visited)
        ok ((current, cutoff) ∷ rest)
    ]

-- `_lineage_locked`, with fuel for every row and one more round
unfoldable pub lineage : List Branch → String → Outcome StoreError Lineage
lineage rows branch_id = do
  steps ← walk (suc (length rows)) rows (some branch_id) none []
  ok (reverse steps)

abbrev pub within : Option ℕ → ℕ → Bool
within none seq = true
within (some cutoff) seq = leb seq cutoff

-- `_event_visible_locked`, for the lineage of the branch
unfoldable pub covers : Lineage → Event → Bool
covers steps event = any (λ step. step.0 == event.branch_id && within step.1 event.seq) steps

-- The filters of `query_events` that SQL evaluates. An empty `since` or `until` is none.
pub record Query : Type 0 where
  pub after_seq : ℕ
  pub through_seq : Option ℕ
  pub kinds : List String
  pub since : Option String
  pub until : Option String

abbrev pub all_events : Query
all_events = record { after_seq = 0; through_seq = none; kinds = []; since = none; until = none }

abbrev pub not_before : Option String → String → Bool
not_before none at = true
not_before (some since) at = since == "" || is_le (compare since at)

abbrev pub not_after : Option String → String → Bool
not_after none at = true
not_after (some until) at = until == "" || is_le (compare at until)

abbrev pub of_kind : List String → String → Bool
of_kind [] kind = true
of_kind (k ∷ kinds) kind = elem kind (k ∷ kinds)

-- The clauses that do not depend on the branch
unfoldable pub selects : Query → Event → Bool
selects q event =
    ltb q.after_seq event.seq
    && (within q.through_seq event.seq
        && (of_kind q.kinds event.kind
            && (not_before q.since event.created_at && not_after q.until event.created_at)))

-- One `SELECT`, for one branch of the lineage and its cutoff
unfoldable pub select : Query → List Event → String → Option ℕ → List Event
unfolding selects
select q events branch cutoff =
    keep (λ e. (branch == e.branch_id && within cutoff e.seq) && selects q e) events

unfoldable pub select_all : Query → List Event → Lineage → List Event
select_all q events [] = []
select_all q events ((branch, cutoff) ∷ steps) =
    select q events branch cutoff ++ select_all q events steps

-- `sorted(rows, key=lambda item: item["seq"])`
unfoldable pub insert_row : Event → List Event → List Event
insert_row e [] = e ∷ []
insert_row e (x ∷ xs) = if leb e.seq x.seq then e ∷ x ∷ xs else x ∷ insert_row e xs

unfoldable pub sort_rows : List Event → List Event
sort_rows [] = []
sort_rows (x ∷ xs) = insert_row x (sort_rows xs)

-- `query_events` with no `text`, no `file` and no `limit`, as the callers in this library make it
unfoldable pub query_events : Store → String → Query → Outcome StoreError (List Event)
query_events s branch_id q = do
  steps ← lineage s.branches branch_id
  ok (sort_rows (select_all q s.events steps))

abbrev pub tip : Option Event → ℕ
tip none = 0
tip (some e) = e.seq

abbrev pub or_tip : Option ℕ → ℕ → ℕ
or_tip none parent_tip = parent_tip
or_tip (some fork) parent_tip = fork

-- The last part of `create_branch`: the checks of the fork point, and the new row
unfoldable pub add_branch :
    Store → String → String → Option ℕ → List Event → Outcome StoreError Store
add_branch s branch_id parent_id fork_event_seq parent_events =
    let parent_tip = tip (last? parent_events) in
    let fork = or_tip fork_event_seq parent_tip in
    do
      raise_if (ltb parent_tip fork) fork_outside_history
      raise_if (any (λ b. b.id == branch_id) s.branches) integrity_error
      ok (record s {
        branches =
            record { id = branch_id; parent_id = some parent_id; fork_event_seq = some fork }
            ∷ s.branches;
      })

unfoldable pub create_branch : Store → String → String → Option ℕ → Outcome StoreError Store
create_branch s branch_id parent_id fork_event_seq = do
  raise_if (branch_id == "" || branch_id == "main") bad_branch_id
  elim (find_branch parent_id s.branches) [
    | none ↦ raise unknown_parent_branch
    | some parent ↦
        query_events s parent_id all_events >>= add_branch s branch_id parent_id fork_event_seq
  ]
