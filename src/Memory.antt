-- ===== src/Memory.antt =====
-- The memory records of src/joiny_mnemonic/storage.py: `get_memory`, `list_memories`,
-- `memories_as_of`, `memory_lineage_links` and, in Derive, `derive_memory`. A number that may have a
-- fraction is its literal. Where SQL leaves the order of equal keys open, it is the table's.
pub mod Derive
pub mod Derived
pub mod Kept
pub mod Current
pub mod Versions
pub mod Trusted
mod Tests
use Prim.Native.String.{compare}
use text.Mathlib.Text.{is_le}
use joiny_mnemonic.Prelude.{
  ℕ, ◌+◌, min, String, Bool, true, false, not, ◌&&◌, ◌||◌, Option, none, some, List, [], ◌∷◌, ◌++◌,
  map, if◌then◌else◌, ◌==◌, string_eq, nat_eq, ltb, elem, any, keep, sort_by, Outcome, ok, raise,
  ◌>>=◌, recast,
}
use joiny_mnemonic.Json.{Dict}
use joiny_mnemonic.Store.{Event, Store, StoreError}
use joiny_mnemonic.Store.Append.{is_truthy}
use joiny_mnemonic.Store.Lineage.{Lineage, within, lineage, not_before, not_after, of_kind}

-- A row of `memory_records`, with the JSON columns decoded
pub record Memory : Type 0 where
  pub id : String
  pub branch_id : String
  pub memory_type : String
  pub content : String
  pub summary : String
  pub files : List String
  pub risk : String
  pub retrieval_cost : String
  pub version : ℕ
  pub source_event_ids : List String
  pub supersedes_id : Option String
  pub cursor_seq : ℕ
  pub created_at : String
  pub metadata : Dict
  pub valid_from : Option String
  pub valid_to : Option String
  pub valid_from_precision : Option String
  pub valid_to_precision : Option String
  pub temporal_expression : Option String

-- The canonical tables and the table of memories, in the order of insertion
pub record Memories : Type 0 where
  pub store : Store
  pub rows : List Memory

pub data MemoryError : Type 0 where
  store_error : StoreError → MemoryError
  unsupported_memory_type risk_out_of_range negative_cost temporal_error : MemoryError
  not_one_source not_a_stop_event : MemoryError
  unknown_superseded superseded_outside_lineage unknown_memory : MemoryError

unfoldable pub find_memory : String → List Memory → Option Memory
find_memory id [] = none
find_memory id (r ∷ rs) = if r.id == id then some r else find_memory id rs

unfoldable pub get_memory : Memories → String → Outcome MemoryError Memory
get_memory m id = elim (find_memory id m.rows) [ none ↦ raise unknown_memory | some r ↦ ok r ]

-- The filters of `list_memories`. An empty `since`, `until` or `file` is none.
pub record MemoryQuery : Type 0 where
  pub memory_types : List String
  pub since : Option String
  pub until : Option String
  pub file : Option String
  pub include_superseded : Bool

abbrev pub all_memories : Bool → MemoryQuery
all_memories include_superseded = record {
  memory_types = [];
  since = none;
  until = none;
  file = none;
  include_superseded = include_superseded;
}

-- The clauses of `list_memories` that do not depend on the branch
unfoldable pub fits : MemoryQuery → Memory → Bool
fits q r =
    of_kind q.memory_types r.memory_type
    && (not_before q.since r.created_at && not_after q.until r.created_at)

-- One `SELECT`, for one branch of the lineage and its cutoff
unfoldable pub select_memories : (Memory → Bool) → List Memory → Lineage → List Memory
select_memories p rows [] = []
select_memories p rows ((branch, cutoff) ∷ steps) =
    keep (λ r. (branch == r.branch_id && within cutoff r.cursor_seq) && p r) rows
    ++ select_memories p rows steps

-- `r["id"]` is a `supersedes_id` of one of the rows; an empty one is none.
abbrev pub is_superseded : List Memory → String → Bool
is_superseded rows id =
    any
      (λ other. elim other.supersedes_id [ none ↦ false | some old ↦ not (old == "") && old == id ])
      rows

abbrev pub by_created_at : Memory → Memory → Bool
by_created_at a b = is_le (compare a.created_at b.created_at)

abbrev pub has_file : Option String → Memory → Bool
has_file none r = true
has_file (some file) r = file == "" || elem file r.files

-- The part of `list_memories` after the `SELECT`s
unfoldable pub present : MemoryQuery → List Memory → List Memory
present q rows =
    let current =
      if q.include_superseded then rows else keep (λ r. not (is_superseded rows r.id)) rows in
    keep (has_file q.file) (sort_by by_created_at current)

unfoldable pub list_memories : Memories → String → MemoryQuery → Outcome StoreError (List Memory)
list_memories m branch_id q = do
  steps ← lineage m.store.branches branch_id
  ok (present q (select_memories (fits q) m.rows steps))

-- `effective`: the cutoff of the branch and that of the call
abbrev pub earlier : Option ℕ → Option ℕ → Option ℕ
earlier cutoff none = cutoff
earlier none (some limit) = some limit
earlier (some cutoff) (some limit) = some (min cutoff limit)

abbrev pub limited_steps : Option ℕ → Lineage → Lineage
limited_steps limit [] = []
limited_steps limit ((branch, cutoff) ∷ steps) =
    (branch, earlier cutoff limit) ∷ limited_steps limit steps

-- The order of the pairs `(row["cursor_seq"], row["created_at"])`
abbrev pub by_cursor : Memory → Memory → Bool
by_cursor a b =
    if a.cursor_seq == b.cursor_seq then by_created_at a b else ltb a.cursor_seq b.cursor_seq

unfoldable pub memories_as_of : Memories → String → Option ℕ → Outcome StoreError (List Memory)
memories_as_of m branch_id cutoff_seq = do
  steps ← lineage m.store.branches branch_id
  ok (sort_by by_cursor (select_memories (λ r. true) m.rows (limited_steps cutoff_seq steps)))

-- The `supersedes_id` of a row, where an empty one is none
abbrev pub link : Memory → String × Option String
link r = (r.id, (if is_truthy r.supersedes_id then r.supersedes_id else none))

-- `memory_lineage_links`, as the items that the loop assigns; identifiers are unique in the table.
unfoldable pub memory_lineage_links :
    Memories → String → Outcome StoreError (List (String × Option String))
memory_lineage_links m branch_id = do
  steps ← lineage m.store.branches branch_id
  ok (map link (select_memories (λ r. true) m.rows steps))
