-- ===== src/Json.antt =====
-- The values that the standard `json` module reads and writes, and the dictionaries among them.
-- A number that is no natural number is its literal. A dictionary keeps its items in insertion order.
use Prim.Native.String.{compare}
use text.Mathlib.Text.{is_le}
use joiny_mnemonic.Prelude.{
  ℕ, List, [], ◌∷◌, String, Bool, false, Option, none, some, if◌then◌else◌, ◌==◌, string_eq,
}

mutual
  pub data Json : Type 0 where
    null : Json
    bool : Bool → Json
    nat : ℕ → Json
    num : String → Json
    str : String → Json
    arr : Items → Json
    obj : Dict → Json

  pub data Items : Type 0 where
    nil : Items
    cons : Json → Items → Items

  pub data Dict : Type 0 where
    empty : Dict
    item : String → Json → Dict → Dict

-- `d.get(k)`
unfoldable pub lookup : String → Dict → Option Json
lookup k empty = none
lookup k (item j v d) = if j == k then some v else lookup k d

-- `d[k] = v`: a known key keeps its place, a new one is the last.
unfoldable pub assign : String → Json → Dict → Dict
assign k v empty = item k v empty
assign k v (item j w d) = if j == k then item j v d else item j w (assign k v d)

-- `d.pop(k, None)`, for a dictionary whose keys differ
unfoldable pub remove : String → Dict → Dict
remove k empty = empty
remove k (item j w d) = if j == k then remove k d else item j w (remove k d)

-- `value == s` for a text `s`
abbrev pub is_text : Option Json → String → Bool
is_text (some (str t)) s = t == s
is_text _ s = false

-- One insertion of a sort by key; `sort_keys=True` orders keys by code points.
insert_key : String → Json → Dict → Dict
insert_key k v empty = item k v empty
insert_key k v (item j w d) =
    if is_le (compare k j) then item k v (item j w d) else item j w (insert_key k v d)

-- The dictionaries of a value in the order of `sort_keys=True`, at every depth
unfoldable mutual
  unfolding insert_key

  pub sort_json : Json → Json
  sort_json (arr xs) = arr (sort_items xs)
  sort_json (obj d) = obj (sort_dict d)
  sort_json null = null
  sort_json (bool b) = bool b
  sort_json (nat n) = nat n
  sort_json (num s) = num s
  sort_json (str s) = str s

  pub sort_items : Items → Items
  sort_items nil = nil
  sort_items (cons x xs) = cons (sort_json x) (sort_items xs)

  pub sort_dict : Dict → Dict
  sort_dict empty = empty
  sort_dict (item k v d) = insert_key k (sort_json v) (sort_dict d)

abbrev pub opt_str : Option String → Json
opt_str none = null
opt_str (some s) = str s

abbrev pub str_items : List String → Items
str_items [] = nil
str_items (s ∷ ss) = cons (str s) (str_items ss)
