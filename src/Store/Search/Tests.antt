-- ===== src/Store/Search/Tests.antt =====
-- A query of two events with limits, by `query_events` of src/joiny_mnemonic/storage.py.
use joiny_mnemonic.Prelude.{ℕ, String, none, some, List, [], ◌∷◌, ◌++◌, length, ok, ◌≡◌, refl}
use joiny_mnemonic.Json.{empty}
use joiny_mnemonic.Store.{Event, Store, initial, Externals}
use joiny_mnemonic.Store.Append.{json_text}
use joiny_mnemonic.Store.Lineage.{
  find_branch, lineage, walk, query_events, all_events, select_all, select, selects, insert_row,
  sort_rows, tighten,
}
use joiny_mnemonic.Store.Search.{
  Filters, pos, mentions, touches, limited, filter_events, filter_events-limit, limit_size, ℤ,
  negsuc, drop, last_items,
}

abbrev same_case : String → String
same_case s = s

abbrev plain : Externals
plain = record {
  sha256 = λ s. s;
  sha256_bytes = λ bs. "";
  dumps = λ v. "x";
  redact_text = λ s. (s, []);
  redact_payload = λ d. (d, []);
  redact_files = λ fs. (fs, []);
}

abbrev row : ℕ → String → String → Event
row seq id content = record {
  seq = seq;
  id = id;
  branch_id = "main";
  session_id = none;
  kind = "message";
  role = some "user";
  origin_channel = "public_api";
  origin_adapter = none;
  content = content;
  payload = empty;
  files = "README.md" ∷ [];
  created_at = "2026-07-01T12:00:00+00:00";
  previous_hash = none;
  content_hash = "x";
  chain_hash = id;
}

abbrev two : List Event
two = row 1 "evt_1" "say hello" ∷ row 3 "evt_3" "hello again" ∷ []

abbrev store : Store
store = record initial {
  events = row 1 "evt_1" "say hello" ∷ row 2 "evt_2" "bye" ∷ row 3 "evt_3" "hello again" ∷ [];
}

abbrev hello : Filters
hello = record { text = some "hello"; file = some "README.md"; limit = none }

all_hellos : filter_events same_case plain store "main" all_events hello ≡ ok two
unfolding json_text filter_events mentions touches limited query_events lineage walk find_branch
    select_all select selects sort_rows insert_row tighten
all_hellos = refl

abbrev at_most : ℤ → Filters
at_most n = record hello { limit = some n }

with_limits :
    (filter_events same_case plain store "main" all_events (at_most (pos 1))
      ≡ ok (row 3 "evt_3" "hello again" ∷ []))
    × (filter_events same_case plain store "main" all_events (at_most (pos 0)) ≡ ok two)
unfolding json_text filter_events mentions touches limited query_events lineage walk find_branch
    select_all select selects sort_rows insert_row tighten drop last_items
with_limits = (refl, refl)

filter_events-limit_example :
    (front : List Event) × (tail : List Event) × (filter_events same_case plain store "main"
        all_events
        (at_most (negsuc 0))
      ≡ ok tail)
    × (two ≡ front ++ tail)
    × (length tail ≡ limit_size (negsuc 0) (length two))
filter_events-limit_example =
    filter_events-limit same_case plain store "main" all_events hello (negsuc 0) two all_hellos
