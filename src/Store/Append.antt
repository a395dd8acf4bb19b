-- ===== src/Store/Append.antt =====
-- The writes of canonical events in src/joiny_mnemonic/storage.py, with `redaction_counts` of
-- src/joiny_mnemonic/security.py. The identifier and the time that the code draws are arguments.
use joiny_mnemonic.Prelude.{
  ℕ, ◌+◌, String, Bool, false, not, ◌&&◌, ◌||◌, Option, none, some, List, [], ◌∷◌, ◌++◌,
  if◌then◌else◌, ◌==◌, string_eq, any, last?, Outcome, ok, raise, ◌>>◌, raise_if,
}
use Prim.Native.String.{◌++◌ as text_append}
use joiny_mnemonic.Json.{
  Json, Dict, empty, item, nat, str, arr, obj, lookup, assign, sort_json, opt_str, str_items,
}
use joiny_mnemonic.Store.{
  Branch, Session, Event, Store, StoreError, unknown_branch, unknown_session,
  session_on_other_branch, missing_adapter, integrity_error, Redaction, Externals,
}
use joiny_mnemonic.Store.Lineage.{find_branch}

-- The arguments of `_append_event_in_tx`
pub record NewEvent : Type 0 where
  pub branch_id : String
  pub session_id : Option String
  pub kind : String
  pub role : Option String
  pub content : String
  pub origin_channel : String
  pub origin_adapter : Option String
  pub payload : Dict
  pub files : List String

-- `uuid4().hex` and `_now()` of one append
pub record Stamp : Type 0 where
  pub event_id : String
  pub created_at : String

abbrev pub find_session : String → List Session → Option Session
find_session id [] = none
find_session id (x ∷ xs) = if x.id == id then some x else find_session id xs

-- `_json`: canonical text, keys sorted at every depth
unfoldable pub json_text : Externals → Json → String
json_text x value = x.dumps (sort_json value)

abbrev count_of : Option Json → ℕ
count_of (some (nat n)) = n
count_of other = 0

unfoldable pub redaction_counts : List Redaction → Dict → Dict
redaction_counts [] counts = counts
redaction_counts (r ∷ rs) counts =
    let key = if r.rule == "private_region" then "private_regions_omitted" else r.rule in
    redaction_counts rs (assign key (nat (count_of (lookup key counts) + r.count)) counts)

abbrev pub mark_redactions : List Redaction → Dict → Dict
mark_redactions [] payload = payload
mark_redactions (r ∷ rs) payload =
    assign "_security_redactions" (obj (redaction_counts (r ∷ rs) empty)) payload

-- `_joiny_origin_adapter`, stamped by the host boundary over any claim of the payload
abbrev stamp_adapter : String → Option String → Dict → Dict
stamp_adapter channel none payload = payload
stamp_adapter channel (some adapter) payload =
    if channel == "host_hook" then assign "_joiny_origin_adapter" (str adapter) payload else payload

abbrev pub is_truthy : Option String → Bool
is_truthy none = false
is_truthy (some s) = not (s == "")

abbrev pub check_session : Store → String → Option String → Outcome StoreError Unit
check_session s branch_id none = ok tt
check_session s branch_id (some session_id) = elim (find_session session_id s.sessions) [
  | none ↦ raise unknown_session
  | some session ↦ raise_if (not (session.branch_id == branch_id)) session_on_other_branch
]

-- The dictionary whose canonical text is hashed, in the order in which the code writes it
abbrev pub canonical_fields : NewEvent → Stamp → Dict
canonical_fields n stamp = item "id" (str stamp.event_id) (
    item "branch_id" (str n.branch_id) (
      item "session_id" (opt_str n.session_id) (
        item "kind" (str n.kind) (
          item "role" (opt_str n.role) (
            item "origin_channel" (str n.origin_channel) (
              item "origin_adapter" (opt_str n.origin_adapter) (
                item "content" (str n.content) (
                  item "payload" (obj n.payload) (
                    item "files" (arr (str_items n.files))
                      (item "created_at" (str stamp.created_at) empty))))))))))

abbrev pub next_seq : Option Event → ℕ
next_seq none = 1
next_seq (some e) = e.seq + 1

abbrev pub chain_tip : Option Event → Option String
chain_tip none = none
chain_tip (some e) = some e.chain_hash

-- `previous_hash or ""`
abbrev pub hash_or_empty : Option String → String
hash_or_empty none = ""
hash_or_empty (some h) = h

module _ (x : Externals) where
  -- What the row stores of the arguments, after the stamp and the redactions
  unfoldable pub redacted : NewEvent → NewEvent
  unfolding redaction_counts
  redacted n =
      let (content, in_content) = x.redact_text n.content in
      let (payload, in_payload) =
        x.redact_payload (stamp_adapter n.origin_channel n.origin_adapter n.payload) in
      let (files, in_files) = x.redact_files n.files in
      record n {
        content = content;
        payload = mark_redactions (in_content ++ in_payload ++ in_files) payload;
        files = files;
      }

  -- The row of an event after the last one
  unfoldable pub event_row : Option Event → NewEvent → Stamp → Event
  unfolding json_text
  event_row last n stamp =
      let content_hash = x.sha256 (json_text x (obj (canonical_fields n stamp))) in
      let previous_hash = chain_tip last in
      record {
        seq = next_seq last;
        id = stamp.event_id;
        branch_id = n.branch_id;
        session_id = n.session_id;
        kind = n.kind;
        role = n.role;
        origin_channel = n.origin_channel;
        origin_adapter = n.origin_adapter;
        content = n.content;
        payload = n.payload;
        files = n.files;
        created_at = stamp.created_at;
        previous_hash = previous_hash;
        content_hash = content_hash;
        chain_hash = x.sha256 (text_append (hash_or_empty previous_hash) content_hash);
      }

  abbrev pub is_known_branch : Option Branch → Outcome StoreError Unit
  is_known_branch none = raise unknown_branch
  is_known_branch (some b) = ok tt

  -- `_append_event_in_tx`; the two unique columns are the primary key's and the chain's
  unfoldable pub append_event_in_tx : Store → NewEvent → Stamp → Outcome StoreError (Store × Event)
  append_event_in_tx s n stamp = do
    is_known_branch (find_branch n.branch_id s.branches)
    check_session s n.branch_id n.session_id
    raise_if (n.origin_channel == "host_hook" && not (is_truthy n.origin_adapter)) missing_adapter
    let row = event_row (last? s.events) (redacted n) stamp
    raise_if (any (λ e. e.id == row.id || e.chain_hash == row.chain_hash) s.events) integrity_error
    ok (record s { events = s.events ++ row ∷ [] }, row)

-- `start_session`, with the identifier that the code draws
unfoldable pub start_session : Store → String → String → Outcome StoreError Store
start_session s session_id branch_id = elim (find_branch branch_id s.branches) [
  | none ↦ raise unknown_branch
  | some branch ↦ do
    raise_if (any (λ v. v.id == session_id) s.sessions) integrity_error
    ok (record s { sessions = record { id = session_id; branch_id = branch_id } ∷ s.sessions })
]
