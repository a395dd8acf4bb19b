-- ===== src/Store/Ingest.antt =====
-- The public, host and internal ways to write events in src/joiny_mnemonic/storage.py:
-- `append_event`, `append_host_event`, `_append_events_once` and its three callers.
use joiny_mnemonic.Prelude.{
  String, Bool, true, false, Option, none, some, List, [], ◌∷◌, map, if◌then◌else◌, ◌==◌, string_eq,
  Outcome, ok, raise, ◌>>=◌,
}
use joiny_mnemonic.Json.{Dict}
use joiny_mnemonic.Provenance.{public_api, host_hook, internal}
use joiny_mnemonic.Store.{
  Event, Receipt, Store, StoreError, missing_adapter, empty_receipt_key, no_events,
  receipt_without_event, Externals,
}
use joiny_mnemonic.Store.Append.{NewEvent, Stamp, append_event_in_tx}

-- What a caller says of one event; the channel is the method's.
pub record Draft : Type 0 where
  pub kind : String
  pub role : Option String
  pub content : String
  pub payload : Dict
  pub files : List String

-- Where a batch goes and through which channel it came.
pub record Ingress : Type 0 where
  pub branch_id : String
  pub session_id : Option String
  pub origin_channel : String
  pub origin_adapter : Option String

abbrev pub new_event : Ingress → Draft → NewEvent
new_event i d = record {
  branch_id = i.branch_id;
  session_id = i.session_id;
  kind = d.kind;
  role = d.role;
  content = d.content;
  origin_channel = i.origin_channel;
  origin_adapter = i.origin_adapter;
  payload = d.payload;
  files = d.files;
}

-- `SELECT event_ids_json FROM ingest_receipts WHERE receipt_key=?`
unfoldable pub find_receipt : String → List Receipt → Option Receipt
find_receipt key [] = none
find_receipt key (r ∷ rs) = if r.receipt_key == key then some r else find_receipt key rs

unfoldable pub find_event : String → List Event → Option Event
find_event id [] = none
find_event id (e ∷ es) = if e.id == id then some e else find_event id es

-- The events that a receipt names
unfoldable pub receipt_events : List Event → List String → Outcome StoreError (List Event)
unfolding find_event
receipt_events events [] = ok []
receipt_events events (id ∷ ids) = elim (find_event id events) [
  | none ↦ raise receipt_without_event
  | some e ↦ do rest ← receipt_events events ids; ok (e ∷ rest)
]

module _ (x : Externals) where
  -- The loop over the batch; one stamp is drawn for each event.
  unfoldable pub append_batch :
      Store → Ingress → List (Draft × Stamp) → Outcome StoreError (Store × List Event)
  append_batch s i [] = ok (s, [])
  append_batch s i ((draft, stamp) ∷ batch) = do
    (s', e) ← append_event_in_tx x s (new_event i draft) stamp
    (s'', es) ← append_batch s' i batch
    ok (s'', e ∷ es)

  -- What `_append_events_once` answers to a key that has a receipt: the events it names
  unfoldable pub replay_receipt : Store → Receipt → Outcome StoreError (Store × List Event × Bool)
  replay_receipt s receipt = do es ← receipt_events s.events receipt.event_ids; ok (s, es, false)

  -- What it does with a new key: the batch and its receipt, in one transaction
  unfoldable pub write_batch :
      Store
      → String
      → Ingress
      → List (Draft × Stamp)
      → Outcome StoreError (Store × List Event × Bool)
  write_batch s key i batch = do
    (s', es) ← append_batch s i batch
    let receipt : Receipt = record { receipt_key = key; event_ids = map (λ e. e.id) es }
    ok (record s' { receipts = receipt ∷ s'.receipts }, es, true)

  -- `_append_events_once`: the events and whether they were appended now
  unfoldable pub append_events_once_in :
      Store
      → String
      → Ingress
      → List (Draft × Stamp)
      → Outcome StoreError (Store × List Event × Bool)
  append_events_once_in s key i [] = if key == "" then raise empty_receipt_key else raise no_events
  append_events_once_in s key i (first ∷ batch) =
      if key == "" then raise empty_receipt_key else elim (find_receipt key s.receipts) [
        | some receipt ↦ replay_receipt s receipt
        | none ↦ write_batch s key i (first ∷ batch)
      ]

  abbrev via : String → Option String → String → Option String → Ingress
  via channel adapter branch_id session_id = record {
    branch_id = branch_id;
    session_id = session_id;
    origin_channel = channel;
    origin_adapter = adapter;
  }

  unfoldable pub append_event :
      Store → String → Option String → Draft → Stamp → Outcome StoreError (Store × Event)
  append_event s branch_id session_id d stamp =
      append_event_in_tx x s (new_event (via public_api none branch_id session_id) d) stamp

  unfoldable pub append_host_event :
      Store → String → String → Option String → Draft → Stamp → Outcome StoreError (Store × Event)
  append_host_event s adapter branch_id session_id d stamp =
      if adapter == ""
      then raise missing_adapter
      else append_event_in_tx x s (new_event (via host_hook (some adapter) branch_id session_id) d)
          stamp

  unfoldable pub append_events_once :
      Store
      → String
      → String
      → Option String
      → List (Draft × Stamp)
      → Outcome StoreError (Store × List Event × Bool)
  append_events_once s key branch_id session_id batch =
      append_events_once_in s key (via public_api none branch_id session_id) batch

  unfoldable pub append_internal_events_once :
      Store
      → String
      → String
      → Option String
      → List (Draft × Stamp)
      → Outcome StoreError (Store × List Event × Bool)
  append_internal_events_once s key branch_id session_id batch =
      append_events_once_in s key (via internal none branch_id session_id) batch

  unfoldable pub append_host_events_once :
      Store
      → String
      → String
      → String
      → Option String
      → List (Draft × Stamp)
      → Outcome StoreError (Store × List Event × Bool)
  append_host_events_once s key adapter branch_id session_id batch =
      if adapter == ""
      then raise missing_adapter
      else append_events_once_in s key (via host_hook (some adapter) branch_id session_id) batch
