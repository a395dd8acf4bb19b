-- ===== src/Ledgers/Tasks.antt =====
-- Task versions and session bindings of src/joiny_mnemonic/task_storage.py.
pub mod Versions
pub mod Authority
pub mod Log
pub mod Again
pub mod Bindings
use joiny_mnemonic.Prelude.{
  ℕ, ◌+◌, String, Bool, true, false, not, ◌||◌, Option, none, some, List, [], ◌∷◌, if◌then◌else◌,
  ◌==◌, string_eq, ltb, any, elem, get, last?, Outcome, ok, raise, raise_if, recast, ◌>>=◌, ◌>>◌,
}
use joiny_mnemonic.Json.{Dict}
use joiny_mnemonic.Transitions.{Request, TransitionDecision, validate_transition, workstream_rule}
use joiny_mnemonic.Store.{Event, Externals, unknown_session, unknown_event, integrity_error}
use joiny_mnemonic.Store.Append.{find_session}
use joiny_mnemonic.Store.Ingest.{find_event}
use joiny_mnemonic.Ledgers.{
  TaskVersion, Ledgers, LedgerError, store_error, rule_error, empty_key_or_title,
  unsupported_status, key_on_other_branch, not_started_active, stale_source, unknown_task,
  session_bound_elsewhere, delegation_enabled, event_origin_evidence,
}
use joiny_mnemonic.Ledgers.Sources.{distinct, assert_source_events, event_visible}

-- The arguments of `create_task_version`
pub record NewTask : Type 0 where
  pub task_key : String
  pub branch_id : String
  pub title : String
  pub status : String
  pub source_event_ids : List String
  pub parent_task_key : Option String
  pub snapshot_id : Option String
  pub metadata : Dict
  pub reopen : Bool
  pub transition_reason : String

-- The identifier and the time that the code draws
pub record TaskStamp : Type 0 where
  pub task_id : String
  pub created_at : String

abbrev pub task_statuses : List String
task_statuses = "active" ∷ "blocked" ∷ "completed" ∷ "cancelled" ∷ []

abbrev pub newer_task : TaskVersion → Option TaskVersion → Option TaskVersion
newer_task t none = some t
newer_task t (some u) = if ltb u.version t.version then some t else some u

-- `SELECT * FROM task_versions WHERE task_key=? ORDER BY version DESC LIMIT 1`
unfoldable pub latest_task : String → List TaskVersion → Option TaskVersion
latest_task key [] = none
latest_task key (t ∷ ts) =
    let rest = latest_task key ts in if t.task_key == key then newer_task t rest else rest

-- `str(source_event_ids[-1]) if source_event_ids else ""`
abbrev pub last_source : List String → String
last_source ids = elim (last? ids) [ none ↦ "" | some id ↦ id ]

module _ (casefold : String → String) where
  abbrev pub task_request : Ledgers → NewTask → TaskVersion → Event → Bool → Request
  task_request l n current e visible = record {
    current = current.status;
    target = n.status;
    origin = event_origin_evidence casefold e;
    source_visible = visible;
    delegated_enabled = delegation_enabled l;
    reopen = n.reopen;
    reason = n.transition_reason;
    system_actor = false;
  }

  -- What `create_task_version` asks of the gate, once the source has a row
  unfoldable pub decide_from :
      Ledgers → NewTask → TaskVersion → Event → Outcome LedgerError TransitionDecision
  decide_from l n current e = do
    raise_if (elem (last_source n.source_event_ids) current.source_event_ids) stale_source
    visible ← recast store_error (event_visible l.store e n.branch_id)
    recast rule_error (validate_transition workstream_rule (task_request l n current e visible))

  unfoldable pub decide_task :
      Ledgers → NewTask → TaskVersion → Outcome LedgerError TransitionDecision
  decide_task l n current = elim (find_event (last_source n.source_event_ids) l.store.events) [
    | none ↦ raise (store_error unknown_event)
    | some e ↦ decide_from l n current e
  ]

  module _ (x : Externals) where
    unfoldable pub task_row : NewTask → ℕ → TaskStamp → TaskVersion
    task_row n version stamp = record {
      id = stamp.task_id;
      task_key = n.task_key;
      branch_id = n.branch_id;
      version = version;
      title = (x.redact_text n.title).0;
      status = n.status;
      parent_task_key = n.parent_task_key;
      source_event_ids = distinct n.source_event_ids;
      snapshot_id = n.snapshot_id;
      metadata = (x.redact_payload n.metadata).0;
      created_at = stamp.created_at;
    }

    -- `INSERT INTO task_versions`
    unfoldable pub insert_task : Ledgers → TaskVersion → Outcome LedgerError (Ledgers × TaskVersion)
    insert_task l row = do
      raise_if (any (λ t. t.id == row.id) l.tasks) (store_error integrity_error)
      ok (record l { tasks = row ∷ l.tasks }, row)

    -- A new version of a task that has the version `current`
    unfoldable pub advance_task :
        Ledgers → NewTask → TaskStamp → TaskVersion → Outcome LedgerError (Ledgers × TaskVersion)
    advance_task l n stamp current = do
      decision ← decide_task l n current
      if not decision.changed
          then ok (l, current)
          else insert_task l (task_row n (current.version + 1) stamp)

    -- The rest of `create_task_version`, from the version that is current
    unfoldable pub create_from :
        Ledgers
        → NewTask
        → TaskStamp
        → Option TaskVersion
        → Outcome LedgerError (Ledgers × TaskVersion)
    create_from l n stamp none = do
      raise_if (not (n.status == "active")) not_started_active
      insert_task l (task_row n 1 stamp)
    create_from l n stamp (some current) =
        if not (current.branch_id == n.branch_id)
        then raise key_on_other_branch
        else if current.status == n.status
        then ok (l, current)
        else advance_task l n stamp current

    unfoldable pub create_task_version :
        Ledgers → NewTask → TaskStamp → Outcome LedgerError (Ledgers × TaskVersion)
    create_task_version l n stamp = do
      raise_if (n.task_key == "" || n.title == "") empty_key_or_title
      raise_if (not (elem n.status task_statuses)) unsupported_status
      recast store_error (assert_source_events l.store n.source_event_ids n.branch_id)
      create_from l n stamp (latest_task n.task_key l.tasks)

unfoldable pub get_task : Ledgers → String → Outcome LedgerError TaskVersion
get_task l task_key = elim (latest_task task_key l.tasks) [
  | none ↦ raise unknown_task
  | some t ↦ ok t
]

-- `bind_task_session` for a session that has no binding
unfoldable pub add_binding : Ledgers → String → String → Outcome LedgerError Ledgers
add_binding l session_id task_key = elim (find_session session_id l.store.sessions) [
  | none ↦ raise (store_error unknown_session)
  | some session ↦ do
    raise_if (not (any (λ t. t.task_key == task_key) l.tasks)) unknown_task
    ok (record l { bindings = (session_id, task_key) ∷ l.bindings })
]

unfoldable pub bind_task_session : Ledgers → String → String → Outcome LedgerError Ledgers
bind_task_session l session_id task_key = elim (get session_id l.bindings) [
  | some bound ↦ if bound == task_key then ok l else raise session_bound_elsewhere
  | none ↦ add_binding l session_id task_key
]
