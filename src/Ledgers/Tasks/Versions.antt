-- ===== src/Ledgers/Tasks/Versions.antt =====
-- What `create_task_version` of src/joiny_mnemonic/task_storage.py did when it returns.
use joiny_mnemonic.Prelude.{
  ◌+◌, String, Bool, true, false, not, ◌||◌, Option, none, some, ◌∷◌, ◌==◌, string_eq, any, elem,
  ok, raise_if, recast, recast-eq-ok, >>=-eq-ok, >>-eq-ok, raise_if-eq-ok, ◌≡◌, refl, sym, ap, ◌∙◌,
  ◌⊎◌, arith, Bool-cases, Option-cases, eq_iff, inl, inr,
}
use joiny_mnemonic.Transitions.{TransitionDecision, validate_transition, workstream_rule}
use joiny_mnemonic.Transitions.Gate.{
  IsPermitted, validate_transition_iff, validate_transition-cases,
}
use joiny_mnemonic.Store.{Event, Externals, integrity_error}
use joiny_mnemonic.Store.Ingest.{find_event}
use joiny_mnemonic.Ledgers.{
  TaskVersion, Ledgers, store_error, rule_error, empty_key_or_title, unsupported_status,
  not_started_active, stale_source,
}
use joiny_mnemonic.Ledgers.Sources.{assert_source_events, event_visible}
use joiny_mnemonic.Ledgers.Tasks.{
  NewTask, TaskStamp, task_statuses, latest_task, last_source, task_request, decide_from,
  decide_task, task_row, insert_task, advance_task, create_from, create_task_version,
}

-- One new row, in front of those that were there.
pub record Inserted (l : Ledgers) (row : TaskVersion) (l' : Ledgers) (t : TaskVersion)
    : Type 0 where
  pub is_row : row ≡ t
  pub tables : record l { tasks = row ∷ l.tasks } ≡ l'

insert_task-Inserted :
    (casefold : String → String) (x : Externals) (l : Ledgers) (row : TaskVersion) (l' : Ledgers)
    (t : TaskVersion)
    → insert_task casefold x l row ≡ ok (l', t)
    → Inserted l row l' t
unfolding insert_task
insert_task-Inserted casefold x l row l' t h =
    let (_, h₁) =
      >>-eq-ok (raise_if (any (λ v. v.id == row.id) l.tasks) (store_error integrity_error))
        (ok (record l { tasks = row ∷ l.tasks }, row)) h in
    record { is_row = cc h₁; tables = cc h₁ }

module _ (casefold : String → String) where
  -- The event that moved a task, and that the gate let it pass.
  pub record Authorized (l : Ledgers) (n : NewTask) (current : TaskVersion) : Type 0 where
    pub source : Event
    pub at : find_event (last_source n.source_event_ids) l.store.events ≡ some source
    pub new : elem (last_source n.source_event_ids) current.source_event_ids ≡ false
    pub visible : Bool
    pub seen : event_visible l.store source n.branch_id ≡ ok visible
    pub permitted : IsPermitted workstream_rule (task_request casefold l n current source visible)

  decided :
      (l : Ledgers) (n : NewTask) (current : TaskVersion) (e : Event) (d : TransitionDecision)
      → find_event (last_source n.source_event_ids) l.store.events ≡ some e
      → decide_from casefold l n current e ≡ ok d
      → ((d.changed ≡ true) × Authorized l n current)
        ⊎ ((d.changed ≡ false) × (current.status ≡ n.status))
  unfolding decide_from
  decided l n current e d at h =
      let stale = elem (last_source n.source_event_ids) current.source_event_ids in
      let (fresh, h₁) = >>-eq-ok (raise_if stale stale_source) _ h in
      let (visible, seen, h₂) =
        >>=-eq-ok (recast store_error (event_visible l.store e n.branch_id)) _ h₁ in
      let q = task_request casefold l n current e visible in
      let gate = recast-eq-ok rule_error (validate_transition workstream_rule q) h₂ in
      elim (validate_transition-cases workstream_rule q d gate) [
        | inl (changed, accepts) ↦ inl (
          changed,
          record {
            source = e;
            at = at;
            new = raise_if-eq-ok stale stale_source fresh;
            visible = visible;
            seen = recast-eq-ok store_error (event_visible l.store e n.branch_id) seen;
            permitted = (validate_transition_iff workstream_rule q).0 accepts;
          },
        )
        | inr same ↦ inr same
      ]

  decide_task-cases :
      (l : Ledgers) (n : NewTask) (current : TaskVersion) (d : TransitionDecision)
      → decide_task casefold l n current ≡ ok d
      → ((d.changed ≡ true) × Authorized l n current)
        ⊎ ((d.changed ≡ false) × (current.status ≡ n.status))
  unfolding decide_task
  decide_task-cases l n current d h =
      elim (Option-cases (find_event (last_source n.source_event_ids) l.store.events)) [
        | inl missing ↦ cc (rw (decide_task, missing) at h)
        | inr (e, at) ↦ decided l n current e d at (rw (decide_task, at) at h)
      ]

  -- The three ways in which the method returns.
  pub data Versioned (x : Externals) (l : Ledgers) (n : NewTask) (stamp : TaskStamp) (l' : Ledgers)
      (t : TaskVersion) : Type 0 where
    kept :
        latest_task n.task_key l.tasks ≡ some t
        → t.branch_id ≡ n.branch_id
        → t.status ≡ n.status
        → l ≡ l'
        → Versioned x l n stamp l' t
    started :
        latest_task n.task_key l.tasks ≡ none
        → n.status ≡ "active"
        → Inserted l (task_row casefold x n 1 stamp) l' t
        → Versioned x l n stamp l' t
    advanced :
        (current : TaskVersion)
        → latest_task n.task_key l.tasks ≡ some current
        → current.branch_id ≡ n.branch_id
        → (current.status == n.status) ≡ false
        → Authorized l n current
        → Inserted l (task_row casefold x n (current.version + 1) stamp) l' t
        → Versioned x l n stamp l' t

  module _ (x : Externals) (l : Ledgers) (n : NewTask) (stamp : TaskStamp) (l' : Ledgers)
      (t : TaskVersion) where
    advance_task-Versioned :
        (current : TaskVersion)
        → latest_task n.task_key l.tasks ≡ some current
        → current.branch_id ≡ n.branch_id
        → (current.status == n.status) ≡ false
        → advance_task casefold x l n stamp current ≡ ok (l', t)
        → Versioned x l n stamp l' t
    unfolding advance_task
    advance_task-Versioned current at branch moves h =
        let (d, gate, h₁) = >>=-eq-ok (decide_task casefold l n current) _ h in
        elim (decide_task-cases l n current d gate) [
          | inl (changed, authorized) ↦
              advanced current at branch moves authorized
                (insert_task-Inserted casefold x l _ l' t (rw changed at h₁))
          | inr (same, status) ↦
              let h₂ = rw same at h₁ in
              let row : current ≡ t = cc h₂ in
              kept (at ∙ ap some row) (sym (ap (λ (v : TaskVersion). v.branch_id) row) ∙ branch)
                (sym (ap (λ (v : TaskVersion). v.status) row) ∙ status) (cc h₂)
        ]

    create_from-Versioned :
        (current : Option TaskVersion)
        → latest_task n.task_key l.tasks ≡ current
        → create_from casefold x l n stamp current ≡ ok (l', t)
        → Versioned x l n stamp l' t
    unfolding create_from
    create_from-Versioned none at h =
        let other = not (n.status == "active") in
        let (active, h₁) = >>-eq-ok (raise_if other not_started_active) _ h in
        let begins = raise_if-eq-ok other not_started_active active in
        started at ((eq_iff n.status "active").0 (ground arith))
          (insert_task-Inserted casefold x l _ l' t h₁)
    create_from-Versioned (some current) at h =
        elim (Bool-cases (current.branch_id == n.branch_id)) [
          | inr elsewhere ↦ cc (rw elsewhere at h)
          | inl branch ↦ elim (Bool-cases (current.status == n.status)) [
            | inl same ↦
                let h₂ = rw (branch, same) at h in
                let row : current ≡ t = cc h₂ in
                kept (at ∙ ap some row)
                  (sym (ap (λ (v : TaskVersion). v.branch_id) row)
                    ∙ (eq_iff current.branch_id n.branch_id).0 branch)
                  (sym (ap (λ (v : TaskVersion). v.status) row)
                    ∙ (eq_iff current.status n.status).0 same)
                  (cc h₂)
            | inr moves ↦
                advance_task-Versioned current at ((eq_iff current.branch_id n.branch_id).0 branch)
                  moves (rw (branch, moves) at h)
          ]
        ]

    pub create_task_version-Versioned :
        create_task_version casefold x l n stamp ≡ ok (l', t) → Versioned x l n stamp l' t
    unfolding create_task_version
    create_task_version-Versioned h =
        let (_, h₁) =
          >>-eq-ok (raise_if (n.task_key == "" || n.title == "") empty_key_or_title) _ h in
        let (_, h₂) =
          >>-eq-ok (raise_if (not (elem n.status task_statuses)) unsupported_status) _ h₁ in
        let (_, h₃) =
          >>-eq-ok
            (recast store_error (assert_source_events l.store n.source_event_ids n.branch_id)) _
            h₂ in
        create_from-Versioned (latest_task n.task_key l.tasks) refl h₃
