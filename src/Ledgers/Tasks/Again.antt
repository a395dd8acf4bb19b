-- ===== src/Ledgers/Tasks/Again.antt =====
-- Repeating a call of `create_task_version` of src/joiny_mnemonic/task_storage.py.
use joiny_mnemonic.Prelude.{
  ℕ, ◌+◌, String, not, ◌||◌, some, ◌==◌, string_eq, elem, ok, raise_if, recast, >>-eq-ok, ◌≡◌, sym,
  ap, ◌∙◌, eq_iff,
}
use joiny_mnemonic.Store.{Externals}
use joiny_mnemonic.Ledgers.{
  TaskVersion, Ledgers, store_error, empty_key_or_title, unsupported_status,
}
use joiny_mnemonic.Ledgers.Sources.{assert_source_events}
use joiny_mnemonic.Ledgers.Tasks.{
  NewTask, TaskStamp, task_statuses, latest_task, task_row, create_from, create_task_version,
}
use joiny_mnemonic.Ledgers.Tasks.Versions.{
  Inserted, kept, started, advanced, create_task_version-Versioned,
}
use joiny_mnemonic.Ledgers.Tasks.Log.{
  Follows, Inserted-Follows, started-Follows, advanced-Follows, latest_task-cons,
}

-- What a call leaves for the next one with the same arguments.
record Settled (l : Ledgers) (n : NewTask) (l' : Ledgers) (t : TaskVersion) : Type 0 where
  store : l'.store ≡ l.store
  latest : latest_task n.task_key l'.tasks ≡ some t
  branch : t.branch_id ≡ n.branch_id
  status : t.status ≡ n.status

module _ (casefold : String → String) (x : Externals) (l : Ledgers) (n : NewTask)
    (stamp : TaskStamp) (l' : Ledgers) (t : TaskVersion) where
  Inserted-Settled :
      (version : ℕ)
      → Inserted l (task_row casefold x n version stamp) l' t
      → Follows (latest_task n.task_key l.tasks) (task_row casefold x n version stamp)
      → Settled l n l' t
  unfolding task_row
  Inserted-Settled version row follows =
      let (after, tables, key, status) =
        Inserted-Follows casefold x l n stamp l' t version row follows in
      record {
        store = ap (λ (v : Ledgers). v.store) (sym row.tables);
        latest = rw (tables, ← key) (latest_task-cons t l.tasks after);
        branch = sym (ap (λ (v : TaskVersion). v.branch_id) row.is_row);
        status = status;
      }

  create-Settled : create_task_version casefold x l n stamp ≡ ok (l', t) → Settled l n l' t
  create-Settled h = elim (create_task_version-Versioned casefold x l n stamp l' t h) [
    | kept at branch status same ↦ record {
      store = ap (λ (v : Ledgers). v.store) (sym same);
      latest = rw (← same) at;
      branch = branch;
      status = status;
    }
    | started at active row ↦
        Inserted-Settled 1 row (started-Follows casefold x l n stamp l' t at active)
    | advanced current at branch moves a row ↦
        Inserted-Settled (current.version + 1) row
          (advanced-Follows casefold x l n stamp l' t current at branch moves a)
  ]

  create_from-same :
      (again : TaskStamp)
      → Settled l n l' t
      → create_from casefold x l' n again (some t) ≡ ok (l', t)
  unfolding create_from
  create_from-same again z = rw ((eq_iff _ _).1 z.branch, (eq_iff _ _).1 z.status)

  -- A call that is repeated with the same arguments returns the same version and changes nothing,
  -- whatever identifier and time the second call draws.
  pub create_task_version-again :
      (again : TaskStamp)
      → create_task_version casefold x l n stamp ≡ ok (l', t)
      → create_task_version casefold x l' n again ≡ ok (l', t)
  unfolding create_task_version
  create_task_version-again again h =
      let z = create-Settled h in
      let (named, h₁) =
        >>-eq-ok (raise_if (n.task_key == "" || n.title == "") empty_key_or_title) _ h in
      let (known, h₂) =
        >>-eq-ok (raise_if (not (elem n.status task_statuses)) unsupported_status) _ h₁ in
      let (sources, _) =
        >>-eq-ok (recast store_error (assert_source_events l.store n.source_event_ids n.branch_id))
          _ h₂ in
      let still =
        ap (λ v. recast store_error (assert_source_events v n.source_event_ids n.branch_id)) z.store
        ∙ sources in
      rw (create_task_version, named, known, still, z.latest) (create_from-same again z)
