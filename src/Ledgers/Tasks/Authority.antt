-- ===== src/Ledgers/Tasks/Authority.antt =====
-- Who can finish or reopen a task of src/joiny_mnemonic/task_storage.py.
use joiny_mnemonic.Prelude.{
  String, Bool, true, false, not, ◌||◌, some, [], ◌∷◌, ◌==◌, string_eq, elem, get, ok, ◌≡◌, refl,
  ap, ◌∙◌, ◌⊎◌, inl, inr,
}
use joiny_mnemonic.Provenance.{delegated_agent}
use joiny_mnemonic.Transitions.{
  user_operator_or_delegate, workstream_rule, workstream_flow, targets,
}
use joiny_mnemonic.Transitions.Ledger.{flow_ind}
use joiny_mnemonic.Transitions.Gate.{IsPermitted}
use joiny_mnemonic.Store.{Event, Externals}
use joiny_mnemonic.Store.Ingest.{find_event}
use joiny_mnemonic.Ledgers.{TaskVersion, Ledgers, delegation_enabled, event_origin_evidence}
use joiny_mnemonic.Ledgers.Sources.{event_visible}
use joiny_mnemonic.Ledgers.Tasks.{
  NewTask, TaskStamp, last_source, latest_task, task_request, task_row, create_task_version,
}
use joiny_mnemonic.Ledgers.Tasks.Versions.{
  Authorized, kept, started, advanced, create_task_version-Versioned,
}

abbrev pub is_finished : String → Bool
is_finished status = elem status ("completed" ∷ "cancelled" ∷ [])

-- The last source is an event that the branch sees, whose origin is the user, the operator, or an
-- agent to whom the active policy delegates.
pub record IsTrusted (casefold : String → String) (l : Ledgers) (n : NewTask) : Type 0 where
  pub source : Event
  pub at : find_event (last_source n.source_event_ids) l.store.events ≡ some source
  pub seen : event_visible l.store source n.branch_id ≡ ok true
  pub origin : elem (event_origin_evidence casefold source) user_operator_or_delegate ≡ true
  pub delegated :
      (not (event_origin_evidence casefold source == delegated_agent) || delegation_enabled l)
      ≡ true

unfinished :
    (from to : String)
    → elem to (targets (get from workstream_flow)) ≡ true
    → is_finished from ≡ false
unfinished from to edge =
    flow_ind (λ a b. is_finished a ≡ false) workstream_flow
      ((refl, (refl, (refl, tt))), ((refl, (refl, (refl, tt))), (tt, (tt, tt)))) from to edge

trusted_way :
    (casefold : String → String) (l : Ledgers) (n : NewTask) (current : TaskVersion) (e : Event)
    (visible : Bool)
    → IsPermitted workstream_rule (task_request casefold l n current e visible)
    → is_finished current.status ≡ true ⊎ is_finished n.status ≡ true
    → elem (event_origin_evidence casefold e) user_operator_or_delegate ≡ true
trusted_way casefold l n current e visible p (inr finished) = elim p.way [
  | inl (_, may) ↦ may.trusted
  | inr (_, may) ↦ let trusted = may.trusted in cc (rw finished at trusted)
]
trusted_way casefold l n current e visible p (inl finished) = elim p.way [
  | inl (_, may) ↦ may.trusted
  | inr (_, may) ↦ cc (finished, unfinished current.status n.status may.edge)
]

module _ (casefold : String → String) (x : Externals) (l : Ledgers) (n : NewTask)
    (stamp : TaskStamp) (l' : Ledgers) (t : TaskVersion) where
  IsTrusted-of :
      (current : TaskVersion)
      → (a : Authorized casefold l n current)
      → is_finished current.status ≡ true ⊎ is_finished n.status ≡ true
      → IsTrusted casefold l n
  IsTrusted-of current a finished = record {
    source = a.source;
    at = a.at;
    seen = a.seen ∙ ap ok a.permitted.visible;
    origin = trusted_way casefold l n current a.source a.visible a.permitted finished;
    delegated = a.permitted.delegated;
  }

  -- A call that returns a completed or a cancelled version of a task either changed nothing or rests
  -- on a last source that the branch sees and whose origin is trusted.
  pub create_task_version-finished :
      create_task_version casefold x l n stamp ≡ ok (l', t)
      → is_finished t.status ≡ true
      → (l ≡ l') ⊎ IsTrusted casefold l n
  unfolding task_row
  create_task_version-finished h finished =
      elim (create_task_version-Versioned casefold x l n stamp l' t h) [
        | kept at branch status same ↦ inl same
        | started at active row ↦
            let status = ap (λ (v : TaskVersion). v.status) row.is_row in
            cc (rw (← status, active) at finished)
        | advanced current at branch moves a row ↦
            let status = ap (λ (v : TaskVersion). v.status) row.is_row in
            inr (IsTrusted-of current a (inr (rw (← status) at finished)))
      ]

  -- A call for a task whose latest version is completed or cancelled either changed nothing or rests
  -- on a last source that the branch sees and whose origin is trusted.
  pub create_task_version-reopened :
      (before : TaskVersion)
      → latest_task n.task_key l.tasks ≡ some before
      → is_finished before.status ≡ true
      → create_task_version casefold x l n stamp ≡ ok (l', t)
      → (l ≡ l') ⊎ IsTrusted casefold l n
  create_task_version-reopened before was finished h =
      elim (create_task_version-Versioned casefold x l n stamp l' t h) [
        | kept at branch status same ↦ inl same
        | started at active row ↦ cc (was, at)
        | advanced current at branch moves a row ↦
            let same : before ≡ current = cc (was, at) in
            inr (IsTrusted-of current a (inl (rw same at finished)))
      ]
