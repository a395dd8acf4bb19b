-- ===== src/Ledgers/Tasks/Bindings.antt =====
-- `bind_task_session` of src/joiny_mnemonic/task_storage.py.
use joiny_mnemonic.Prelude.{
  String, not, some, ◌∷◌, if◌then◌else◌, ◌==◌, string_eq, any, get, ok, raise, raise_if, >>-eq-ok,
  ◌≡◌, sym, ap, ◌∙◌, Bool-cases, Option-cases, inl, inr, eq_iff, beq_refl,
}
use joiny_mnemonic.Store.Append.{find_session}
use joiny_mnemonic.Ledgers.{Ledgers, unknown_task, session_bound_elsewhere}
use joiny_mnemonic.Ledgers.Tasks.{add_binding, bind_task_session}

add_binding-bindings :
    (l : Ledgers) (session task : String) (l' : Ledgers)
    → add_binding l session task ≡ ok l'
    → l'.bindings ≡ (session, task) ∷ l.bindings
unfolding add_binding
add_binding-bindings l session task l' h =
    elim (Option-cases (find_session session l.store.sessions)) [
      | inl missing ↦ cc (rw (add_binding, missing) at h)
      | inr (row, found) ↦
          let made = record l { bindings = (session, task) ∷ l.bindings } in
          let (_, h₁) =
            >>-eq-ok (raise_if (not (any (λ t. t.task_key == task) l.tasks)) unknown_task) (ok made)
              (rw (add_binding, found) at h) in
          let same : made ≡ l' = cc h₁ in sym (ap (λ (v : Ledgers). v.bindings) same)
    ]

bound :
    (l : Ledgers) (session task : String) (l' : Ledgers)
    → bind_task_session l session task ≡ ok l'
    → get session l'.bindings ≡ some task
unfolding bind_task_session
bound l session task l' h = elim (Option-cases (get session l.bindings)) [
  | inl new ↦
      rw (
        add_binding-bindings l session task l' (rw (bind_task_session, new) at h),
        beq_refl session,
      )
  | inr (old, at) ↦ elim (Bool-cases (old == task)) [
    | inr other ↦ cc (rw (bind_task_session, at, other) at h)
    | inl same ↦
        let kept : l ≡ l' = cc (rw (bind_task_session, at, same) at h) in
        ap (λ (v : Ledgers). get session v.bindings) (sym kept)
        ∙ at
        ∙ ap some ((eq_iff old task).0 same)
  ]
]

-- A session that was bound to a task stays bound to it: to bind it again to that task changes
-- nothing, and to bind it to another is refused.
pub bind_task_session-again :
    (l : Ledgers) (session task : String) (l' : Ledgers) (other : String)
    → bind_task_session l session task ≡ ok l'
    → bind_task_session l' session other
      ≡ (if task == other then ok l' else raise session_bound_elsewhere)
unfolding bind_task_session
bind_task_session-again l session task l' other h =
    rw (bind_task_session, bound l session task l' h)
