-- ===== src/Ledgers/Tasks/Log.antt =====
-- The versions of a task of src/joiny_mnemonic/task_storage.py, one after the other.
use mathlib.Core.Path.{subst}
use joiny_mnemonic.Prelude.{
  ℕ, ◌+◌, String, true, false, Option, none, some, List, [], ◌∷◌, ◌==◌, string_eq, elem, get, ok,
  ◌≡◌, refl, sym, ap, ◌∙◌, ◌⊎◌, arith, eq_iff, inl, inr, beq_refl,
}
use joiny_mnemonic.Transitions.{targets, workstream_flow}
use joiny_mnemonic.Store.{Externals}
use joiny_mnemonic.Ledgers.{TaskVersion, Ledgers}
use joiny_mnemonic.Ledgers.Tasks.{
  NewTask, TaskStamp, newer_task, latest_task, task_row, create_task_version, get_task,
}
use joiny_mnemonic.Ledgers.Tasks.Versions.{
  Inserted, Authorized, kept, started, advanced, create_task_version-Versioned,
}
use joiny_mnemonic.Ledgers.Tasks.Authority.{is_finished}

-- A move of the flow table, or a reopening.
abbrev pub Moves : String → String → Type 0
Moves from to =
    (elem to (targets (get from workstream_flow)) ≡ true)
    ⊎ ((is_finished from ≡ true) × (to ≡ "active"))

-- How a version follows the version before it, if there is one.
abbrev pub Follows : Option TaskVersion → TaskVersion → Type 0
Follows none t = (t.version ≡ 1) × (t.status ≡ "active")
Follows (some before) t =
    (t.version ≡ before.version + 1)
    × (t.branch_id ≡ before.branch_id)
    × ((before.status == t.status) ≡ false)
    × Moves before.status t.status

-- Each version follows the latest one among the older rows.
abbrev pub IsTaskLog : List TaskVersion → Type 0
IsTaskLog [] = Unit
IsTaskLog (t ∷ ts) = Follows (latest_task t.task_key ts) t × IsTaskLog ts

newer-is :
    (t : TaskVersion) (before : Option TaskVersion)
    → Follows before t
    → newer_task t before ≡ some t
newer-is t none f = refl
newer-is t (some u) f = let next = f.0 in ground arith

pub latest_task-cons :
    (t : TaskVersion) (ts : List TaskVersion)
    → Follows (latest_task t.task_key ts) t
    → latest_task t.task_key (t ∷ ts) ≡ some t
unfolding latest_task
latest_task-cons t ts f = rw (beq_refl t.task_key) (newer-is t (latest_task t.task_key ts) f)

Permitted-Moves :
    (casefold : String → String) (l : Ledgers) (n : NewTask) (current : TaskVersion)
    → Authorized casefold l n current
    → Moves current.status n.status
Permitted-Moves casefold l n current a = elim a.permitted.way [
  | inl (_, may) ↦ inr (may.from_terminal, (eq_iff n.status "active").0 may.to_active)
  | inr (_, may) ↦ inl may.edge
]

module _ (casefold : String → String) (x : Externals) (l : Ledgers) (n : NewTask)
    (stamp : TaskStamp) (l' : Ledgers) (t : TaskVersion) where
  pub Inserted-Follows :
      (version : ℕ)
      → Inserted l (task_row casefold x n version stamp) l' t
      → Follows (latest_task n.task_key l.tasks) (task_row casefold x n version stamp)
      → Follows (latest_task t.task_key l.tasks) t
        × (l'.tasks ≡ t ∷ l.tasks)
        × (t.task_key ≡ n.task_key)
        × (t.status ≡ n.status)
  unfolding task_row
  Inserted-Follows version row f = (
    subst (λ v. Follows (latest_task v.task_key l.tasks) v) row.is_row f,
    ap (λ (v : Ledgers). v.tasks) (sym row.tables) ∙ ap (λ v. v ∷ l.tasks) row.is_row,
    sym (ap (λ (v : TaskVersion). v.task_key) row.is_row),
    sym (ap (λ (v : TaskVersion). v.status) row.is_row),
  )

  pub started-Follows :
      latest_task n.task_key l.tasks ≡ none
      → n.status ≡ "active"
      → Follows (latest_task n.task_key l.tasks) (task_row casefold x n 1 stamp)
  unfolding task_row
  started-Follows at active =
      subst (λ v. Follows v (task_row casefold x n 1 stamp)) (sym at) (refl, active)

  pub advanced-Follows :
      (current : TaskVersion)
      → latest_task n.task_key l.tasks ≡ some current
      → current.branch_id ≡ n.branch_id
      → (current.status == n.status) ≡ false
      → Authorized casefold l n current
      → Follows (latest_task n.task_key l.tasks) (task_row casefold x n (current.version + 1) stamp)
  unfolding task_row
  advanced-Follows current at branch moves a =
      subst (λ v. Follows v (task_row casefold x n (current.version + 1) stamp)) (sym at)
        (refl, sym branch, moves, Permitted-Moves casefold l n current a)

  -- A call keeps the log of versions well formed: the first version of each task is 1 and active,
  -- each later one has the next number, the same branch and another status, to which the flow table
  -- leads or which reopens a finished task.
  pub create_task_version-IsTaskLog :
      create_task_version casefold x l n stamp ≡ ok (l', t) → IsTaskLog l.tasks → IsTaskLog l'.tasks
  create_task_version-IsTaskLog h log =
      elim (create_task_version-Versioned casefold x l n stamp l' t h) [
        | kept at branch status same ↦ subst (λ (v : Ledgers). IsTaskLog v.tasks) same log
        | started at active row ↦
            let (follows, tables, _, _) = Inserted-Follows 1 row (started-Follows at active) in
            subst IsTaskLog (sym tables) (follows, log)
        | advanced current at branch moves a row ↦
            let (follows, tables, _, _) =
              Inserted-Follows (current.version + 1) row
                (advanced-Follows current at branch moves a) in
            subst IsTaskLog (sym tables) (follows, log)
      ]

  inserted-get :
      Follows (latest_task t.task_key l.tasks) t
        × (l'.tasks ≡ t ∷ l.tasks)
        × (t.task_key ≡ n.task_key)
        × (t.status ≡ n.status)
      → (get_task l' n.task_key ≡ ok t) × (t.status ≡ n.status)
  unfolding get_task
  inserted-get (follows, tables, key, status) =
      (rw (get_task, tables, ← key, latest_task-cons t l.tasks follows), status)

  -- What a call returns has the status that was asked for, and is what `get_task` returns next.
  pub create_task_version-get_task :
      create_task_version casefold x l n stamp ≡ ok (l', t)
      → (get_task l' n.task_key ≡ ok t) × (t.status ≡ n.status)
  unfolding get_task
  create_task_version-get_task h =
      elim (create_task_version-Versioned casefold x l n stamp l' t h) [
        | kept at branch status same ↦ (rw (get_task, ← same, at), status)
        | started at active row ↦ inserted-get (Inserted-Follows 1 row (started-Follows at active))
        | advanced current at branch moves a row ↦ inserted-get (
            Inserted-Follows (current.version + 1) row (advanced-Follows current at branch moves a))
      ]
