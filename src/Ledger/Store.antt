-- ===== src/Ledger/Store.antt =====
-- The helpers of `TaskLedger`: the clock, paths, rows, the audit log and lease ownership.
use morphogenesis.Base.{
  ℕ, ⊤, ◌+◌, ◌-◌, Bool, true, false, not, ◌&&◌, ◌||◌, Option, some, List, [], ◌∷◌, ◌++◌, ltb, leb,
  ◌==◌, same, first, update_rows, where_rows, map, text_eq, sorted_set,
}
use morphogenesis.Ledger.Types.{Text, Status, Lease, TaskRow, Dependency, Attempt, AuditRow, Event}
use morphogenesis.Ledger.Monad.{
  Env, State, Error, Limit, Action, pure, gets, or_raise, ◌>>=◌, ◌>>◌, raise_if, modify,
}

abbrev pub status_eq : Status → Status → Bool
status_eq Status.available Status.available = true
status_eq Status.claimed Status.claimed = true
status_eq Status.submitting Status.submitting = true
status_eq Status.partial Status.partial = true
status_eq Status.handoff Status.handoff = true
status_eq Status.completed Status.completed = true
status_eq Status.failed Status.failed = true
status_eq Status.blocked Status.blocked = true
status_eq _ _ = false

abbrev pub with_id : ℕ → TaskRow → Bool
with_id task_id r = r.task_id == task_id

-- `WHERE task_id=?`; the task's identity is the table's primary key
abbrev pub find_task : ℕ → List TaskRow → Option TaskRow
find_task task_id = first (with_id task_id)

abbrev pub update_task : ℕ → (TaskRow → TaskRow) → State → State
update_task task_id change s = record s { tasks = update_rows (with_id task_id) change s.tasks }

-- `WHERE task_id=? AND token=?`
abbrev pub update_attempt : ℕ → ℕ → (Attempt → Attempt) → State → State
update_attempt task_id token change s = record s {
  attempts = update_rows (λ a. (a.task_id == task_id) && (a.token == token)) change s.attempts;
}

abbrev pub append_audit : AuditRow → State → State
append_audit row s = record s { audit = s.audit ++ row ∷ [] }

-- The dependencies of a task, `ORDER BY dependency_id`.
abbrev pub dependencies_of : ℕ → List Dependency → List ℕ
dependencies_of task_id deps =
    sorted_set (map (λ d. d.dependency_id) (where_rows (λ d. d.task_id == task_id) deps))

-- `TaskRecord`: the row with its dependencies.
pub record TaskRecord : Type 0 where
  pub row : TaskRow
  pub dependencies : List ℕ

-- `_record`
abbrev pub record_of : TaskRow → State → TaskRecord
record_of r s = record { row = r; dependencies = dependencies_of r.task_id s.dependencies }

abbrev pub read_clock : Option ℕ → Action ℕ
read_clock reading s = or_raise reading Error.value_error (record s { readings = s.readings + 1 })

abbrev pub holds_state : Bool → Status → Bool
holds_state submitting status =
    status_eq status Status.claimed || (submitting && status_eq status Status.submitting)

module _ (env : Env) where
  -- `now` and `now_checked`
  unfoldable pub now : Action ℕ
  now s = read_clock (env.clock s.readings) s

  -- `canonical_scope`
  unfoldable pub canonical_scope : Text → Action Text
  canonical_scope scope = do
    raise_if (not (env.is_absolute scope)) Error.value_error
    gets (λ s. env.normcase (env.resolve s.readings scope))

  -- `_event`
  unfoldable pub event : Option ℕ → Event → Action ⊤
  unfolding now
  event task_id e = do
    at ← now
    modify (append_audit (record { task_id = task_id; event = e; at = at }))

  -- `_check_runtime`
  unfoldable pub check_runtime : Action ⊤
  unfolding now
  check_runtime = do
    started ← gets (λ s. s.started_at)
    t ← now
    raise_if (ltb t started || leb env.limits.max_runtime_seconds (t - started))
        (Error.run_limit_reached Limit.run_runtime_limit)

  -- `_row`
  unfoldable pub row : ℕ → Action TaskRow
  row task_id = do found ← gets (λ s. find_task task_id s.tasks); or_raise found Error.key_error

  -- The conditions of `_owned` that read neither the clock nor the file system.
  abbrev pub matches_lease : Bool → Lease → TaskRow → Bool
  matches_lease submitting lease r =
      lease.swarm_id == env.swarm_id
      && (same r.owner (some lease.worker_id)
          && (r.token == lease.token
              && (text_eq r.scope lease.scope
                  && (same r.expiry (some lease.expires_at) && holds_state submitting r.status))))

  -- `_owned`
  unfoldable pub owned : Bool → Lease → Action TaskRow
  unfolding now canonical_scope row
  owned submitting lease = do
    r ← row lease.task_id
    raise_if (not (matches_lease submitting lease r)) Error.lease_lost
    t ← now
    raise_if (leb lease.expires_at t) Error.lease_lost
    scope ← canonical_scope lease.scope
    raise_if (not (text_eq scope lease.scope)) Error.lease_lost
    pure r
