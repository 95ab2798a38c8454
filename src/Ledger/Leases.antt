-- ===== src/Ledger/Leases.antt =====
-- What the holder of a lease may do: renew, release, fail, hand over, and bracket the request that
-- it sends to an executor. `record_condition_failure` is the one write without a lease.
use morphogenesis.Base.{
  ℕ, ⊤, ◌+◌, Bool, true, false, not, ◌&&◌, Option, none, some, List, leb, ◌==◌, same, is_some,
  count, if◌then◌else◌,
}
use morphogenesis.Ledger.Types.{Status, Lease, TaskRow, AuditRow, Event, Outcome}
use morphogenesis.Ledger.Monad.{
  Env, Error, Action, pure, gets, ◌>>=◌, ◌>>◌, raise_if, modify, transaction, attempt,
}
use morphogenesis.Ledger.Store.{
  TaskRecord, record_of, update_task, update_attempt, now, event, row, owned,
}
use morphogenesis.Ledger.Claim.{check_ttl}

-- The number of the text `execution_unconfirmed`, which `record_event` may be given too.
abbrev unconfirmed_name : ℕ
unconfirmed_name = 1

-- An event that is named `execution_unconfirmed`.
abbrev is_execution : Event → Bool
is_execution (Event.execution_unconfirmed r t) = true
is_execution (Event.recorded name body) = name == unconfirmed_name
is_execution _ = false

abbrev pub executions : ℕ → List AuditRow → ℕ
executions task_id = count (λ a. same a.task_id (some task_id) && is_execution a.event)

abbrev over_limit : Option ℕ → ℕ → Bool
over_limit none n = false
over_limit (some max_executions) n = leb max_executions n

abbrev invalid_limit : Option ℕ → Bool
invalid_limit none = false
invalid_limit (some n) = not (leb 1 n && leb n 10)

-- The states that a condition failure leaves alone.
abbrev pub is_fixed : Status → Bool
is_fixed Status.available = false
is_fixed Status.partial = false
is_fixed Status.handoff = false
is_fixed _ = true

abbrev condition_event : Status → ℕ → Event
condition_event Status.blocked n = Event.condition_blocked n
condition_event _ n = Event.condition_failed n

-- `COALESCE(?,result)`
abbrev pub coalesce : Option ℕ → Option ℕ → Option ℕ
coalesce none old = old
coalesce (some x) old = some x

module _ (env : Env) where
  -- `record_event`
  abbrev pub record_event : Option ℕ → ℕ → ℕ → Action ⊤
  record_event task_id name body = transaction (event env task_id (Event.recorded name body))

  renew_owned : Lease → ℕ → Option TaskRow → Action (Option Lease)
  unfolding now event
  renew_owned lease ttl none = pure none
  renew_owned lease ttl (some r) = do
    t ← now env
    let renewed = record lease { expires_at = t + ttl }
    at ← now env
    modify (
        update_task lease.task_id
          λ q. record q { expiry = some renewed.expires_at; updated_at = at })
    event env (some lease.task_id) (Event.renewed lease.worker_id lease.token renewed.expires_at)
    pure (some renewed)

  -- `renew`
  unfoldable pub renew : Lease → ℕ → Action (Option Lease)
  unfolding owned renew_owned
  renew lease ttl = do
    check_ttl env ttl
    transaction (do r ← attempt (owned env false lease); renew_owned lease ttl r)

  -- `is_valid`
  unfoldable pub is_valid : Lease → Action Bool
  unfolding owned
  is_valid lease = do r ← attempt (owned env false lease); pure (is_some r)

  -- The status of a task whose attempt ended without a result.
  unfoldable pub status_after : TaskRow → Status
  status_after r =
      if is_some r.unconfirmed_request_id
      then Status.blocked
      else if leb env.limits.max_attempts_per_task r.attempts
      then Status.failed
      else Status.available

  -- `_finish_attempt`
  unfoldable pub finish_attempt : Lease → TaskRow → Outcome → ℕ → Action ⊤
  unfolding now event status_after
  finish_attempt lease r outcome evidence = do
    at ← now env
    modify (
        update_task lease.task_id
          λ q. record q { status = status_after r; owner = none; expiry = none; updated_at = at })
    finished ← now env
    modify (
        update_attempt lease.task_id lease.token λ a. record a {
          finished_at = some finished;
          outcome = some outcome;
          evidence = some evidence;
        })
    event env (some lease.task_id) (Event.attempt_ended outcome lease.token evidence)

  unfoldable pub release_owned : Lease → Option TaskRow → Action Bool
  unfolding finish_attempt
  release_owned lease none = pure false
  release_owned lease (some r) = do finish_attempt lease r Outcome.released 0; pure true

  -- `release`
  unfoldable pub release : Lease → Action Bool
  unfolding owned release_owned
  release lease = transaction (do r ← attempt (owned env false lease); release_owned lease r)

  -- `self._record(db, self._row(db, task_id))`
  unfoldable pub reread : ℕ → Action TaskRecord
  unfolding row
  reread task_id = do r ← row env task_id; gets (record_of r)

  -- `fail`
  unfoldable pub fail : Lease → ℕ → Action TaskRecord
  unfolding owned finish_attempt reread
  fail lease evidence = transaction (do
    r ← owned env false lease
    finish_attempt lease r Outcome.failed evidence
    reread lease.task_id)

  -- `begin_execution`; a request's name is 0 if it is blank
  unfoldable pub begin_execution : Lease → ℕ → Option ℕ → Action ⊤
  unfolding owned now event
  begin_execution lease request_id max_executions = do
    raise_if (request_id == 0) Error.value_error
    raise_if (invalid_limit max_executions) Error.value_error
    transaction (do
      r ← owned env false lease
      raise_if (is_some r.unconfirmed_request_id) Error.task_conflict
      n ← gets (λ s. executions lease.task_id s.audit)
      raise_if (over_limit max_executions n) Error.task_conflict
      at ← now env
      modify (
          update_task lease.task_id
            λ q. record q { unconfirmed_request_id = some request_id; updated_at = at })
      event env (some lease.task_id) (Event.execution_unconfirmed request_id lease.token))

  -- `confirm_execution`
  unfoldable pub confirm_execution : Lease → ℕ → Action ⊤
  unfolding owned now event
  confirm_execution lease request_id = transaction (do
    r ← owned env false lease
    raise_if (not (same r.unconfirmed_request_id (some request_id))) Error.task_conflict
    at ← now env
    modify
        (update_task lease.task_id λ q. record q { unconfirmed_request_id = none; updated_at = at })
    event env (some lease.task_id) (Event.execution_confirmed request_id lease.token))

  -- `assert_execution_confirmed`
  unfoldable pub assert_execution_confirmed : Lease → Action ⊤
  unfolding owned
  assert_execution_confirmed lease = do
    r ← owned env false lease
    raise_if (is_some r.unconfirmed_request_id) Error.task_conflict

  unfoldable pub count_condition : TaskRow → Action TaskRecord
  unfolding now event reread
  count_condition r = do
    let n = r.condition_fail_count + 1
    let status = if leb env.limits.max_attempts_per_task n then Status.blocked else r.status
    at ← now env
    modify (
        update_task r.task_id
          λ q. record q { condition_fail_count = n; status = status; updated_at = at })
    event env (some r.task_id) (condition_event status n)
    reread r.task_id

  -- `record_condition_failure`
  unfoldable pub record_condition_failure : ℕ → Action TaskRecord
  unfolding row count_condition
  record_condition_failure task_id =
      transaction (do
        r ← row env task_id
        if is_fixed r.status then gets (record_of r) else count_condition r)

  -- `handoff`
  unfoldable pub handoff : Lease → ℕ → Option ℕ → Action TaskRecord
  unfolding owned now event reread
  handoff lease next_worker_id partial = do
    raise_if (next_worker_id == 0) Error.value_error
    transaction (do
      r ← owned env false lease
      raise_if (same r.owner (some next_worker_id)) Error.task_conflict
      let status = if is_some partial then Status.partial else Status.handoff
      let outcome = if is_some partial then Outcome.partial else Outcome.handoff
      at ← now env
      modify (
          update_task lease.task_id λ q. record q {
            status = status;
            owner = none;
            expiry = none;
            result = coalesce partial q.result;
            updated_at = at;
          })
      finished ← now env
      modify (
          update_attempt lease.task_id lease.token
            λ a. record a { finished_at = some finished; outcome = some outcome })
      event env (some lease.task_id)
          (Event.handed_off outcome lease.worker_id next_worker_id lease.token)
      reread lease.task_id)
