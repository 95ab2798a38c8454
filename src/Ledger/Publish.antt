-- ===== src/Ledger/Publish.antt =====
-- `submit` and `_complete`: a result is published once, under the lease.
use morphogenesis.Base.{
  ℕ, ⊤, Bool, true, false, not, ◌&&◌, Option, none, some, ◌==◌, same, text_eq, if◌then◌else◌,
}
use morphogenesis.Ledger.Types.{Status, Lease, TaskRow, Event, Outcome}
use morphogenesis.Ledger.Monad.{
  Env, Error, Action, pure, raise, gets, ◌>>=◌, ◌>>◌, raise_if, modify, transaction,
}
use morphogenesis.Ledger.Store.{
  TaskRecord, record_of, status_eq, update_task, update_attempt, now, event, row, owned,
}
use morphogenesis.Ledger.Leases.{reread}

-- What the callback `apply` does with the `assert_owned` that it is handed: it may call it any
-- number of times, and it returns or raises. It has no access to the tables.
pub data Apply : Type 0 where
  returns : Apply
  raises : Apply
  asserts : Apply → Apply

module _ (env : Env) where
  -- `_complete`
  unfoldable pub complete : Lease → ℕ → ℕ → Bool → Action TaskRecord
  unfolding now event reread
  complete lease result_id body effect_applied = do
    at ← now env
    modify (
        update_task lease.task_id λ q. record q {
          status = Status.completed;
          result_id = some result_id;
          result = some body;
          updated_at = at;
          effect_applied = effect_applied;
        })
    finished ← now env
    modify (
        update_attempt lease.task_id lease.token
          λ a. record a { finished_at = some finished; outcome = some Outcome.completed })
    event env (some lease.task_id) (Event.submitted lease.token result_id)
    reread env lease.task_id

  abbrev pub same_owner : Lease → TaskRow → Bool
  same_owner lease r =
      lease.swarm_id == env.swarm_id
      && (r.token == lease.token
          && (same r.owner (some lease.worker_id)
              && (text_eq r.scope lease.scope && same r.expiry (some lease.expires_at))))

  unfoldable pub run_apply : Lease → Apply → Action ⊤
  unfolding owned
  run_apply lease Apply.returns = pure tt
  run_apply lease Apply.raises = raise Error.callback_error
  run_apply lease (Apply.asserts rest) = do owned env true lease; run_apply lease rest

  -- The first transaction with a callback: the durable `submitting`.
  unfoldable pub mark_submitting : Lease → ℕ → ℕ → Action ⊤
  unfolding now event
  mark_submitting lease result_id body = do
    at ← now env
    modify (
        update_task lease.task_id λ q. record q {
          status = Status.submitting;
          result_id = some result_id;
          result = some body;
          updated_at = at;
        })
    event env (some lease.task_id) (Event.submitting lease.token result_id)

  -- A repeated submission by the same holder is answered from the row.
  unfoldable pub answer_again : TaskRow → ℕ → ℕ → Action (Option TaskRecord)
  answer_again r result_id body = do
    raise_if (not (same r.result_id (some result_id) && same r.result (some body)))
        Error.task_conflict
    gets (λ s. some (record_of r s))

  unfoldable pub publish_or_mark : Lease → ℕ → ℕ → Option Apply → Action (Option TaskRecord)
  unfolding complete mark_submitting
  publish_or_mark lease result_id body none = do
    done ← complete lease result_id body false
    pure (some done)
  publish_or_mark lease result_id body (some apply) = do
    mark_submitting lease result_id body
    pure none

  unfoldable pub submit_new : Lease → ℕ → ℕ → Option Apply → Action (Option TaskRecord)
  unfolding owned publish_or_mark
  submit_new lease result_id body apply = do
    owned env false lease
    publish_or_mark lease result_id body apply

  -- The first transaction of `submit`; `none` means that the second one is to follow.
  unfoldable pub submit_first : Lease → ℕ → ℕ → Option Apply → Action (Option TaskRecord)
  unfolding row answer_again submit_new
  submit_first lease result_id body apply = do
    r ← row env lease.task_id
    if status_eq r.status Status.completed && same_owner lease r
        then answer_again r result_id body
        else submit_new lease result_id body apply

  -- The second transaction: the short publication between two checks of the lease.
  unfoldable pub submit_second : Lease → ℕ → ℕ → Apply → Action TaskRecord
  unfolding owned run_apply complete
  submit_second lease result_id body apply = do
    owned env true lease
    run_apply lease apply
    owned env true lease
    complete lease result_id body true

  unfoldable pub submit_rest : Lease → ℕ → ℕ → Option Apply → Option TaskRecord → Action TaskRecord
  unfolding submit_second
  submit_rest lease result_id body apply (some done) = pure done
  submit_rest lease result_id body none none = raise Error.value_error
  submit_rest lease result_id body (some apply) none =
      transaction (submit_second lease result_id body apply)

  -- `submit`
  unfoldable pub submit : Lease → ℕ → ℕ → Option Apply → Action TaskRecord
  unfolding submit_first submit_rest
  submit lease result_id body apply = do
    raise_if (result_id == 0) Error.value_error
    first ← transaction (submit_first lease result_id body apply)
    submit_rest lease result_id body apply first
