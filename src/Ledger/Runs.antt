-- ===== src/Ledger/Runs.antt =====
-- Any number of workers: an interleaving of whole transactions, in any order.
use morphogenesis.Base.{ℕ, refl, arith}
use morphogenesis.Ledger.Types.{TaskKind}
use morphogenesis.Ledger.Monad.{Env, State, transaction}
use morphogenesis.Ledger.Claim.{claim}
use morphogenesis.Ledger.Leases.{
  record_event, renew, release, fail, begin_execution, confirm_execution, record_condition_failure,
  handoff,
}
use morphogenesis.Ledger.Publish.{submit_first, submit_second}
use morphogenesis.Ledger.Enqueue.{enqueue}
use morphogenesis.Ledger.Call.{Call}
use morphogenesis.Ledger.Ends.{Ends-event_last}
use morphogenesis.Ledger.Lifecycle.{Effect, Step, transaction-Step}
use morphogenesis.Ledger.Steps.{
  renew-Step, release-Step, fail-Step, begin_execution-Step, confirm_execution-Step, handoff-Step,
  record_condition_failure-Step,
}
use morphogenesis.Ledger.ClaimStep.{claim-Step}
use morphogenesis.Ledger.PublishStep.{submit_first-Step, submit_second-Step}
use morphogenesis.Ledger.EnqueueStep.{enqueue-Step}

module _ (env : Env) (names : TaskKind → ℕ) where
  -- The state after a call, whether it returns or raises.
  unfoldable pub run : Call → State → State
  run (Call.record_event task_id name body) s = (record_event env task_id name body s).1
  run (Call.enqueue q) s = (enqueue env names q s).1
  run (Call.claim task_id worker_id ttl locality) s = (claim env task_id worker_id ttl locality s).1
  run (Call.renew lease ttl) s = (renew env lease ttl s).1
  run (Call.release lease) s = (release env lease s).1
  run (Call.fail lease evidence) s = (fail env lease evidence s).1
  run (Call.begin_execution lease request_id limit) s =
      (begin_execution env lease request_id limit s).1
  run (Call.confirm_execution lease request_id) s = (confirm_execution env lease request_id s).1
  run (Call.record_condition_failure task_id) s = (record_condition_failure env task_id s).1
  run (Call.handoff lease next partial) s = (handoff env lease next partial s).1
  run (Call.submit_first lease result_id body apply) s =
      (transaction (submit_first env lease result_id body apply) s).1
  run (Call.submit_second lease result_id body apply) s =
      (transaction (submit_second env lease result_id body apply) s).1

  -- Every transaction of the ledger, whatever its arguments and however it ends, is one step of
  -- the abstract life of the tasks: it creates one fresh task, makes one move of one row that the
  -- row's state at some reading of the clock allows, or leaves every row as it was.
  pub run-Step : (c : Call) (s : State) → Step env s (run c s)
  unfolding run
  run-Step (Call.record_event task_id name body) s = transaction-Step env _ s (
      Ends-event_last env _ _ task_id _ s (omega arith)
        λ a. record { later = omega arith; effect = Effect.idle (λ j. refl) refl })
  run-Step (Call.enqueue q) s = enqueue-Step env names q s
  run-Step (Call.claim task_id worker_id ttl locality) s =
      claim-Step env task_id worker_id ttl locality s
  run-Step (Call.renew lease ttl) s = renew-Step env lease ttl s
  run-Step (Call.release lease) s = release-Step env lease s
  run-Step (Call.fail lease evidence) s = fail-Step env lease evidence s
  run-Step (Call.begin_execution lease request_id limit) s =
      begin_execution-Step env lease request_id limit s
  run-Step (Call.confirm_execution lease request_id) s =
      confirm_execution-Step env lease request_id s
  run-Step (Call.record_condition_failure task_id) s = record_condition_failure-Step env task_id s
  run-Step (Call.handoff lease next partial) s = handoff-Step env lease next partial s
  run-Step (Call.submit_first lease result_id body apply) s =
      submit_first-Step env lease result_id body apply s
  run-Step (Call.submit_second lease result_id body apply) s =
      submit_second-Step env lease result_id body apply s

  -- What some sequence of calls reaches.
  pub data Reach (s : State) : State → Type 0 where
    here : Reach s s
    next : {s' : State} → Reach s s' → (c : Call) → Reach s (run c s')

  -- What every step keeps, every run keeps.
  pub Reach_ind :
      (P : State → Type 0)
      → ((s s' : State) → Step env s s' → P s → P s')
      → {s s' : State} → Reach s s'
      → P s
      → P s'
  Reach_ind P keep here h = h
  Reach_ind P keep (next {s' = s'} r c) h =
      keep s' (run c s') (run-Step c s') (Reach_ind P keep r h)
