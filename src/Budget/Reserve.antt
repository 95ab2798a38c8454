-- ===== src/Budget/Reserve.antt =====
-- `BudgetLedger.reserve`: the admission of one request.
use morphogenesis.Base.{
  ℕ, suc, ◌+◌, ◌-◌, Bool, false, not, ◌&&◌, ◌||◌, Option, none, some, List, [], ◌∷◌, ◌++◌, ltb, leb,
  ◌==◌, any, count, length, is_some, if◌then◌else◌,
}
use morphogenesis.Budget.Types.{
  ModelPrices, BudgetPolicy, RequestBound, ExecutionBound, Reservation, HoldStatus, HoldRow,
  BlockReason, Account, Answer, request_bound_eq,
}
use morphogenesis.Budget.Snapshot.{
  total, has_status, estimate, admitted_amount, burn, snapshot, with_reservation,
}

-- `COUNT(DISTINCT task_id)`
abbrev pub distinct_tasks : List HoldRow → ℕ
distinct_tasks [] = 0
distinct_tasks (r ∷ rows) =
    if any (λ q. q.task_id == r.task_id) rows
    then distinct_tasks rows
    else suc (distinct_tasks rows)

abbrev larger : ℕ → ℕ → ℕ
larger a b = if ltb a b then b else a

-- The provider and the model are those of the prices, if there are prices.
abbrev priced_elsewhere : Option ModelPrices → ExecutionBound → Bool
priced_elsewhere none b = false
priced_elsewhere (some p) b = not (p.provider == b.provider && p.model == b.model)

-- `reservation_amount`, for a verified and for an unbounded request.
abbrev verified_amount : Option ℕ → Option ℕ → Answer ℕ
verified_amount none e = Answer.assertion_error
verified_amount (some cost) none =
    Answer.blocked BlockReason.explicit_matching_model_prices_required 60
verified_amount (some cost) (some e) =
    if ltb cost e
    then Answer.blocked BlockReason.request_cost_bound_below_estimate 60
    else Answer.answered cost

abbrev unbounded_amount : Option ℕ → Option ℕ → Answer ℕ
unbounded_amount none e = Answer.assertion_error
unbounded_amount (some allowance) none = Answer.answered allowance
unbounded_amount (some allowance) (some e) = Answer.answered (larger allowance e)

abbrev amount_of : RequestBound → BudgetPolicy → ExecutionBound → Option ℕ → Answer ℕ
amount_of RequestBound.verified policy b e = verified_amount b.max_cost_usd e
amount_of RequestBound.unbounded policy b e = unbounded_amount policy.unbounded_reservation_usd e

-- The part of `reserve` before the transaction.
unfoldable pub reservation_amount : BudgetPolicy → ExecutionBound → Answer ℕ
unfolding estimate
reservation_amount policy b =
    if request_bound_eq b.request_bound RequestBound.unbounded
      && (not (is_some policy.unbounded_reservation_usd) || not policy.admission_enabled)
    then Answer.blocked BlockReason.explicit_unbounded_admission_required 60
    else if priced_elsewhere policy.prices b
    then Answer.blocked BlockReason.explicit_matching_model_prices_required 60
    else if ltb policy.max_tokens (b.input_tokens + b.max_output_tokens)
    then Answer.blocked BlockReason.task_token_bound_exceeded 60
    else amount_of b.request_bound policy b (estimate policy b.input_tokens b.max_output_tokens)

-- The new row of `budget_reservations`.
abbrev pub pending_row : Reservation → HoldRow
pending_row r = record {
  reservation_id = r.reservation_id;
  worker_id = r.worker_id;
  task_id = r.task_id;
  body = r;
  status = HoldStatus.pending;
  created_at = r.created_at;
  settled_at = none;
  tokens = none;
  estimate_usd = none;
  reserved_usd = r.reserved_estimate_usd;
  request_id = r.request_id;
  usage_verified = false;
  request_bound = r.request_bound;
  cost_estimated = false;
  settlement = none;
  admitted_usd = none;
}

abbrev or_else : Option BlockReason → BlockReason → BlockReason
or_else none d = d
or_else (some r) d = r

-- A test that blocks the reservation, with the reason and the sleep that it blocks with.
abbrev pub Check : Type 0
Check = Bool × (BlockReason × ℕ)

abbrev pub first_failure : List Check → Option (BlockReason × ℕ)
first_failure [] = none
first_failure ((fails, why) ∷ checks) = if fails then some why else first_failure checks

-- The tests of the transaction, in their order.
abbrev pub admission_checks : BudgetPolicy → Reservation → Account → List Check
admission_checks policy r account =
    let rows = account.holds in
    let now = r.created_at in
    let task_count = count (λ q. q.task_id == r.task_id) rows in
    let state = snapshot policy (some r.worker_id) now account in
    let total_bound = r.bound.input_tokens + r.bound.max_output_tokens in
    (
      ltb now account.started_at
          || leb policy.limits.max_runtime_seconds (now - account.started_at),
      (BlockReason.run_runtime_limit, 60),
    )
    ∷ (leb policy.limits.max_attempts (length rows), (BlockReason.max_attempts, 60))
    ∷ (leb policy.limits.max_attempts_per_task task_count, (BlockReason.max_attempts_per_task, 60))
    ∷ (
      (task_count == 0) && leb policy.limits.max_tasks (distinct_tasks rows),
      (BlockReason.max_tasks, 60),
    )
    ∷ (
      is_some state.reason,
      (or_else state.reason BlockReason.worker_burn_rate, state.sleep_seconds),
    )
    ∷ (
      any
          (λ q.
            (q.request_id == r.request_id)
            || (q.task_id == r.task_id && has_status HoldStatus.pending q))
          rows,
      (BlockReason.task_already_reserved_no_retry, 60),
    )
    ∷ (
      ltb policy.burn_rate_tokens (burn policy r.worker_id now rows + total_bound),
      (BlockReason.worker_burn_rate, policy.burn_window_seconds),
    )
    ∷ (
      policy.admission_enabled
          && ltb policy.max_cost_usd
              (total admitted_amount rows + state.reserved_estimate_usd + r.reserved_estimate_usd),
      (BlockReason.swarm_reservation_capacity, policy.burn_window_seconds),
    )
    ∷ []

-- The first reason for which the transaction blocks the reservation, with its sleep.
unfoldable pub obstacle : BudgetPolicy → Reservation → Account → Option (BlockReason × ℕ)
unfolding snapshot burn
obstacle policy r account = first_failure (admission_checks policy r account)

-- The insertion; the identity is the table's primary key.
unfoldable pub admit :
    BudgetPolicy → Reservation → Option (BlockReason × ℕ) → Account → Answer Reservation × Account
admit policy r (some (reason, sleep)) account = (Answer.blocked reason sleep, account)
admit policy r none account =
    if any (with_reservation r.reservation_id) account.holds
    then (Answer.integrity_error, account)
    else (Answer.answered r, record account { holds = account.holds ++ pending_row r ∷ [] })

unfoldable pub reserve_amount :
    BudgetPolicy
    → ℕ
    → ℕ
    → ℕ
    → ℕ
    → ExecutionBound
    → ℕ
    → Option ℕ
    → Answer ℕ
    → Account
    → Answer Reservation × Account
unfolding obstacle admit
reserve_amount policy swarm_id reservation_id worker_id task_id b request_id now
      (Answer.blocked reason sleep) account =
    (Answer.blocked reason sleep, account)
reserve_amount policy swarm_id reservation_id worker_id task_id b request_id now Answer.value_error
      account =
    (Answer.value_error, account)
reserve_amount policy swarm_id reservation_id worker_id task_id b request_id now
      Answer.assertion_error account =
    (Answer.assertion_error, account)
reserve_amount policy swarm_id reservation_id worker_id task_id b request_id now
      Answer.integrity_error account =
    (Answer.integrity_error, account)
reserve_amount policy swarm_id reservation_id worker_id task_id b request_id none
      (Answer.answered amount) account =
    (Answer.value_error, account)
reserve_amount policy swarm_id reservation_id worker_id task_id b request_id (some now)
      (Answer.answered amount) account =
    if request_id == 0
    then (Answer.value_error, account)
    else let r : Reservation = record {
      reservation_id = reservation_id;
      request_id = request_id;
      swarm_id = swarm_id;
      worker_id = worker_id;
      task_id = task_id;
      bound = b;
      reserved_estimate_usd = amount;
      created_at = now;
      request_bound = b.request_bound;
      admission_enabled = policy.admission_enabled;
    } in
      admit policy r (obstacle policy r account) account

abbrev pub named : Option ℕ → ℕ → ℕ
named none task_id = task_id
named (some request_id) task_id = request_id

-- `reserve`; the identity is `uuid4().hex`, and `now` is `none` where the clock is invalid
unfoldable pub reserve :
    BudgetPolicy
    → ℕ
    → ℕ
    → ℕ
    → ℕ
    → ExecutionBound
    → Option ℕ
    → Option ℕ
    → Account
    → Answer Reservation × Account
unfolding reservation_amount reserve_amount
reserve policy swarm_id reservation_id worker_id task_id b request_id now account =
    if (worker_id == 0) || (task_id == 0)
    then (Answer.value_error, account)
    else reserve_amount policy swarm_id reservation_id worker_id task_id b
        (named request_id task_id) now (reservation_amount policy b) account
