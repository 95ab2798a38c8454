-- ===== src/Budget/Snapshot.antt =====
-- `_estimate`, `_snapshot`, `_trip`, `_stored` and `reservation_cost_state` of swarm/budget.py.
use morphogenesis.Base.{
  ℕ, ◌+◌, ◌*◌, Bool, false, not, ◌&&◌, ◌||◌, Option, none, some, List, [], ◌∷◌, ltb, leb, ◌==◌, any,
  all, count, first, where_rows, is_some, length, if◌then◌else◌,
}
use morphogenesis.Budget.Types.{
  ModelPrices, BudgetPolicy, RequestBound, Reservation, HoldStatus, HoldRow, StopReason,
  BlockReason, Account, Answer, hold_status_eq, request_bound_eq, reservation_eq,
}

-- `SUM(…)` over the rows
abbrev pub total : (HoldRow → ℕ) → List HoldRow → ℕ
total amount [] = 0
total amount (r ∷ rows) = amount r + total amount rows

-- `x or 0`, and a sum that skips NULL
abbrev pub or_zero : Option ℕ → ℕ
or_zero none = 0
or_zero (some n) = n

abbrev pub has_status : HoldStatus → HoldRow → Bool
has_status status r = hold_status_eq r.status status

-- `_estimate` at the policy's prices; `none` where there are none
unfoldable pub estimate : BudgetPolicy → ℕ → ℕ → Option ℕ
estimate policy input_tokens output_tokens = at_prices policy.prices
  where
    at_prices : Option ModelPrices → Option ℕ
    at_prices none = none
    at_prices (some p) =
        some (input_tokens * p.input_usd_per_million + output_tokens * p.output_usd_per_million)

-- What a row adds to `holds`, and to the admitted sum.
abbrev pub held_amount : HoldRow → ℕ
held_amount r = if has_status HoldStatus.settled r then 0 else r.reserved_usd

abbrev pub admitted_amount : HoldRow → ℕ
admitted_amount r = or_zero r.admitted_usd

-- `status NOT IN ('settled','unknown_cost_allowed') OR settled_at>?`
abbrev pub is_recent : ℕ → BudgetPolicy → HoldRow → Bool
is_recent now policy r =
    not (has_status HoldStatus.settled r || has_status HoldStatus.unknown_cost_allowed r)
    || settled_after r.settled_at
  where
    settled_after : Option ℕ → Bool
    settled_after none = false
    settled_after (some at) = ltb now (at + policy.burn_window_seconds)

-- What a row adds to the burn of a worker.
abbrev pub burned : HoldRow → ℕ
burned r = known r.tokens
  where
    known : Option ℕ → ℕ
    known (some n) = n
    known none = r.body.bound.input_tokens + r.body.bound.max_output_tokens

-- The burn of a worker within the window.
unfoldable pub burn : BudgetPolicy → ℕ → ℕ → List HoldRow → ℕ
burn policy worker_id now rows =
    total burned (where_rows (λ r. r.worker_id == worker_id && is_recent now policy r) rows)

pub record BudgetSnapshot : Type 0 where
  pub reason : Option BlockReason
  pub sleep_seconds : ℕ
  pub tokens : Option ℕ
  pub estimated_cost_usd : Option ℕ
  pub reserved_estimate_usd : ℕ
  pub uncertain_reservations : ℕ
  pub pending_reservations : ℕ
  pub usage_verified : Bool
  pub request_bound : RequestBound
  pub cost_estimated : Bool
  pub admission_charged_usd : ℕ
  pub unreconciled_reservations : ℕ

-- The reason a worker sleeps for; `sleeping` is that there is one.
unfoldable pub sleep_reason : BudgetPolicy → Option ℕ → ℕ → Account → Option BlockReason
unfolding burn
sleep_reason policy worker_id now account = of_breaker account.breaker worker_id
  where
    of_breaker : Option StopReason → Option ℕ → Option BlockReason
    of_breaker (some stop) w = some (BlockReason.stopped stop)
    of_breaker none none = none
    of_breaker none (some w) =
        if leb policy.burn_rate_tokens (burn policy w now account.holds)
        then some BlockReason.worker_burn_rate
        else none

-- `_snapshot`
unfoldable pub snapshot : BudgetPolicy → Option ℕ → ℕ → Account → BudgetSnapshot
unfolding sleep_reason
snapshot policy worker_id now account =
    let rows = account.holds in
    let reason = sleep_reason policy worker_id now account in
    let usage_unknown = any (λ r. not r.usage_verified) rows in
    let cost_unknown = any (λ r. not r.cost_estimated) rows || not (is_some policy.prices) in
    record {
      reason = reason;
      sleep_seconds = if is_some reason then policy.burn_window_seconds else 0;
      tokens = if usage_unknown then none else some (total (λ r. or_zero r.tokens) rows);
      estimated_cost_usd =
          if cost_unknown then none else some (total (λ r. or_zero r.estimate_usd) rows);
      reserved_estimate_usd = total held_amount rows;
      uncertain_reservations = count (has_status HoldStatus.uncertain) rows;
      pending_reservations = count (has_status HoldStatus.pending) rows;
      usage_verified = not usage_unknown;
      request_bound =
          if ltb 0 (length rows)
            && all (λ r. request_bound_eq r.request_bound RequestBound.verified) rows
          then RequestBound.verified
          else RequestBound.unbounded;
      cost_estimated = not cost_unknown;
      admission_charged_usd = total admitted_amount rows;
      unreconciled_reservations = length rows;
    }

abbrev pub priority : StopReason → ℕ
priority StopReason.swarm_cost_estimate_exhausted = 1
priority StopReason.unknown_cost = 2
priority StopReason.provider_bound_violated = 3
priority StopReason.request_token_limit_exceeded = 3
priority StopReason.unknown_usage = 4
priority StopReason.provider_http_error = 4

-- The column `breaker` after `_trip`
abbrev pub worse : StopReason → Option StopReason → Option StopReason
worse reason none = some reason
worse reason (some previous) =
    if ltb (priority previous) (priority reason) then some reason else some previous

-- `_trip`
unfoldable pub trip : StopReason → Account → Account
trip reason account = record account { breaker = worse reason account.breaker }

abbrev pub with_reservation : ℕ → HoldRow → Bool
with_reservation reservation_id r = r.reservation_id == reservation_id

abbrev pub find_hold : ℕ → List HoldRow → Option HoldRow
find_hold reservation_id = first (with_reservation reservation_id)

abbrev pub same_body : Reservation → Option HoldRow → Option HoldRow
same_body reservation none = none
same_body reservation (some r) = if reservation_eq r.body reservation then some r else none

-- `_stored`; `none` is its ValueError
unfoldable pub stored : Reservation → List HoldRow → Option HoldRow
stored reservation rows = same_body reservation (find_hold reservation.reservation_id rows)

pub data HoldCost : Type 0 where
  reserved settled unknown : HoldCost

-- `reservation_cost_state`
unfoldable pub reservation_cost_state : Reservation → List HoldRow → Answer HoldCost
unfolding stored
reservation_cost_state reservation rows = judge (stored reservation rows)
  where
    judge : Option HoldRow → Answer HoldCost
    judge none = Answer.value_error
    judge (some r) =
        if has_status HoldStatus.pending r
        then Answer.answered HoldCost.reserved
        else if has_status HoldStatus.settled r && r.cost_estimated
        then Answer.answered HoldCost.settled
        else Answer.answered HoldCost.unknown
