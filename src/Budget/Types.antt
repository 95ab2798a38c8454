-- ===== src/Budget/Types.antt =====
-- The data of swarm/budget.py, and the models it takes from swarm/models.py. Money is counted in a
-- millionth of the unit of the prices per million tokens, so an estimate is exact.
use morphogenesis.Base.{ℕ, Bool, true, false, ◌&&◌, Option, List, ◌==◌, same}
use morphogenesis.Ledger.Types.{RunLimits}

pub record ModelPrices : Type 0 where
  pub provider : ℕ
  pub model : ℕ
  pub input_usd_per_million : ℕ
  pub output_usd_per_million : ℕ

pub record BudgetPolicy : Type 0 where
  pub max_tokens : ℕ
  pub max_cost_usd : ℕ
  pub burn_rate_tokens : ℕ
  pub burn_window_seconds : ℕ
  pub prices : Option ModelPrices
  pub limits : RunLimits
  -- `admission_control == "enabled"`
  pub admission_enabled : Bool
  pub unbounded_reservation_usd : Option ℕ
  pub allow_unknown_cost : Bool
  pub allow_unknown_usage : Bool

pub data RequestBound : Type 0 where
  verified unbounded : RequestBound

pub record ExecutionBound : Type 0 where
  pub provider : ℕ
  pub model : ℕ
  pub input_tokens : ℕ
  pub max_output_tokens : ℕ
  pub provider_enforced : Bool
  pub request_bound : RequestBound
  pub max_cost_usd : Option ℕ
  pub bound_evidence : Option ℕ

pub record Reservation : Type 0 where
  pub reservation_id : ℕ
  pub request_id : ℕ
  pub swarm_id : ℕ
  pub worker_id : ℕ
  pub task_id : ℕ
  pub bound : ExecutionBound
  pub reserved_estimate_usd : ℕ
  pub created_at : ℕ
  pub request_bound : RequestBound
  pub admission_enabled : Bool

pub data HoldStatus : Type 0 where
  pending settled uncertain unknown_cost_allowed : HoldStatus

-- `_ReportedUsage` of the gateway: what `_usage` returns of a valid body.
pub record ReportedUsage : Type 0 where
  pub prompt_tokens : ℕ
  pub completion_tokens : ℕ
  pub total_tokens : ℕ

-- A row of `budget_reservations`; `body` is its column of that name, decoded.
pub record HoldRow : Type 0 where
  pub reservation_id : ℕ
  pub worker_id : ℕ
  pub task_id : ℕ
  pub body : Reservation
  pub status : HoldStatus
  pub created_at : ℕ
  pub settled_at : Option ℕ
  pub tokens : Option ℕ
  pub estimate_usd : Option ℕ
  pub reserved_usd : ℕ
  pub request_id : ℕ
  -- `usage_metering == "verified"`
  pub usage_verified : Bool
  pub request_bound : RequestBound
  -- `cost == "estimated"`
  pub cost_estimated : Bool
  pub settlement : Option ReportedUsage
  pub admitted_usd : Option ℕ

pub data StopReason : Type 0 where
  swarm_cost_estimate_exhausted unknown_cost provider_bound_violated request_token_limit_exceeded
        unknown_usage provider_http_error :
      StopReason

pub data BlockReason : Type 0 where
  stopped : StopReason → BlockReason
  worker_burn_rate explicit_unbounded_admission_required explicit_matching_model_prices_required
        task_token_bound_exceeded request_cost_bound_below_estimate run_runtime_limit max_attempts
        max_attempts_per_task max_tasks task_already_reserved_no_retry swarm_reservation_capacity :
      BlockReason

-- The row of `swarm_budgets` and the reservations of the swarm.
pub record Account : Type 0 where
  pub breaker : Option StopReason
  pub started_at : ℕ
  pub holds : List HoldRow

-- `BudgetBlocked` with its sleep, ValueError, AssertionError, sqlite3's
-- IntegrityError, or what the call returns.
pub data Answer (A : Type 0) : Type 0 where
  answered : A → Answer A
  blocked : BlockReason → ℕ → Answer A
  value_error assertion_error integrity_error : Answer A

abbrev pub hold_status_eq : HoldStatus → HoldStatus → Bool
hold_status_eq HoldStatus.pending HoldStatus.pending = true
hold_status_eq HoldStatus.settled HoldStatus.settled = true
hold_status_eq HoldStatus.uncertain HoldStatus.uncertain = true
hold_status_eq HoldStatus.unknown_cost_allowed HoldStatus.unknown_cost_allowed = true
hold_status_eq _ _ = false

abbrev pub request_bound_eq : RequestBound → RequestBound → Bool
request_bound_eq RequestBound.verified RequestBound.verified = true
request_bound_eq RequestBound.unbounded RequestBound.unbounded = true
request_bound_eq _ _ = false

abbrev pub flag_eq : Bool → Bool → Bool
flag_eq true b = b
flag_eq false true = false
flag_eq false false = true

abbrev pub bound_eq : ExecutionBound → ExecutionBound → Bool
bound_eq a b =
    a.provider == b.provider
    && (a.model == b.model
        && (a.input_tokens == b.input_tokens
            && (a.max_output_tokens == b.max_output_tokens
                && (flag_eq a.provider_enforced b.provider_enforced
                    && (request_bound_eq a.request_bound b.request_bound
                        && (same a.max_cost_usd b.max_cost_usd
                            && same a.bound_evidence b.bound_evidence))))))

-- `Reservation.__eq__`
unfoldable pub reservation_eq : Reservation → Reservation → Bool
reservation_eq a b =
    a.reservation_id == b.reservation_id
    && (a.request_id == b.request_id
        && (a.swarm_id == b.swarm_id
            && (a.worker_id == b.worker_id
                && (a.task_id == b.task_id
                    && (bound_eq a.bound b.bound
                        && (a.reserved_estimate_usd == b.reserved_estimate_usd
                            && (a.created_at == b.created_at
                                && (request_bound_eq a.request_bound b.request_bound
                                    && flag_eq a.admission_enabled b.admission_enabled))))))))
