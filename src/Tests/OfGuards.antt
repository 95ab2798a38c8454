-- ===== src/Tests/OfGuards.antt =====
-- The theorems of the breaker, the budget and the fault file applied at small inputs.
use morphogenesis.Base.{
  length, count, all, not, ◌||◌, ◌+◌, ◌≤◌, ◌≡◌, ◌≢◌, refl, ◌⊎◌, true, false, none, some, List, [],
  ◌∷◌, ◌++◌, ◌==◌, arith,
}
use morphogenesis.Tests.Samples.{limits}
use morphogenesis.Breaker.Transition.{
  BreakerState, BreakerEvent, BreakerAction, BreakerConfig, transition,
}
use morphogenesis.Breaker.Table.{BreakerView, Store, fresh_view, view, eligible}
use morphogenesis.Breaker.Probes.{claim_probe, claim_write, claim_params, finish_probe, take_slot}
use morphogenesis.Breaker.Moves.{Edge, transition-Edge}
use morphogenesis.Breaker.Slot.{one_probe_winner}
use morphogenesis.Breaker.Tokens.{superseded_probe_refused}
use morphogenesis.Breaker.Suspension.{BreakerCall, run_breakers, IsSuspended, suspension_holds}
use morphogenesis.Budget.Types.{
  BudgetPolicy, RequestBound, ExecutionBound, Reservation, StopReason, Account, Answer,
}
use morphogenesis.Budget.Snapshot.{estimate, snapshot, sleep_reason, burn}
use morphogenesis.Budget.Reserve.{
  reserve, reserve_amount, reservation_amount, obstacle, admit, pending_row,
}
use morphogenesis.Budget.Book.{IsBook, committed}
use morphogenesis.Budget.Holds.{IsStopKept}
use morphogenesis.Budget.Admission.{Admitted}
use morphogenesis.Budget.Runs.{
  BudgetCall, run_calls, reserve-Admitted, holds_never_released, stop_is_final,
}
use morphogenesis.Faults.Records.{
  FailureClass, FaultObservation, read_line, read_from, read_all, same_facts, append, Appended,
}
use morphogenesis.Faults.Appending.{append_once}
use morphogenesis.Chain.Guard.{GuardResult, guard_view, guard_views, guard_provider}
use morphogenesis.Chain.Held.{needs_probe}
use morphogenesis.Chain.Coverage.{guard_accounts}

abbrev config : BreakerConfig
config = record {
  window_seconds = 300;
  aggregation_period_seconds = 30;
  failure_threshold = 3;
  min_samples = 2;
  cooldown_seconds = 60;
  probe_ttl_seconds = 30;
  window_max_keys = 100;
  direct_suspend_reasons = 9 ∷ [];
}

abbrev suspended_row : BreakerView
suspended_row = record (fresh_view 4 9) {
  state = BreakerState.suspended;
  cooldown_until = some 10;
  probe_token = 1;
}

abbrev store : Store
store = record { rows = suspended_row ∷ []; audit = [] }

abbrev claimed : Store
claimed = (claim_probe config 4 9 5 12 store).1

claim_test : claim_probe config 4 9 5 12 store ≡ (some (take_slot 5 42 12 suspended_row), claimed)
unfolding claim_probe claim_write view transition
claim_test = refl

one_probe_winner_example :
    (2 ≡ (view 4 9 store.rows).probe_token + 1)
    × (claim_probe config 4 9 6 20 claimed ≡ (none, claimed))
    × (eligible 4 9 (some 6) 20 claimed.rows ≡ (6 == 5))
    × (eligible 4 9 none 20 claimed.rows ≡ false)
one_probe_winner_example =
    one_probe_winner config 4 9 5 12 6 20 store claimed (take_slot 5 42 12 suspended_row) claim_test
      (omega arith)

-- At 50 the slot of worker 5 has expired, and worker 6 takes it.
abbrev claimed_again : Store
claimed_again = (claim_probe config 4 9 6 50 claimed).1

again_test :
    claim_probe config 4 9 6 50 (run_breakers [] claimed)
    ≡ (some (take_slot 6 80 50 (take_slot 5 42 12 suspended_row)), claimed_again)
unfolding claim_probe claim_write view transition run_breakers
again_test = refl

superseded_probe_refused_example :
    finish_probe config 4 9 5 BreakerEvent.probe_success 2 none 55 none
      (run_breakers (BreakerCall.claims config 4 9 7 51 ∷ []) claimed_again)
    ≡ (false, run_breakers (BreakerCall.claims config 4 9 7 51 ∷ []) claimed_again)
superseded_probe_refused_example =
    superseded_probe_refused config 4 9 5 12 store claimed (take_slot 5 42 12 suspended_row) [] 6 50
      claimed_again (take_slot 6 80 50 (take_slot 5 42 12 suspended_row))
      (BreakerCall.claims config 4 9 7 51 ∷ []) 5 BreakerEvent.probe_success none 55 none claim_test
      again_test

abbrev early_calls : List BreakerCall
early_calls =
    BreakerCall.claims config 4 9 6 8
    ∷ BreakerCall.reports config 4 9 6 BreakerEvent.probe_success 1 none 9 none
    ∷ []

store-IsSuspended : IsSuspended 4 9 10 store
store-IsSuspended = record {
  row = suspended_row;
  found = refl;
  state = refl;
  until = 10;
  known = refl;
  long = omega arith;
}

suspension_holds_example :
    (eligible 4 9 (some 6) 9 (run_breakers early_calls store).rows ≡ false)
    × IsSuspended 4 9 10 (run_breakers early_calls store)
suspension_holds_example =
    suspension_holds 4 9 10 early_calls store (some 6) 9 refl store-IsSuspended

transition-Edge_example :
    (transition BreakerState.suspended BreakerEvent.cooldown_expired
        (claim_params config 12 9 5 suspended_row)
      ≡ (BreakerState.suspended, []))
    ⊎ ((next : BreakerState) × (rest : List BreakerAction) × (transition BreakerState.suspended
            BreakerEvent.cooldown_expired
            (claim_params config 12 9 5 suspended_row)
          ≡ (next, BreakerAction.persist_state ∷ rest))
        × Edge
            (claim_params config 12 9 5 suspended_row)
            BreakerState.suspended
            BreakerEvent.cooldown_expired
            next)
transition-Edge_example =
    transition-Edge BreakerState.suspended BreakerEvent.cooldown_expired
      (claim_params config 12 9 5 suspended_row)

abbrev policy : BudgetPolicy
policy = record {
  max_tokens = 20000;
  max_cost_usd = 1000000;
  burn_rate_tokens = 20000;
  burn_window_seconds = 60;
  prices =
      some (record {
        provider = 4;
        model = 8;
        input_usd_per_million = 3;
        output_usd_per_million = 15;
      });
  limits = limits;
  admission_enabled = true;
  unbounded_reservation_usd = some 5000;
  allow_unknown_cost = false;
  allow_unknown_usage = false;
}

abbrev bound : ExecutionBound
bound = record {
  provider = 4;
  model = 8;
  input_tokens = 1000;
  max_output_tokens = 500;
  provider_enforced = false;
  request_bound = RequestBound.unbounded;
  max_cost_usd = none;
  bound_evidence = none;
}

abbrev account : Account
account = record { breaker = none; started_at = 100; holds = [] }

abbrev reservation : Reservation
reservation = record {
  reservation_id = 77;
  request_id = 31;
  swarm_id = 7;
  worker_id = 20;
  task_id = 1;
  bound = bound;
  reserved_estimate_usd = 10500;
  created_at = 130;
  request_bound = RequestBound.unbounded;
  admission_enabled = true;
}

abbrev reserved : Account
reserved = record account { holds = pending_row reservation ∷ [] }

reserve_test :
    reserve policy 7 77 20 1 bound (some 31) (some 130) account
    ≡ (Answer.answered reservation, reserved)
unfolding reserve reserve_amount reservation_amount obstacle admit estimate snapshot sleep_reason
    burn
reserve_test = refl

reserve-Admitted_example : Admitted policy reservation account reserved
reserve-Admitted_example =
    reserve-Admitted policy 7 77 20 1 bound (some 31) (some 130) reservation account reserved
      reserve_test

abbrev calls : List BudgetCall
calls =
    BudgetCall.reserves 7 77 20 1 bound (some 31) (some 130)
    ∷ BudgetCall.settles reservation none false (some 140)
    ∷ []

holds_never_released_example :
    IsBook (run_calls policy calls account).holds
    × (committed account.holds ≤ committed (run_calls policy calls account).holds)
    × IsStopKept account.breaker (run_calls policy calls account).breaker
holds_never_released_example = holds_never_released policy calls account _

abbrev stopped : Account
stopped = record account { breaker = some StopReason.unknown_usage }

stop_is_final_example :
    (reserve policy 7 78 20 2 bound (some 32) (some 150) (run_calls policy calls stopped)).0
    ≢ Answer.answered reservation
stop_is_final_example =
    stop_is_final policy calls stopped StopReason.unknown_usage 7 78 20 2 bound (some 32) (some 150)
      reservation refl

abbrev observation : FaultObservation
observation = record {
  observation_id = 500;
  run_id = 7;
  task_id = 1;
  request_id = 31;
  attempt = 0;
  provider = 4;
  model = 8;
  failure_class = FailureClass.confirmed_rejection;
  normalized_reason = 9;
  retry_after_seconds = some 60;
  switched_to = none;
  cost_state = none;
  occurred_at = 140;
  evidence_ref = none;
}

append_test : append 7 observation (none ∷ []) ≡ Appended.written (none ∷ some observation ∷ [])
unfolding append read_all read_from read_line same_facts
append_test = refl

append_once_example :
    (read_all (none ∷ some observation ∷ []) ≡ record (read_all (none ∷ [])) {
      entries = (read_all (none ∷ [])).entries ++ record { item = observation; line = 2 } ∷ [];
    })
    × (append 7 observation (none ∷ some observation ∷ []) ≡ Appended.replayed)
append_once_example =
    append_once 7 observation (none ∷ []) (none ∷ some observation ∷ []) append_test

abbrev guarded : GuardResult
guarded = record {
  routable = true;
  claims = record { provider = 4; reason = 9; token = 2 } ∷ [];
  blocked_reasons = [];
}

guard_test : guard_provider config 4 5 12 (suspended_row ∷ []) store ≡ (guarded, claimed)
unfolding guard_provider guard_views guard_view claim_probe claim_write view transition eligible
guard_test = refl

guard_accounts_example :
    (length guarded.claims ≡ count (needs_probe 4) (suspended_row ∷ []))
    × (all
          (λ v. not (needs_probe 4 v) || eligible 4 v.reason (some 5) 12 claimed.rows)
          (suspended_row ∷ [])
        ≡ true)
guard_accounts_example =
    guard_accounts config 4 5 12 (suspended_row ∷ []) store claimed guarded (omega arith) guard_test
      refl
