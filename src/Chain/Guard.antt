-- ===== src/Chain/Guard.antt =====
-- `guard_provider` and `decide` of swarm/failure_chain.py, over the breakers of swarm/breaker.py.
use morphogenesis.Base.{
  ℕ, Bool, true, false, not, ◌||◌, Option, none, some, List, [], ◌∷◌, ◌++◌, ◌==◌, length,
  if◌then◌else◌,
}
use morphogenesis.Faults.Records.{FailureClass}
use morphogenesis.Breaker.Transition.{BreakerState, BreakerConfig}
use morphogenesis.Breaker.Table.{BreakerView, Store, is_routable, state_eq, eligible}
use morphogenesis.Breaker.Probes.{claim_probe}

pub record ProbeClaim : Type 0 where
  pub provider : ℕ
  pub reason : ℕ
  pub token : ℕ

pub record GuardResult : Type 0 where
  pub routable : Bool
  pub claims : List ProbeClaim
  pub blocked_reasons : List ℕ

-- What the loop holds: `claims`, `blocked`, and the breakers' store.
pub record Progress : Type 0 where
  pub claims : List ProbeClaim
  pub blocked : List ℕ
  pub store : Store

abbrev pub claim_of : ℕ → ℕ → BreakerView → Progress → Progress
claim_of provider reason v g = record g {
  claims = g.claims ++ record { provider = provider; reason = reason; token = v.probe_token } ∷ [];
}

abbrev pub block : ℕ → Progress → Progress
block reason g = record g { blocked = g.blocked ++ reason ∷ [] }

-- The outcome of `try_claim_probe`; `owned` is whether the breaker is eligible for the worker.
abbrev pub on_claim : ℕ → BreakerView → Bool → Option BreakerView → Progress → Progress
on_claim provider v owned (some claimed) g = claim_of provider v.reason claimed g
on_claim provider v owned none g =
    if state_eq v.state BreakerState.probing_recovery
    then if owned then claim_of provider v.reason v g else block v.reason g
    else block v.reason g

-- The body of the loop of `guard_provider`.
unfoldable pub guard_view : BreakerConfig → ℕ → ℕ → ℕ → BreakerView → Progress → Progress
unfolding claim_probe eligible
guard_view config provider worker_id now v g =
    if not (v.provider == provider) || is_routable v.state
    then g
    else let (claimed, store) = claim_probe config provider v.reason worker_id now g.store in
      on_claim provider v (eligible provider v.reason (some worker_id) now store.rows) claimed
        (record g { store = store })

unfoldable pub guard_views : BreakerConfig → ℕ → ℕ → ℕ → List BreakerView → Progress → Progress
unfolding guard_view
guard_views config provider worker_id now [] g = g
guard_views config provider worker_id now (v ∷ vs) g =
    guard_views config provider worker_id now vs (guard_view config provider worker_id now v g)

-- `guard_provider`, given the list that `breaker.views()` returned, for a worker with a name
unfoldable pub guard_provider :
    BreakerConfig → ℕ → ℕ → ℕ → List BreakerView → Store → GuardResult × Store
unfolding guard_views
guard_provider config provider worker_id now views s =
    let g =
      guard_views config provider worker_id now views
        (record { claims = []; blocked = []; store = s }) in
    (
      record { routable = length g.blocked == 0; claims = g.claims; blocked_reasons = g.blocked },
      g.store,
    )

pub data ChainAction : Type 0 where
  switch stop_unknown_effect stop_budget_exhausted stop_capability_mismatch stop_local_failure
        exit_candidates_rejected :
      ChainAction

pub record ChainDecision : Type 0 where
  pub action : ChainAction
  pub record_observation : Bool

-- `decide`; `none` is a local failure
unfoldable pub decide : Option FailureClass → Bool → ChainDecision
decide (some FailureClass.confirmed_rejection) true = record {
  action = ChainAction.switch;
  record_observation = true;
}
decide (some FailureClass.confirmed_rejection) false = record {
  action = ChainAction.exit_candidates_rejected;
  record_observation = true;
}
decide (some FailureClass.unknown_effect) later = record {
  action = ChainAction.stop_unknown_effect;
  record_observation = true;
}
decide (some FailureClass.budget_exhausted) later = record {
  action = ChainAction.stop_budget_exhausted;
  record_observation = true;
}
decide (some FailureClass.capability_mismatch) later = record {
  action = ChainAction.stop_capability_mismatch;
  record_observation = true;
}
decide none later = record { action = ChainAction.stop_local_failure; record_observation = false }
