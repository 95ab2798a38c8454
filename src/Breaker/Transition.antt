-- ===== src/Breaker/Transition.antt =====
-- The pure decision core: `transition` and what it calls.
use morphogenesis.Base.{
  ℕ, ◌+◌, Bool, true, false, ◌&&◌, ◌||◌, Option, none, some, List, [], ◌∷◌, ltb, leb, ◌==◌, same,
  any, is_some, if◌then◌else◌,
}

pub data BreakerState : Type 0 where
  insufficient_evidence normal suspended probing_recovery : BreakerState

pub data BreakerEvent : Type 0 where
  aggregate cooldown_expired probe_success probe_failure : BreakerEvent

pub data BreakerAction : Type 0 where
  persist_state claim_probe_slot release_probe_slot set_cooldown reset_window : BreakerAction

pub record BreakerConfig : Type 0 where
  pub window_seconds : ℕ
  pub aggregation_period_seconds : ℕ
  pub failure_threshold : ℕ
  pub min_samples : ℕ
  pub cooldown_seconds : ℕ
  pub probe_ttl_seconds : ℕ
  pub window_max_keys : ℕ
  pub direct_suspend_reasons : List ℕ

-- The ranges of the fields, and `window_covers_aggregation`.
unfoldable pub config_valid : BreakerConfig → Bool
config_valid c =
    ltb 0 c.window_seconds
    && (ltb 0 c.aggregation_period_seconds
        && (leb 1 c.failure_threshold
            && (leb 1 c.min_samples
                && (ltb 0 c.cooldown_seconds
                    && (ltb 0 c.probe_ttl_seconds
                        && (leb 1 c.window_max_keys
                            && leb c.aggregation_period_seconds c.window_seconds))))))

pub record TransitionParams : Type 0 where
  pub now : ℕ
  pub reason : ℕ
  pub config : BreakerConfig
  pub sample_count : ℕ
  pub confirmed_rejections : ℕ
  pub retry_after_until : Option ℕ
  pub cooldown_until : Option ℕ
  pub probe_expires_at : Option ℕ
  pub probe_owner : Option ℕ
  pub worker_id : Option ℕ

-- `_suspension_required`
unfoldable pub suspension_required : TransitionParams → Bool
suspension_required p =
    any (λ r. r == p.reason) p.config.direct_suspend_reasons && ltb 0 p.confirmed_rejections
    || (leb p.config.failure_threshold p.sample_count && leb p.config.min_samples p.sample_count)

-- `x is not None and x > now`, and `x is not None and x <= now`
abbrev pub beyond : ℕ → Option ℕ → Bool
beyond now none = false
beyond now (some x) = ltb now x

abbrev pub reached : ℕ → Option ℕ → Bool
reached now none = false
reached now (some x) = leb x now

-- `_live_probe`
unfoldable pub live_probe : TransitionParams → Bool
live_probe p =
    is_some p.worker_id && (same p.worker_id p.probe_owner && beyond p.now p.probe_expires_at)

abbrev or_cooldown : Option ℕ → TransitionParams → ℕ
or_cooldown (some t) p = t
or_cooldown none p = p.now + p.config.cooldown_seconds

-- `cooldown_deadline`
unfoldable pub cooldown_deadline : TransitionParams → ℕ
cooldown_deadline p = or_cooldown p.retry_after_until p

-- A known hint that is strictly later than the deadline, or where there is no deadline.
abbrev pub extends : Option ℕ → Option ℕ → Bool
extends none old = false
extends (some t) none = true
extends (some t) (some old) = ltb old t

abbrev pub Verdict : Type 0
Verdict = BreakerState × List BreakerAction

-- `transition`; an unchanged state carries no actions
unfoldable pub transition : BreakerState → BreakerEvent → TransitionParams → Verdict
unfolding suspension_required live_probe
transition BreakerState.suspended BreakerEvent.aggregate p =
    if extends p.retry_after_until p.cooldown_until
    then (BreakerState.suspended, BreakerAction.persist_state ∷ BreakerAction.set_cooldown ∷ [])
    else (BreakerState.suspended, [])
transition BreakerState.probing_recovery BreakerEvent.aggregate p =
    (BreakerState.probing_recovery, [])
transition BreakerState.insufficient_evidence BreakerEvent.aggregate p =
    if suspension_required p
    then (BreakerState.suspended, BreakerAction.persist_state ∷ BreakerAction.set_cooldown ∷ [])
    else if leb p.config.min_samples p.sample_count
    then (BreakerState.normal, BreakerAction.persist_state ∷ [])
    else (BreakerState.insufficient_evidence, [])
transition BreakerState.normal BreakerEvent.aggregate p =
    if suspension_required p
    then (BreakerState.suspended, BreakerAction.persist_state ∷ BreakerAction.set_cooldown ∷ [])
    else (BreakerState.normal, [])
transition BreakerState.suspended BreakerEvent.cooldown_expired p =
    if reached p.now p.cooldown_until
    then (
      BreakerState.probing_recovery,
      BreakerAction.persist_state ∷ BreakerAction.claim_probe_slot ∷ [],
    )
    else (BreakerState.suspended, [])
transition BreakerState.probing_recovery BreakerEvent.cooldown_expired p =
    if reached p.now p.probe_expires_at
    then (
      BreakerState.probing_recovery,
      BreakerAction.persist_state ∷ BreakerAction.claim_probe_slot ∷ [],
    )
    else (BreakerState.probing_recovery, [])
transition BreakerState.probing_recovery BreakerEvent.probe_success p =
    if live_probe p
    then (
      BreakerState.normal,
      BreakerAction.persist_state ∷ BreakerAction.release_probe_slot ∷ BreakerAction.reset_window
          ∷ [],
    )
    else (BreakerState.probing_recovery, [])
transition BreakerState.probing_recovery BreakerEvent.probe_failure p =
    if live_probe p
    then (
      BreakerState.suspended,
      BreakerAction.persist_state ∷ BreakerAction.release_probe_slot ∷ BreakerAction.set_cooldown
          ∷ [],
    )
    else (BreakerState.probing_recovery, [])
transition state event p = (state, [])
