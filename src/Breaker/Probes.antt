-- ===== src/Breaker/Probes.antt =====
-- `try_claim_probe` and `_finish_probe`: the single half-open slot behind a fencing token.
use morphogenesis.Base.{
  ℕ, ◌+◌, Bool, true, false, not, ◌&&◌, ◌||◌, Option, none, some, List, [], ◌∷◌, ◌++◌, ltb, ◌==◌,
  same, length, update_rows, if◌then◌else◌,
}
use morphogenesis.Breaker.Transition.{
  BreakerState, BreakerEvent, BreakerAction, BreakerConfig, TransitionParams, transition,
  cooldown_deadline, beyond, reached,
}
use morphogenesis.Breaker.Table.{
  BreakerView, AuditBody, Store, state_eq, has_action, with_key, find_row, view,
}

-- ValueError, or what the call returns.
pub data Outcome (A : Type 0) : Type 0 where
  returned : A → Outcome A
  value_error : Outcome A

abbrev pub claim_params : BreakerConfig → ℕ → ℕ → ℕ → BreakerView → TransitionParams
claim_params config at reason worker_id v = record {
  now = at;
  reason = reason;
  config = config;
  sample_count = 0;
  confirmed_rejections = 0;
  retry_after_until = none;
  cooldown_until = v.cooldown_until;
  probe_expires_at = v.probe_expires_at;
  probe_owner = v.probe_owner;
  worker_id = some worker_id;
}

-- The WHERE clause of the claim's UPDATE, behind the key.
abbrev pub claim_guard : ℕ → ℕ → BreakerView → Bool
claim_guard token at r =
    (r.probe_token == token)
    && ((state_eq r.state BreakerState.suspended && reached at r.cooldown_until)
        || (state_eq r.state BreakerState.probing_recovery && reached at r.probe_expires_at))

abbrev pub take_slot : ℕ → ℕ → ℕ → BreakerView → BreakerView
take_slot worker_id expires_at at r = record r {
  state = BreakerState.probing_recovery;
  probe_owner = some worker_id;
  probe_token = r.probe_token + 1;
  probe_expires_at = some expires_at;
  updated_at = some at;
}

-- The rows that an UPDATE with a key and a guard touches; the key is the primary key.
abbrev pub touched : ℕ → ℕ → (BreakerView → Bool) → List BreakerView → Option BreakerView
touched provider reason guard rows = matching (find_row provider reason rows)
  where
    matching : Option BreakerView → Option BreakerView
    matching none = none
    matching (some r) = if guard r then some r else none

unfoldable pub claim_write :
    BreakerConfig
    → ℕ
    → ℕ
    → ℕ
    → ℕ
    → BreakerView
    → Option BreakerView
    → Store
    → Option BreakerView × Store
claim_write config provider reason worker_id at current none s = (none, s)
claim_write config provider reason worker_id at current (some r) s =
    let expires_at = at + config.probe_ttl_seconds in
    let rows = update_rows (with_key provider reason) (take_slot worker_id expires_at at) s.rows in
    (
      some (view provider reason rows),
      record {
        rows = rows;
        audit =
            s.audit
            ++ record {
              provider = provider;
              reason = reason;
              from_state = current.state;
              to_state = BreakerState.probing_recovery;
              at = at;
              body = AuditBody.probe_claimed worker_id (current.probe_token + 1) expires_at;
            }
              ∷ [];
      },
    )

abbrev pub wins : BreakerState × List BreakerAction → Bool
wins (state, actions) =
    state_eq state BreakerState.probing_recovery
    && has_action BreakerAction.claim_probe_slot actions

-- `try_claim_probe` behind its check of the worker's name, at the time `at`
unfoldable pub claim_probe : BreakerConfig → ℕ → ℕ → ℕ → ℕ → Store → Option BreakerView × Store
unfolding view transition claim_write
claim_probe config provider reason worker_id at s =
    let current = view provider reason s.rows in
    if wins (
      transition current.state BreakerEvent.cooldown_expired
        (claim_params config at reason worker_id current))
    then claim_write config provider reason worker_id at current
        (touched provider reason (claim_guard current.probe_token at) s.rows) s
    else (none, s)

-- `try_claim_probe`; the name is 0 if it is blank, and `at` is `none` where the clock is invalid
unfoldable pub try_claim_probe :
    BreakerConfig → ℕ → ℕ → ℕ → Option ℕ → Store → Outcome (Option BreakerView) × Store
unfolding claim_probe
try_claim_probe config provider reason worker_id none s = (Outcome.value_error, s)
try_claim_probe config provider reason worker_id (some at) s =
    if worker_id == 0
    then (Outcome.value_error, s)
    else let (won, s') = claim_probe config provider reason worker_id at s in
      (Outcome.returned won, s')

abbrev pub finish_params : BreakerConfig → ℕ → ℕ → ℕ → Option ℕ → BreakerView → TransitionParams
finish_params config at reason worker_id retry_after_until v = record {
  now = at;
  reason = reason;
  config = config;
  sample_count = 0;
  confirmed_rejections = 0;
  retry_after_until = retry_after_until;
  cooldown_until = none;
  probe_expires_at = v.probe_expires_at;
  probe_owner = v.probe_owner;
  worker_id = some worker_id;
}

-- The WHERE clause of the UPDATE of `_finish_probe`, behind the key.
abbrev pub finish_guard : ℕ → ℕ → ℕ → BreakerView → Bool
finish_guard worker_id token at r =
    state_eq r.state BreakerState.probing_recovery
    && (same r.probe_owner (some worker_id)
        && (r.probe_token == token && beyond at r.probe_expires_at))

-- A probe that succeeded: the slot and the evidence are cleared, the recovery is recorded.
abbrev pub recovered : ℕ → Option ℕ → BreakerView → BreakerView
recovered at recovery_sequence r = record r {
  state = BreakerState.normal;
  probe_owner = none;
  probe_expires_at = none;
  sample_count = 0;
  confirmed_rejections = 0;
  cooldown_until = none;
  retry_after_until = none;
  updated_at = some at;
  recovered_at = some at;
  recovery_sequence = recovery_sequence;
}

-- A probe that failed: a new deadline.
abbrev pub suspended_again : ℕ → ℕ → Option ℕ → BreakerView → BreakerView
suspended_again at deadline retry_after_until r = record r {
  state = BreakerState.suspended;
  probe_owner = none;
  probe_expires_at = none;
  cooldown_until = some deadline;
  retry_after_until = retry_after_until;
  updated_at = some at;
}

abbrev pub finished : BreakerState → TransitionParams → Option ℕ → BreakerView → BreakerView
finished BreakerState.normal p recovery_sequence = recovered p.now recovery_sequence
finished _ p recovery_sequence = suspended_again p.now (cooldown_deadline p) p.retry_after_until

-- `checkpoint()` is read only on a recovery.
abbrev pub sequence_of : BreakerState → Option ℕ → Option ℕ
sequence_of BreakerState.normal checkpoint = checkpoint
sequence_of _ checkpoint = none

unfoldable pub finish_write :
    BreakerEvent
    → BreakerState
    → TransitionParams
    → ℕ
    → ℕ
    → ℕ
    → ℕ
    → Option ℕ
    → BreakerView
    → Option BreakerView
    → Store
    → Bool × Store
finish_write event state p provider reason worker_id token sequence current none s = (false, s)
finish_write event state p provider reason worker_id token sequence current (some r) s = (
  true,
  record {
    rows =
        update_rows (with_key provider reason) (finished state p (sequence_of state sequence))
          s.rows;
    audit =
        s.audit
        ++ record {
          provider = provider;
          reason = reason;
          from_state = current.state;
          to_state = state;
          at = p.now;
          body =
              AuditBody.probe_finished event worker_id p.retry_after_until token
                (sequence_of state sequence);
        }
          ∷ [];
  },
)

-- `_finish_probe` behind its checks; `sequence` is what the fault store's `checkpoint` would return
unfoldable pub finish_probe :
    BreakerConfig → ℕ → ℕ → ℕ → BreakerEvent → ℕ → Option ℕ → ℕ → Option ℕ → Store → Bool × Store
unfolding view transition finish_write cooldown_deadline
finish_probe config provider reason worker_id event token retry_after_until at sequence s =
    let current = view provider reason s.rows in
    let p = finish_params config at reason worker_id retry_after_until current in
    let (state, actions) = transition current.state event p in
    if (length actions == 0) || not (current.probe_token == token)
    then (false, s)
    else finish_write event state p provider reason worker_id token sequence current
        (touched provider reason (finish_guard worker_id token at) s.rows) s

abbrev is_outcome : BreakerEvent → Bool
is_outcome BreakerEvent.probe_success = true
is_outcome BreakerEvent.probe_failure = true
is_outcome _ = false

-- `_finish_probe`, and with the two events `report_probe_success` and `report_probe_failure`
unfoldable pub report_probe :
    BreakerConfig
    → ℕ
    → ℕ
    → ℕ
    → BreakerEvent
    → ℕ
    → Option ℕ
    → Option ℕ
    → Option ℕ
    → Store
    → Outcome Bool × Store
unfolding finish_probe
report_probe config provider reason worker_id event token retry_after_until none sequence s =
    (Outcome.value_error, s)
report_probe config provider reason worker_id event token retry_after_until (some at) sequence s =
    if not (is_outcome event) || (ltb token 1 || worker_id == 0)
    then (Outcome.value_error, s)
    else let (done, s') =
        finish_probe config provider reason worker_id event token retry_after_until at sequence s in
      (Outcome.returned done, s')
