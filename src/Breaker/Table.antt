-- ===== src/Breaker/Table.antt =====
-- The durable table of breakers and its audit log; `view`, `eligible`, `_next_values`, `_upsert`.
use morphogenesis.Base.{
  ℕ, Bool, true, false, not, ◌&&◌, Option, none, some, List, [], ◌∷◌, ◌++◌, ◌==◌, same, any, first,
  update_rows, is_some, if◌then◌else◌,
}
use morphogenesis.Breaker.Transition.{
  BreakerState, BreakerEvent, BreakerAction, TransitionParams, cooldown_deadline, beyond,
}

-- A row of `breaker_states`, and `BreakerView`.
pub record BreakerView : Type 0 where
  pub provider : ℕ
  pub reason : ℕ
  pub state : BreakerState
  pub sample_count : ℕ
  pub confirmed_rejections : ℕ
  pub cooldown_until : Option ℕ
  pub retry_after_until : Option ℕ
  pub probe_owner : Option ℕ
  pub probe_token : ℕ
  pub probe_expires_at : Option ℕ
  pub updated_at : Option ℕ
  pub recovered_at : Option ℕ
  pub recovery_sequence : Option ℕ

-- What a row of `breaker_audit` tells of the call that wrote it.
pub data AuditBody : Type 0 where
  aggregated :
      (sample_count confirmed_rejections : ℕ) (retry_after_until cooldown_until : Option ℕ)
      → List BreakerAction
      → AuditBody
  probe_claimed : (worker_id probe_token probe_expires_at : ℕ) → AuditBody
  probe_finished :
      BreakerEvent
      → (worker_id : ℕ) (retry_after_until : Option ℕ) (probe_token : ℕ)
        (recovery_sequence : Option ℕ)
      → AuditBody

pub record BreakerAudit : Type 0 where
  pub provider : ℕ
  pub reason : ℕ
  pub from_state : BreakerState
  pub to_state : BreakerState
  pub at : ℕ
  pub body : AuditBody

pub record Store : Type 0 where
  pub rows : List BreakerView
  pub audit : List BreakerAudit

abbrev pub state_eq : BreakerState → BreakerState → Bool
state_eq BreakerState.insufficient_evidence BreakerState.insufficient_evidence = true
state_eq BreakerState.normal BreakerState.normal = true
state_eq BreakerState.suspended BreakerState.suspended = true
state_eq BreakerState.probing_recovery BreakerState.probing_recovery = true
state_eq _ _ = false

abbrev pub action_eq : BreakerAction → BreakerAction → Bool
action_eq BreakerAction.persist_state BreakerAction.persist_state = true
action_eq BreakerAction.claim_probe_slot BreakerAction.claim_probe_slot = true
action_eq BreakerAction.release_probe_slot BreakerAction.release_probe_slot = true
action_eq BreakerAction.set_cooldown BreakerAction.set_cooldown = true
action_eq BreakerAction.reset_window BreakerAction.reset_window = true
action_eq _ _ = false

abbrev pub has_action : BreakerAction → List BreakerAction → Bool
has_action a = any (λ b. action_eq a b)

-- `WHERE provider=? AND reason=?`
abbrev pub with_key : ℕ → ℕ → BreakerView → Bool
with_key provider reason r = r.provider == provider && r.reason == reason

abbrev pub find_row : ℕ → ℕ → List BreakerView → Option BreakerView
find_row provider reason = first (with_key provider reason)

-- `BreakerView(provider=…, reason=…)`
abbrev pub fresh_view : ℕ → ℕ → BreakerView
fresh_view provider reason = record {
  provider = provider;
  reason = reason;
  state = BreakerState.insufficient_evidence;
  sample_count = 0;
  confirmed_rejections = 0;
  cooldown_until = none;
  retry_after_until = none;
  probe_owner = none;
  probe_token = 0;
  probe_expires_at = none;
  updated_at = none;
  recovered_at = none;
  recovery_sequence = none;
}

abbrev pub view_of : ℕ → ℕ → Option BreakerView → BreakerView
view_of provider reason none = fresh_view provider reason
view_of provider reason (some r) = r

-- `view`, and `_view` of `_row`
unfoldable pub view : ℕ → ℕ → List BreakerView → BreakerView
view provider reason rows = view_of provider reason (find_row provider reason rows)

abbrev pub is_routable : BreakerState → Bool
is_routable BreakerState.insufficient_evidence = true
is_routable BreakerState.normal = true
is_routable _ = false

-- The live owner of the probe slot.
unfoldable pub owns_probe : BreakerView → Option ℕ → ℕ → Bool
owns_probe v worker_id at =
    is_some worker_id && (same worker_id v.probe_owner && beyond at v.probe_expires_at)

-- `eligible`, at the time `at`
unfoldable pub eligible : ℕ → ℕ → Option ℕ → ℕ → List BreakerView → Bool
unfolding view owns_probe
eligible provider reason worker_id at rows =
    let v = view provider reason rows in
    if is_routable v.state
    then true
    else if state_eq v.state BreakerState.suspended
    then false
    else owns_probe v worker_id at

-- The dictionary that `_next_values` returns.
pub record Values : Type 0 where
  pub state : BreakerState
  pub sample_count : ℕ
  pub confirmed_rejections : ℕ
  pub cooldown_until : Option ℕ
  pub retry_after_until : Option ℕ
  pub probe_owner : Option ℕ
  pub probe_expires_at : Option ℕ

abbrev pub kept_values : BreakerView → BreakerState → Values
kept_values current new_state = record {
  state = new_state;
  sample_count = current.sample_count;
  confirmed_rejections = current.confirmed_rejections;
  cooldown_until = current.cooldown_until;
  retry_after_until = current.retry_after_until;
  probe_owner = current.probe_owner;
  probe_expires_at = current.probe_expires_at;
}

abbrev with_cooldown : Bool → TransitionParams → Values → Values
with_cooldown false p v = v
with_cooldown true p v = record v {
  cooldown_until = some (cooldown_deadline p);
  retry_after_until = p.retry_after_until;
}

abbrev on_suspension : Bool → TransitionParams → Values → Values
on_suspension false p v = v
on_suspension true p v = record v {
  sample_count = p.sample_count;
  confirmed_rejections = p.confirmed_rejections;
  probe_owner = none;
  probe_expires_at = none;
}

abbrev on_recovery : Bool → Values → Values
on_recovery false v = v
on_recovery true v = record v {
  sample_count = 0;
  confirmed_rejections = 0;
  cooldown_until = none;
  retry_after_until = none;
}

-- `_next_values`
unfoldable pub next_values :
    BreakerView → BreakerState → List BreakerAction → TransitionParams → Values
next_values current new_state actions p =
    on_recovery
      (state_eq new_state BreakerState.normal
        && state_eq current.state BreakerState.probing_recovery)
      (on_suspension
        (state_eq new_state BreakerState.suspended
          && not (state_eq current.state BreakerState.suspended))
        p
        (with_cooldown (has_action BreakerAction.set_cooldown actions) p
          (kept_values current new_state)))

-- The columns that the UPDATE of `_upsert` writes.
abbrev pub write_values : Values → ℕ → BreakerView → BreakerView
write_values v now r = record r {
  state = v.state;
  sample_count = v.sample_count;
  confirmed_rejections = v.confirmed_rejections;
  cooldown_until = v.cooldown_until;
  retry_after_until = v.retry_after_until;
  probe_owner = v.probe_owner;
  probe_expires_at = v.probe_expires_at;
  updated_at = some now;
}

-- `_upsert`
unfoldable pub upsert : ℕ → ℕ → Values → ℕ → List BreakerView → List BreakerView
upsert provider reason v now rows =
    if is_some (find_row provider reason rows)
    then update_rows (with_key provider reason) (write_values v now) rows
    else rows ++ write_values v now (fresh_view provider reason) ∷ []
