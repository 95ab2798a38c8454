-- ===== src/Breaker/Observe.antt =====
-- `_apply_aggregate` and `apply_aggregates`: evidence moves the breakers. The in-process window is
-- a `cachetools.TTLCache`, a parameter: what is live in it at a time, and its two writes.
use morphogenesis.Base.{
  ℕ, ◌&&◌, ◌||◌, Option, none, some, List, [], ◌∷◌, ◌++◌, ltb, ◌==◌, if◌then◌else◌,
}
use morphogenesis.Faults.Windows.{FaultAggregate, after_recovery}
use morphogenesis.Breaker.Transition.{
  BreakerState, BreakerEvent, BreakerAction, BreakerConfig, TransitionParams, transition,
}
use morphogenesis.Breaker.Table.{BreakerView, AuditBody, Store, view, next_values, upsert}

pub record BreakerChange : Type 0 where
  pub provider : ℕ
  pub reason : ℕ
  pub event : BreakerEvent
  pub from_state : BreakerState
  pub to_state : BreakerState

-- The evidence that is newer than the last recovery.
abbrev pub fresh_evidence : BreakerView → FaultAggregate → Option FaultAggregate
fresh_evidence current a = since current.recovered_at
  where
    since : Option ℕ → Option FaultAggregate
    since none = some a
    since (some at) = after_recovery at current.recovery_sequence a

abbrev pub aggregate_params :
    BreakerConfig → ℕ → ℕ → FaultAggregate → BreakerView → TransitionParams
aggregate_params config now reason a current = record {
  now = now;
  reason = reason;
  config = config;
  sample_count = a.sample_count;
  confirmed_rejections = a.confirmed_rejections;
  retry_after_until = a.retry_after_until;
  cooldown_until = current.cooldown_until;
  probe_expires_at = current.probe_expires_at;
  probe_owner = current.probe_owner;
  worker_id = none;
}

unfoldable pub decide_write :
    BreakerView
    → FaultAggregate
    → TransitionParams
    → ℕ
    → ℕ
    → BreakerState × List BreakerAction
    → Store
    → Option BreakerChange × Store
decide_write current a p provider reason (new_state, []) s = (none, s)
decide_write current a p provider reason (new_state, (x ∷ xs)) s =
    let values = next_values current new_state (x ∷ xs) p in
    (
      some (record {
        provider = provider;
        reason = reason;
        event = BreakerEvent.aggregate;
        from_state = current.state;
        to_state = new_state;
      }),
      record {
        rows = upsert provider reason values p.now s.rows;
        audit =
            s.audit
            ++ record {
              provider = provider;
              reason = reason;
              from_state = current.state;
              to_state = new_state;
              at = p.now;
              body =
                  AuditBody.aggregated a.sample_count a.confirmed_rejections a.retry_after_until
                    values.cooldown_until (x ∷ xs);
            }
              ∷ [];
      },
    )

unfoldable pub decide_on :
    BreakerConfig
    → ℕ
    → BreakerView
    → ℕ
    → ℕ
    → Option FaultAggregate
    → Store
    → Option BreakerChange × Store
unfolding transition decide_write
decide_on config now current provider reason none s = (none, s)
decide_on config now current provider reason (some a) s =
    let p = aggregate_params config now reason a current in
    decide_write current a p provider reason (transition current.state BreakerEvent.aggregate p) s

-- The table's part of `_apply_aggregate`.
unfoldable pub apply_aggregate :
    BreakerConfig → ℕ → FaultAggregate → Store → Option BreakerChange × Store
unfolding view after_recovery decide_on next_values upsert
apply_aggregate config now a s =
    let current = view a.provider a.normalized_reason s.rows in
    decide_on config now current a.provider a.normalized_reason (fresh_evidence current a) s

-- The live entries and the given ones, one to a key, in the order of the keys.
insert_evidence : FaultAggregate → List FaultAggregate → List FaultAggregate
insert_evidence a [] = a ∷ []
insert_evidence a (b ∷ bs) =
    let rest = insert_evidence a bs in
    if a.provider == b.provider && a.normalized_reason == b.normalized_reason
    then a ∷ bs
    else if ltb a.provider b.provider
        || (a.provider == b.provider && ltb a.normalized_reason b.normalized_reason)
    then a ∷ b ∷ bs
    else b ∷ rest

unfoldable pub effective : List FaultAggregate → List FaultAggregate → List FaultAggregate
unfolding insert_evidence
effective live [] = live
effective live (a ∷ rest) = effective (insert_evidence a live) rest

unfoldable pub sort_evidence : List FaultAggregate → List FaultAggregate
unfolding insert_evidence
sort_evidence [] = []
sort_evidence (a ∷ as') = insert_evidence a (sort_evidence as')

module _ (Window : Type 0) (live : ℕ → Window → List FaultAggregate)
    (put : ℕ → FaultAggregate → Window → Window) (pop : ℕ → ℕ → Window → Window) where
  -- The window's part of `_apply_aggregate`.
  after_write : ℕ → BreakerView → FaultAggregate → Window → Window
  after_write now current a w = keep current.recovered_at
    where
      filtered : Option FaultAggregate → Window
      filtered none = pop a.provider a.normalized_reason w
      filtered (some b) = put now b w

      keep : Option ℕ → Window
      keep none = w
      keep (some at) = filtered (after_recovery at current.recovery_sequence a)

  -- The loop over the sorted keys.
  unfoldable pub apply_each :
      BreakerConfig
      → ℕ
      → List FaultAggregate
      → Window × Store
      → List BreakerChange × (Window × Store)
  unfolding apply_aggregate after_write
  apply_each config now [] ws = ([], ws)
  apply_each config now (a ∷ rest) (w, s) =
      let w' = after_write now (view a.provider a.normalized_reason s.rows) a w in
      let (change, s') = apply_aggregate config now a s in
      let (changes, ws') = apply_each config now rest (w', s') in (cons_some change changes, ws')
    where
      cons_some : Option BreakerChange → List BreakerChange → List BreakerChange
      cons_some none cs = cs
      cons_some (some c) cs = c ∷ cs

  store_all : ℕ → List FaultAggregate → Window → Window
  store_all now [] w = w
  store_all now (a ∷ rest) w = store_all now rest (put now a w)

  -- `apply_aggregates` at a valid time
  unfoldable pub apply_aggregates :
      BreakerConfig
      → ℕ
      → List FaultAggregate
      → Window × Store
      → List BreakerChange × (Window × Store)
  unfolding apply_each store_all effective sort_evidence
  apply_aggregates config now given (w, s) =
      apply_each config now (effective (sort_evidence (live now w)) given)
        (store_all now given w, s)
