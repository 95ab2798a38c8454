-- ===== src/Breaker/Suspension.antt =====
-- A suspended breaker stays suspended until its deadline, whatever is called before it.
use morphogenesis.Base.{
  ℕ, ◌≤◌, ◌<◌, ◌≡◌, refl, sym, ap, ◌∙◌, subst, inl, inr, true, false, not, ◌&&◌, ◌||◌, Bool-cases,
  Option, none, some, List, [], ◌∷◌, arith, leb, ltb, ◌==◌, length, all,
}
use morphogenesis.Faults.Windows.{FaultAggregate}
use morphogenesis.Breaker.Transition.{
  BreakerState, BreakerEvent, BreakerAction, BreakerConfig, TransitionParams, transition, extends,
  cooldown_deadline,
}
use morphogenesis.Breaker.Table.{
  BreakerView, Store, Values, find_row, view, eligible, upsert, write_values, next_values,
}
use morphogenesis.Breaker.Probes.{
  touched, claim_probe, finish_guard, finish_params, finish_write, finish_probe,
}
use morphogenesis.Breaker.Observe.{
  fresh_evidence, aggregate_params, decide_write, decide_on, apply_aggregate,
}
use morphogenesis.Breaker.Rows.{find-update_self}
use morphogenesis.Breaker.Moves.{extends-later}
use morphogenesis.Breaker.Elsewhere.{claim-elsewhere, finish-elsewhere, on-elsewhere}
use morphogenesis.Breaker.Slot.{view_found}

-- A call that writes the table, with its configuration, its time and its arguments:
-- `_apply_aggregate`, `try_claim_probe` or `_finish_probe`.
pub data BreakerCall : Type 0 where
  aggregates : BreakerConfig → (now : ℕ) → FaultAggregate → BreakerCall
  claims : BreakerConfig → (provider reason worker_id at : ℕ) → BreakerCall
  reports :
      BreakerConfig
      → (provider reason worker_id : ℕ) → BreakerEvent
      → (token : ℕ) (retry_after_until : Option ℕ) (at : ℕ) (sequence : Option ℕ) → BreakerCall

abbrev pub time_of : BreakerCall → ℕ
time_of (BreakerCall.aggregates config now a) = now
time_of (BreakerCall.claims config p q w at) = at
time_of (BreakerCall.reports config p q w event token retry at sequence) = at

unfoldable pub run_breaker : BreakerCall → Store → Store
run_breaker (BreakerCall.aggregates config now a) s = (apply_aggregate config now a s).1
run_breaker (BreakerCall.claims config p q w at) s = (claim_probe config p q w at s).1
run_breaker (BreakerCall.reports config p q w event token retry at sequence) s =
    (finish_probe config p q w event token retry at sequence s).1

unfoldable pub run_breakers : List BreakerCall → Store → Store
run_breakers [] s = s
run_breakers (c ∷ cs) s = run_breakers cs (run_breaker c s)

-- The key is suspended until some time that is not before `c`.
pub record IsSuspended (p q c : ℕ) (s : Store) : Type 0 where
  pub row : BreakerView
  pub found : find_row p q s.rows ≡ some row
  pub state : row.state ≡ BreakerState.suspended
  pub until : ℕ
  pub known : row.cooldown_until ≡ some until
  pub long : c ≤ until

elsewhere_lem :
    (p q c : ℕ) (s s' : Store)
    → find_row p q s'.rows ≡ find_row p q s.rows
    → IsSuspended p q c s
    → IsSuspended p q c s'
elsewhere_lem p q c s s' e h = record {
  row = h.row;
  found = e ∙ h.found;
  state = h.state;
  until = h.until;
  known = h.known;
  long = h.long;
}

claim-IsSuspended :
    (config : BreakerConfig) (p q c w at : ℕ) (s : Store)
    → at < c
    → IsSuspended p q c s
    → claim_probe config p q w at s ≡ (none, s)
unfolding claim_probe transition
claim-IsSuspended config p q c w at s early h =
    let late : leb h.until at ≡ false = let l = h.long in ground arith in
    rw (view_found p q s.rows h.row h.found, h.state, h.known, late) refl

-- No report finds a probe on a suspended row.
finish-IsSuspended :
    (config : BreakerConfig) (p q c w : ℕ) (event : BreakerEvent) (token : ℕ) (retry : Option ℕ)
    (at : ℕ) (sequence : Option ℕ) (s : Store)
    → IsSuspended p q c s
    → finish_probe config p q w event token retry at sequence s ≡ (false, s)
unfolding finish_probe finish_write
finish-IsSuspended config p q c w event token retry at sequence s h =
    let current = view p q s.rows in
    let verdict = transition current.state event (finish_params config at q w retry current) in
    let unheld : touched p q (finish_guard w token at) s.rows ≡ none = rw (h.found, h.state) refl in
    elim (Bool-cases ((length verdict.1 == 0) || not (current.probe_token == token))) [
      | inl y ↦ rw y refl
      | inr n ↦ rw (n, unheld) refl
    ]

values_lem :
    (row : BreakerView) (t : TransitionParams) (u : ℕ)
    → row.state ≡ BreakerState.suspended
    → t.retry_after_until ≡ some u
    → ((next_values row BreakerState.suspended
          (BreakerAction.persist_state ∷ BreakerAction.set_cooldown ∷ [])
          t).state
        ≡ BreakerState.suspended)
      × ((next_values row BreakerState.suspended
            (BreakerAction.persist_state ∷ BreakerAction.set_cooldown ∷ [])
            t).cooldown_until
          ≡ some u)
unfolding next_values cooldown_deadline
values_lem row t u e h = rw (e, h) (refl, refl)

upsert-found :
    (p q : ℕ) (v : Values) (now : ℕ) (rows : List BreakerView) (r : BreakerView)
    → find_row p q rows ≡ some r
    → find_row p q (upsert p q v now rows) ≡ some (write_values v now r)
unfolding upsert
upsert-found p q v now rows r h =
    rw h (find-update_self p q (write_values v now) rows r (λ x. (refl, refl)) h)

-- Evidence on a suspended row: nothing, or a later deadline.
write-IsSuspended :
    (p q c : ℕ) (a : FaultAggregate) (t : TransitionParams) (s : Store) (h : IsSuspended p q c s)
    → t.cooldown_until ≡ h.row.cooldown_until
    → IsSuspended p q c
        (decide_write h.row a t p q
          (transition BreakerState.suspended BreakerEvent.aggregate t)
          s).1
unfolding transition decide_write
write-IsSuspended p q c a t s h e =
    elim (Bool-cases (extends t.retry_after_until t.cooldown_until)) [
      | inr n ↦ rw n h
      | inl y ↦
          (let (u, known, later) = extends-later t.retry_after_until t.cooldown_until y in
            let v = values_lem h.row t u h.state known in
            let more : h.until < u = later h.until (e ∙ h.known) in
            let long = h.long in
            rw y (record {
              row = _;
              found = upsert-found p q _ t.now s.rows h.row h.found;
              state = v.0;
              until = u;
              known = v.1;
              long = omega arith;
            }))
    ]

on-IsSuspended :
    (config : BreakerConfig) (now p q c : ℕ) (o : Option FaultAggregate) (s : Store)
    (h : IsSuspended p q c s)
    → IsSuspended p q c (decide_on config now h.row p q o s).1
unfolding decide_on
on-IsSuspended config now p q c none s h = h
on-IsSuspended config now p q c (some a) s h =
    subst
      (λ z.
        IsSuspended p q c
          (decide_write h.row a (aggregate_params config now q a h.row) p q
            (transition z BreakerEvent.aggregate (aggregate_params config now q a h.row)) s).1)
      (sym h.state) (write-IsSuspended p q c a (aggregate_params config now q a h.row) s h refl)

-- The same key by another name.
pub key_lem : (p' q' p q : ℕ) → (p' == p && q' == q) ≡ true → (p' ≡ p) × (q' ≡ q)
key_lem p' q' p q h = (ground arith, ground arith)

at_key :
    (p' q' p q c : ℕ) (s : Store)
    → (p' == p && q' == q) ≡ true
    → IsSuspended p q c s
    → IsSuspended p' q' c s
at_key p' q' p q c s h k =
    let (e, f) = key_lem p' q' p q h in
    subst (λ z. IsSuspended z q' c s) (sym e) (subst (λ z. IsSuspended p z c s) (sym f) k)

from_key :
    (p' q' p q c : ℕ) (s : Store)
    → (p' == p && q' == q) ≡ true
    → IsSuspended p' q' c s
    → IsSuspended p q c s
from_key p' q' p q c s h k =
    let (e, f) = key_lem p' q' p q h in
    subst (λ z. IsSuspended z q c s) e (subst (λ z. IsSuspended p' z c s) f k)

aggregate-IsSuspended :
    (config : BreakerConfig) (now p q c : ℕ) (a : FaultAggregate) (s : Store)
    → IsSuspended p q c s
    → IsSuspended p q c (apply_aggregate config now a s).1
unfolding apply_aggregate
aggregate-IsSuspended config now p q c a s h =
    elim (Bool-cases (a.provider == p && a.normalized_reason == q)) [
      | inr n ↦
          elsewhere_lem p q c s _
            (on-elsewhere config now p q a.provider a.normalized_reason
              (view a.provider a.normalized_reason s.rows) _ s n)
            h
      | inl y ↦
          (let k = at_key a.provider a.normalized_reason p q c s y h in
            let there =
              on-IsSuspended config now a.provider a.normalized_reason c (fresh_evidence k.row a) s
                k in
            from_key a.provider a.normalized_reason p q c _ y
              (rw (view_found a.provider a.normalized_reason s.rows k.row k.found) there))
    ]

call-IsSuspended :
    (p q c : ℕ) (call : BreakerCall) (s : Store)
    → time_of call < c
    → IsSuspended p q c s
    → IsSuspended p q c (run_breaker call s)
unfolding run_breaker
call-IsSuspended p q c (BreakerCall.aggregates config now a) s early h =
    aggregate-IsSuspended config now p q c a s h
call-IsSuspended p q c (BreakerCall.claims config p' q' w at) s early h =
    elim (Bool-cases (p' == p && q' == q)) [
      | inr n ↦ elsewhere_lem p q c s _ (claim-elsewhere config p q p' q' w at s n) h
      | inl y ↦
          (let k = at_key p' q' p q c s y h in
            subst (IsSuspended p q c)
              (sym (ap (λ z. z.1) (claim-IsSuspended config p' q' c w at s early k))) h)
    ]
call-IsSuspended p q c (BreakerCall.reports config p' q' w event token retry at sequence) s early
      h =
    elim (Bool-cases (p' == p && q' == q)) [
      | inr n ↦
          elsewhere_lem p q c s _
            (finish-elsewhere config p q p' q' w event token retry at sequence s n) h
      | inl y ↦
          (let k = at_key p' q' p q c s y h in
            subst (IsSuspended p q c)
              (sym (
                ap (λ z. z.1)
                  (finish-IsSuspended config p' q' c w event token retry at sequence s k)))
              h)
    ]

calls-IsSuspended :
    (p q c : ℕ) (calls : List BreakerCall) (s : Store)
    → all (λ call. ltb (time_of call) c) calls ≡ true
    → IsSuspended p q c s
    → IsSuspended p q c (run_breakers calls s)
unfolding run_breakers
calls-IsSuspended p q c [] s early h = h
calls-IsSuspended p q c (x ∷ xs) s early h =
    calls-IsSuspended p q c xs (run_breaker x s) (ground arith)
      (call-IsSuspended p q c x s (ground arith) h)

-- A provider that is suspended for a reason until no earlier than `c` is eligible for no worker
-- after any calls at times before `c`: claims and reports leave it suspended, and evidence can only
-- move its deadline further away.
pub suspension_holds :
    (provider reason c : ℕ) (calls : List BreakerCall) (s : Store) (worker_id : Option ℕ) (at : ℕ)
    → all (λ call. ltb (time_of call) c) calls ≡ true
    → IsSuspended provider reason c s
    → (eligible provider reason worker_id at (run_breakers calls s).rows ≡ false)
      × IsSuspended provider reason c (run_breakers calls s)
unfolding eligible
suspension_holds p q c calls s w at early h =
    let k = calls-IsSuspended p q c calls s early h in
    (rw (view_found p q (run_breakers calls s).rows k.row k.found, k.state) refl, k)
