-- ===== src/Breaker/Elsewhere.antt =====
-- A write at one key leaves the row of every other key of the breakers' table as it is.
use morphogenesis.Base.{
  ℕ, ◌+◌, ◌≡◌, refl, ◌∙◌, inl, inr, false, not, ◌&&◌, ◌||◌, Bool-cases, Option, none, some, List,
  [], ◌∷◌, ◌==◌, length,
}
use morphogenesis.Faults.Windows.{FaultAggregate}
use morphogenesis.Breaker.Transition.{
  BreakerState, BreakerEvent, BreakerAction, BreakerConfig, TransitionParams, transition,
}
use morphogenesis.Breaker.Table.{
  BreakerView, Store, Values, find_row, fresh_view, view, upsert, write_values, next_values,
}
use morphogenesis.Breaker.Probes.{
  claim_guard, take_slot, touched, claim_write, claim_probe, claim_params, wins, finish_params,
  finish_write, finish_probe, finished, sequence_of,
}
use morphogenesis.Breaker.Observe.{aggregate_params, decide_write, decide_on}
use morphogenesis.Breaker.Rows.{KeepsKey, find-update_other, find-append}

write_lem :
    (config : BreakerConfig) (p q p' q' w at : ℕ) (current : BreakerView) (o : Option BreakerView)
    (s : Store)
    → (p' == p && q' == q) ≡ false
    → find_row p q (claim_write config p' q' w at current o s).1.rows ≡ find_row p q s.rows
unfolding claim_write
write_lem config p q p' q' w at current none s ne = refl
write_lem config p q p' q' w at current (some r) s ne =
    find-update_other p' q' p q (take_slot w (at + config.probe_ttl_seconds) at) s.rows
      (λ x. (refl, refl)) ne

pub claim-elsewhere :
    (config : BreakerConfig) (p q p' q' w at : ℕ) (s : Store)
    → (p' == p && q' == q) ≡ false
    → find_row p q (claim_probe config p' q' w at s).1.rows ≡ find_row p q s.rows
unfolding claim_probe
claim-elsewhere config p q p' q' w at s ne =
    let current = view p' q' s.rows in
    elim (Bool-cases (
      wins (
        transition current.state BreakerEvent.cooldown_expired
          (claim_params config at q' w current)))) [
            | inl y ↦ rw y (
                write_lem config p q p' q' w at current
                  (touched p' q' (claim_guard current.probe_token at) s.rows) s ne)
            | inr n ↦ rw n refl
          ]

pub finished-keeps :
    (state : BreakerState) (p : TransitionParams) (n : Option ℕ) → KeepsKey (finished state p n)
finished-keeps BreakerState.insufficient_evidence p n r = (refl, refl)
finished-keeps BreakerState.normal p n r = (refl, refl)
finished-keeps BreakerState.suspended p n r = (refl, refl)
finished-keeps BreakerState.probing_recovery p n r = (refl, refl)

finish_lem :
    (event : BreakerEvent) (state : BreakerState) (t : TransitionParams) (p q p' q' w token : ℕ)
    (sequence : Option ℕ) (current : BreakerView) (o : Option BreakerView) (s : Store)
    → (p' == p && q' == q) ≡ false
    → find_row p q (finish_write event state t p' q' w token sequence current o s).1.rows
      ≡ find_row p q s.rows
unfolding finish_write
finish_lem event state t p q p' q' w token sequence current none s ne = refl
finish_lem event state t p q p' q' w token sequence current (some r) s ne =
    find-update_other p' q' p q (finished state t (sequence_of state sequence)) s.rows
      (finished-keeps state t (sequence_of state sequence)) ne

pub finish-elsewhere :
    (config : BreakerConfig) (p q p' q' w : ℕ) (event : BreakerEvent) (token : ℕ) (retry : Option ℕ)
    (at : ℕ) (sequence : Option ℕ) (s : Store)
    → (p' == p && q' == q) ≡ false
    → find_row p q (finish_probe config p' q' w event token retry at sequence s).1.rows
      ≡ find_row p q s.rows
unfolding finish_probe
finish-elsewhere config p q p' q' w event token retry at sequence s ne =
    let current = view p' q' s.rows in
    let verdict = transition current.state event (finish_params config at q' w retry current) in
    elim (Bool-cases ((length verdict.1 == 0) || not (current.probe_token == token))) [
      | inl y ↦ rw y refl
      | inr n ↦ rw n (finish_lem event verdict.0 _ p q p' q' w token sequence current _ s ne)
    ]

upsert-elsewhere :
    (p q p' q' : ℕ) (v : Values) (now : ℕ) (rows : List BreakerView)
    → (p' == p && q' == q) ≡ false
    → find_row p q (upsert p' q' v now rows) ≡ find_row p q rows
unfolding upsert
upsert-elsewhere p q p' q' v now rows ne = go (find_row p' q' rows) refl
  where
    go :
        (o : Option BreakerView)
        → find_row p' q' rows ≡ o
        → find_row p q (upsert p' q' v now rows) ≡ find_row p q rows
    go none e = rw e (find-append p q (write_values v now (fresh_view p' q')) rows e ∙ rw ne refl)
    go (some r) e =
        rw e (find-update_other p' q' p q (write_values v now) rows (λ x. (refl, refl)) ne)

decide-elsewhere :
    (p q p' q' : ℕ) (current : BreakerView) (a : FaultAggregate) (t : TransitionParams)
    (verdict : BreakerState × List BreakerAction) (s : Store)
    → (p' == p && q' == q) ≡ false
    → find_row p q (decide_write current a t p' q' verdict s).1.rows ≡ find_row p q s.rows
unfolding decide_write
decide-elsewhere p q p' q' current a t (state, []) s ne = refl
decide-elsewhere p q p' q' current a t (state, (x ∷ xs)) s ne =
    upsert-elsewhere p q p' q' (next_values current state (x ∷ xs) t) t.now s.rows ne

pub on-elsewhere :
    (config : BreakerConfig) (now p q p' q' : ℕ) (current : BreakerView) (o : Option FaultAggregate)
    (s : Store)
    → (p' == p && q' == q) ≡ false
    → find_row p q (decide_on config now current p' q' o s).1.rows ≡ find_row p q s.rows
unfolding decide_on
on-elsewhere config now p q p' q' current none s ne = refl
on-elsewhere config now p q p' q' current (some a) s ne =
    decide-elsewhere p q p' q' current a (aggregate_params config now q' a current) _ s ne
