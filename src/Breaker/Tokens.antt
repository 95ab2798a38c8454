-- ===== src/Breaker/Tokens.antt =====
-- The tokens of the half-open slot only grow, so a token that was superseded is never good again.
use morphogenesis.Base.{
  ℕ, ◌+◌, ◌≤◌, ◌<◌, ◌≡◌, refl, sym, ap, ◌∙◌, subst, inl, inr, Bool, true, false, not, ◌&&◌, ◌||◌,
  Bool-cases, Option, none, some, List, [], ◌∷◌, arith, ◌==◌, length, update_rows,
}
use morphogenesis.Faults.Windows.{FaultAggregate}
use morphogenesis.Breaker.Transition.{
  BreakerState, BreakerEvent, BreakerAction, BreakerConfig, TransitionParams, transition,
}
use morphogenesis.Breaker.Table.{
  BreakerView, Store, Values, find_row, view, with_key, upsert, write_values, next_values,
}
use morphogenesis.Breaker.Probes.{
  claim_guard, take_slot, touched, claim_write, claim_probe, claim_params, wins, finish_guard,
  finish_params, finish_write, finish_probe, finished, sequence_of,
}
use morphogenesis.Breaker.Observe.{
  fresh_evidence, aggregate_params, decide_write, decide_on, apply_aggregate,
}
use morphogenesis.Breaker.Rows.{KeepsKey, find-update_self}
use morphogenesis.Breaker.Elsewhere.{
  claim-elsewhere, finish-elsewhere, finished-keeps, on-elsewhere,
}
use morphogenesis.Breaker.Slot.{view_found, touched_found, claim_probe-Won}
use morphogenesis.Breaker.Suspension.{BreakerCall, run_breaker, run_breakers, key_lem}

abbrev token_of : ℕ → ℕ → Store → ℕ
token_of p q s = (view p q s.rows).probe_token

-- At a key, the row's token does not shrink.
abbrev Grows : ℕ → ℕ → List BreakerView → List BreakerView → Type 0
Grows p q rows rows' = (view p q rows).probe_token ≤ (view p q rows').probe_token

update-Grows :
    (p q : ℕ) (change : BreakerView → BreakerView) (rows : List BreakerView) (r : BreakerView)
    → KeepsKey change
    → find_row p q rows ≡ some r
    → r.probe_token ≤ (change r).probe_token
    → Grows p q rows (update_rows (with_key p q) change rows)
update-Grows p q change rows r keeps found more =
    rw
      (
        view_found p q rows r found,
        view_found p q (update_rows (with_key p q) change rows) (change r)
            (find-update_self p q change rows r keeps found),
      )
      more

write-Grows :
    (config : BreakerConfig) (p q w at : ℕ) (current : BreakerView) (o : Option BreakerView)
    (s : Store)
    → ((r : BreakerView) → o ≡ some r → find_row p q s.rows ≡ some r)
    → Grows p q s.rows (claim_write config p q w at current o s).1.rows
unfolding claim_write
write-Grows config p q w at current none s found = omega arith
write-Grows config p q w at current (some r) s found =
    update-Grows p q (take_slot w (at + config.probe_ttl_seconds) at) s.rows r (λ x. (refl, refl))
      (found r refl) (omega arith)

claim-Grows :
    (config : BreakerConfig) (p q w at : ℕ) (s : Store)
    → Grows p q s.rows (claim_probe config p q w at s).1.rows
unfolding claim_probe
claim-Grows config p q w at s =
    let current = view p q s.rows in
    elim (Bool-cases (
      wins (
        transition current.state BreakerEvent.cooldown_expired
          (claim_params config at q w current)))) [
            | inl y ↦ rw y (
                write-Grows config p q w at current
                  (touched p q (claim_guard current.probe_token at) s.rows) s
                  (λ r e. touched_found p q (claim_guard current.probe_token at) s.rows r e))
            | inr n ↦ rw n (omega arith)
          ]

finished-token :
    (state : BreakerState) (t : TransitionParams) (n : Option ℕ) (r : BreakerView)
    → (finished state t n r).probe_token ≡ r.probe_token
finished-token BreakerState.insufficient_evidence t n r = refl
finished-token BreakerState.normal t n r = refl
finished-token BreakerState.suspended t n r = refl
finished-token BreakerState.probing_recovery t n r = refl

finish_write-Grows :
    (event : BreakerEvent) (state : BreakerState) (t : TransitionParams) (p q w token : ℕ)
    (sequence : Option ℕ) (current : BreakerView) (o : Option BreakerView) (s : Store)
    → ((r : BreakerView) → o ≡ some r → find_row p q s.rows ≡ some r)
    → Grows p q s.rows (finish_write event state t p q w token sequence current o s).1.rows
unfolding finish_write
finish_write-Grows event state t p q w token sequence current none s found = omega arith
finish_write-Grows event state t p q w token sequence current (some r) s found =
    let n = sequence_of state sequence in
    let same_token = finished-token state t n r in
    update-Grows p q (finished state t n) s.rows r (finished-keeps state t n) (found r refl)
      (omega arith)

finish-Grows :
    (config : BreakerConfig) (p q w : ℕ) (event : BreakerEvent) (token : ℕ) (retry : Option ℕ)
    (at : ℕ) (sequence : Option ℕ) (s : Store)
    → Grows p q s.rows (finish_probe config p q w event token retry at sequence s).1.rows
unfolding finish_probe
finish-Grows config p q w event token retry at sequence s =
    let current = view p q s.rows in
    let verdict = transition current.state event (finish_params config at q w retry current) in
    elim (Bool-cases ((length verdict.1 == 0) || not (current.probe_token == token))) [
      | inl y ↦ rw y (omega arith)
      | inr n ↦ rw n (
          finish_write-Grows event verdict.0 (finish_params config at q w retry current) p q w token
            sequence current (touched p q (finish_guard w token at) s.rows) s
            (λ r e. touched_found p q (finish_guard w token at) s.rows r e))
    ]

absent-token :
    (p q : ℕ) (rows : List BreakerView) → find_row p q rows ≡ none → (view p q rows).probe_token ≡ 0
unfolding view
absent-token p q rows e = rw e refl

upsert-Grows :
    (p q : ℕ) (v : Values) (now : ℕ) (rows : List BreakerView)
    → Grows p q rows (upsert p q v now rows)
unfolding upsert
upsert-Grows p q v now rows = go (find_row p q rows) refl
  where
    go : (o : Option BreakerView) → find_row p q rows ≡ o → Grows p q rows (upsert p q v now rows)
    go none e = let zeroes = absent-token p q rows e in omega arith
    go (some r) e =
        rw e (update-Grows p q (write_values v now) rows r (λ x. (refl, refl)) e (omega arith))

decide-Grows :
    (p q : ℕ) (current : BreakerView) (a : FaultAggregate) (t : TransitionParams)
    (verdict : BreakerState × List BreakerAction) (s : Store)
    → Grows p q s.rows (decide_write current a t p q verdict s).1.rows
unfolding decide_write
decide-Grows p q current a t (state, []) s = omega arith
decide-Grows p q current a t (state, (x ∷ xs)) s =
    upsert-Grows p q (next_values current state (x ∷ xs) t) t.now s.rows

on-Grows :
    (config : BreakerConfig) (now p q : ℕ) (current : BreakerView) (o : Option FaultAggregate)
    (s : Store)
    → Grows p q s.rows (decide_on config now current p q o s).1.rows
unfolding decide_on
on-Grows config now p q current none s = omega arith
on-Grows config now p q current (some a) s =
    decide-Grows p q current a (aggregate_params config now q a current) _ s

-- At its own key by itself, and elsewhere the row stays.
at_any_key :
    (p q p' q' : ℕ) (rows rows' : List BreakerView)
    → Grows p' q' rows rows'
    → ((p' == p && q' == q) ≡ false → find_row p q rows' ≡ find_row p q rows)
    → Grows p q rows rows'
unfolding view
at_any_key p q p' q' rows rows' here elsewhere = elim (Bool-cases (p' == p && q' == q)) [
  | inr n ↦ rw (elsewhere n) (omega arith)
  | inl y ↦
      (let (e, f) = key_lem p' q' p q y in
        subst (λ z. Grows p z rows rows') f (subst (λ z. Grows z q' rows rows') e here))
]

call-Grows : (p q : ℕ) (call : BreakerCall) (s : Store) → Grows p q s.rows (run_breaker call s).rows
unfolding run_breaker apply_aggregate
call-Grows p q (BreakerCall.aggregates config now a) s =
    let current = view a.provider a.normalized_reason s.rows in
    at_any_key p q a.provider a.normalized_reason s.rows _
      (on-Grows config now a.provider a.normalized_reason current (fresh_evidence current a) s)
      (on-elsewhere config now p q a.provider a.normalized_reason current (fresh_evidence current a)
        s)
call-Grows p q (BreakerCall.claims config p' q' w at) s =
    at_any_key p q p' q' s.rows _ (claim-Grows config p' q' w at s)
      (claim-elsewhere config p q p' q' w at s)
call-Grows p q (BreakerCall.reports config p' q' w event token retry at sequence) s =
    at_any_key p q p' q' s.rows _ (finish-Grows config p' q' w event token retry at sequence s)
      (finish-elsewhere config p q p' q' w event token retry at sequence s)

calls-Grows :
    (p q : ℕ) (calls : List BreakerCall) (s : Store) → Grows p q s.rows (run_breakers calls s).rows
unfolding run_breakers
calls-Grows p q [] s = omega arith
calls-Grows p q (c ∷ cs) s =
    let first_call = call-Grows p q c s in
    let others = calls-Grows p q cs (run_breaker c s) in omega arith

-- A claim that wins leaves the token that it returns, one more than before.
won-token :
    (config : BreakerConfig) (p q w at : ℕ) (s s' : Store) (v : BreakerView)
    → claim_probe config p q w at s ≡ (some v, s')
    → (v.probe_token ≡ token_of p q s + 1) × (token_of p q s' ≡ v.probe_token)
won-token config p q w at s s' v h =
    let won = claim_probe-Won config p q w at s s' v h in
    let slot = take_slot w (at + config.probe_ttl_seconds) at won.before in
    let token = ap (λ z. z.probe_token) won.returns in
    (
      token ∙ ap (λ z. z.probe_token + 1) (sym (view_found p q s.rows won.before won.found)),
      ap (λ z. z.probe_token) (view_found p q s'.rows slot won.left) ∙ sym token,
    )

other-token-refused :
    (config : BreakerConfig) (p q w : ℕ) (event : BreakerEvent) (token : ℕ) (retry : Option ℕ)
    (at : ℕ) (sequence : Option ℕ) (s : Store)
    → token < token_of p q s
    → finish_probe config p q w event token retry at sequence s ≡ (false, s)
unfolding finish_probe
other-token-refused config p q w event token retry at sequence s less =
    rw (differs (token_of p q s) token less, or_true) refl
  where
    differs : (n token : ℕ) → token < n → not (n == token) ≡ true
    differs n token h = ground arith

    or_true : (b : Bool) → (b || true) ≡ true
    or_true true = refl
    or_true false = refl

-- Once a claim wins, and after any further calls another claim for the same provider and reason
-- wins, then after any calls that follow, a report with the token of the first claim, by whichever
-- worker, of either outcome and at any time, is refused and changes nothing.
pub superseded_probe_refused :
    (config : BreakerConfig) (provider reason worker_id at : ℕ) (s s' : Store) (v : BreakerView)
    (between : List BreakerCall) (worker_id' at' : ℕ) (s'' : Store) (v' : BreakerView)
    (after : List BreakerCall) (reporter : ℕ) (event : BreakerEvent) (retry_after_until : Option ℕ)
    (reported_at : ℕ) (sequence : Option ℕ)
    → claim_probe config provider reason worker_id at s ≡ (some v, s')
    → claim_probe config provider reason worker_id' at' (run_breakers between s') ≡ (some v', s'')
    → finish_probe config provider reason reporter event v.probe_token retry_after_until reported_at
        sequence
        (run_breakers after s'')
      ≡ (false, run_breakers after s'')
superseded_probe_refused config p q w at s s' v between w' at' s'' v' after reporter event retry
      reported_at sequence h h' =
    let (_, left) = won-token config p q w at s s' v h in
    let (next, left') = won-token config p q w' at' (run_breakers between s') s'' v' h' in
    let grown = calls-Grows p q between s' in
    let grown' = calls-Grows p q after s'' in
    other-token-refused config p q reporter event v.probe_token retry reported_at sequence
      (run_breakers after s'') (omega arith)
