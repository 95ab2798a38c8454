-- ===== src/Breaker/Slot.antt =====
-- The half-open slot: one winner at a time, and a token that only the winner has.
use morphogenesis.Base.{
  ℕ, ◌+◌, ◌<◌, ◌≡◌, refl, sym, ap, ◌∙◌, inl, inr, Bool, false, Bool-cases, if_true, if_false,
  Option, none, some, List, arith, leb, ◌==◌, some_inj, none≢some, update_rows,
}
use morphogenesis.Breaker.Transition.{BreakerState, BreakerEvent, BreakerConfig, transition}
use morphogenesis.Breaker.Table.{BreakerView, Store, find_row, view, eligible, owns_probe, with_key}
use morphogenesis.Breaker.Probes.{
  claim_guard, take_slot, touched, claim_write, claim_probe, claim_params, wins,
}
use morphogenesis.Breaker.Rows.{find-update_self}

-- What a claim that wins has done: the row that it found, with its token, and the row that it left.
pub record Won (p q worker_id at expires_at : ℕ) (s s' : Store) (v : BreakerView) : Type 0 where
  pub before : BreakerView
  pub found : find_row p q s.rows ≡ some before
  pub left : find_row p q s'.rows ≡ some (take_slot worker_id expires_at at before)
  pub returns : v ≡ take_slot worker_id expires_at at before

pub view_found :
    (p q : ℕ) (rows : List BreakerView) (r : BreakerView)
    → find_row p q rows ≡ some r
    → view p q rows ≡ r
unfolding view
view_found p q rows r h = rw h refl

pub touched_found :
    (p q : ℕ) (guard : BreakerView → Bool) (rows : List BreakerView) (r : BreakerView)
    → touched p q guard rows ≡ some r
    → find_row p q rows ≡ some r
touched_found p q guard rows r h = go (find_row p q rows) refl h
  where
    go :
        (o : Option BreakerView)
        → find_row p q rows ≡ o
        → touched p q guard rows ≡ some r
        → find_row p q rows ≡ some r
    go none e h = ground (arith, e)
    go (some x) e h = ground (arith, e)

write-Won :
    (config : BreakerConfig) (p q worker_id at : ℕ) (current : BreakerView) (o : Option BreakerView)
    (s s' : Store) (v : BreakerView)
    → ((r : BreakerView) → o ≡ some r → find_row p q s.rows ≡ some r)
    → claim_write config p q worker_id at current o s ≡ (some v, s')
    → Won p q worker_id at (at + config.probe_ttl_seconds) s s' v
unfolding claim_write
write-Won config p q worker_id at current none s s' v found h = cc
write-Won config p q worker_id at current (some r) s s' v found h =
    let slot = take_slot worker_id (at + config.probe_ttl_seconds) at in
    let rows = update_rows (with_key p q) slot s.rows in
    let left : find_row p q rows ≡ some (slot r) =
      find-update_self p q slot s.rows r (λ x. (refl, refl)) (found r refl) in
    let kept : s'.rows ≡ rows = sym (ap (λ z. z.1.rows) h) in
    record {
      before = r;
      found = found r refl;
      left = ap (find_row p q) kept ∙ left;
      returns = sym (some_inj (ap (λ z. z.0) h)) ∙ view_found p q rows (slot r) left;
    }

pub claim_probe-Won :
    (config : BreakerConfig) (p q worker_id at : ℕ) (s s' : Store) (v : BreakerView)
    → claim_probe config p q worker_id at s ≡ (some v, s')
    → Won p q worker_id at (at + config.probe_ttl_seconds) s s' v
unfolding claim_probe
claim_probe-Won config p q worker_id at s s' v h =
    let current = view p q s.rows in
    elim (Bool-cases (
      wins (
        transition current.state BreakerEvent.cooldown_expired
          (claim_params config at q worker_id current)))) [
            | inl y ↦
                write-Won config p q worker_id at current
                  (touched p q (claim_guard current.probe_token at) s.rows) s s' v
                  (λ r e. touched_found p q (claim_guard current.probe_token at) s.rows r e)
                  (if_true _ _ _ _ h y)
            | inr n ↦ absurd (none≢some (ap (λ z. z.0) (if_false _ _ _ _ h n)))
          ]

-- While a slot is live, no claim takes it.
live_slot_refuses :
    (config : BreakerConfig) (p q worker_id at expires_at : ℕ) (s : Store) (r : BreakerView)
    → find_row p q s.rows ≡ some r
    → r.state ≡ BreakerState.probing_recovery
    → r.probe_expires_at ≡ some expires_at
    → at < expires_at
    → claim_probe config p q worker_id at s ≡ (none, s)
unfolding claim_probe transition
live_slot_refuses config p q worker_id at expires_at s r found state expiry live =
    let late : leb expires_at at ≡ false = ground arith in
    rw (view_found p q s.rows r found, state, expiry, late) refl

-- A probe slot has one winner at a time: once a claim wins, a claim by any worker at a time before
-- the winner's deadline returns nothing and changes nothing; the winner's token is one more than
-- the last; and up to the deadline the provider is eligible for a worker exactly if it is the
-- winner, and for no anonymous caller.
pub one_probe_winner :
    (config : BreakerConfig) (provider reason worker_id at other later : ℕ) (s s' : Store)
    (v : BreakerView)
    → claim_probe config provider reason worker_id at s ≡ (some v, s')
    → later < at + config.probe_ttl_seconds
    → (v.probe_token ≡ (view provider reason s.rows).probe_token + 1)
      × (claim_probe config provider reason other later s' ≡ (none, s'))
      × (eligible provider reason (some other) later s'.rows ≡ (other == worker_id))
      × (eligible provider reason none later s'.rows ≡ false)
unfolding eligible owns_probe
one_probe_winner config p q w at other later s s' v h before =
    let won = claim_probe-Won config p q w at s s' v h in
    let until = at + config.probe_ttl_seconds in
    let seen = view_found p q s'.rows (take_slot w until at won.before) won.left in
    (
      ap (λ z. z.probe_token) won.returns
          ∙ ap (λ z. z.probe_token + 1) (sym (view_found p q s.rows won.before won.found)),
      live_slot_refuses config p q other later until s' _ won.left refl refl before,
      rw seen (ground arith),
      rw seen refl,
    )
