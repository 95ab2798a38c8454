-- ===== src/Breaker/Moves.antt =====
-- The state diagram of a breaker, stated apart from `transition`.
use morphogenesis.Base.{
  ℕ, ◌≤◌, ◌<◌, ◌≡◌, refl, ◌⊎◌, inl, inr, true, false, Bool-cases, Option, none, some, List, [], ◌∷◌,
  arith, leb, is_some, same, ◌&&◌,
}
use morphogenesis.Breaker.Transition.{
  BreakerState, BreakerEvent, BreakerAction, TransitionParams, suspension_required, live_probe,
  transition, extends, reached, beyond,
}

-- A time that has been reached.
pub record IsReached (now : ℕ) (deadline : Option ℕ) : Type 0 where
  pub at : ℕ
  pub known : deadline ≡ some at
  pub passed : at ≤ now

-- The worker is the one that holds the probe slot, and the slot has not expired.
pub record IsOwner (p : TransitionParams) : Type 0 where
  pub worker : ℕ
  pub expiry : ℕ
  pub asks : p.worker_id ≡ some worker
  pub holds : p.probe_owner ≡ some worker
  pub known : p.probe_expires_at ≡ some expiry
  pub live : p.now < expiry

-- The edges, each with what must hold to take it.
pub data Edge (p : TransitionParams) : BreakerState → BreakerEvent → BreakerState → Type 0 where
  trips :
      {from : BreakerState}
      → (from ≡ BreakerState.insufficient_evidence) ⊎ (from ≡ BreakerState.normal)
      → suspension_required p ≡ true
      → Edge p from BreakerEvent.aggregate BreakerState.suspended
  warms :
      suspension_required p ≡ false
      → p.config.min_samples ≤ p.sample_count
      → Edge p BreakerState.insufficient_evidence BreakerEvent.aggregate BreakerState.normal
  prolongs :
      (until : ℕ)
      → p.retry_after_until ≡ some until
      → ((old : ℕ) → p.cooldown_until ≡ some old → old < until)
      → Edge p BreakerState.suspended BreakerEvent.aggregate BreakerState.suspended
  half_opens :
      IsReached p.now p.cooldown_until
      → Edge p BreakerState.suspended BreakerEvent.cooldown_expired BreakerState.probing_recovery
  reclaims :
      IsReached p.now p.probe_expires_at
      → Edge p BreakerState.probing_recovery BreakerEvent.cooldown_expired
          BreakerState.probing_recovery
  recovers :
      IsOwner p
      → Edge p BreakerState.probing_recovery BreakerEvent.probe_success BreakerState.normal
  relapses :
      IsOwner p
      → Edge p BreakerState.probing_recovery BreakerEvent.probe_failure BreakerState.suspended

pub reached-IsReached : (now : ℕ) (d : Option ℕ) → reached now d ≡ true → IsReached now d
reached-IsReached now none h = cc
reached-IsReached now (some at) h = record { at = at; known = refl; passed = ground arith }

owner_of :
    (now : ℕ) (w o e : Option ℕ)
    → (is_some w && (same w o && beyond now e)) ≡ true
    → (a : ℕ) × (b : ℕ) × (w ≡ some a) × (o ≡ some a) × (e ≡ some b) × (now < b)
owner_of now none o e h = cc
owner_of now (some a) none e h = cc
owner_of now (some a) (some c) none h = ground arith
owner_of now (some a) (some c) (some b) h = (a, b, refl, ground arith, refl, ground arith)

live_probe-IsOwner : (p : TransitionParams) → live_probe p ≡ true → IsOwner p
unfolding live_probe
live_probe-IsOwner p h =
    let (a, b, x, y, z, l) = owner_of p.now p.worker_id p.probe_owner p.probe_expires_at h in
    record { worker = a; expiry = b; asks = x; holds = y; known = z; live = l }

pub extends-later :
    (t o : Option ℕ)
    → extends t o ≡ true
    → (until : ℕ) × (t ≡ some until) × ((old : ℕ) → o ≡ some old → old < until)
extends-later none o h = cc
extends-later (some t) none h = (t, refl, λ old e. cc)
extends-later (some t) (some o) h = (t, refl, λ old e. ground arith)

-- Every transition either changes nothing and acts on nothing, or takes an edge of the diagram and
-- persists the state it leads to: evidence never resumes a suspended provider, a suspended one is
-- probed only at its deadline, and only the live owner of the probe slot resumes or suspends it.
pub transition-Edge :
    (state : BreakerState) (event : BreakerEvent) (p : TransitionParams)
    → (transition state event p ≡ (state, []))
      ⊎ ((next : BreakerState) × (rest : List BreakerAction) × (transition state event p
            ≡ (next, BreakerAction.persist_state ∷ rest))
          × Edge p state event next)
unfolding transition
transition-Edge BreakerState.suspended BreakerEvent.aggregate p =
    elim (Bool-cases (extends p.retry_after_until p.cooldown_until)) [
      | inl y ↦
          (let (until, known, later) = extends-later p.retry_after_until p.cooldown_until y in
            rw y (inr (_, _, refl, Edge.prolongs until known later)))
      | inr n ↦ rw n (inl refl)
    ]
transition-Edge BreakerState.probing_recovery BreakerEvent.aggregate p = inl refl
transition-Edge BreakerState.insufficient_evidence BreakerEvent.aggregate p =
    elim (Bool-cases (suspension_required p)) [
      | inl y ↦ rw y (inr (_, _, refl, Edge.trips (inl refl) y))
      | inr n ↦ elim (Bool-cases (leb p.config.min_samples p.sample_count)) [
        | inl m ↦ rw (n, m) (inr (_, _, refl, Edge.warms n (ground arith)))
        | inr m ↦ rw (n, m) (inl refl)
      ]
    ]
transition-Edge BreakerState.normal BreakerEvent.aggregate p =
    elim (Bool-cases (suspension_required p)) [
      | inl y ↦ rw y (inr (_, _, refl, Edge.trips (inr refl) y))
      | inr n ↦ rw n (inl refl)
    ]
transition-Edge BreakerState.suspended BreakerEvent.cooldown_expired p =
    elim (Bool-cases (reached p.now p.cooldown_until)) [
      | inl y ↦
          rw y (inr (_, _, refl, Edge.half_opens (reached-IsReached p.now p.cooldown_until y)))
      | inr n ↦ rw n (inl refl)
    ]
transition-Edge BreakerState.probing_recovery BreakerEvent.cooldown_expired p =
    elim (Bool-cases (reached p.now p.probe_expires_at)) [
      | inl y ↦
          rw y (inr (_, _, refl, Edge.reclaims (reached-IsReached p.now p.probe_expires_at y)))
      | inr n ↦ rw n (inl refl)
    ]
transition-Edge BreakerState.probing_recovery BreakerEvent.probe_success p =
    elim (Bool-cases (live_probe p)) [
      | inl y ↦ rw y (inr (_, _, refl, Edge.recovers (live_probe-IsOwner p y)))
      | inr n ↦ rw n (inl refl)
    ]
transition-Edge BreakerState.probing_recovery BreakerEvent.probe_failure p =
    elim (Bool-cases (live_probe p)) [
      | inl y ↦ rw y (inr (_, _, refl, Edge.relapses (live_probe-IsOwner p y)))
      | inr n ↦ rw n (inl refl)
    ]
transition-Edge BreakerState.insufficient_evidence BreakerEvent.cooldown_expired p = inl refl
transition-Edge BreakerState.insufficient_evidence BreakerEvent.probe_success p = inl refl
transition-Edge BreakerState.insufficient_evidence BreakerEvent.probe_failure p = inl refl
transition-Edge BreakerState.normal BreakerEvent.cooldown_expired p = inl refl
transition-Edge BreakerState.normal BreakerEvent.probe_success p = inl refl
transition-Edge BreakerState.normal BreakerEvent.probe_failure p = inl refl
transition-Edge BreakerState.suspended BreakerEvent.probe_success p = inl refl
transition-Edge BreakerState.suspended BreakerEvent.probe_failure p = inl refl
