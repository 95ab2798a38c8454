-- ===== src/Chain/Held.antt =====
-- What the guard leaves: a worker that holds a probe of a breaker keeps it while the guard goes on.
use morphogenesis.Base.{
  ℕ, suc, ◌≤◌, ◌<◌, ◌≡◌, ◌≢◌, refl, sym, ap, ◌∙◌, subst, inl, inr, ◌⊎◌, Bool, true, false, not,
  ◌&&◌, ◌||◌, Bool-cases, Option, none, some, List, [], ◌∷◌, ◌++◌, arith, if◌then◌else◌, ◌==◌, all,
  length,
}
use morphogenesis.Equality.{==_same}
use morphogenesis.Breaker.Transition.{
  BreakerState, BreakerEvent, BreakerConfig, transition, beyond, reached,
}
use morphogenesis.Breaker.Table.{
  BreakerView, Store, is_routable, state_eq, find_row, view, eligible, owns_probe,
}
use morphogenesis.Breaker.Probes.{claim_params, claim_probe, wins}
use morphogenesis.Breaker.Elsewhere.{claim-elsewhere}
use morphogenesis.Breaker.Slot.{one_probe_winner}
use morphogenesis.Breaker.Suspension.{key_lem}
use morphogenesis.Chain.Guard.{Progress, on_claim, guard_view, guard_views}

-- A breaker of the provider that does not let its requests through by itself.
abbrev pub needs_probe : ℕ → BreakerView → Bool
needs_probe provider v = v.provider == provider && not (is_routable v.state)

-- The worker may send requests past the breaker.
abbrev May : ℕ → ℕ → ℕ → ℕ → Store → Type 0
May p q w now s = eligible p q (some w) now s.rows ≡ true

beyond-reached : (now : ℕ) (o : Option ℕ) → beyond now o ≡ true → reached now o ≡ false
beyond-reached now none h = cc
beyond-reached now (some x) h = ground arith

-- Where a worker may send, no claim finds a free slot.
no_win :
    (config : BreakerConfig) (q w w' now : ℕ) (r : BreakerView) (state : BreakerState)
    → r.state ≡ state
    → (if is_routable state
        then true
        else if state_eq state BreakerState.suspended
        then false
        else owns_probe r (some w) now)
      ≡ true
    → wins (transition state BreakerEvent.cooldown_expired (claim_params config now q w' r)) ≡ false
unfolding transition owns_probe
no_win config q w w' now r BreakerState.insufficient_evidence e h = refl
no_win config q w w' now r BreakerState.normal e h = refl
no_win config q w w' now r BreakerState.suspended e h = cc
no_win config q w w' now r BreakerState.probing_recovery e h =
    let live : beyond now r.probe_expires_at ≡ true = ground arith in
    rw (beyond-reached now r.probe_expires_at live) refl

claim-refused :
    (config : BreakerConfig) (p q w w' now : ℕ) (s : Store)
    → May p q w now s
    → claim_probe config p q w' now s ≡ (none, s)
unfolding claim_probe eligible
claim-refused config p q w w' now s h =
    rw (no_win config q w w' now (view p q s.rows) (view p q s.rows).state refl h) refl

May-found :
    (p q w now : ℕ) (s s' : Store)
    → find_row p q s'.rows ≡ find_row p q s.rows
    → May p q w now s
    → May p q w now s'
unfolding eligible view
May-found p q w now s s' e h = rw e h

claim-May :
    (config : BreakerConfig) (p q p' q' w now : ℕ) (s : Store)
    → May p q w now s
    → May p q w now (claim_probe config p' q' w now s).1
claim-May config p q p' q' w now s h = elim (Bool-cases (p' == p && q' == q)) [
  | inr n ↦
      May-found p q w now s (claim_probe config p' q' w now s).1
        (claim-elsewhere config p q p' q' w now s n) h
  | inl y ↦
      (let (e, f) = key_lem p' q' p q y in
        let there : May p' q' w now s =
          subst (λ z. May z q' w now s) (sym e) (subst (λ z. May p z w now s) (sym f) h) in
        subst (May p q w now) (sym (ap (λ z. z.1) (claim-refused config p' q' w w now s there))) h)
]

on_claim-store :
    (p : ℕ) (v : BreakerView) (owned : Bool) (o : Option BreakerView) (g : Progress)
    → (on_claim p v owned o g).store ≡ g.store
on_claim-store p v owned (some claimed) g = refl
on_claim-store p v true none g =
    elim (Bool-cases (state_eq v.state BreakerState.probing_recovery)) [
      | inl y ↦ rw y refl
      | inr n ↦ rw n refl
    ]
on_claim-store p v false none g =
    elim (Bool-cases (state_eq v.state BreakerState.probing_recovery)) [
      | inl y ↦ rw y refl
      | inr n ↦ rw n refl
    ]

pub length-snoc : {A : Type 0} (xs : List A) (x : A) → length (xs ++ x ∷ []) ≡ suc (length xs)
length-snoc [] x = refl
length-snoc (y ∷ ys) x = ap (λ n. suc n) (length-snoc ys x)

-- The breaker is blocked, or nothing more is blocked and the breaker is claimed or owned.
on_claim-blocked :
    (p : ℕ) (v : BreakerView) (owned : Bool) (o : Option BreakerView) (g : Progress)
    → (length (on_claim p v owned o g).blocked ≡ suc (length g.blocked))
      ⊎ ((length (on_claim p v owned o g).blocked ≡ length g.blocked)
          × ((owned ≡ true) ⊎ ((c : BreakerView) × (o ≡ some c))))
on_claim-blocked p v owned (some claimed) g = inr (refl, inr (claimed, refl))
on_claim-blocked p v true none g =
    elim (Bool-cases (state_eq v.state BreakerState.probing_recovery)) [
      | inl y ↦ rw y (inr (refl, inl refl))
      | inr n ↦ rw n (inl (length-snoc g.blocked v.reason))
    ]
on_claim-blocked p v false none g =
    elim (Bool-cases (state_eq v.state BreakerState.probing_recovery)) [
      | inl y ↦ rw y (inl (length-snoc g.blocked v.reason))
      | inr n ↦ rw n (inl (length-snoc g.blocked v.reason))
    ]

module _ (config : BreakerConfig) (provider w now : ℕ) where
  abbrev stepped : BreakerView → Progress → Progress
  stepped v g =
      let r = claim_probe config provider v.reason w now g.store in
      on_claim provider v (eligible provider v.reason (some w) now r.1.rows) r.0
        (record g { store = r.1 })

  guard_view-skip :
      (v : BreakerView) (g : Progress)
      → needs_probe provider v ≡ false
      → guard_view config provider w now v g ≡ g
  unfolding guard_view
  guard_view-skip v g n =
      let y : (not (v.provider == provider) || is_routable v.state) ≡ true = ground arith in
      rw y refl

  guard_view-stepped :
      (v : BreakerView) (g : Progress)
      → needs_probe provider v ≡ true
      → guard_view config provider w now v g ≡ stepped v g
  unfolding guard_view
  guard_view-stepped v g y =
      let n : (not (v.provider == provider) || is_routable v.state) ≡ false = ground arith in
      rw n refl

  stepped-store :
      (v : BreakerView) (g : Progress)
      → (stepped v g).store ≡ (claim_probe config provider v.reason w now g.store).1
  stepped-store v g =
      let r = claim_probe config provider v.reason w now g.store in
      on_claim-store provider v (eligible provider v.reason (some w) now r.1.rows) r.0
        (record g { store = r.1 })

  guard_view-May :
      (p q : ℕ) (v : BreakerView) (g : Progress)
      → May p q w now g.store
      → May p q w now (guard_view config provider w now v g).store
  guard_view-May p q v g h = elim (Bool-cases (needs_probe provider v)) [
    | inr n ↦ subst (λ z. May p q w now z.store) (sym (guard_view-skip v g n)) h
    | inl y ↦
        subst (λ z. May p q w now z.store) (sym (guard_view-stepped v g y))
          (subst (May p q w now) (sym (stepped-store v g))
            (claim-May config p q provider v.reason w now g.store h))
  ]

  pub guard_views-May :
      (p q : ℕ) (vs : List BreakerView) (g : Progress)
      → May p q w now g.store
      → May p q w now (guard_views config provider w now vs g).store
  unfolding guard_views
  guard_views-May p q [] g h = h
  guard_views-May p q (v ∷ vs) g h =
      guard_views-May p q vs (guard_view config provider w now v g) (guard_view-May p q v g h)

  -- The worker may send past a breaker that was claimed or is owned.
  granted-May :
      (q : ℕ) (s s' : Store) (o : Option BreakerView)
      → 0 < config.probe_ttl_seconds
      → claim_probe config provider q w now s ≡ (o, s')
      → (eligible provider q (some w) now s'.rows ≡ true) ⊎ ((c : BreakerView) × (o ≡ some c))
      → May provider q w now s'
  granted-May q s s' o ttl h (inl owned) = owned
  granted-May q s s' o ttl h (inr (c, e)) =
      let (_, _, sends, _) =
        one_probe_winner config provider q w now w now s s' c (h ∙ ap (λ z. (z, s')) e)
          (omega arith) in
      sends ∙ ==_same w

  -- One step: the blocked ones never get fewer, and where none is added the worker may send.
  abbrev Step : BreakerView → Progress → Progress → Type 0
  Step v g g' =
      (length g'.blocked ≡ suc (length g.blocked))
      ⊎ ((length g'.blocked ≡ length g.blocked)
          × ((needs_probe provider v ≡ false) ⊎ May provider v.reason w now g'.store))

  guard_view-Step :
      (v : BreakerView) (g : Progress)
      → 0 < config.probe_ttl_seconds
      → Step v g (guard_view config provider w now v g)
  guard_view-Step v g ttl = elim (Bool-cases (needs_probe provider v)) [
    | inr n ↦ subst (Step v g) (sym (guard_view-skip v g n)) (inr (refl, inl n))
    | inl y ↦ subst (Step v g) (sym (guard_view-stepped v g y)) (made y)
  ]
    where
      made : needs_probe provider v ≡ true → Step v g (stepped v g)
      made y =
          let r = claim_probe config provider v.reason w now g.store in
          elim (on_claim-blocked provider v (eligible provider v.reason (some w) now r.1.rows) r.0
            (record g { store = r.1 })) [
              | inl more ↦ inl more
              | inr (same_, how) ↦ inr (
                same_,
                inr (
                    subst (May provider v.reason w now) (sym (stepped-store v g))
                      (granted-May v.reason g.store r.1 r.0 ttl refl how)),
              )
            ]

  guard_views-blocked :
      (vs : List BreakerView) (g : Progress)
      → 0 < config.probe_ttl_seconds
      → length g.blocked ≤ length (guard_views config provider w now vs g).blocked
  unfolding guard_views
  guard_views-blocked [] g ttl = omega arith
  guard_views-blocked (v ∷ vs) g ttl =
      let rest = guard_views-blocked vs (guard_view config provider w now v g) ttl in
      elim (guard_view-Step v g ttl) [ inl more ↦ omega arith | inr (same_, _) ↦ omega arith ]

  -- Where nothing is blocked, the worker may in the end send past each breaker.
  pub unblocked-May :
      (vs : List BreakerView) (g : Progress)
      → 0 < config.probe_ttl_seconds
      → length (guard_views config provider w now vs g).blocked ≡ length g.blocked
      → (s : Store) → (guard_views config provider w now vs g).store ≡ s
      → all (λ v. not (needs_probe provider v) || eligible provider v.reason (some w) now s.rows) vs
        ≡ true
  unfolding guard_views
  unblocked-May [] g ttl h s e = refl
  unblocked-May (v ∷ vs) g ttl h s e =
      let g' = guard_view config provider w now v g in
      let later = guard_views-blocked vs g' ttl in
      elim (guard_view-Step v g ttl) [
        | inl more ↦ absurd (too_many more later h)
        | inr (same_, how) ↦ rw (one_lem how, unblocked-May vs g' ttl (h ∙ sym same_) s e) refl
      ]
    where
      too_many :
          length (guard_view config provider w now v g).blocked ≡ suc (length g.blocked)
          → length (guard_view config provider w now v g).blocked
            ≤ length
                (guard_views config provider w now vs
                  (guard_view config provider w now v g)).blocked
          → length
              (guard_views config provider w now vs (guard_view config provider w now v g)).blocked
            ≢ length g.blocked
      too_many more later h = omega arith

      one_lem :
          (needs_probe provider v ≡ false)
            ⊎ May provider v.reason w now (guard_view config provider w now v g).store
          → (not (needs_probe provider v) || eligible provider v.reason (some w) now s.rows) ≡ true
      one_lem (inl n) = rw n refl
      one_lem (inr m) =
          rw
            (subst (May provider v.reason w now) e
              (guard_views-May provider v.reason vs (guard_view config provider w now v g) m))
            (or_true (not (needs_probe provider v)))
        where
          or_true : (b : Bool) → (b || true) ≡ true
          or_true true = refl
          or_true false = refl
