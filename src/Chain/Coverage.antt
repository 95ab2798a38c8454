-- ===== src/Chain/Coverage.antt =====
-- Every known breaker of a candidate is accounted for by the guard (swarm/failure_chain.py).
use morphogenesis.Base.{
  ℕ, suc, ◌+◌, ◌<◌, ◌≡◌, refl, sym, ap, ◌∙◌, inl, inr, Bool, true, false, not, ◌||◌, Bool-cases,
  Option, none, some, List, [], ◌∷◌, arith, if◌then◌else◌, ◌==◌, ==→≡, count, all, length,
}
use morphogenesis.Breaker.Transition.{BreakerState, BreakerConfig}
use morphogenesis.Breaker.Table.{BreakerView, Store, is_routable, state_eq, eligible}
use morphogenesis.Chain.Guard.{
  Progress, GuardResult, claim_of, block, on_claim, guard_view, guard_views, guard_provider,
}
use morphogenesis.Chain.Held.{needs_probe, length-snoc, unblocked-May}

abbrev size : Progress → ℕ
size g = length g.claims + length g.blocked

claim-size :
    (provider reason : ℕ) (v : BreakerView) (g : Progress)
    → size (claim_of provider reason v g) ≡ suc (size g)
claim-size provider reason v g =
    let e =
      length-snoc g.claims
        (record { provider = provider; reason = reason; token = v.probe_token }) in
    omega arith

block-size : (reason : ℕ) (g : Progress) → size (block reason g) ≡ suc (size g)
block-size reason g = let e = length-snoc g.blocked reason in omega arith

on_claim-size :
    (provider : ℕ) (v : BreakerView) (owned : Bool) (o : Option BreakerView) (g : Progress)
    → size (on_claim provider v owned o g) ≡ suc (size g)
on_claim-size provider v owned (some claimed) g = claim-size provider v.reason claimed g
on_claim-size provider v true none g =
    elim (Bool-cases (state_eq v.state BreakerState.probing_recovery)) [
      | inl y ↦ rw y (claim-size provider v.reason v g)
      | inr n ↦ rw n (block-size v.reason g)
    ]
on_claim-size provider v false none g =
    elim (Bool-cases (state_eq v.state BreakerState.probing_recovery)) [
      | inl y ↦ rw y (block-size v.reason g)
      | inr n ↦ rw n (block-size v.reason g)
    ]

view-size :
    (config : BreakerConfig) (provider worker_id now : ℕ) (v : BreakerView) (g : Progress)
    → size (guard_view config provider worker_id now v g)
      ≡ (if needs_probe provider v then suc (size g) else size g)
unfolding guard_view
view-size config provider worker_id now v g = elim (Bool-cases (v.provider == provider)) [
  | inr n ↦ rw n refl
  | inl y ↦ elim (Bool-cases (is_routable v.state)) [
    | inl r ↦ rw (y, r) refl
    | inr r ↦ rw (y, r) (on_claim-size provider v _ _ _)
  ]
]

counted :
    (b : Bool) (x n m c : ℕ)
    → x ≡ n + c
    → n ≡ (if b then suc m else m)
    → x ≡ m + (if b then suc c else c)
counted true x n m c h e = omega arith
counted false x n m c h e = omega arith

views-size :
    (config : BreakerConfig) (provider worker_id now : ℕ) (vs : List BreakerView) (g : Progress)
    → size (guard_views config provider worker_id now vs g)
      ≡ size g + count (needs_probe provider) vs
unfolding guard_views
views-size config provider worker_id now [] g = omega arith
views-size config provider worker_id now (v ∷ vs) g =
    counted (needs_probe provider v) _ _ (size g) (count (needs_probe provider) vs)
      (views-size config provider worker_id now vs (guard_view config provider worker_id now v g))
      (view-size config provider worker_id now v g)

-- For a positive lifetime of probes, a provider that is found routable has as many probe claims as
-- it has breakers among the given ones that are suspended or probing, and in the store that the
-- guard leaves, each of these breakers is eligible for the worker at the time of the guard.
pub guard_accounts :
    (config : BreakerConfig) (provider worker_id now : ℕ) (views : List BreakerView) (s s' : Store)
    (result : GuardResult)
    → 0 < config.probe_ttl_seconds
    → guard_provider config provider worker_id now views s ≡ (result, s')
    → result.routable ≡ true
    → (length result.claims ≡ count (needs_probe provider) views)
      × (all
            (λ v.
              not (needs_probe provider v)
              || eligible provider v.reason (some worker_id) now s'.rows)
            views
          ≡ true)
unfolding guard_provider
guard_accounts config provider worker_id now views s s' result ttl h routable =
    let g : Progress = record { claims = []; blocked = []; store = s } in
    let g' = guard_views config provider worker_id now views g in
    let all_of_them = views-size config provider worker_id now views g in
    let unblocked : length g'.blocked ≡ 0 = ==→≡ _ 0 (ap (λ z. z.0.routable) h ∙ routable) in
    let claimed : length result.claims ≡ length g'.claims = sym (ap (λ z. length z.0.claims) h) in
    (
      omega arith,
      unblocked-May config provider worker_id now views g ttl unblocked s' (ap (λ z. z.1) h),
    )
