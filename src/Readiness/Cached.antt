-- ===== src/Readiness/Cached.antt =====
-- When a report is given again (readiness/service.py).
use morphogenesis.Base.{
  ℕ, suc, ◌+◌, ◌≡◌, ◌≢◌, refl, sym, ap, ◌∙◌, subst, inl, inr, ◌⊎◌, true, false, ltb, Bool-cases,
  Option, none, some, none≢some, some_inj, List, [], ◌∷◌,
}
use morphogenesis.Contracts.{Raised, Tried}
use morphogenesis.Readiness.Verdict.{EnvironmentReport, validate_aggregate}
use morphogenesis.Readiness.Service.{
  Service, Kept, Collected, collect, concluded, validated, report_of, build, is_fresh, store,
  rebuild, report_from, report, ServiceCall, run_service, new_kept,
}

done_inj : {A : Type 0} {a b : A} → Tried.done a ≡ Tried.done b → a ≡ b
done_inj h = cc

failed≢done : {A : Type 0} {e : Raised} {a : A} → Tried.failed e ≢ Tried.done a
failed≢done h = cc

-- The time that is kept is the time of the report that is kept.
abbrev IsTimely : Kept → Type 0
IsTimely s = (r : EnvironmentReport) → s.cached ≡ some r → r.generated_at ≡ s.cached_at

validated-same : (x r : EnvironmentReport) → validated x ≡ Tried.done r → r ≡ x
validated-same x r h = elim (Bool-cases (validate_aggregate x)) [
  | inl y ↦ sym (done_inj (sym (passes y) ∙ h))
  | inr n ↦ absurd (failed≢done (sym (fails n) ∙ h))
]
  where
    passes : validate_aggregate x ≡ true → validated x ≡ Tried.done x
    passes y = rw y refl

    fails : validate_aggregate x ≡ false → validated x ≡ Tried.failed Raised.value_error
    fails n = rw n refl

concluded-time :
    (v : Service) (started : ℕ) (c : Collected) (r : EnvironmentReport)
    → (concluded v started c).0 ≡ Tried.done r
    → r.generated_at ≡ started
concluded-time v started (Tried.failed e, n) r h = absurd (failed≢done h)
concluded-time v started (Tried.done (rs, cut), n) r h =
    ap (λ z. z.generated_at) (validated-same (report_of v started rs cut) r h)

-- What rebuilding returns is built at the time and kept.
store_lem :
    (now : ℕ) (t : Tried EnvironmentReport × ℕ) (s : Kept) (r : EnvironmentReport)
    → (store now t s).0 ≡ Tried.done r
    → (t.0 ≡ Tried.done r) × ((store now t s).1.cached ≡ some r)
store_lem now (Tried.done x, n) s r h = (h, ap some (done_inj h))
store_lem now (Tried.failed e, n) s r h = absurd (failed≢done h)

store-IsTimely :
    (now : ℕ) (t : Tried EnvironmentReport × ℕ) (s : Kept)
    → ((r : EnvironmentReport) → t.0 ≡ Tried.done r → r.generated_at ≡ now)
    → IsTimely s
    → IsTimely (store now t s).1
store-IsTimely now (Tried.done x, n) s at timely = λ r h. at r (ap Tried.done (some_inj h))
store-IsTimely now (Tried.failed e, n) s at timely = timely

rebuild-time :
    (v : Service) (now : ℕ) (s : Kept) (r : EnvironmentReport)
    → (rebuild v now s).0 ≡ Tried.done r
    → r.generated_at ≡ now
unfolding build
rebuild-time v now s r h =
    concluded-time v now (collect v now v.probes (suc s.readings)) r
      (store_lem now (concluded v now (collect v now v.probes (suc s.readings))) s r h).0

rebuild-IsTimely : (v : Service) (now : ℕ) (s : Kept) → IsTimely s → IsTimely (rebuild v now s).1
unfolding build
rebuild-IsTimely v now s timely =
    store-IsTimely now _ s
      (λ r h. concluded-time v now (collect v now v.probes (suc s.readings)) r h) timely

-- The two ways of a report.
report_from-hit :
    (v : Service) (now : ℕ) (o : Option EnvironmentReport) (s : Kept) (r : EnvironmentReport)
    → o ≡ some r
    → is_fresh v now s ≡ true
    → report_from v now o s ≡ (Tried.done r, record s { readings = suc s.readings })
unfolding report_from
report_from-hit v now none s r e h = absurd (none≢some e)
report_from-hit v now (some x) s r e h = rw (h, some_inj e) refl

report_from-missed :
    (v : Service) (now : ℕ) (o : Option EnvironmentReport) (s : Kept)
    → is_fresh v now s ≡ false
    → report_from v now o s ≡ rebuild v now s
unfolding report_from
report_from-missed v now none s h = refl
report_from-missed v now (some x) s h = rw h refl

record Sound (s' : Kept) (t : Tried EnvironmentReport) : Type 0 where
  timely : IsTimely s'
  kept : (r : EnvironmentReport) → t ≡ Tried.done r → s'.cached ≡ some r

rebuild-Sound :
    (v : Service) (now : ℕ) (s : Kept) → IsTimely s → Sound (rebuild v now s).1 (rebuild v now s).0
rebuild-Sound v now s timely = record {
  timely = rebuild-IsTimely v now s timely;
  kept = λ r h. (store_lem now (build v now (suc s.readings)) s r h).1;
}

report_from-Sound :
    (v : Service) (now : ℕ) (o : Option EnvironmentReport) (s : Kept)
    → s.cached ≡ o
    → IsTimely s
    → Sound (report_from v now o s).1 (report_from v now o s).0
unfolding report_from
report_from-Sound v now none s e timely = rebuild-Sound v now s timely
report_from-Sound v now (some x) s e timely = elim (Bool-cases (is_fresh v now s)) [
  | inr n ↦ rw n (rebuild-Sound v now s timely)
  | inl y ↦ rw y (record { timely = timely; kept = λ r h. e ∙ ap some (done_inj h) })
]

report-Sound : (v : Service) (s : Kept) → IsTimely s → Sound (report v s).1 (report v s).0
unfolding report
report-Sound v s timely = report_from-Sound v (v.clock s.readings) s.cached s refl timely

run_service-IsTimely :
    (v : Service) (calls : List ServiceCall) (s : Kept)
    → IsTimely s
    → IsTimely (run_service v calls s)
unfolding run_service
run_service-IsTimely v [] s timely = timely
run_service-IsTimely v (ServiceCall.asks ∷ calls) s timely =
    run_service-IsTimely v calls (report v s).1 (report-Sound v s timely).timely
run_service-IsTimely v (ServiceCall.invalidates ∷ calls) s timely =
    run_service-IsTimely v calls _ (λ r h. absurd (none≢some h))

-- After any calls of a new service, let a report be returned and another one right after it. Either
-- the clock is then within the cache's time of the moment the first one was built at, and the same
-- report is returned and nothing but the clock is read, or it is not, and the report that is
-- returned is built at that moment.
pub report_cached :
    (v : Service) (calls : List ServiceCall) (s s' : Kept) (r r' : EnvironmentReport)
    → run_service v calls new_kept ≡ s
    → report v s ≡ (Tried.done r, s')
    → (report v s').0 ≡ Tried.done r'
    → ((ltb (v.clock s'.readings) (r.generated_at + v.cache_seconds) ≡ true)
        × (report v s' ≡ (Tried.done r, record s' { readings = suc s'.readings })))
      ⊎ ((ltb (v.clock s'.readings) (r.generated_at + v.cache_seconds) ≡ false)
          × (r'.generated_at ≡ v.clock s'.readings))
unfolding report
report_cached v calls s s' r r' ran h h' =
    let timely : IsTimely s =
      subst IsTimely ran (run_service-IsTimely v calls new_kept (λ r h. absurd (none≢some h))) in
    let sound = report-Sound v s timely in
    let kept : s'.cached ≡ some r = sym (ap (λ z. z.1.cached) h) ∙ sound.kept r (ap (λ z. z.0) h) in
    let timely' : IsTimely s' = subst IsTimely (ap (λ z. z.1) h) sound.timely in
    let time : r.generated_at ≡ s'.cached_at = timely' r kept in
    let now = v.clock s'.readings in
    elim (Bool-cases (is_fresh v now s')) [
      | inl y ↦ inl (rw time y, report_from-hit v now s'.cached s' r kept y)
      | inr n ↦ inr (
        rw time n,
        rebuild-time v now s' r'
            (sym (ap (λ z. z.0) (report_from-missed v now s'.cached s' n)) ∙ h'),
      )
    ]
