-- ===== src/Readiness/Unbounded.antt =====
-- The service (readiness/service.py) accepts a probe whose identity no result may have.
use morphogenesis.Base.{
  ℕ, suc, ◌≡◌, ◌≢◌, refl, ap, ◌∙◌, Bool, true, false, none, List, [], ◌∷◌, ◌++◌, if◌then◌else◌,
}
use morphogenesis.Contracts.{Raised, Tried}
use morphogenesis.Readiness.Verdict.{ProbeResult, is_bounded_id, validate_result}
use morphogenesis.Readiness.Service.{
  Outcome, Probe, Wording, Service, Kept, invalidate, unobserved, failed_result, error_code,
  invalid_code, run_probe, Collected, ahead, readings_after, is_late, collect, concluded, build,
  store, report_from, report,
}

-- The probe returned a `ProbeResult`.
abbrev pub is_given : Outcome → Bool
is_given (Outcome.gives r) = true
is_given _ = false

abbrev Failed : Collected → Type 0
Failed c = (e : Raised) × (c.0 ≡ Tried.failed e)

failed_result-fails :
    (p : Probe) (code : List ℕ) (detail : ℕ) (cause : List (List ℕ))
    → is_bounded_id p.probe_id ≡ false
    → failed_result p code detail cause ≡ Tried.failed Raised.value_error
unfolding validate_result
failed_result-fails p code detail cause h = rw h refl

unobserved-fails :
    (p : Probe) (detail : ℕ)
    → is_bounded_id p.probe_id ≡ false
    → unobserved p detail ≡ Tried.failed Raised.value_error
unfolding validate_result
unobserved-fails p detail h = rw h refl

run_probe-fails :
    (w : Wording) (p : Probe) (o : Outcome)
    → is_bounded_id p.probe_id ≡ false
    → is_given o ≡ false
    → run_probe w p o ≡ Tried.failed Raised.value_error
unfolding run_probe
run_probe-fails w p (Outcome.raises e) h n =
    failed_result-fails p error_code w.probe_error (e ∷ []) h
run_probe-fails w p Outcome.foreign h n = failed_result-fails p invalid_code w.result_invalid [] h
run_probe-fails w p (Outcome.gives r) h n = cc

ahead-first :
    (late : Bool) (n : ℕ) (t : Tried ProbeResult) (e : Raised) (c : Collected)
    → t ≡ Tried.failed e
    → Failed (ahead late n t c)
ahead-first late n t e c h = (e, ap (λ z. (ahead late n z c).0) h)

ahead-later :
    (late : Bool) (n : ℕ) (t : Tried ProbeResult) (c : Collected)
    → Failed c
    → Failed (ahead late n t c)
ahead-later late n (Tried.failed e) c f = (e, refl)
ahead-later late n (Tried.done r) (Tried.failed e, m) f = (e, refl)
ahead-later late n (Tried.done r) (Tried.done (rs, cut), m) (e, h) = absurd (bad h)
  where
    bad : {A : Type 0} {a : A} {e : Raised} → Tried.done a ≢ Tried.failed e
    bad h = cc

collect-Failed :
    (v : Service) (started : ℕ) (ps : List Probe) (p : Probe) (qs : List Probe) (n : ℕ)
    → is_bounded_id p.probe_id ≡ false
    → ((m : ℕ) → is_given (p.probe m) ≡ false)
    → Failed (collect v started (ps ++ p ∷ qs) n)
unfolding collect
collect-Failed v started [] p qs n h given =
    let m = readings_after v.budget_seconds n in
    let late = is_late v.budget_seconds started (v.clock n) in
    ahead-first late m _ Raised.value_error (collect v started qs m) (probed late m)
  where
    probed :
        (late : Bool) (m : ℕ)
        → (if late then unobserved p v.wording.out_of_budget else run_probe v.wording p (p.probe m))
          ≡ Tried.failed Raised.value_error
    probed true m = unobserved-fails p v.wording.out_of_budget h
    probed false m = run_probe-fails v.wording p (p.probe m) h (given m)
collect-Failed v started (x ∷ ps) p qs n h given =
    let m = readings_after v.budget_seconds n in
    ahead-later (is_late v.budget_seconds started (v.clock n)) m _
      (collect v started (ps ++ p ∷ qs) m) (collect-Failed v started ps p qs m h given)

concluded-Failed :
    (v : Service) (now : ℕ) (c : Collected) (s : Kept)
    → Failed c
    → (e : Raised) × ((store now (concluded v now c) s).0 ≡ Tried.failed e)
      × ((store now (concluded v now c) s).1.cached ≡ s.cached)
concluded-Failed v now (Tried.failed e, n) s f = (e, refl, refl)
concluded-Failed v now (Tried.done (rs, cut), n) s (e, h) = absurd (bad h)
  where
    bad : {A : Type 0} {a : A} {e : Raised} → Tried.done a ≢ Tried.failed e
    bad h = cc

-- If one of the probes of a service has an identity that is blank or longer than 64 characters, and
-- never returns a result of its own, then a report that is not cached raises and nothing is kept,
-- whatever the other probes do and with any budget.
pub report_raises :
    (v : Service) (s : Kept) (before : List Probe) (p : Probe) (after : List Probe)
    → v.probes ≡ before ++ p ∷ after
    → is_bounded_id p.probe_id ≡ false
    → ((n : ℕ) → is_given (p.probe n) ≡ false)
    → (e : Raised) × ((report v (invalidate s)).0 ≡ Tried.failed e)
      × ((report v (invalidate s)).1.cached ≡ none)
unfolding report report_from build
report_raises v s before p after h unbounded given =
    let now = v.clock s.readings in
    let (e, fails) = collect-Failed v now before p after (suc s.readings) unbounded given in
    concluded-Failed v now (collect v now v.probes (suc s.readings)) (invalidate s)
      (e, ap (λ z. (collect v now z (suc s.readings)).0) h ∙ fails)
