-- ===== src/Readiness/Reports.antt =====
-- What a report holds (readiness/service.py).
use morphogenesis.Base.{
  ℕ, suc, ◌≡◌, refl, ap, ◌∙◌, inl, inr, Bool, true, false, not, ◌&&◌, ◌||◌, leb, Bool-cases,
  if◌then◌else◌, List, [], ◌∷◌, map, all, length, arith,
}
use morphogenesis.Equality.{nat_eq, ==_same, list_same, list_same→≡}
use morphogenesis.Contracts.{Tried}
use morphogenesis.Readiness.Verdict.{
  ProbeSubject, ProbeState, severity, subject_eq, ProbeResult, dimension_states, overall_state,
  EnvironmentReport, distinct_ids, agree, validate_aggregate, is_bounded_id, validate_result,
  validate_observation,
}
use morphogenesis.Readiness.Service.{
  Outcome, Probe, Wording, Service, Kept, well_declared, invalidate, made, unobserved,
  failed_result, error_code, invalid_code, mismatch_code, run_probe, Collected, ahead,
  readings_after, is_late, collect, report_of, build, report_from, report,
}

subject_eq→≡ : (a b : ProbeSubject) → subject_eq a b ≡ true → a ≡ b
subject_eq→≡ ProbeSubject.machine ProbeSubject.machine h = refl
subject_eq→≡ ProbeSubject.machine ProbeSubject.interface h = cc
subject_eq→≡ ProbeSubject.machine ProbeSubject.account h = cc
subject_eq→≡ ProbeSubject.interface ProbeSubject.machine h = cc
subject_eq→≡ ProbeSubject.interface ProbeSubject.interface h = refl
subject_eq→≡ ProbeSubject.interface ProbeSubject.account h = cc
subject_eq→≡ ProbeSubject.account ProbeSubject.machine h = cc
subject_eq→≡ ProbeSubject.account ProbeSubject.interface h = cc
subject_eq→≡ ProbeSubject.account ProbeSubject.account h = refl

-- The identity and the subject of a result are those of its probe.
abbrev IsOf : Probe → ProbeResult → Type 0
IsOf p r = (r.probe_id ≡ p.probe_id) × (r.subject ≡ p.subject)

-- What the probe does can be told by a result of the service: the identity that the probe declares,
-- and the name of an exception that it raises, have lengths that a result allows.
abbrev pub is_told : List ℕ → Outcome → Bool
is_told id (Outcome.raises e) = is_bounded_id id && leb (length e) 200
is_told id _ = is_bounded_id id

abbrev Given : Probe → Tried ProbeResult → Type 0
Given p t = (r : ProbeResult) × (t ≡ Tried.done r) × IsOf p r

told-bounded : (id : List ℕ) (o : Outcome) → is_told id o ≡ true → is_bounded_id id ≡ true
told-bounded id (Outcome.raises e) h = ground arith
told-bounded id Outcome.foreign h = h
told-bounded id (Outcome.gives r) h = h

made-Given : (p : Probe) (r : ProbeResult) → IsOf p r → validate_result r ≡ true → Given p (made r)
made-Given p r i h = (r, rw h refl, i)

unobserved-Given :
    (p : Probe) (detail : ℕ) → is_bounded_id p.probe_id ≡ true → Given p (unobserved p detail)
unfolding validate_result validate_observation
unobserved-Given p detail h =
    made-Given p
      (record {
        probe_id = p.probe_id;
        subject = p.subject;
        state = ProbeState.not_run;
        observed = false;
        detail = detail;
        evidence = [];
        notes = [];
      })
      (refl, refl) (rw h refl)

failed-Given :
    (p : Probe) (code : List ℕ) (detail : ℕ) (cause : List (List ℕ))
    → is_bounded_id p.probe_id ≡ true
    → all (λ x. leb (length x) 200) (code ∷ cause) ≡ true
    → Given p (failed_result p code detail cause)
unfolding validate_result validate_observation
failed-Given p code detail cause h short =
    made-Given p
      (record {
        probe_id = p.probe_id;
        subject = p.subject;
        state = ProbeState.failed;
        observed = true;
        detail = detail;
        evidence = code ∷ cause;
        notes = [];
      })
      (refl, refl) (rw (h, short) refl)

run_probe-Given :
    (w : Wording) (p : Probe) (o : Outcome)
    → is_told p.probe_id o ≡ true
    → Given p (run_probe w p o)
unfolding run_probe
run_probe-Given w p (Outcome.raises e) h =
    failed-Given p error_code w.probe_error (e ∷ []) (ground arith) (ground arith)
run_probe-Given w p Outcome.foreign h = failed-Given p invalid_code w.result_invalid [] h refl
run_probe-Given w p (Outcome.gives r) h =
    elim (Bool-cases
      (not (list_same r.probe_id p.probe_id) || not (subject_eq r.subject p.subject))) [
        | inl y ↦ rw y (failed-Given p mismatch_code w.contract_mismatch [] h refl)
        | inr n ↦ rw n (
          r,
          refl,
          (
            list_same→≡ r.probe_id p.probe_id (left (list_same r.probe_id p.probe_id) _ n),
            subject_eq→≡ _ _ (right (list_same r.probe_id p.probe_id) _ n),
          ),
        )
      ]
  where
    left : (a b : Bool) → (not a || not b) ≡ false → a ≡ true
    left a b h = ground arith

    right : (a b : Bool) → (not a || not b) ≡ false → b ≡ true
    right a b h = ground arith

abbrev AreOf : List Probe → List ProbeResult → Type 0
AreOf ps rs =
    (map (λ r. r.probe_id) rs ≡ map (λ p. p.probe_id) ps)
    × (map (λ r. r.subject) rs ≡ map (λ p. p.subject) ps)

cons-AreOf :
    (p : Probe) (r : ProbeResult) (ps : List Probe) (rs : List ProbeResult)
    → IsOf p r
    → AreOf ps rs
    → AreOf (p ∷ ps) (r ∷ rs)
cons-AreOf p r ps rs (i, s) (is, ss) = (λ j. i j ∷ is j, λ j. s j ∷ ss j)

-- The loop ended without an exception.
record Gathered (ps : List Probe) (c : Collected) : Type 0 where
  results : List ProbeResult
  cut : Bool
  readings : ℕ
  returns : c ≡ (Tried.done (results, cut), readings)
  are_of : AreOf ps results

ahead-Gathered :
    (late : Bool) (n : ℕ) (p : Probe) (ps : List Probe) (t : Tried ProbeResult) (c : Collected)
    → Given p t
    → Gathered ps c
    → Gathered (p ∷ ps) (ahead late n t c)
ahead-Gathered late n p ps t c (r, e, i) g = record {
  results = r ∷ g.results;
  cut = late || g.cut;
  readings = g.readings;
  returns = ap (λ z. ahead late n z c) e ∙ ap (ahead late n (Tried.done r)) g.returns;
  are_of = cons-AreOf p r ps g.results i g.are_of;
}

collect-Gathered :
    (v : Service) (started : ℕ) (ps : List Probe) (n : ℕ)
    → ((m : ℕ) → all (λ p. is_told p.probe_id (p.probe m)) ps ≡ true)
    → Gathered ps (collect v started ps n)
unfolding collect
collect-Gathered v started [] n h = record {
  results = [];
  cut = false;
  readings = n;
  returns = refl;
  are_of = (refl, refl);
}
collect-Gathered v started (p ∷ ps) n h =
    let m = readings_after v.budget_seconds n in
    let late = is_late v.budget_seconds started (v.clock n) in
    ahead-Gathered late m p ps _ (collect v started ps m)
      (probed late m (told (is_told p.probe_id (p.probe m)) _ (h m)))
      (collect-Gathered v started ps m (λ k. told_rest (is_told p.probe_id (p.probe k)) _ (h k)))
  where
    told : (a b : Bool) → (a && b) ≡ true → a ≡ true
    told a b h = ground arith

    told_rest : (a b : Bool) → (a && b) ≡ true → b ≡ true
    told_rest a b h = ground arith

    probed :
        (late : Bool) (m : ℕ)
        → is_told p.probe_id (p.probe m) ≡ true
        → Given p (
            if late
            then unobserved p v.wording.out_of_budget
            else run_probe v.wording p (p.probe m))
    probed true m k =
        unobserved-Given p v.wording.out_of_budget (told-bounded p.probe_id (p.probe m) k)
    probed false m k = run_probe-Given v.wording p (p.probe m) k

agree_itself : (d : ProbeSubject → ProbeState) → agree d d ≡ true
agree_itself d =
    rw
      (
        ==_same (severity (d ProbeSubject.machine)),
        ==_same (severity (d ProbeSubject.interface)),
        ==_same (severity (d ProbeSubject.account)),
      )
      refl

report_of-valid :
    (v : Service) (started : ℕ) (results : List ProbeResult) (cut : Bool)
    → distinct_ids (map (λ p. p.probe_id) v.probes) ≡ true
    → AreOf v.probes results
    → validate_aggregate (report_of v started results cut) ≡ true
unfolding validate_aggregate
report_of-valid v started results cut h (ids, _) =
    rw
      (
        agree_itself (dimension_states results),
        ==_same (severity (overall_state (dimension_states results))),
      )
      (ap distinct_ids ids ∙ h)

declared-distinct :
    (v : Service) → well_declared v ≡ true → distinct_ids (map (λ p. p.probe_id) v.probes) ≡ true
unfolding well_declared
declared-distinct v h = second _ _ h
  where
    second : (a b : Bool) → (a && b) ≡ true → b ≡ true
    second a b h = ground arith

-- For any service whose declaration is accepted, whose probes have identities of 1 to 64 characters
-- and raise only exceptions whose names have at most 200, at any time and whatever else the probes
-- do, a report that is not cached is built without an exception: it has exactly one result for each
-- declared probe, in order and with its identity and subject, and its verdict is the one that the
-- validator derives from these results.
pub report_complete :
    (v : Service) (s : Kept)
    → well_declared v ≡ true
    → ((n : ℕ) → all (λ p. is_told p.probe_id (p.probe n)) v.probes ≡ true)
    → (r : EnvironmentReport) × ((report v (invalidate s)).0 ≡ Tried.done r)
      × (map (λ x. x.probe_id) r.results ≡ map (λ p. p.probe_id) v.probes)
      × (map (λ x. x.subject) r.results ≡ map (λ p. p.subject) v.probes)
      × (validate_aggregate r ≡ true)
unfolding report report_from build
report_complete v s h told =
    let now = v.clock s.readings in
    let g = collect-Gathered v now v.probes (suc s.readings) told in
    let valid = report_of-valid v now g.results g.cut (declared-distinct v h) g.are_of in
    (report_of v now g.results g.cut, rw (g.returns, valid) refl, g.are_of.0, g.are_of.1, valid)
