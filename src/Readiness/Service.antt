-- ===== src/Readiness/Service.antt =====
-- readiness/service.py: `ReadinessService`. Clock readings are numbered, and a probe's answer may be
-- another at each of them; times are whole ticks. Identities, codes and the names of exceptions are
-- their code points, since the service builds results of them and a result bounds them; the other
-- texts are numbers.
use morphogenesis.Base.{
  ℕ, suc, ◌+◌, Bool, true, false, not, ◌&&◌, ◌||◌, ◌==◌, ltb, Option, none, some, List, [], ◌∷◌,
  ◌++◌, if◌then◌else◌, map,
}
use morphogenesis.Equality.{nat_eq, list_same}
use morphogenesis.Contracts.{Raised, Tried}
use morphogenesis.Readiness.Verdict.{
  ProbeSubject, ProbeState, subject_eq, ProbeResult, dimension_states, overall_state,
  EnvironmentReport, distinct_ids, validate_aggregate, validate_result,
}

-- What `probe.probe()` does: it raises, returns something else, or returns a result.
pub data Outcome : Type 0 where
  raises : (exception : List ℕ) → Outcome
  foreign : Outcome
  gives : ProbeResult → Outcome

-- `ReadinessProbe`
pub record Probe : Type 0 where
  pub probe_id : List ℕ
  pub subject : ProbeSubject
  pub probe : (reading : ℕ) → Outcome

-- The texts of the results and notes that the service writes.
pub record Wording : Type 0 where
  pub out_of_budget : ℕ
  pub probe_error : ℕ
  pub result_invalid : ℕ
  pub contract_mismatch : ℕ
  pub boundaries : List ℕ
  pub truncated_note : ℕ
  pub no_probes_note : ℕ

pub record Service : Type 0 where
  pub probes : List Probe
  pub clock : ℕ → ℕ
  pub cache_seconds : ℕ
  pub budget_seconds : Option ℕ
  pub notes : List ℕ
  pub wording : Wording

-- The cached report and its time, and how often the clock was read.
pub record Kept : Type 0 where
  pub cached : Option EnvironmentReport
  pub cached_at : ℕ
  pub readings : ℕ

-- `__init__` does not raise
unfoldable pub well_declared : Service → Bool
well_declared v =
    not (zero_budget v.budget_seconds) && distinct_ids (map (λ p. p.probe_id) v.probes)
  where
    zero_budget : Option ℕ → Bool
    zero_budget none = false
    zero_budget (some b) = b == 0

-- `invalidate`
abbrev pub invalidate : Kept → Kept
invalidate s = record s { cached = none }

-- Building a result runs its validators.
abbrev pub made : ProbeResult → Tried ProbeResult
made r = if validate_result r then Tried.done r else Tried.failed Raised.value_error

-- `_unobserved`
abbrev pub unobserved : Probe → ℕ → Tried ProbeResult
unobserved p detail = made (record {
  probe_id = p.probe_id;
  subject = p.subject;
  state = ProbeState.not_run;
  observed = false;
  detail = detail;
  evidence = [];
  notes = [];
})

-- `_failed`; the evidence is the code and the name of the exception
abbrev pub failed_result : Probe → List ℕ → ℕ → List (List ℕ) → Tried ProbeResult
failed_result p code detail cause = made (record {
  probe_id = p.probe_id;
  subject = p.subject;
  state = ProbeState.failed;
  observed = true;
  detail = detail;
  evidence = code ∷ cause;
  notes = [];
})

-- "probe_error", "probe_result_invalid" and "probe_contract_mismatch"
abbrev pub error_code : List ℕ
error_code = 112 ∷ 114 ∷ 111 ∷ 98 ∷ 101 ∷ 95 ∷ 101 ∷ 114 ∷ 114 ∷ 111 ∷ 114 ∷ []

abbrev pub invalid_code : List ℕ
invalid_code =
    112 ∷ 114 ∷ 111 ∷ 98 ∷ 101 ∷ 95 ∷ 114 ∷ 101 ∷ 115 ∷ 117 ∷ 108 ∷ 116 ∷ 95 ∷ 105 ∷ 110 ∷ 118 ∷ 97
    ∷ 108 ∷ 105 ∷ 100 ∷ []

abbrev pub mismatch_code : List ℕ
mismatch_code =
    112 ∷ 114 ∷ 111 ∷ 98 ∷ 101 ∷ 95 ∷ 99 ∷ 111 ∷ 110 ∷ 116 ∷ 114 ∷ 97 ∷ 99 ∷ 116 ∷ 95 ∷ 109 ∷ 105
    ∷ 115 ∷ 109 ∷ 97 ∷ 116 ∷ 99 ∷ 104 ∷ []

-- `_run`, of what the probe did
unfoldable pub run_probe : Wording → Probe → Outcome → Tried ProbeResult
unfolding validate_result
run_probe w p (Outcome.raises e) = failed_result p error_code w.probe_error (e ∷ [])
run_probe w p Outcome.foreign = failed_result p invalid_code w.result_invalid []
run_probe w p (Outcome.gives r) =
    if not (list_same r.probe_id p.probe_id) || not (subject_eq r.subject p.subject)
    then failed_result p mismatch_code w.contract_mismatch []
    else Tried.done r

-- The test of the budget reads the clock, if there is a budget.
abbrev pub readings_after : Option ℕ → ℕ → ℕ
readings_after none n = n
readings_after (some b) n = suc n

abbrev pub is_late : Option ℕ → ℕ → ℕ → Bool
is_late none started now = false
is_late (some b) started now = ltb (started + b) now

-- The results and whether the budget ran out, and how often the clock was read.
abbrev pub Collected : Type 0
Collected = Tried (List ProbeResult × Bool) × ℕ

abbrev pub ahead : Bool → ℕ → Tried ProbeResult → Collected → Collected
ahead late n (Tried.failed e) rest = (Tried.failed e, n)
ahead late n (Tried.done r) (Tried.failed e, m) = (Tried.failed e, m)
ahead late n (Tried.done r) (Tried.done (rs, cut), m) = (Tried.done (r ∷ rs, late || cut), m)

-- The loop of `_build`; an exception ends it.
unfoldable pub collect : Service → ℕ → List Probe → ℕ → Collected
unfolding run_probe validate_result
collect v started [] n = (Tried.done ([], false), n)
collect v started (p ∷ ps) n =
    let m = readings_after v.budget_seconds n in
    let late = is_late v.budget_seconds started (v.clock n) in
    ahead late m
      (if late then unobserved p v.wording.out_of_budget else run_probe v.wording p (p.probe m))
      (collect v started ps m)

abbrev pub notes_of : Service → Bool → List ℕ
notes_of v truncated =
    v.notes
    ++ (v.wording.boundaries
        ++ ((if truncated then v.wording.truncated_note ∷ [] else []) ++ no_probes v.probes))
  where
    no_probes : List Probe → List ℕ
    no_probes [] = v.wording.no_probes_note ∷ []
    no_probes (p ∷ ps) = []

abbrev pub report_of : Service → ℕ → List ProbeResult → Bool → EnvironmentReport
report_of v started results truncated = record {
  generated_at = started;
  overall = overall_state (dimension_states results);
  dimensions = dimension_states results;
  results = results;
  notes = notes_of v truncated;
}

-- Building the model runs its validator.
abbrev pub validated : EnvironmentReport → Tried EnvironmentReport
validated r = if validate_aggregate r then Tried.done r else Tried.failed Raised.value_error

abbrev pub concluded : Service → ℕ → Collected → Tried EnvironmentReport × ℕ
concluded v started (Tried.failed e, n) = (Tried.failed e, n)
concluded v started (Tried.done (rs, cut), n) = (validated (report_of v started rs cut), n)

-- `_build`
unfoldable pub build : Service → ℕ → ℕ → Tried EnvironmentReport × ℕ
unfolding collect validate_aggregate
build v started n = concluded v started (collect v started v.probes n)

abbrev pub is_fresh : Service → ℕ → Kept → Bool
is_fresh v now s = ltb now (s.cached_at + v.cache_seconds)

abbrev pub store : ℕ → Tried EnvironmentReport × ℕ → Kept → Tried EnvironmentReport × Kept
store now (Tried.done r, n) s =
    (Tried.done r, record { cached = some r; cached_at = now; readings = n })
store now (Tried.failed e, n) s = (Tried.failed e, record s { readings = n })

abbrev pub rebuild : Service → ℕ → Kept → Tried EnvironmentReport × Kept
rebuild v now s = store now (build v now (suc s.readings)) s

unfoldable pub report_from :
    Service → ℕ → Option EnvironmentReport → Kept → Tried EnvironmentReport × Kept
unfolding build
report_from v now none s = rebuild v now s
report_from v now (some r) s =
    if is_fresh v now s
    then (Tried.done r, record s { readings = suc s.readings })
    else rebuild v now s

-- `report`
unfoldable pub report : Service → Kept → Tried EnvironmentReport × Kept
unfolding report_from
report v s = report_from v (v.clock s.readings) s.cached s

-- What a holder of the service may call.
pub data ServiceCall : Type 0 where
  asks invalidates : ServiceCall

unfoldable pub run_service : Service → List ServiceCall → Kept → Kept
unfolding report
run_service v [] s = s
run_service v (ServiceCall.asks ∷ calls) s = run_service v calls (report v s).1
run_service v (ServiceCall.invalidates ∷ calls) s = run_service v calls (invalidate s)

-- `__init__`
abbrev pub new_kept : Kept
new_kept = record { cached = none; cached_at = 0; readings = 0 }
