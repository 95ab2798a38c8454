-- ===== src/Tests/OfReadiness.antt =====
-- The theorems of the readiness service applied to two probes with a budget.
use morphogenesis.Base.{
  none, ltb, ◌+◌, ◌⊎◌, true, false, suc, ◌≡◌, refl, ◌&&◌, some, [], ◌∷◌, all, any, map,
}
use morphogenesis.Contracts.{Raised, Tried}
use morphogenesis.Readiness.Verdict.{
  ProbeSubject, ProbeState, ProbeResult, observe_all, dimension_states, overall_of, overall_state,
  EnvironmentReport, validate_aggregate, validate_result, validate_observation,
}
use morphogenesis.Readiness.Healthy.{is_ok, is_failed, covers, verdict_exact}
use morphogenesis.Readiness.Service.{
  Outcome, Probe, Service, Kept, well_declared, invalidate, error_code, run_probe, collect, build,
  report_from, report, report_of, run_service, new_kept,
}
use morphogenesis.Readiness.Reports.{report_complete}
use morphogenesis.Readiness.Unbounded.{report_raises}
use morphogenesis.Readiness.Cached.{report_cached}

abbrev healthy_result : ProbeResult
healthy_result = record {
  probe_id = 109 ∷ [];
  subject = ProbeSubject.machine;
  state = ProbeState.ok;
  observed = true;
  detail = 0;
  evidence = [];
  notes = [];
}

abbrev service : Service
service = record {
  probes =
      record {
        probe_id = 109 ∷ [];
        subject = ProbeSubject.machine;
        probe = λ n. Outcome.gives healthy_result;
      }
      ∷ record {
        probe_id = 97 ∷ [];
        subject = ProbeSubject.account;
        probe = λ n. Outcome.raises (79 ∷ 83 ∷ []);
      }
      ∷ [];
  clock = λ n. n;
  cache_seconds = 100;
  budget_seconds = some 50;
  notes = [];
  wording = record {
    out_of_budget = 1;
    probe_error = 2;
    result_invalid = 3;
    contract_mismatch = 4;
    boundaries = [];
    truncated_note = 5;
    no_probes_note = 6;
  };
}

declared_test : well_declared service ≡ true
unfolding well_declared
declared_test = refl

report_complete_example :
    (r : EnvironmentReport) × ((report service (invalidate new_kept)).0 ≡ Tried.done r)
    × (map (λ x. x.probe_id) r.results ≡ map (λ p. p.probe_id) service.probes)
    × (map (λ x. x.subject) r.results ≡ map (λ p. p.subject) service.probes)
    × (validate_aggregate r ≡ true)
report_complete_example = report_complete service new_kept declared_test (λ n. refl)

abbrev failed_account : ProbeResult
failed_account = record {
  probe_id = 97 ∷ [];
  subject = ProbeSubject.account;
  state = ProbeState.failed;
  observed = true;
  detail = 2;
  evidence = error_code ∷ (79 ∷ 83 ∷ []) ∷ [];
  notes = [];
}

abbrev first_report : EnvironmentReport
first_report = report_of service 0 (healthy_result ∷ failed_account ∷ []) false

abbrev kept : Kept
kept = record { cached = some first_report; cached_at = 0; readings = 3 }

first_test : report service new_kept ≡ (Tried.done first_report, kept)
unfolding report report_from build validate_aggregate dimension_states observe_all overall_state
    overall_of collect run_probe validate_result validate_observation
first_test = refl

second_test : (report service kept).0 ≡ Tried.done first_report
unfolding report report_from
second_test = refl

no_calls_test : run_service service [] new_kept ≡ new_kept
unfolding run_service
no_calls_test = refl

report_cached_example :
    ((ltb (service.clock kept.readings) (first_report.generated_at + service.cache_seconds) ≡ true)
      × (report service kept
          ≡ (Tried.done first_report, record kept { readings = suc kept.readings })))
    ⊎ ((ltb (service.clock kept.readings) (first_report.generated_at + service.cache_seconds)
          ≡ false)
        × (first_report.generated_at ≡ service.clock kept.readings))
report_cached_example =
    report_cached service [] new_kept kept first_report first_report no_calls_test first_test
      second_test

-- The second probe has a blank identity and raises.
abbrev nameless : Probe
nameless = record {
  probe_id = [];
  subject = ProbeSubject.account;
  probe = λ n. Outcome.raises (79 ∷ 83 ∷ []);
}

abbrev healthy : Probe
healthy = record {
  probe_id = 109 ∷ [];
  subject = ProbeSubject.machine;
  probe = λ n. Outcome.gives healthy_result;
}

abbrev careless : Service
careless = record service { probes = healthy ∷ nameless ∷ [] }

-- Its declaration is accepted.
careless_test : well_declared careless ≡ true
unfolding well_declared
careless_test = refl

report_raises_example :
    (e : Raised) × ((report careless (invalidate new_kept)).0 ≡ Tried.failed e)
    × ((report careless (invalidate new_kept)).1.cached ≡ none)
report_raises_example =
    report_raises careless new_kept (healthy ∷ []) nameless [] refl refl (λ n. refl)

verdict_exact_example :
    (is_ok (overall_state (dimension_states (healthy_result ∷ []))) ≡ (
      covers ProbeSubject.machine (healthy_result ∷ [])
      && (covers ProbeSubject.interface (healthy_result ∷ [])
          && (covers ProbeSubject.account (healthy_result ∷ [])
              && all (λ r. is_ok r.state) (healthy_result ∷ [])))))
    × (is_failed (overall_state (dimension_states (healthy_result ∷ [])))
        ≡ any (λ r. is_failed r.state) (healthy_result ∷ []))
verdict_exact_example = verdict_exact (healthy_result ∷ [])
