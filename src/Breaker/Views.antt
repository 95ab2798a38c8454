-- ===== src/Breaker/Views.antt =====
-- What a breaker lists, and one cycle of observation over the fault file.
use morphogenesis.Base.{
  ℕ, Bool, true, false, not, ◌&&◌, ◌||◌, Option, none, some, List, [], ◌∷◌, ltb, leb, ◌==◌,
  if◌then◌else◌, map, first_n, ordered_by, reversed_onto,
}
use morphogenesis.Contracts.{Raised, Tried}
use morphogenesis.Faults.Records.{Line, FaultReadIssue, read}
use morphogenesis.Faults.Windows.{FaultAggregate, aggregate}
use morphogenesis.Breaker.Transition.{BreakerConfig}
use morphogenesis.Breaker.Table.{BreakerView, BreakerAudit, Store}
use morphogenesis.Breaker.Observe.{BreakerChange, apply_aggregates}

abbrev bad_limit : ℕ → Bool
bad_limit limit = not (leb 1 limit && leb limit 10000)

abbrev by_key : BreakerView → BreakerView → Bool
by_key a b = ltb a.provider b.provider || (a.provider == b.provider && ltb a.reason b.reason)

-- `views`
unfoldable pub views : ℕ → Store → Tried (List BreakerView)
views limit s =
    if bad_limit limit
    then Tried.failed Raised.value_error
    else Tried.done (first_n limit (ordered_by by_key s.rows))

-- `audit`, the latest rows first
unfoldable pub audit : ℕ → Store → Tried (List BreakerAudit)
audit limit s =
    if bad_limit limit
    then Tried.failed Raised.value_error
    else Tried.done (first_n limit (reversed_onto s.audit []))

-- `ObservationReport`
pub record ObservationReport : Type 0 where
  pub now : ℕ
  pub evidence_complete : Bool
  pub issues : List FaultReadIssue
  pub changes : List BreakerChange

abbrev no_issues : List FaultReadIssue → Bool
no_issues [] = true
no_issues (i ∷ is) = false

module _ (Window : Type 0) (live : ℕ → Window → List FaultAggregate)
    (put : ℕ → FaultAggregate → Window → Window) (pop : ℕ → ℕ → Window → Window) where
  -- `windowed_evidence`
  abbrev pub windowed_evidence : ℕ → Window → List ((ℕ × ℕ) × ℕ)
  windowed_evidence now w =
      map (λ a. ((a.provider, a.normalized_reason), a.sample_count)) (live now w)

  abbrev pub reported :
      ℕ
      → List FaultReadIssue
      → List BreakerChange × (Window × Store)
      → Tried ObservationReport × (Window × Store)
  reported now issues (changes, ws) = (
    Tried.done (record {
      now = now;
      evidence_complete = no_issues issues;
      issues = issues;
      changes = changes;
    }),
    ws,
  )

  unfoldable pub observe_given :
      BreakerConfig
      → ℕ
      → List FaultReadIssue
      → Option (List FaultAggregate)
      → Window × Store
      → Tried ObservationReport × (Window × Store)
  unfolding apply_aggregates
  observe_given config now issues none ws = (Tried.failed Raised.value_error, ws)
  observe_given config now issues (some aggregates) ws =
      reported now issues (apply_aggregates Window live put pop config now aggregates ws)

  -- `observe` at a valid time, of the lines that the fault file of a run holds at both of its reads
  unfoldable pub observe :
      BreakerConfig
      → ℕ
      → (now : ℕ) → List Line
      → Window × Store
      → Tried ObservationReport × (Window × Store)
  unfolding read aggregate observe_given
  observe config run_id now lines ws =
      observe_given config now (read run_id lines).issues
        (aggregate run_id now config.window_seconds lines) ws
