-- ===== src/Readiness/Verdict.antt =====
-- contracts/readiness.py: the result of a probe, the worst state of each subject, the one verdict.
use morphogenesis.Base.{
  ℕ, Bool, true, false, not, ◌&&◌, ◌||◌, ◌==◌, ltb, leb, Option, none, some, List, [], ◌∷◌,
  if◌then◌else◌, length, all, any, map,
}
use morphogenesis.Equality.{nat_eq, list_same}

pub data ProbeSubject : Type 0 where
  machine interface account : ProbeSubject

pub data ProbeState : Type 0 where
  not_run ok degraded blocked failed : ProbeState

-- `_SEVERITY`
abbrev pub severity : ProbeState → ℕ
severity ProbeState.ok = 0
severity ProbeState.not_run = 1
severity ProbeState.degraded = 2
severity ProbeState.blocked = 3
severity ProbeState.failed = 4

abbrev pub subject_eq : ProbeSubject → ProbeSubject → Bool
subject_eq ProbeSubject.machine ProbeSubject.machine = true
subject_eq ProbeSubject.interface ProbeSubject.interface = true
subject_eq ProbeSubject.account ProbeSubject.account = true
subject_eq _ _ = false

-- `ProbeResult`; an identity is its code points, and evidence the list of its values, each its
-- code points. A detail is one of the texts of the service, which are short.
pub record ProbeResult : Type 0 where
  pub probe_id : List ℕ
  pub subject : ProbeSubject
  pub state : ProbeState
  pub observed : Bool
  pub detail : ℕ
  pub evidence : List (List ℕ)
  pub notes : List ℕ

-- `state == …`; the severities of two states are different
abbrev pub is_state : ProbeState → ProbeState → Bool
is_state a b = severity a == severity b

-- `validate_observation` returns
unfoldable pub validate_observation : ProbeResult → Bool
validate_observation r =
    all (λ v. leb (length v) 200) r.evidence
    && (if is_state r.state ProbeState.not_run then not r.observed else r.observed)

-- The bounds of the field `probe_id`.
abbrev pub is_bounded_id : List ℕ → Bool
is_bounded_id id = leb 1 (length id) && leb (length id) 64

-- Building a `ProbeResult` checks its fields, then runs `validate_observation`.
unfoldable pub validate_result : ProbeResult → Bool
unfolding validate_observation
validate_result r = is_bounded_id r.probe_id && validate_observation r

-- The dictionary of `dimension_states` while it is filled.
abbrev pub Observed : Type 0
Observed = ProbeSubject → Option ProbeState

abbrev pub worse : Option ProbeState → ProbeState → Option ProbeState
worse none new = some new
worse (some current) new = if ltb (severity current) (severity new) then some new else some current

abbrev pub observe : Observed → ProbeResult → Observed
observe o r s = if subject_eq r.subject s then worse (o s) r.state else o s

unfoldable pub observe_all : Observed → List ProbeResult → Observed
observe_all o [] = o
observe_all o (r ∷ rs) = observe_all (observe o r) rs

abbrev pub or_not_run : Option ProbeState → ProbeState
or_not_run none = ProbeState.not_run
or_not_run (some st) = st

-- `dimension_states`
unfoldable pub dimension_states : List ProbeResult → ProbeSubject → ProbeState
unfolding observe_all
dimension_states rs s = or_not_run (observe_all (λ _. none) rs s)

-- `overall_state`, of the states of the three subjects
unfoldable pub overall_of : ProbeState → ProbeState → ProbeState → ProbeState
overall_of a b c =
    if is_state a ProbeState.not_run
      && (is_state b ProbeState.not_run && is_state c ProbeState.not_run)
    then ProbeState.not_run
    else if is_state a ProbeState.failed
        || (is_state b ProbeState.failed || is_state c ProbeState.failed)
    then ProbeState.failed
    else if is_state a ProbeState.blocked
        || (is_state b ProbeState.blocked || is_state c ProbeState.blocked)
    then ProbeState.blocked
    else if is_state a ProbeState.degraded
        || (is_state b ProbeState.degraded || is_state c ProbeState.degraded)
    then ProbeState.degraded
    else if is_state a ProbeState.not_run
        || (is_state b ProbeState.not_run || is_state c ProbeState.not_run)
    then ProbeState.degraded
    else ProbeState.ok

unfoldable pub overall_state : (ProbeSubject → ProbeState) → ProbeState
unfolding overall_of
overall_state d =
    overall_of (d ProbeSubject.machine) (d ProbeSubject.interface) (d ProbeSubject.account)

-- `EnvironmentReport`
pub record EnvironmentReport : Type 0 where
  pub generated_at : ℕ
  pub overall : ProbeState
  pub dimensions : ProbeSubject → ProbeState
  pub results : List ProbeResult
  pub notes : List ℕ

abbrev pub distinct_ids : List (List ℕ) → Bool
distinct_ids [] = true
distinct_ids (x ∷ xs) = not (any (λ y. list_same x y) xs) && distinct_ids xs

abbrev pub agree : (ProbeSubject → ProbeState) → (ProbeSubject → ProbeState) → Bool
agree d e =
    is_state (d ProbeSubject.machine) (e ProbeSubject.machine)
    && (is_state (d ProbeSubject.interface) (e ProbeSubject.interface)
        && is_state (d ProbeSubject.account) (e ProbeSubject.account))

-- `validate_aggregate` returns
unfoldable pub validate_aggregate : EnvironmentReport → Bool
unfolding dimension_states overall_state
validate_aggregate r =
    agree r.dimensions (dimension_states r.results)
    && (is_state r.overall (overall_state (dimension_states r.results))
        && distinct_ids (map (λ x. x.probe_id) r.results))
