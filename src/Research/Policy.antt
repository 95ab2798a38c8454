-- ===== src/Research/Policy.antt =====
-- `ResearchPolicy`: `dedup_keys`, `accept`, `apply_correction`, `new_condition_branch`.
use morphogenesis.Base.{
  ℕ, suc, Bool, true, false, not, ◌||◌, ◌==◌, Option, none, some, List, [], ◌∷◌, if◌then◌else◌, any,
}
use morphogenesis.Contracts.{Raised, Tried}

pub data ExecutionState : Type 0 where
  not_run running succeeded failed cancelled unknown : ExecutionState

pub data HypothesisState : Type 0 where
  not_evaluated supported refuted inconclusive disputed : HypothesisState

pub data ContributionState : Type 0 where
  proposed accepted rejected superseded : ContributionState

pub data BranchStatus : Type 0 where
  proposed exploring testing supported disputed dormant refuted archived : BranchStatus

pub data CorrectionKind : Type 0 where
  sleep downgrade reopen : CorrectionKind

-- `ThreeAxisResult`; the fields that the policy only copies are one number
pub record ThreeAxisResult : Type 0 where
  pub result_id : ℕ
  pub actor : ℕ
  pub source_ref : ℕ
  pub execution : ExecutionState
  pub hypothesis : HypothesisState
  pub contribution : ContributionState
  pub context : ℕ

-- `applicability`, `goal_relevance`, `risk` and `known_cost` of a branch.
pub record Weights (F : Type 0) : Type 0 where
  pub applicability : F
  pub goal_relevance : F
  pub risk : F
  pub known_cost : Option F

-- `Branch`, with weights of any type, since corrections only copy them
pub record Branch (W : Type 0) : Type 0 where
  pub branch_id : ℕ
  pub status : BranchStatus
  pub conditions : ℕ
  pub parent_id : Option ℕ
  pub authorized : Bool
  pub supported_by : List ℕ
  pub refuted_by : List ℕ
  pub weights : W

pub record CorrectionEvent : Type 0 where
  pub event_id : ℕ
  pub branch_id : ℕ
  pub kind : CorrectionKind
  pub reason : ℕ
  pub source_ref : ℕ
  pub actor : ℕ
  pub at : ℕ

pub data Reason : Type 0 where
  self_approval_rejected execution_not_succeeded no_scientific_conclusion duplicate_contribution :
      Reason
  independent_evidence_accepted : Reason

pub record ContributionDecision : Type 0 where
  pub accepted : Bool
  pub state : ContributionState
  pub reason : Reason

-- "result:" and "source:" with what follows them
pub data DedupKey : Type 0 where
  result : ℕ → DedupKey
  source : ℕ → DedupKey

abbrev pub key_eq : DedupKey → DedupKey → Bool
key_eq (DedupKey.result a) (DedupKey.result b) = a == b
key_eq (DedupKey.source a) (DedupKey.source b) = a == b
key_eq _ _ = false

abbrev pub seen_key : DedupKey → List DedupKey → Bool
seen_key k = any (key_eq k)

-- `dedup_keys`
abbrev pub dedup_keys : ThreeAxisResult → DedupKey × DedupKey
dedup_keys r = (DedupKey.result r.result_id, DedupKey.source r.source_ref)

abbrev pub is_done : ExecutionState → Bool
is_done ExecutionState.succeeded = true
is_done _ = false

abbrev pub is_conclusive : HypothesisState → Bool
is_conclusive HypothesisState.supported = true
is_conclusive HypothesisState.refuted = true
is_conclusive _ = false

abbrev pub reject : Reason → Tried ContributionDecision
reject reason =
    Tried.done (record { accepted = false; state = ContributionState.rejected; reason = reason })

-- `accept`; a blank reviewer is 0, and `seen` is the set that the caller keeps
unfoldable pub accept :
    ThreeAxisResult → ℕ → List DedupKey → Tried ContributionDecision × List DedupKey
accept r reviewer seen =
    if reviewer == 0
    then (Tried.failed Raised.value_error, seen)
    else if reviewer == r.actor
    then (reject Reason.self_approval_rejected, seen)
    else if not (is_done r.execution)
    then (reject Reason.execution_not_succeeded, seen)
    else if not (is_conclusive r.hypothesis)
    then (reject Reason.no_scientific_conclusion, seen)
    else if seen_key (DedupKey.result r.result_id) seen
        || seen_key (DedupKey.source r.source_ref) seen
    then (reject Reason.duplicate_contribution, seen)
    else (
      Tried.done (record {
        accepted = true;
        state = ContributionState.accepted;
        reason = Reason.independent_evidence_accepted;
      }),
      DedupKey.result r.result_id ∷ DedupKey.source r.source_ref ∷ seen,
    )

-- `_DOWNGRADE`
abbrev pub downgraded : BranchStatus → Option BranchStatus
downgraded BranchStatus.supported = some BranchStatus.disputed
downgraded BranchStatus.testing = some BranchStatus.exploring
downgraded BranchStatus.exploring = some BranchStatus.proposed
downgraded BranchStatus.disputed = some BranchStatus.dormant
downgraded BranchStatus.proposed = some BranchStatus.dormant
downgraded BranchStatus.dormant = none
downgraded BranchStatus.refuted = none
downgraded BranchStatus.archived = none

-- The status that a correction leads to, where it does not raise.
abbrev pub asleep : BranchStatus → Option BranchStatus
asleep BranchStatus.dormant = none
asleep BranchStatus.refuted = none
asleep BranchStatus.archived = none
asleep _ = some BranchStatus.dormant

abbrev pub reopened : BranchStatus → Option BranchStatus
reopened BranchStatus.dormant = some BranchStatus.proposed
reopened BranchStatus.archived = some BranchStatus.proposed
reopened _ = none

abbrev pub corrected : CorrectionKind → BranchStatus → Option BranchStatus
corrected CorrectionKind.sleep = asleep
corrected CorrectionKind.downgrade = downgraded
corrected CorrectionKind.reopen = reopened

abbrev pub with_status : {W : Type 0} → Branch W → Option BranchStatus → Tried (Branch W)
with_status b none = Tried.failed Raised.value_error
with_status b (some st) = Tried.done (record b { status = st })

-- `apply_correction`
unfoldable pub apply_correction : {W : Type 0} → Branch W → CorrectionEvent → Tried (Branch W)
apply_correction b e =
    if not (e.branch_id == b.branch_id)
    then Tried.failed Raised.value_error
    else with_status b (corrected e.kind b.status)

-- `new_condition_branch`, with the weights of a new branch
unfoldable pub new_condition_branch : {W : Type 0} → W → Branch W → ℕ → ℕ → Branch W
new_condition_branch fresh_weights b branch_id conditions = record {
  branch_id = branch_id;
  status = BranchStatus.proposed;
  conditions = conditions;
  parent_id = some b.branch_id;
  authorized = b.authorized;
  supported_by = [];
  refuted_by = [];
  weights = fresh_weights;
}

-- Several acceptances with one set of keys.
unfoldable pub accepts : List (ThreeAxisResult × ℕ) → List DedupKey → List DedupKey
accepts [] seen = seen
accepts (c ∷ cs) seen = accepts cs (accept c.0 c.1 seen).1

-- A branch after several corrections, and how many of them were applied; a caller keeps the branch
-- that a correction raises on.
abbrev pub kept_branch : {W : Type 0} → Branch W → Tried (Branch W) → Branch W
kept_branch b (Tried.done b') = b'
kept_branch b (Tried.failed e) = b

abbrev pub applied : {W : Type 0} → Tried (Branch W) → ℕ → ℕ
applied (Tried.done b) n = suc n
applied (Tried.failed e) n = n

unfoldable pub correct_all : {W : Type 0} → List CorrectionEvent → Branch W → ℕ × Branch W
correct_all [] b = (0, b)
correct_all (e ∷ es) b =
    let rest = correct_all es (kept_branch b (apply_correction b e)) in
    (applied (apply_correction b e) rest.0, rest.1)
