-- ===== src/Tests/OfResearch.antt =====
-- The theorems of the research policy applied to one result and one branch.
use morphogenesis.Base.{
  ◌+◌, ◌-◌, ◌*◌, ◌==◌, ltb, map, ℕ, ◌≤◌, ◌≡◌, refl, inr, true, false, none, List, [], ◌∷◌,
}
use Prim.Native.Nat.{◌/◌}
use morphogenesis.Research.Policy.{
  ExecutionState, HypothesisState, ContributionState, BranchStatus, CorrectionKind, ThreeAxisResult,
  Weights, Branch, CorrectionEvent, accept, accepts, apply_correction, correct_all,
}
use morphogenesis.Contracts.{Tried}
use morphogenesis.Research.Opportunities.{
  Arithmetic, RouteOpportunityPlan, opportunities, plan_open, opened, opened_from, is_skipped,
  share_of, value, evidence, closed_reason,
}
use morphogenesis.Research.Expected.{expected}
use morphogenesis.Research.Suggested.{remarks, opportunities-expected}
use morphogenesis.Research.Accepting.{is_accepted, Independent, accept_once}
use morphogenesis.Research.Corrections.{corrections_terminate}

abbrev finding : ℕ → ThreeAxisResult
finding n = record {
  result_id = n;
  actor = 4;
  source_ref = 9;
  execution = ExecutionState.succeeded;
  hypothesis = HypothesisState.refuted;
  contribution = ContributionState.proposed;
  context = 0;
}

accept_test : is_accepted (accept (finding 1) 5 []).0 ≡ true
unfolding accept
accept_test = refl

accept_once_example :
    Independent (finding 1) 5
    × (is_accepted
          (accept (finding 2) 6 (accepts ((finding 3, 7) ∷ []) (accept (finding 1) 5 []).1)).0
        ≡ false)
accept_once_example =
    accept_once (finding 1) 5 [] ((finding 3, 7) ∷ []) (finding 2) 6 accept_test (inr refl)

abbrev branch : BranchStatus → Branch ℕ
branch status = record {
  branch_id = 1;
  status = status;
  conditions = 0;
  parent_id = none;
  authorized = true;
  supported_by = [];
  refuted_by = [];
  weights = 0;
}

abbrev correction : CorrectionKind → CorrectionEvent
correction kind = record {
  event_id = 2;
  branch_id = 1;
  kind = kind;
  reason = 3;
  source_ref = 4;
  actor = 5;
  at = 6;
}

abbrev downgrades : List CorrectionEvent
downgrades =
    correction CorrectionKind.downgrade
    ∷ correction CorrectionKind.downgrade
    ∷ correction CorrectionKind.downgrade
    ∷ correction CorrectionKind.sleep
    ∷ []

downgrades_test :
    correct_all downgrades (branch BranchStatus.testing) ≡ (3, branch BranchStatus.dormant)
unfolding correct_all apply_correction
downgrades_test = refl

corrections_terminate_example : (correct_all downgrades (branch BranchStatus.testing)).0 ≤ 3
corrections_terminate_example = corrections_terminate downgrades (branch BranchStatus.testing) refl

-- Thousandths as the weights.
abbrev sum_of : List ℕ → ℕ
sum_of [] = 0
sum_of (x ∷ xs) = x + sum_of xs

abbrev thousandths : Arithmetic ℕ
thousandths = record {
  zero_point = 0;
  one_point = 1000;
  of_count = λ n. n * 1000;
  add = λ a b. a + b;
  sum = λ xs. sum_of xs;
  minus = λ a b. a - b;
  times = λ a b. a * b / 1000;
  divide = λ a b. a * 1000 / b;
  less = λ a b. ltb a b;
  is_zero = λ a. a == 0;
}

abbrev weighted : ℕ → BranchStatus → Branch (Weights ℕ)
weighted id status = record {
  branch_id = id;
  status = status;
  conditions = 0;
  parent_id = none;
  authorized = true;
  supported_by = 3 ∷ [];
  refuted_by = [];
  weights = record { applicability = 1000; goal_relevance = 1000; risk = 0; known_cost = none };
}

abbrev branches : List (Branch (Weights ℕ))
branches =
    weighted 1 BranchStatus.refuted
    ∷ weighted 2 BranchStatus.testing
    ∷ weighted 3 BranchStatus.testing
    ∷ []

opportunities-expected_example :
    opportunities thousandths 200 branches
    ≡ Tried.done (record {
      exploration_fraction = 200;
      opportunities = map (expected thousandths 200 branches) branches;
      reasons = remarks thousandths branches;
    })
opportunities-expected_example = opportunities-expected thousandths 200 branches refl

abbrev shares : Tried (RouteOpportunityPlan ℕ) → List ℕ
shares (Tried.failed e) = []
shares (Tried.done plan) = map (λ o. o.share) plan.opportunities

shares_test : shares (opportunities thousandths 200 branches) ≡ 0 ∷ 500 ∷ 500 ∷ []
unfolding opportunities plan_open opened_from is_skipped opened share_of value evidence
    closed_reason
shares_test = refl
