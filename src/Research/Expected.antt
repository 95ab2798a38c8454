-- ===== src/Research/Expected.antt =====
-- What a plan of `ResearchPolicy.opportunities` (swarm/research/policy.py) should hold for a branch,
-- told of this branch and of the pool alone: no loop, no index and no dictionary.
use morphogenesis.Base.{
  ◌+◌, Bool, true, false, not, ◌&&◌, ◌==◌, Option, none, some, List, [], ◌∷◌, ◌++◌, if◌then◌else◌,
  length, map, where_rows, is_some,
}
use morphogenesis.Research.Policy.{BranchStatus, Weights, Branch}
use morphogenesis.Research.Opportunities.{Arithmetic, RouteReason, RouteOpportunity}

module _ {F : Type 0} (ops : Arithmetic F) where
  -- Why a branch takes no part: whether it is authorized, its status, whether it does not apply.
  abbrev pub why : Bool → BranchStatus → Bool → Option RouteReason
  why false status inapplicable = some RouteReason.out_of_scope
  why true BranchStatus.dormant inapplicable = some RouteReason.dormant
  why true BranchStatus.refuted inapplicable = some RouteReason.refuted_under_conditions
  why true BranchStatus.archived inapplicable = some RouteReason.archived
  why true BranchStatus.proposed false = none
  why true BranchStatus.exploring false = none
  why true BranchStatus.testing false = none
  why true BranchStatus.supported false = none
  why true BranchStatus.disputed false = none
  why true status true = some RouteReason.inapplicable

  abbrev pub why_not : Branch (Weights F) → Option RouteReason
  why_not b = why b.authorized b.status (ops.is_zero b.weights.applicability)

  -- The branches that share the pool.
  abbrev pub sharing : List (Branch (Weights F)) → List (Branch (Weights F))
  sharing bs = where_rows (λ b. not (is_some (why_not b))) bs

  -- (1 + support) / (2 + support + refute)
  abbrev pub confidence : Branch (Weights F) → F
  confidence b =
      ops.divide (ops.of_count (1 + length b.supported_by))
        (ops.of_count (2 + length b.supported_by + length b.refuted_by))

  abbrev pub worth : Branch (Weights F) → F
  worth b =
      ops.times
        (ops.times (ops.times (confidence b) b.weights.applicability) b.weights.goal_relevance)
        (ops.minus ops.one_point b.weights.risk)

  abbrev pub at_most_one : F → F
  at_most_one x = if ops.less x ops.one_point then x else ops.one_point

  abbrev pub at_least_zero : F → F
  at_least_zero x = if ops.less ops.zero_point x then x else ops.zero_point

  -- What is not explored goes by worth, and what is explored goes to all alike.
  abbrev pub fair_share : F → F → F → F → F
  fair_share exploration floor total mine = at_most_one (
      at_least_zero (
        ops.add
          (ops.times (ops.minus ops.one_point exploration)
            (if ops.less ops.zero_point total then ops.divide mine total else ops.zero_point))
          (ops.times exploration floor)))

  abbrev pub notices : Branch (Weights F) → List RouteReason
  notices b =
      (if length b.supported_by == 0 && length b.refuted_by == 0
        then RouteReason.insufficient_evidence ∷ []
        else [])
      ++ (if is_some b.weights.known_cost then [] else RouteReason.unknown_cost ∷ [])

  abbrev pub told_cost : RouteReason → Option F → Option F
  told_cost RouteReason.out_of_scope cost = none
  told_cost _ cost = cost

  abbrev pub expected_by : F → F → F → Branch (Weights F) → Option RouteReason → RouteOpportunity F
  expected_by exploration floor total b (some reason) = record {
    branch_id = b.branch_id;
    eligible = false;
    share = ops.zero_point;
    factors = none;
    known_cost = told_cost reason b.weights.known_cost;
    supported_by = b.supported_by;
    refuted_by = b.refuted_by;
    reasons = reason ∷ [];
  }
  expected_by exploration floor total b none = record {
    branch_id = b.branch_id;
    eligible = true;
    share = fair_share exploration floor total (worth b);
    factors = some (record {
      evidence = confidence b;
      insufficient_evidence = ops.minus ops.one_point (confidence b);
      applicability = b.weights.applicability;
      goal_relevance = b.weights.goal_relevance;
      risk = b.weights.risk;
      support_count = ops.of_count (length b.supported_by);
      refute_count = ops.of_count (length b.refuted_by);
      exploration_floor = floor;
    });
    known_cost = b.weights.known_cost;
    supported_by = b.supported_by;
    refuted_by = b.refuted_by;
    reasons = RouteReason.eligible ∷ notices b;
  }

  -- The opportunity of a branch among others.
  abbrev pub expected : F → List (Branch (Weights F)) → Branch (Weights F) → RouteOpportunity F
  expected exploration bs b =
      expected_by exploration (ops.divide ops.one_point (ops.of_count (length (sharing bs))))
        (ops.sum (map worth (sharing bs))) b (why_not b)
