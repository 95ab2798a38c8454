-- ===== src/Research/Opportunities.antt =====
-- `ResearchPolicy.opportunities`: the share of each branch in a fixed pool. The arithmetic on
-- floating-point numbers is a parameter. The version and `total_share`, which are the same in
-- every plan, are left out.
use morphogenesis.Base.{
  ℕ, ◌+◌, Bool, true, false, not, ◌&&◌, ◌||◌, ◌==◌, Option, none, some, List, [], ◌∷◌, ◌++◌,
  if◌then◌else◌, length, map, where_rows, is_some,
}
use morphogenesis.Equality.{nat_eq}
use morphogenesis.Table.{Table, get, merge}
use morphogenesis.Contracts.{Raised, Tried}
use morphogenesis.Research.Policy.{BranchStatus, Weights, Branch}

pub record Arithmetic (F : Type 0) : Type 0 where
  pub zero_point : F
  pub one_point : F
  pub of_count : ℕ → F
  pub add : F → F → F
  pub sum : List F → F
  pub minus : F → F → F
  pub times : F → F → F
  pub divide : F → F → F
  pub less : F → F → Bool
  pub is_zero : F → Bool

pub data RouteReason : Type 0 where
  out_of_scope refuted_under_conditions archived dormant inapplicable : RouteReason
  eligible insufficient_evidence unknown_cost : RouteReason
  no_branches no_eligible_branch : RouteReason

-- `factors`
pub record Factors (F : Type 0) : Type 0 where
  pub evidence : F
  pub insufficient_evidence : F
  pub applicability : F
  pub goal_relevance : F
  pub risk : F
  pub support_count : F
  pub refute_count : F
  pub exploration_floor : F

pub record RouteOpportunity (F : Type 0) : Type 0 where
  pub branch_id : ℕ
  pub eligible : Bool
  pub share : F
  pub factors : Option (Factors F)
  pub known_cost : Option F
  pub supported_by : List ℕ
  pub refuted_by : List ℕ
  pub reasons : List RouteReason

pub record RouteOpportunityPlan (F : Type 0) : Type 0 where
  pub exploration_fraction : F
  pub opportunities : List (RouteOpportunity F)
  pub reasons : List RouteReason

module _ {F : Type 0} (ops : Arithmetic F) where
  -- Why a branch has no opportunity.
  abbrev pub by_status : BranchStatus → Bool → Option RouteReason
  by_status BranchStatus.refuted nil = some RouteReason.refuted_under_conditions
  by_status BranchStatus.archived nil = some RouteReason.archived
  by_status BranchStatus.dormant nil = some RouteReason.dormant
  by_status _ true = some RouteReason.inapplicable
  by_status _ false = none

  unfoldable pub closed_reason : Branch (Weights F) → Option RouteReason
  closed_reason b =
      if not b.authorized
      then some RouteReason.out_of_scope
      else by_status b.status (ops.is_zero b.weights.applicability)

  abbrev pub is_open : Branch (Weights F) → Bool
  is_open b = not (is_some (closed_reason b))

  abbrev pub cost_of : RouteReason → Option F → Option F
  cost_of RouteReason.out_of_scope cost = none
  cost_of _ cost = cost

  abbrev pub closed : Branch (Weights F) → RouteReason → RouteOpportunity F
  closed b reason = record {
    branch_id = b.branch_id;
    eligible = false;
    share = ops.zero_point;
    factors = none;
    known_cost = cost_of reason b.weights.known_cost;
    supported_by = b.supported_by;
    refuted_by = b.refuted_by;
    reasons = reason ∷ [];
  }

  -- `_evidence`
  unfoldable pub evidence : Branch (Weights F) → F
  evidence b =
      ops.divide (ops.of_count (1 + length b.supported_by))
        (ops.of_count (2 + length b.supported_by + length b.refuted_by))

  -- `_value`
  unfoldable pub value : Branch (Weights F) → F
  unfolding evidence
  value b =
      ops.times
        (ops.times (ops.times (evidence b) b.weights.applicability) b.weights.goal_relevance)
        (ops.minus ops.one_point b.weights.risk)

  -- `min(1.0, max(0.0, x))`
  abbrev pub clamp : F → F
  clamp x =
      let y = if ops.less ops.zero_point x then x else ops.zero_point in
      if ops.less y ops.one_point then y else ops.one_point

  unfoldable pub share_of : F → F → F → F → F
  share_of exploration floor value_sum v =
      let value_share =
        if ops.less ops.zero_point value_sum then ops.divide v value_sum else ops.zero_point in
      clamp (
        ops.add (ops.times (ops.minus ops.one_point exploration) value_share)
          (ops.times exploration floor))

  abbrev pub open_reasons : Branch (Weights F) → List RouteReason
  open_reasons b =
      RouteReason.eligible
      ∷ ((if length b.supported_by == 0 && length b.refuted_by == 0
            then RouteReason.insufficient_evidence ∷ []
            else [])
          ++ (if is_some b.weights.known_cost then [] else RouteReason.unknown_cost ∷ []))

  unfoldable pub opened : F → F → F → F → Branch (Weights F) → RouteOpportunity F
  unfolding share_of evidence
  opened exploration floor value_sum v b = record {
    branch_id = b.branch_id;
    eligible = true;
    share = share_of exploration floor value_sum v;
    factors = some (record {
      evidence = evidence b;
      insufficient_evidence = ops.minus ops.one_point (evidence b);
      applicability = b.weights.applicability;
      goal_relevance = b.weights.goal_relevance;
      risk = b.weights.risk;
      support_count = ops.of_count (length b.supported_by);
      refute_count = ops.of_count (length b.refuted_by);
      exploration_floor = floor;
    });
    known_cost = b.weights.known_cost;
    supported_by = b.supported_by;
    refuted_by = b.refuted_by;
    reasons = open_reasons b;
  }

  -- The first loop: the opportunities of the closed branches.
  abbrev pub add_closed :
      Option RouteReason
      → Branch (Weights F)
      → List (RouteOpportunity F)
      → List (RouteOpportunity F)
  add_closed none b rest = rest
  add_closed (some reason) b rest = closed b reason ∷ rest

  abbrev pub closed_all : List (Branch (Weights F)) → List (RouteOpportunity F)
  closed_all [] = []
  closed_all (b ∷ bs) = add_closed (closed_reason b) b (closed_all bs)

  -- `{op.branch_id: op for op in opportunities}`
  abbrev pub by_id :
      List (RouteOpportunity F) → Table ℕ (RouteOpportunity F) → Table ℕ (RouteOpportunity F)
  by_id [] rows = rows
  by_id (o ∷ os) rows = by_id os (merge o.branch_id o rows)

  abbrev pub cons_found :
      Option (RouteOpportunity F)
      → Tried (List (RouteOpportunity F))
      → Tried (List (RouteOpportunity F))
  cons_found none rest = Tried.failed Raised.key_error
  cons_found (some o) (Tried.failed e) = Tried.failed e
  cons_found (some o) (Tried.done os) = Tried.done (o ∷ os)

  abbrev pub in_order :
      Table ℕ (RouteOpportunity F) → List (Branch (Weights F)) → Tried (List (RouteOpportunity F))
  in_order rows [] = Tried.done []
  in_order rows (b ∷ bs) = cons_found (get b.branch_id rows) (in_order rows bs)

  abbrev pub planned :
      F → List RouteReason → Tried (List (RouteOpportunity F)) → Tried (RouteOpportunityPlan F)
  planned exploration reasons (Tried.failed e) = Tried.failed e
  planned exploration reasons (Tried.done os) =
      Tried.done
        (record { exploration_fraction = exploration; opportunities = os; reasons = reasons })

  abbrev pub total_value : List (Branch (Weights F)) → F
  total_value bs = ops.sum (map value (where_rows is_open bs))

  abbrev pub floor_of : List (Branch (Weights F)) → F
  floor_of bs = ops.divide ops.one_point (ops.of_count (length (where_rows is_open bs)))

  -- The guard of the second loop.
  abbrev pub is_shut : BranchStatus → Bool
  is_shut BranchStatus.refuted = true
  is_shut BranchStatus.archived = true
  is_shut BranchStatus.dormant = true
  is_shut _ = false

  unfoldable pub is_skipped : Branch (Weights F) → Bool
  is_skipped b = not b.authorized || (is_shut b.status || ops.is_zero b.weights.applicability)

  -- `values[eligible_index:]` after a branch
  abbrev pub values_after : Bool → List F → List F
  values_after true vs = vs
  values_after false [] = []
  values_after false (v ∷ vs) = vs

  -- `values[eligible_index]`
  abbrev pub valued :
      List F
      → (F → RouteOpportunity F)
      → Tried (List (RouteOpportunity F))
      → Tried (List (RouteOpportunity F))
  valued [] make rest = Tried.failed Raised.index_error
  valued (v ∷ vs) make (Tried.failed e) = Tried.failed e
  valued (v ∷ vs) make (Tried.done os) = Tried.done (make v ∷ os)

  -- The second loop, given the values that it has not used: the opportunities of the open branches.
  unfoldable pub opened_from :
      F → F → F → List F → List (Branch (Weights F)) → Tried (List (RouteOpportunity F))
  unfolding opened is_skipped
  opened_from exploration floor value_sum vs [] = Tried.done []
  opened_from exploration floor value_sum vs (b ∷ bs) =
      let rest = opened_from exploration floor value_sum (values_after (is_skipped b) vs) bs in
      if is_skipped b then rest else valued vs (λ v. opened exploration floor value_sum v b) rest

  abbrev pub ordered :
      F
      → List (Branch (Weights F))
      → Tried (List (RouteOpportunity F))
      → Tried (RouteOpportunityPlan F)
  ordered exploration bs (Tried.failed e) = Tried.failed e
  ordered exploration bs (Tried.done os) =
      planned exploration [] (in_order (by_id (closed_all bs ++ os) []) bs)

  unfoldable pub plan_open :
      F → List (Branch (Weights F)) → List (Branch (Weights F)) → Tried (RouteOpportunityPlan F)
  unfolding opened_from value
  plan_open exploration bs [] =
      planned exploration (RouteReason.no_eligible_branch ∷ []) (Tried.done (closed_all bs))
  plan_open exploration bs (e ∷ es) = ordered exploration bs (
      opened_from exploration (floor_of bs) (total_value bs) (map value (where_rows is_open bs)) bs)

  -- `opportunities`
  unfoldable pub opportunities : F → List (Branch (Weights F)) → Tried (RouteOpportunityPlan F)
  unfolding plan_open
  opportunities exploration [] = planned exploration (RouteReason.no_branches ∷ []) (Tried.done [])
  opportunities exploration (b ∷ bs) = plan_open exploration (b ∷ bs) (where_rows is_open (b ∷ bs))
