-- ===== src/Research/Suggested.antt =====
-- The plan of `ResearchPolicy.opportunities` (swarm/research/policy.py) is the one described.
use morphogenesis.Base.{
  ◌≡◌, refl, ap, ◌∙◌, Bool, true, false, not, Option, none, some, List, [], ◌∷◌, map, where_rows,
  length, is_some, if◌then◌else◌,
}
use morphogenesis.Equality.{nat_eq}
use morphogenesis.Contracts.{Tried}
use morphogenesis.Research.Policy.{BranchStatus, Weights, Branch}
use morphogenesis.Research.Expected.{why, why_not, sharing, told_cost, expected_by, expected}
use morphogenesis.Research.Routed.{
  route_by, route, distinct_branches, plan_of, unshared, plan_open-route,
}
use morphogenesis.Research.Opportunities.{
  Arithmetic, RouteReason, by_status, closed_reason, is_open, cost_of, opened, share_of, value,
  evidence, opportunities,
}

module _ {F : Type 0} (ops : Arithmetic F) where
  -- What a plan says of all of its branches.
  abbrev pub remarks : List (Branch (Weights F)) → List RouteReason
  remarks [] = RouteReason.no_branches ∷ []
  remarks (b ∷ bs) = unshared ops (sharing ops (b ∷ bs))

  -- The description by the status of a branch, and the guards of the code.
  why_lem :
      (authorized : Bool) (status : BranchStatus) (nil : Bool)
      → (if not authorized then some RouteReason.out_of_scope else by_status ops status nil)
        ≡ why ops authorized status nil
  why_lem false status nil = refl
  why_lem true BranchStatus.dormant nil = refl
  why_lem true BranchStatus.refuted nil = refl
  why_lem true BranchStatus.archived nil = refl
  why_lem true BranchStatus.proposed true = refl
  why_lem true BranchStatus.proposed false = refl
  why_lem true BranchStatus.exploring true = refl
  why_lem true BranchStatus.exploring false = refl
  why_lem true BranchStatus.testing true = refl
  why_lem true BranchStatus.testing false = refl
  why_lem true BranchStatus.supported true = refl
  why_lem true BranchStatus.supported false = refl
  why_lem true BranchStatus.disputed true = refl
  why_lem true BranchStatus.disputed false = refl

  closed_reason-why : (b : Branch (Weights F)) → closed_reason ops b ≡ why_not ops b
  unfolding closed_reason
  closed_reason-why b = why_lem b.authorized b.status (ops.is_zero b.weights.applicability)

  open-sharing : (bs : List (Branch (Weights F))) → where_rows (is_open ops) bs ≡ sharing ops bs
  open-sharing bs = λ i. where_rows (λ b. not (is_some (closed_reason-why b i))) bs

  cost_lem :
      (reason : RouteReason) (cost : Option F) → cost_of ops reason cost ≡ told_cost ops reason cost
  cost_lem RouteReason.out_of_scope cost = refl
  cost_lem RouteReason.refuted_under_conditions cost = refl
  cost_lem RouteReason.archived cost = refl
  cost_lem RouteReason.dormant cost = refl
  cost_lem RouteReason.inapplicable cost = refl
  cost_lem RouteReason.eligible cost = refl
  cost_lem RouteReason.insufficient_evidence cost = refl
  cost_lem RouteReason.unknown_cost cost = refl
  cost_lem RouteReason.no_branches cost = refl
  cost_lem RouteReason.no_eligible_branch cost = refl

  route_by-expected :
      (exploration floor total : F) (b : Branch (Weights F)) (o : Option RouteReason)
      → route_by ops exploration floor total b o ≡ expected_by ops exploration floor total b o
  unfolding opened share_of value evidence
  route_by-expected exploration floor total b none = refl
  route_by-expected exploration floor total b (some reason) =
      ap (λ z. record (expected_by ops exploration floor total b (some reason)) { known_cost = z })
        (cost_lem reason b.weights.known_cost)

  route-expected :
      (exploration : F) (bs : List (Branch (Weights F))) (b : Branch (Weights F))
      → route ops exploration bs b ≡ expected ops exploration bs b
  unfolding value evidence
  route-expected exploration bs b =
      (λ i.
        route_by ops exploration
          (ops.divide ops.one_point (ops.of_count (length (open-sharing bs i))))
          (ops.sum (map (value ops) (open-sharing bs i))) b (closed_reason-why b i))
      ∙ route_by-expected exploration _ _ b (why_not ops b)

  map-same :
      {A B : Type 0} (f g : A → B) → ((a : A) → f a ≡ g a) → (xs : List A) → map f xs ≡ map g xs
  map-same f g h [] = refl
  map-same f g h (x ∷ xs) = λ i. h x i ∷ map-same f g h xs i

  -- For branches of different identities a plan is made, with the given exploration fraction. It
  -- holds for each branch, in order, the opportunity that is described for this branch among the
  -- others: none, with the reason, if the branch is not authorized, is refuted, archived or dormant,
  -- or does not apply; and otherwise the share that goes by its worth in the pool, and its part of
  -- the exploration. The plan says whether there are no branches or none that shares the pool.
  pub opportunities-expected :
      (exploration : F) (bs : List (Branch (Weights F)))
      → distinct_branches ops bs ≡ true
      → opportunities ops exploration bs
        ≡ Tried.done (record {
          exploration_fraction = exploration;
          opportunities = map (expected ops exploration bs) bs;
          reasons = remarks bs;
        })
  unfolding opportunities
  opportunities-expected exploration [] d = refl
  opportunities-expected exploration (b ∷ bs) d =
      plan_open-route ops exploration (b ∷ bs) (where_rows (is_open ops) (b ∷ bs)) refl d ∙ (λ i.
        Tried.done (
          plan_of ops exploration
            (map-same (route ops exploration (b ∷ bs)) (expected ops exploration (b ∷ bs))
              (route-expected exploration (b ∷ bs)) (b ∷ bs) i)
            (open-sharing (b ∷ bs) i)))
