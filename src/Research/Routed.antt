-- ===== src/Research/Routed.antt =====
-- Every branch gets its own opportunity, in order (swarm/research/policy.py).
use morphogenesis.Base.{
  ℕ, ◌≡◌, ◌≢◌, refl, ap, ◌∙◌, inl, inr, Bool, true, false, not, ◌&&◌, ◌==◌, Option-cases, Option,
  none, some, List, [], ◌∷◌, ◌++◌, map, where_rows, any, arith,
}
use morphogenesis.Equality.{nat_eq}
use morphogenesis.Table.{Table, get}
use morphogenesis.Contracts.{Tried}
use morphogenesis.Research.Policy.{Weights, Branch}
use morphogenesis.Research.Aligned.{opened_by, opened_all, opened_from-all}
use morphogenesis.Research.Placed.{
  Among, by_id-Last, append-Last, Last-append, opened-Last, closed-unopened, closed-Last,
}
use morphogenesis.Research.Opportunities.{
  Arithmetic, RouteReason, RouteOpportunity, RouteOpportunityPlan, closed_reason, is_open, closed,
  opened, closed_all, by_id, in_order, planned, ordered, total_value, floor_of, plan_open,
}

module _ {F : Type 0} (ops : Arithmetic F) where
  -- The opportunity of a branch, by itself.
  abbrev pub route_by : F → F → F → Branch (Weights F) → Option RouteReason → RouteOpportunity F
  route_by exploration floor total b none = opened_by ops exploration floor total b
  route_by exploration floor total b (some reason) = closed ops b reason

  abbrev pub route : F → List (Branch (Weights F)) → Branch (Weights F) → RouteOpportunity F
  route exploration bs b =
      route_by exploration (floor_of ops bs) (total_value ops bs) b (closed_reason ops b)

  abbrev pub unshared : List (Branch (Weights F)) → List RouteReason
  unshared [] = RouteReason.no_eligible_branch ∷ []
  unshared (b ∷ bs) = []

  -- No two branches have one identity.
  abbrev pub distinct_branches : List (Branch (Weights F)) → Bool
  distinct_branches [] = true
  distinct_branches (c ∷ cs) =
      not (any (λ d. d.branch_id == c.branch_id) cs) && distinct_branches cs

  other_id :
      (k : ℕ) (b : Branch (Weights F)) {bs : List (Branch (Weights F))}
      → any (λ d. d.branch_id == k) bs ≡ false
      → Among ops b bs
      → (k == b.branch_id) ≡ false
  other_id k b h (Among.here {bs} _) = ground arith
  other_id k b h (Among.there {c} {bs} _ a) = other_id k b (ground arith) a

  in_order-map :
      (rows : Table ℕ (RouteOpportunity F)) (r : Branch (Weights F) → RouteOpportunity F)
      (cs : List (Branch (Weights F)))
      → distinct_branches cs ≡ true
      → ((b : Branch (Weights F)) → Among ops b cs → get b.branch_id rows ≡ some (r b))
      → in_order ops rows cs ≡ Tried.done (map r cs)
  in_order-map rows r [] d h = refl
  in_order-map rows r (c ∷ cs) d h =
      let new : any (λ e. e.branch_id == c.branch_id) cs ≡ false = ground arith in
      let rest : distinct_branches cs ≡ true = ground arith in
      rw
        (
          h c (Among.here new),
          in_order-map rows r cs rest (λ b a. h b (Among.there (other_id c.branch_id b new a) a)),
        )
        refl

  all_closed :
      (make : Branch (Weights F) → Option RouteReason → RouteOpportunity F)
      (bs : List (Branch (Weights F)))
      → ((b : Branch (Weights F)) (reason : RouteReason)
          → make b (some reason) ≡ closed ops b reason)
      → where_rows (is_open ops) bs ≡ []
      → closed_all ops bs ≡ map (λ b. make b (closed_reason ops b)) bs
  all_closed make [] m h = refl
  all_closed make (b ∷ bs) m h = by_reason (λ k. all_closed make bs m k) (closed_reason ops b) refl
    where
      filled : {b : Branch (Weights F)} {bs : List (Branch (Weights F))} → b ∷ bs ≢ []
      filled h = cc

      opens :
          closed_reason ops b ≡ none
          → b ∷ where_rows (is_open ops) bs ≡ where_rows (is_open ops) (b ∷ bs)
      opens e = rw e refl

      closes :
          (reason : RouteReason)
          → closed_reason ops b ≡ some reason
          → where_rows (is_open ops) bs ≡ where_rows (is_open ops) (b ∷ bs)
      closes reason e = rw e refl

      by_reason :
          (where_rows (is_open ops) bs ≡ []
            → closed_all ops bs ≡ map (λ c. make c (closed_reason ops c)) bs)
          → (o : Option RouteReason) → closed_reason ops b ≡ o
          → closed_all ops (b ∷ bs) ≡ map (λ c. make c (closed_reason ops c)) (b ∷ bs)
      by_reason rest none e = absurd (filled (opens e ∙ h))
      by_reason rest (some reason) e =
          rw (e, m b reason) (ap (λ z. closed ops b reason ∷ z) (rest (closes reason e ∙ h)))

  found-route :
      (exploration : F) (bs : List (Branch (Weights F))) (b : Branch (Weights F))
      → Among ops b bs
      → get b.branch_id (by_id ops (closed_all ops bs ++ opened_all ops exploration bs) [])
        ≡ some (route exploration bs b)
  unfolding opened
  found-route exploration bs b a = elim (Option-cases (closed_reason ops b)) [
    | inl e ↦ rw e (
        by_id-Last ops b.branch_id _ [] (
          append-Last ops b.branch_id _ (closed_all ops bs) (
            opened-Last ops (opened_by ops exploration (floor_of ops bs) (total_value ops bs))
              (λ c. refl) b (rw e refl) a)))
    | inr (reason, e) ↦ rw e (
        by_id-Last ops b.branch_id (closed ops b reason) [] (
          Last-append ops b.branch_id (closed ops b reason) (opened_all ops exploration bs)
            (closed-Last ops b reason e a)
            (closed-unopened ops (opened_by ops exploration (floor_of ops bs) (total_value ops bs))
              (λ c. refl) b (rw e refl) a)))
  ]

  abbrev pub plan_of :
      F → List (RouteOpportunity F) → List (Branch (Weights F)) → RouteOpportunityPlan F
  plan_of exploration os sharing_ = record {
    exploration_fraction = exploration;
    opportunities = os;
    reasons = unshared sharing_;
  }

  pub plan_open-route :
      (exploration : F) (bs os : List (Branch (Weights F)))
      → where_rows (is_open ops) bs ≡ os
      → distinct_branches bs ≡ true
      → plan_open ops exploration bs os
        ≡ Tried.done (plan_of exploration (map (route exploration bs) bs) os)
  unfolding plan_open
  plan_open-route exploration bs [] e d =
      ap (λ os. Tried.done (plan_of exploration os []))
        (all_closed (route_by exploration (floor_of ops bs) (total_value ops bs)) bs
          (λ b reason. refl) e)
  plan_open-route exploration bs (x ∷ xs) e d =
      ap (ordered ops exploration bs)
        (opened_from-all ops exploration (floor_of ops bs) (total_value ops bs) bs)
      ∙ ap (planned ops exploration []) (
          in_order-map (by_id ops (closed_all ops bs ++ opened_all ops exploration bs) [])
            (route exploration bs) bs d (λ b a. found-route exploration bs b a))
