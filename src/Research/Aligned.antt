-- ===== src/Research/Aligned.antt =====
-- The second loop of `ResearchPolicy.opportunities` (swarm/research/policy.py) has its own guard and
-- walks the list of values: it skips what the first loop closed, and reads each branch's own value.
use morphogenesis.Base.{
  ◌≡◌, refl, ◌∙◌, inl, inr, Bool, true, false, not, ◌||◌, Bool-cases, List, [], ◌∷◌, map,
  where_rows, is_some, arith,
}
use morphogenesis.Contracts.{Tried}
use morphogenesis.Research.Policy.{BranchStatus, Weights, Branch}
use morphogenesis.Research.Opportunities.{
  Arithmetic, RouteOpportunity, by_status, closed_reason, is_open, value, opened, is_shut,
  is_skipped, opened_from, floor_of, total_value,
}

module _ {F : Type 0} (ops : Arithmetic F) where
  -- The opportunity of an open branch, by its own value.
  abbrev pub opened_by : F → F → F → Branch (Weights F) → RouteOpportunity F
  opened_by exploration floor total b = opened ops exploration floor total (value ops b) b

  abbrev pub opened_all : F → List (Branch (Weights F)) → List (RouteOpportunity F)
  opened_all exploration bs =
      map (opened_by exploration (floor_of ops bs) (total_value ops bs))
        (where_rows (is_open ops) bs)

  guard_lem :
      (status : BranchStatus) (nil : Bool)
      → (is_shut ops status || nil) ≡ is_some (by_status ops status nil)
  guard_lem BranchStatus.refuted nil = refl
  guard_lem BranchStatus.archived nil = refl
  guard_lem BranchStatus.dormant nil = refl
  guard_lem BranchStatus.proposed true = refl
  guard_lem BranchStatus.proposed false = refl
  guard_lem BranchStatus.exploring true = refl
  guard_lem BranchStatus.exploring false = refl
  guard_lem BranchStatus.testing true = refl
  guard_lem BranchStatus.testing false = refl
  guard_lem BranchStatus.supported true = refl
  guard_lem BranchStatus.supported false = refl
  guard_lem BranchStatus.disputed true = refl
  guard_lem BranchStatus.disputed false = refl

  skipped-closed : (b : Branch (Weights F)) → is_skipped ops b ≡ is_some (closed_reason ops b)
  unfolding is_skipped closed_reason
  skipped-closed b = elim (Bool-cases b.authorized) [
    | inl y ↦ rw y (guard_lem b.status (ops.is_zero b.weights.applicability))
    | inr n ↦ rw n refl
  ]

  skipped_if : (b : Branch (Weights F)) (c : Bool) → is_open ops b ≡ not c → is_skipped ops b ≡ c
  skipped_if b c h = skipped-closed b ∙ flip (is_some (closed_reason ops b)) c h
    where
      flip : (x c : Bool) → not x ≡ not c → x ≡ c
      flip x c h = ground arith

  pub opened_from-all :
      (exploration floor total : F) (bs : List (Branch (Weights F)))
      → opened_from ops exploration floor total (map (value ops) (where_rows (is_open ops) bs)) bs
        ≡ Tried.done (map (opened_by exploration floor total) (where_rows (is_open ops) bs))
  unfolding opened_from
  opened_from-all exploration floor total [] = refl
  opened_from-all exploration floor total (b ∷ bs) =
      let rest = opened_from-all exploration floor total bs in
      elim (Bool-cases (is_open ops b)) [
        | inl y ↦ rw (y, skipped_if b false y, rest) refl
        | inr n ↦ rw (n, skipped_if b true n) rest
      ]
