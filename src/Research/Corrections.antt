-- ===== src/Research/Corrections.antt =====
-- Where corrections lead.
use morphogenesis.Base.{
  ⊤, ℕ, suc, ◌≤◌, ◌≡◌, refl, subst, inl, inr, Bool, true, false, not, ◌==◌, Bool-cases, Option,
  none, some, List, [], ◌∷◌, all, arith,
}
use morphogenesis.Research.Policy.{
  BranchStatus, CorrectionKind, CorrectionEvent, Branch, downgraded, asleep, corrected, with_status,
  apply_correction, kept_branch, applied, correct_all,
}

-- How many corrections but a reopening a status allows.
abbrev pub steps_left : BranchStatus → ℕ
steps_left BranchStatus.testing = 3
steps_left BranchStatus.exploring = 2
steps_left BranchStatus.supported = 2
steps_left BranchStatus.proposed = 1
steps_left BranchStatus.disputed = 1
steps_left BranchStatus.dormant = 0
steps_left BranchStatus.refuted = 0
steps_left BranchStatus.archived = 0

abbrev pub is_reopening : CorrectionKind → Bool
is_reopening CorrectionKind.reopen = true
is_reopening CorrectionKind.sleep = false
is_reopening CorrectionKind.downgrade = false

abbrev LeftBy : BranchStatus → Option BranchStatus → Type 0
LeftBy st none = ⊤
LeftBy st (some st') = suc (steps_left st') ≤ steps_left st

asleep-LeftBy : (st : BranchStatus) → LeftBy st (asleep st)
asleep-LeftBy BranchStatus.proposed = omega arith
asleep-LeftBy BranchStatus.exploring = omega arith
asleep-LeftBy BranchStatus.testing = omega arith
asleep-LeftBy BranchStatus.supported = omega arith
asleep-LeftBy BranchStatus.disputed = omega arith
asleep-LeftBy BranchStatus.dormant = tt
asleep-LeftBy BranchStatus.refuted = tt
asleep-LeftBy BranchStatus.archived = tt

downgraded-LeftBy : (st : BranchStatus) → LeftBy st (downgraded st)
downgraded-LeftBy BranchStatus.proposed = omega arith
downgraded-LeftBy BranchStatus.exploring = omega arith
downgraded-LeftBy BranchStatus.testing = omega arith
downgraded-LeftBy BranchStatus.supported = omega arith
downgraded-LeftBy BranchStatus.disputed = omega arith
downgraded-LeftBy BranchStatus.dormant = tt
downgraded-LeftBy BranchStatus.refuted = tt
downgraded-LeftBy BranchStatus.archived = tt

corrected-LeftBy :
    (k : CorrectionKind) (st : BranchStatus) → is_reopening k ≡ false → LeftBy st (corrected k st)
corrected-LeftBy CorrectionKind.sleep st h = asleep-LeftBy st
corrected-LeftBy CorrectionKind.downgrade st h = downgraded-LeftBy st
corrected-LeftBy CorrectionKind.reopen st h = cc

with_status-left :
    {W : Type 0} (b : Branch W) (o : Option BranchStatus) (n : ℕ)
    → LeftBy b.status o
    → n ≤ steps_left (kept_branch b (with_status b o)).status
    → applied (with_status b o) n ≤ steps_left b.status
with_status-left b none n l h = h
with_status-left b (some st) n l h = omega arith

apply-left :
    {W : Type 0} (b : Branch W) (e : CorrectionEvent) (n : ℕ)
    → is_reopening e.kind ≡ false
    → n ≤ steps_left (kept_branch b (apply_correction b e)).status
    → applied (apply_correction b e) n ≤ steps_left b.status
unfolding apply_correction
apply-left b e n k h = elim (Bool-cases (e.branch_id == b.branch_id)) [
  | inr m ↦ rw m (subst (λ z. n ≤ steps_left z.status) (other m) h)
  | inl y ↦ rw y (
      with_status-left b (corrected e.kind b.status) n (corrected-LeftBy e.kind b.status k)
        (subst (λ z. n ≤ steps_left z.status) (own y) h))
]
  where
    other : (e.branch_id == b.branch_id) ≡ false → kept_branch b (apply_correction b e) ≡ b
    other m = rw m refl

    own :
        (e.branch_id == b.branch_id) ≡ true
        → kept_branch b (apply_correction b e)
          ≡ kept_branch b (with_status b (corrected e.kind b.status))
    own y = rw y refl

correct_all-left :
    {W : Type 0} (es : List CorrectionEvent) (b : Branch W)
    → all (λ e. not (is_reopening e.kind)) es ≡ true
    → (correct_all es b).0 ≤ steps_left b.status
unfolding correct_all
correct_all-left [] b h = omega arith
correct_all-left (e ∷ es) b h =
    let k : is_reopening e.kind ≡ false = ground arith in
    let rest : all (λ e. not (is_reopening e.kind)) es ≡ true = ground arith in
    apply-left b e (correct_all es (kept_branch b (apply_correction b e))).0 k
      (correct_all-left es (kept_branch b (apply_correction b e)) rest)

steps_bound : (st : BranchStatus) → steps_left st ≤ 3
steps_bound BranchStatus.proposed = omega arith
steps_bound BranchStatus.exploring = omega arith
steps_bound BranchStatus.testing = omega arith
steps_bound BranchStatus.supported = omega arith
steps_bound BranchStatus.disputed = omega arith
steps_bound BranchStatus.dormant = omega arith
steps_bound BranchStatus.refuted = omega arith
steps_bound BranchStatus.archived = omega arith

-- Of any corrections of a branch without a reopening at most three are applied, so repeated
-- downgrading and putting to sleep ends; the others raise and leave the branch.
pub corrections_terminate :
    {W : Type 0} (es : List CorrectionEvent) (b : Branch W)
    → all (λ e. not (is_reopening e.kind)) es ≡ true
    → (correct_all es b).0 ≤ 3
corrections_terminate es b h =
    let l = correct_all-left es b h in let m = steps_bound b.status in omega arith
