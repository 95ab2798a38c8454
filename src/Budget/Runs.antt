-- ===== src/Budget/Runs.antt =====
-- Any sequence of the calls of the budget, whatever their arguments and however they end.
use morphogenesis.Base.{
  ℕ, ◌≤◌, ◌≡◌, ◌≢◌, refl, sym, ap, ◌∙◌, inl, inr, Bool, ◌||◌, Bool-cases, Option, none, some, List,
  [], ◌∷◌, arith, ◌==◌, subst, none≢some, if_true, if_false, any,
}
use morphogenesis.Budget.Types.{
  BudgetPolicy, ExecutionBound, Reservation, ReportedUsage, StopReason, BlockReason, Account,
  Answer,
}
use morphogenesis.Budget.Snapshot.{with_reservation}
use morphogenesis.Budget.Reserve.{
  admit, pending_row, reserve, reserve_amount, reservation_amount, named,
}
use morphogenesis.Budget.Settle.{settle, mark_unknown_rejection}
use morphogenesis.Budget.Book.{committed, IsBook, total-append, Book-append}
use morphogenesis.Budget.Holds.{
  IsStopKept, IsStopKept-refl, Kept, Kept-refl, Kept-trans, settle-Kept,
  mark_unknown_rejection-Kept,
}
use morphogenesis.Budget.Admission.{Admitted, admit-Admitted}

answered_inj : {A : Type 0} (x y : A) → Answer.answered x ≡ Answer.answered y → x ≡ y
answered_inj x y h = cc

amount-Admitted :
    (policy : BudgetPolicy) (sw rid w t : ℕ) (b : ExecutionBound) (req : ℕ) (now : Option ℕ)
    (amount : Answer ℕ) (q : Reservation) (a a' : Account)
    → reserve_amount policy sw rid w t b req now amount a ≡ (Answer.answered q, a')
    → Admitted policy q a a'
unfolding reserve_amount
amount-Admitted policy sw rid w t b req now (Answer.blocked x n) q a a' h = cc
amount-Admitted policy sw rid w t b req now Answer.value_error q a a' h = cc
amount-Admitted policy sw rid w t b req now Answer.assertion_error q a a' h = cc
amount-Admitted policy sw rid w t b req now Answer.integrity_error q a a' h = cc
amount-Admitted policy sw rid w t b req none (Answer.answered n) q a a' h = cc
amount-Admitted policy sw rid w t b req (some now) (Answer.answered n) q a a' h =
    elim (Bool-cases (req == 0)) [
      | inl y ↦ absurd (bad (ap (λ z. z.0) (if_true (req == 0) _ _ _ h y)))
      | inr n ↦ (admit-Admitted policy _ q _ a a' refl (if_false (req == 0) _ _ _ h n)).1
    ]
  where
    bad : {q : Reservation} → Answer.value_error ≢ Answer.answered q
    bad h = cc

-- A reservation that is admitted finds no stop, a run that has started and not run out, attempts
-- to spare for the swarm and for the task, no request of its name and no pending one of its task;
-- it is charged exactly what it reserves, and with admission control the whole commitment, past
-- and pending, stays within the policy's cost.
pub reserve-Admitted :
    (policy : BudgetPolicy) (swarm_id reservation_id worker_id task_id : ℕ) (b : ExecutionBound)
    (request_id now : Option ℕ) (q : Reservation) (a a' : Account)
    → reserve policy swarm_id reservation_id worker_id task_id b request_id now a
      ≡ (Answer.answered q, a')
    → Admitted policy q a a'
unfolding reserve
reserve-Admitted policy sw rid w t b req now q a a' h = elim (Bool-cases ((w == 0) || (t == 0))) [
  | inl y ↦ absurd (bad (ap (λ z. z.0) (if_true ((w == 0) || (t == 0)) _ _ _ h y)))
  | inr n ↦
      amount-Admitted policy sw rid w t b (named req t) now (reservation_amount policy b) q a a'
        (if_false ((w == 0) || (t == 0)) _ _ _ h n)
]
  where
    bad : {q : Reservation} → Answer.value_error ≢ Answer.answered q
    bad h = cc

admit-Kept :
    (policy : BudgetPolicy) (r : Reservation) (o : Option (BlockReason × ℕ)) (a : Account)
    → Kept a (admit policy r o a).1
unfolding admit
admit-Kept policy r (some (x, n)) a = Kept-refl a
admit-Kept policy r none a = elim (Bool-cases (any (with_reservation r.reservation_id) a.holds)) [
  | inl y ↦ rw y (Kept-refl a)
  | inr n ↦ rw n (record {
    book = λ b.
        Book-append (pending_row r) a.holds n (record { amount = refl; unadmitted = λ h. refl }) b;
    holds = λ b. let sum = total-append (pending_row r) a.holds in omega arith;
    stop = IsStopKept-refl a.breaker;
  })
]

amount-Kept :
    (policy : BudgetPolicy) (sw rid w t : ℕ) (b : ExecutionBound) (req : ℕ) (now : Option ℕ)
    (amount : Answer ℕ) (a : Account)
    → Kept a (reserve_amount policy sw rid w t b req now amount a).1
unfolding reserve_amount
amount-Kept policy sw rid w t b req now (Answer.blocked x n) a = Kept-refl a
amount-Kept policy sw rid w t b req now Answer.value_error a = Kept-refl a
amount-Kept policy sw rid w t b req now Answer.assertion_error a = Kept-refl a
amount-Kept policy sw rid w t b req now Answer.integrity_error a = Kept-refl a
amount-Kept policy sw rid w t b req none (Answer.answered n) a = Kept-refl a
amount-Kept policy sw rid w t b req (some now) (Answer.answered n) a =
    elim (Bool-cases (req == 0)) [
      | inl y ↦ rw y (Kept-refl a)
      | inr n ↦ rw n (admit-Kept policy _ _ a)
    ]

reserve-Kept :
    (policy : BudgetPolicy) (sw rid w t : ℕ) (b : ExecutionBound) (req now : Option ℕ) (a : Account)
    → Kept a (reserve policy sw rid w t b req now a).1
unfolding reserve
reserve-Kept policy sw rid w t b req now a = elim (Bool-cases ((w == 0) || (t == 0))) [
  | inl y ↦ rw y (Kept-refl a)
  | inr n ↦ rw n (amount-Kept policy sw rid w t b _ now _ a)
]

-- A call of the budget ledger with its arguments.
pub data BudgetCall : Type 0 where
  reserves :
      (swarm_id reservation_id worker_id task_id : ℕ) (b : ExecutionBound)
      (request_id now : Option ℕ)
      → BudgetCall
  settles :
      (reservation : Reservation) (usage : Option ReportedUsage) (stop_on_provider_error : Bool)
      (now : Option ℕ)
      → BudgetCall
  rejects : (reservation : Reservation) (now : Option ℕ) → BudgetCall

-- The account after a call, whether it returns or raises, and after several.
unfoldable pub run_call : BudgetPolicy → BudgetCall → Account → Account
run_call policy (BudgetCall.reserves sw rid w t b req now) a =
    (reserve policy sw rid w t b req now a).1
run_call policy (BudgetCall.settles reservation usage stop now) a =
    (settle policy reservation usage stop now a).1
run_call policy (BudgetCall.rejects reservation now) a =
    (mark_unknown_rejection policy reservation now a).1

unfoldable pub run_calls : BudgetPolicy → List BudgetCall → Account → Account
run_calls policy [] a = a
run_calls policy (c ∷ cs) a = run_calls policy cs (run_call policy c a)

call-Kept : (policy : BudgetPolicy) (c : BudgetCall) (a : Account) → Kept a (run_call policy c a)
unfolding run_call
call-Kept policy (BudgetCall.reserves sw rid w t b req now) a =
    reserve-Kept policy sw rid w t b req now a
call-Kept policy (BudgetCall.settles reservation usage stop now) a =
    settle-Kept policy reservation usage stop now a
call-Kept policy (BudgetCall.rejects reservation now) a =
    mark_unknown_rejection-Kept policy reservation now a

calls-Kept :
    (policy : BudgetPolicy) (calls : List BudgetCall) (a : Account)
    → Kept a (run_calls policy calls a)
unfolding run_calls
calls-Kept policy [] a = Kept-refl a
calls-Kept policy (c ∷ cs) a =
    Kept-trans a _ _ (call-Kept policy c a) (calls-Kept policy cs (run_call policy c a))

-- Whatever calls follow one another, by whatever workers, on an account whose reservations are
-- sound and have distinct identities: they stay so, the sum that counts against the swarm's
-- capacity never falls, and a stop is never lifted or weakened.
pub holds_never_released :
    (policy : BudgetPolicy) (calls : List BudgetCall) (a : Account)
    → IsBook a.holds
    → IsBook (run_calls policy calls a).holds
      × (committed a.holds ≤ committed (run_calls policy calls a).holds)
      × IsStopKept a.breaker (run_calls policy calls a).breaker
holds_never_released policy calls a book =
    let k = calls-Kept policy calls a in (k.book book, k.holds book, k.stop)

-- Once the swarm is stopped, no reservation is ever admitted again, whatever calls come before it.
pub stop_is_final :
    (policy : BudgetPolicy) (calls : List BudgetCall) (a : Account) (stop : StopReason)
    (swarm_id reservation_id worker_id task_id : ℕ) (b : ExecutionBound) (request_id now : Option ℕ)
    (q : Reservation)
    → a.breaker ≡ some stop
    → (reserve policy swarm_id reservation_id worker_id task_id b request_id now
        (run_calls policy calls a)).0
      ≢ Answer.answered q
stop_is_final policy calls a stop sw rid w t b req now q h answered =
    let after = run_calls policy calls a in
    let kept = subst (λ z. IsStopKept z after.breaker) h (calls-Kept policy calls a).stop in
    let admitted =
      reserve-Admitted policy sw rid w t b req now q after _
        (λ i. (answered i, (reserve policy sw rid w t b req now after).1)) in
    none≢some (sym admitted.unstopped ∙ kept.1)
