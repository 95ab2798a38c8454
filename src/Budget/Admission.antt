-- ===== src/Budget/Admission.antt =====
-- What an admitted reservation guarantees, and what any run of the calls keeps.
use morphogenesis.Base.{
  ⊤, ℕ, ◌+◌, ◌≤◌, ◌<◌, ◌≡◌, ◌≢◌, refl, sym, ap, ◌∙◌, inl, inr, Bool, false, ◌&&◌, ◌||◌, Bool-cases,
  Option, none, some, List, [], ◌∷◌, ◌++◌, arith, leb, ltb, if◌then◌else◌, ◌==◌, subst, none≢some,
  if_true, if_false, any, count, length, is_some, ◌-◌,
}
use morphogenesis.Budget.Types.{
  BudgetPolicy, Reservation, HoldStatus, HoldRow, StopReason, BlockReason, Account, Answer,
}
use morphogenesis.Budget.Snapshot.{
  total, has_status, with_reservation, snapshot, sleep_reason, held_amount, admitted_amount,
}
use morphogenesis.Budget.Reserve.{
  obstacle, admit, pending_row, Check, first_failure, admission_checks,
}
use morphogenesis.Budget.Book.{committed, total-append}

-- What holds of the account in which a reservation was admitted, and of the one that it left.
pub record Admitted (policy : BudgetPolicy) (r : Reservation) (before after : Account)
    : Type 0 where
  pub unstopped : before.breaker ≡ none
  pub started : before.started_at ≤ r.created_at
  pub in_time : r.created_at < before.started_at + policy.limits.max_runtime_seconds
  pub attempts : length before.holds < policy.limits.max_attempts
  pub task_attempts :
      count (λ q. q.task_id == r.task_id) before.holds < policy.limits.max_attempts_per_task
  pub sole :
      any
        (λ q.
          (q.request_id == r.request_id)
          || (q.task_id == r.task_id && has_status HoldStatus.pending q))
        before.holds
      ≡ false
  pub charged : committed after.holds ≡ committed before.holds + r.reserved_estimate_usd
  pub capacity :
      (policy.admission_enabled && ltb policy.max_cost_usd (committed after.holds)) ≡ false

-- Every test passed.
abbrev AllPassed : List Check → Type 0
AllPassed [] = ⊤
AllPassed (c ∷ cs) = (c.0 ≡ false) × AllPassed cs

no_failure : (cs : List Check) → first_failure cs ≡ none → AllPassed cs
no_failure [] h = _
no_failure (c ∷ cs) h = elim (Bool-cases c.0) [
  | inl y ↦ absurd (none≢some (sym (if_true c.0 _ _ _ h y)))
  | inr n ↦ (n, no_failure cs (if_false c.0 _ _ _ h n))
]

total-add :
    (rows : List HoldRow) → total admitted_amount rows + total held_amount rows ≡ committed rows
total-add [] = omega arith
total-add (r ∷ rows) = let rest = total-add rows in omega arith

unstopped_lem :
    (policy : BudgetPolicy) (w now : ℕ) (b : Option StopReason) (a : Account)
    → a.breaker ≡ b
    → is_some (sleep_reason policy (some w) now a) ≡ false
    → b ≡ none
unfolding sleep_reason
unstopped_lem policy w now none a e h = refl
unstopped_lem policy w now (some stop) a e h = ground (arith, e)

obstacle-Admitted :
    (policy : BudgetPolicy) (r : Reservation) (a : Account)
    → obstacle policy r a ≡ none
    → Admitted policy r a (record a { holds = a.holds ++ pending_row r ∷ [] })
unfolding obstacle snapshot
obstacle-Admitted policy r a h =
    let passed = no_failure (admission_checks policy r a) h in
    let time = passed.0 in
    let attempts = passed.1.0 in
    let task = passed.1.1.0 in
    let awake = passed.1.1.1.1.0 in
    let sole = passed.1.1.1.1.1.0 in
    let capacity = passed.1.1.1.1.1.1.1.0 in
    let sum = total-add a.holds in
    let grown = total-append (pending_row r) a.holds in
    record {
      unstopped = unstopped_lem policy r.worker_id r.created_at a.breaker a refl awake;
      started = (in_time _ _ _ time).0;
      in_time = (in_time _ _ _ time).1;
      attempts = ground arith;
      task_attempts = ground arith;
      sole = sole;
      charged = omega arith;
      capacity = room policy.admission_enabled _ _ capacity (omega arith);
    }
  where
    in_time :
        (now start limit : ℕ)
        → (ltb now start || leb limit (now - start)) ≡ false
        → (start ≤ now) × (now < start + limit)
    in_time now start limit h = (ground arith, ground arith)

    room :
        (b : Bool) (limit sum : ℕ) {n : ℕ}
        → (b && ltb limit sum) ≡ false
        → n ≡ sum
        → (b && ltb limit n) ≡ false
    room b limit sum h e = rw e h

admit_lem :
    (policy : BudgetPolicy) (r : Reservation) (a : Account)
    → admit policy r none a ≡ (
        if any (with_reservation r.reservation_id) a.holds
        then (Answer.integrity_error, a)
        else (Answer.answered r, record a { holds = a.holds ++ pending_row r ∷ [] }))
unfolding admit
admit_lem policy r a = refl

pub admit-Admitted :
    (policy : BudgetPolicy) (r q : Reservation) (o : Option (BlockReason × ℕ)) (a a' : Account)
    → obstacle policy r a ≡ o
    → admit policy r o a ≡ (Answer.answered q, a')
    → (r ≡ q) × Admitted policy q a a'
unfolding admit
admit-Admitted policy r q (some x) a a' e h = cc
admit-Admitted policy r q none a a' e h =
    elim (Bool-cases (any (with_reservation r.reservation_id) a.holds)) [
      | inl y ↦ absurd (
          not_answered (
            ap (λ z. z.0)
              (if_true (any (with_reservation r.reservation_id) a.holds) _ _ _
                (sym (admit_lem policy r a) ∙ h) y)))
      | inr n ↦
          (let done =
              if_false (any (with_reservation r.reservation_id) a.holds) _ _ _
                (sym (admit_lem policy r a) ∙ h) n in
            let same_one : r ≡ q = inj (ap (λ z. z.0) done) in
            (
              same_one,
              subst (λ z. Admitted policy z a a') same_one
                  (subst (Admitted policy r a) (ap (λ z. z.1) done)
                    (obstacle-Admitted policy r a e)),
            ))
    ]
  where
    not_answered : {q : Reservation} → Answer.integrity_error ≢ Answer.answered q
    not_answered h = cc

    inj : {x y : Reservation} → Answer.answered x ≡ Answer.answered y → x ≡ y
    inj h = cc
