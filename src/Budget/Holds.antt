-- ===== src/Budget/Holds.antt =====
-- What the calls of the budget do to the holds and to the swarm's stop.
use morphogenesis.Base.{
  ⊤, ℕ, ◌+◌, ◌≤◌, ◌≡◌, refl, sym, ap, ◌∙◌, inl, inr, Bool, true, false, Bool-cases, Option, none,
  some, List, arith, ltb, if◌then◌else◌, subst, some_inj, none≢some, if_true, if_false,
}
use morphogenesis.Budget.Types.{
  BudgetPolicy, Reservation, HoldStatus, ReportedUsage, HoldRow, StopReason, Account,
  reservation_eq, hold_status_eq,
}
use morphogenesis.Budget.Snapshot.{
  has_status, find_hold, same_body, stored, trip, worse, priority, estimate,
}
use morphogenesis.Budget.Settle.{
  storable, conflicting, uncertain_row, costless_row, settled_row, write_hold, trip_if,
  check_bounds, violated, charge, settle_row, settle, reject_row, mark_unknown_rejection,
}
use morphogenesis.Budget.Book.{
  commitment, committed, IsSound, IsBook, KeepsReservation, find-IsSound, total-update, Book-update,
}

-- A stop never weakens.
abbrev pub IsStopKept : Option StopReason → Option StopReason → Type 0
IsStopKept none after = ⊤
IsStopKept (some stop) after =
    (stop' : StopReason) × (after ≡ some stop') × (priority stop ≤ priority stop')

-- What a call may do: the rows stay a book, nothing that is committed is given back, and a stop
-- stays.
pub record Kept (before after : Account) : Type 0 where
  pub book : IsBook before.holds → IsBook after.holds
  pub holds : IsBook before.holds → committed before.holds ≤ committed after.holds
  pub stop : IsStopKept before.breaker after.breaker

pub IsStopKept-refl : (b : Option StopReason) → IsStopKept b b
IsStopKept-refl none = _
IsStopKept-refl (some s) = (s, refl, omega arith)

IsStopKept-trans : (a b c : Option StopReason) → IsStopKept a b → IsStopKept b c → IsStopKept a c
IsStopKept-trans none b c h k = _
IsStopKept-trans (some s) none c (t, e, l) k = cc
IsStopKept-trans (some s) (some t) c (t', e, l) (u, f, m) =
    let same_stop : priority t ≡ priority t' = ap priority (some_inj e) in (u, f, omega arith)

pub Kept-refl : (a : Account) → Kept a a
Kept-refl a = record { book = λ b. b; holds = λ b. omega arith; stop = IsStopKept-refl a.breaker }

pub Kept-trans : (a b c : Account) → Kept a b → Kept b c → Kept a c
Kept-trans a b c h k = record {
  book = λ x. k.book (h.book x);
  holds = λ x. let l = h.holds x in let m = k.holds (h.book x) in omega arith;
  stop = IsStopKept-trans a.breaker b.breaker c.breaker h.stop k.stop;
}

worse-kept : (reason : StopReason) (b : Option StopReason) → IsStopKept b (worse reason b)
worse-kept reason none = _
worse-kept reason (some s) = elim (Bool-cases (ltb (priority s) (priority reason))) [
  | inl y ↦ rw y (reason, refl, ground arith)
  | inr n ↦ rw n (s, refl, omega arith)
]

trip-Kept : (reason : StopReason) (a : Account) → Kept a (trip reason a)
unfolding trip
trip-Kept reason a = record {
  book = λ b. b;
  holds = λ b. omega arith;
  stop = worse-kept reason a.breaker;
}

trip_if-Kept : (b : Bool) (reason : StopReason) (a : Account) → Kept a (trip_if b reason a)
trip_if-Kept true reason a = trip-Kept reason a
trip_if-Kept false reason a = Kept-refl a

check_bounds-Kept :
    (policy : BudgetPolicy) (reservation : Reservation) (u : ReportedUsage) (e : Option ℕ)
    (a : Account)
    → Kept a (check_bounds policy reservation u e a)
check_bounds-Kept policy reservation u e a = elim (Bool-cases (violated policy reservation u e)) [
  | inl y ↦ rw y (trip-Kept _ a)
  | inr n ↦ rw n (trip_if-Kept _ _ a)
]

-- A write of the pending hold that the reservation names.
write_hold-Kept :
    (reservation : Reservation) (change : HoldRow → HoldRow) (r : HoldRow) (a : Account)
    → find_hold reservation.reservation_id a.holds ≡ some r
    → KeepsReservation change
    → (IsSound r → IsSound (change r))
    → (IsSound r → commitment r ≤ commitment (change r))
    → Kept a (write_hold reservation change a)
write_hold-Kept reservation change r a found keeps sound grows = record {
  book = λ b.
      Book-update reservation.reservation_id change a.holds keeps
        (λ q e.
          let same_row : r ≡ q = some_inj (sym found ∙ e) in
          subst (λ z. IsSound (change z)) same_row
            (sound (find-IsSound reservation.reservation_id a.holds r b found)))
        b;
  holds = λ b.
      let sum = total-update reservation.reservation_id change a.holds r b found in
      let more = grows (find-IsSound reservation.reservation_id a.holds r b found) in omega arith;
  stop = IsStopKept-refl a.breaker;
}

body_found :
    (reservation : Reservation) (o : Option HoldRow) (r : HoldRow)
    → same_body reservation o ≡ some r
    → (o ≡ some r) × (reservation_eq r.body reservation ≡ true)
body_found reservation none r h = cc
body_found reservation (some q) r h = elim (Bool-cases (reservation_eq q.body reservation)) [
  | inl y ↦
      (let hit = if_true _ _ _ _ h y in
        (hit, subst (λ z. reservation_eq z.body reservation ≡ true) (some_inj hit) y))
  | inr n ↦ absurd (none≢some (if_false _ _ _ _ h n))
]

stored-found :
    (reservation : Reservation) (rows : List HoldRow) (r : HoldRow)
    → stored reservation rows ≡ some r
    → (find_hold reservation.reservation_id rows ≡ some r)
      × (reservation_eq r.body reservation ≡ true)
unfolding stored
stored-found reservation rows r h =
    body_found reservation (find_hold reservation.reservation_id rows) r h

eq-amount :
    (a b : Reservation)
    → reservation_eq a b ≡ true
    → a.reserved_estimate_usd ≡ b.reserved_estimate_usd
unfolding reservation_eq
eq-amount a b h = ground arith

-- The hold after each of the three writes.
uncertain-IsSound : (now : ℕ) (r : HoldRow) → IsSound r → IsSound (uncertain_row now r)
uncertain-IsSound now r s = record { amount = s.amount; unadmitted = λ h. cc }

pending-commitment :
    (r : HoldRow)
    → IsSound r
    → has_status HoldStatus.pending r ≡ true
    → commitment r ≡ r.reserved_usd
pending-commitment r s h = rw (s.unadmitted h) (go r.status h)
  where
    go :
        (status : HoldStatus)
        → hold_status_eq status HoldStatus.pending ≡ true
        → (if hold_status_eq status HoldStatus.settled then 0 else r.reserved_usd) + 0
          ≡ r.reserved_usd
    go HoldStatus.pending h = omega arith
    go HoldStatus.settled h = cc
    go HoldStatus.uncertain h = cc
    go HoldStatus.unknown_cost_allowed h = cc

held :
    (b : Bool) (n m c : ℕ)
    → c ≡ n
    → c
      ≤ (if hold_status_eq
            (if b then HoldStatus.unknown_cost_allowed else HoldStatus.uncertain)
            HoldStatus.settled
          then 0
          else n)
        + m
held true n m c h = omega arith
held false n m c h = omega arith

charge-Kept :
    (policy : BudgetPolicy) (reservation : Reservation) (now : ℕ) (u : Option ReportedUsage)
    (r : HoldRow) (a : Account)
    → stored reservation a.holds ≡ some r
    → has_status HoldStatus.pending r ≡ true
    → Kept a (charge policy reservation now u a)
charge-Kept policy reservation now none r a e pend =
    let write =
      write_hold-Kept reservation (uncertain_row now) r a (stored-found reservation a.holds r e).0
        (λ q. refl) (uncertain-IsSound now r)
        (λ s. let c = pending-commitment r s pend in omega arith) in
    Kept-trans a _ _ write (trip_if-Kept _ _ _)
charge-Kept policy reservation now (some u) r a e pend =
    go (estimate policy u.prompt_tokens u.completion_tokens) refl
  where
    go :
        (cost : Option ℕ)
        → estimate policy u.prompt_tokens u.completion_tokens ≡ cost
        → Kept a (charge policy reservation now (some u) a)
    go none h = rw h (
        Kept-trans a _ _
          (write_hold-Kept reservation (costless_row policy now u) r a
            (stored-found reservation a.holds r e).0 (λ q. refl)
            (λ s. record { amount = s.amount; unadmitted = λ p. s.unadmitted pend })
            (λ s. let c = pending-commitment r s pend in held policy.allow_unknown_cost _ _ _ c))
          (Kept-trans _ _ _ (trip_if-Kept _ _ _) (check_bounds-Kept policy reservation u none _)))
    go (some cost) h = rw h (
        Kept-trans a _ _
          (write_hold-Kept reservation (settled_row reservation now u cost) r a
            (stored-found reservation a.holds r e).0 (λ q. refl)
            (λ s. record { amount = s.amount; unadmitted = λ p. cc })
            (λ s.
              let c = pending-commitment r s pend in
              let body = eq-amount r.body reservation (stored-found reservation a.holds r e).1 in
              let column = s.amount in ground arith))
          (check_bounds-Kept policy reservation u (some cost) _))

settle_row-Kept :
    (policy : BudgetPolicy) (reservation : Reservation) (now : ℕ) (u : Option ReportedUsage)
    (o : Option HoldRow) (a a' : Account)
    → stored reservation a'.holds ≡ o
    → Kept a a'
    → Kept a (settle_row policy reservation now u o a a').1
unfolding settle_row
settle_row-Kept policy reservation now u none a a' e k = Kept-refl a
settle_row-Kept policy reservation now u (some r) a a' e k =
    elim (Bool-cases (has_status HoldStatus.pending r)) [
      | inl y ↦ elim (Bool-cases (ltb now reservation.created_at)) [
        | inl early ↦ rw (y, early) (Kept-refl a)
        | inr late ↦
            rw (y, late) (Kept-trans a a' _ k (charge-Kept policy reservation now u r a' e y))
      ]
      | inr n ↦ elim (Bool-cases (conflicting r.settlement u)) [
        | inl c ↦ rw (n, c) (Kept-refl a)
        | inr c ↦ rw (n, c) k
      ]
    ]

trip_if-holds :
    (b : Bool) (reason : StopReason) (a : Account) → (trip_if b reason a).holds ≡ a.holds
unfolding trip
trip_if-holds true reason a = refl
trip_if-holds false reason a = refl

-- However a settlement ends, errors included: nothing that was committed is given back, the
-- reservations stay sound with distinct identities, and the swarm's stop is never lifted or
-- weakened.
pub settle-Kept :
    (policy : BudgetPolicy) (reservation : Reservation) (usage : Option ReportedUsage)
    (stop_on_provider_error : Bool) (now : Option ℕ) (account : Account)
    → Kept account (settle policy reservation usage stop_on_provider_error now account).1
unfolding settle
settle-Kept policy reservation usage stop none account = Kept-refl account
settle-Kept policy reservation usage stop (some now) account =
    settle_row-Kept policy reservation now (storable usage) (stored reservation account.holds)
      account _
      (ap (stored reservation) (trip_if-holds stop StopReason.provider_http_error account))
      (trip_if-Kept stop StopReason.provider_http_error account)

reject_row-Kept :
    (policy : BudgetPolicy) (reservation : Reservation) (now : ℕ) (o : Option HoldRow) (a : Account)
    → stored reservation a.holds ≡ o
    → Kept a (reject_row policy reservation now o a).1
unfolding reject_row
reject_row-Kept policy reservation now none a e = Kept-refl a
reject_row-Kept policy reservation now (some r) a e =
    elim (Bool-cases (has_status HoldStatus.pending r)) [
      | inl y ↦ elim (Bool-cases (ltb now reservation.created_at)) [
        | inl early ↦ rw (y, early) (Kept-refl a)
        | inr late ↦
            rw (y, late)
              (write_hold-Kept reservation (uncertain_row now) r a
                (stored-found reservation a.holds r e).0 (λ q. refl) (uncertain-IsSound now r)
                (λ s. let c = pending-commitment r s y in omega arith))
      ]
      | inr n ↦ rw n (Kept-refl a)
    ]

pub mark_unknown_rejection-Kept :
    (policy : BudgetPolicy) (reservation : Reservation) (now : Option ℕ) (a : Account)
    → Kept a (mark_unknown_rejection policy reservation now a).1
unfolding mark_unknown_rejection
mark_unknown_rejection-Kept policy reservation none a = Kept-refl a
mark_unknown_rejection-Kept policy reservation (some now) a =
    reject_row-Kept policy reservation now (stored reservation a.holds) a refl
