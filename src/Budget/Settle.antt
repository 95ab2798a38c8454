-- ===== src/Budget/Settle.antt =====
-- `BudgetLedger.settle`, `mark_uncertain` and `mark_unknown_rejection`: what happens to a hold.
use morphogenesis.Base.{
  ℕ, Bool, true, false, not, ◌&&◌, ◌||◌, Option, none, some, ltb, leb, ◌==◌, update_rows, is_some,
  if◌then◌else◌,
}
use morphogenesis.Budget.Types.{
  BudgetPolicy, RequestBound, Reservation, HoldStatus, ReportedUsage, HoldRow, StopReason, Account,
  Answer, request_bound_eq,
}
use morphogenesis.Budget.Snapshot.{
  total, or_zero, has_status, estimate, BudgetSnapshot, snapshot, trip, with_reservation, stored,
}

-- A total that does not fit a signed 64-bit integer is dropped.
abbrev pub storable : Option ReportedUsage → Option ReportedUsage
storable none = none
storable (some u) = if ltb 9223372036854775807 u.total_tokens then none else some u

abbrev usage_eq : ReportedUsage → ReportedUsage → Bool
usage_eq a b =
    a.prompt_tokens == b.prompt_tokens
    && (a.completion_tokens == b.completion_tokens && a.total_tokens == b.total_tokens)

-- Both settlements are known and differ.
abbrev pub conflicting : Option ReportedUsage → Option ReportedUsage → Bool
conflicting (some a) (some b) = not (usage_eq a b)
conflicting _ _ = false

-- The columns that the three UPDATE statements of `settle` write.
abbrev pub uncertain_row : ℕ → HoldRow → HoldRow
uncertain_row now r = record r { status = HoldStatus.uncertain; settled_at = some now }

abbrev pub costless_row : BudgetPolicy → ℕ → ReportedUsage → HoldRow → HoldRow
costless_row policy now u r = record r {
  status =
      if policy.allow_unknown_cost then HoldStatus.unknown_cost_allowed else HoldStatus.uncertain;
  usage_verified = true;
  cost_estimated = false;
  settled_at = some now;
  tokens = some u.total_tokens;
  settlement = some u;
}

abbrev pub settled_row : Reservation → ℕ → ReportedUsage → ℕ → HoldRow → HoldRow
settled_row reservation now u e r = record r {
  status = HoldStatus.settled;
  usage_verified = true;
  cost_estimated = true;
  settled_at = some now;
  tokens = some u.total_tokens;
  estimate_usd = some e;
  settlement = some u;
  admitted_usd =
      some
        (if ltb e reservation.reserved_estimate_usd then reservation.reserved_estimate_usd else e);
}

abbrev pub write_hold : Reservation → (HoldRow → HoldRow) → Account → Account
write_hold reservation change account = record account {
  holds = update_rows (with_reservation reservation.reservation_id) change account.holds;
}

abbrev pub trip_if : Bool → StopReason → Account → Account
trip_if true reason account = trip reason account
trip_if false reason account = account

abbrev exceeds : Option ℕ → ℕ → Bool
exceeds none n = false
exceeds (some e) n = ltb n e

abbrev pub violated : BudgetPolicy → Reservation → ReportedUsage → Option ℕ → Bool
violated policy reservation u e =
    ltb reservation.bound.input_tokens u.prompt_tokens
    || (ltb reservation.bound.max_output_tokens u.completion_tokens
        || (ltb policy.max_tokens u.total_tokens
            || (request_bound_eq reservation.bound.request_bound RequestBound.verified
                && exceeds e reservation.reserved_estimate_usd)))

-- The stop that a settled or costless usage calls for.
abbrev pub check_bounds : BudgetPolicy → Reservation → ReportedUsage → Option ℕ → Account → Account
check_bounds policy reservation u e account =
    if violated policy reservation u e
    then trip
        (if reservation.bound.provider_enforced
          then StopReason.provider_bound_violated
          else StopReason.request_token_limit_exceeded)
        account
    else trip_if
        (is_some e && leb policy.max_cost_usd (total (λ r. or_zero r.estimate_usd) account.holds))
        StopReason.swarm_cost_estimate_exhausted account

-- The rows and the stop after the settlement of a pending hold.
abbrev pub charge : BudgetPolicy → Reservation → ℕ → Option ReportedUsage → Account → Account
charge policy reservation now none account =
    trip_if (not policy.allow_unknown_usage) StopReason.unknown_usage
      (write_hold reservation (uncertain_row now) account)
charge policy reservation now (some u) account =
    priced (estimate policy u.prompt_tokens u.completion_tokens)
  where
    priced : Option ℕ → Account
    priced none = check_bounds policy reservation u none (
        trip_if (not policy.allow_unknown_cost) StopReason.unknown_cost
          (write_hold reservation (costless_row policy now u) account))
    priced (some e) =
        check_bounds policy reservation u (some e)
          (write_hold reservation (settled_row reservation now u e) account)

-- The body of the transaction on the row that `_stored` found; `account'` is the account after the
-- stop on a provider's error.
unfoldable pub settle_row :
    BudgetPolicy
    → Reservation
    → ℕ
    → Option ReportedUsage
    → Option HoldRow
    → Account
    → Account
    → Answer BudgetSnapshot × Account
unfolding snapshot trip estimate
settle_row policy reservation now reported none account account' = (Answer.value_error, account)
settle_row policy reservation now reported (some r) account account' =
    if not (has_status HoldStatus.pending r)
    then if conflicting r.settlement reported
      then (Answer.value_error, account)
      else (Answer.answered (snapshot policy (some reservation.worker_id) now account'), account')
    else if ltb now reservation.created_at
    then (Answer.value_error, account)
    else let after = charge policy reservation now reported account' in
      (Answer.answered (snapshot policy (some reservation.worker_id) now after), after)

-- `settle`; `usage` is what `_usage` returns of the body, `now` is `none` where the clock is invalid
unfoldable pub settle :
    BudgetPolicy
    → Reservation
    → Option ReportedUsage
    → Bool
    → Option ℕ
    → Account
    → Answer BudgetSnapshot × Account
unfolding stored settle_row trip
settle policy reservation usage stop_on_provider_error none account = (Answer.value_error, account)
settle policy reservation usage stop_on_provider_error (some now) account =
    settle_row policy reservation now (storable usage) (stored reservation account.holds) account
      (trip_if stop_on_provider_error StopReason.provider_http_error account)

-- `mark_uncertain`
unfoldable pub mark_uncertain :
    BudgetPolicy → Reservation → Option ℕ → Account → Answer BudgetSnapshot × Account
unfolding settle
mark_uncertain policy reservation now account = settle policy reservation none false now account

unfoldable pub reject_row :
    BudgetPolicy → Reservation → ℕ → Option HoldRow → Account → Answer BudgetSnapshot × Account
unfolding snapshot
reject_row policy reservation now none account = (Answer.value_error, account)
reject_row policy reservation now (some r) account =
    if not (has_status HoldStatus.pending r)
    then (Answer.answered (snapshot policy (some reservation.worker_id) now account), account)
    else if ltb now reservation.created_at
    then (Answer.value_error, account)
    else let after = write_hold reservation (uncertain_row now) account in
      (Answer.answered (snapshot policy (some reservation.worker_id) now after), after)

-- `mark_unknown_rejection`
unfoldable pub mark_unknown_rejection :
    BudgetPolicy → Reservation → Option ℕ → Account → Answer BudgetSnapshot × Account
unfolding stored reject_row
mark_unknown_rejection policy reservation none account = (Answer.value_error, account)
mark_unknown_rejection policy reservation (some now) account =
    reject_row policy reservation now (stored reservation account.holds) account
