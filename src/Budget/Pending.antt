-- ===== src/Budget/Pending.antt =====
-- `pending`: the reservations of a worker that are in flight.
use morphogenesis.Base.{
  ℕ, Bool, not, ◌&&◌, ◌||◌, List, map, ltb, leb, ◌==◌, if◌then◌else◌, where_rows, first_n,
  ordered_by,
}
use morphogenesis.Budget.Types.{HoldRow, HoldStatus, Reservation, Account, Answer, hold_status_eq}

-- `ORDER BY created_at, reservation_id`
abbrev older : HoldRow → HoldRow → Bool
older a b =
    ltb a.created_at b.created_at
    || (a.created_at == b.created_at && ltb a.reservation_id b.reservation_id)

abbrev in_flight : ℕ → HoldRow → Bool
in_flight worker_id r = r.worker_id == worker_id && hold_status_eq r.status HoldStatus.pending

-- `pending`; a blank worker is 0
unfoldable pub pending : ℕ → ℕ → Account → Answer (List Reservation)
pending worker_id limit account =
    if worker_id == 0 || not (leb 1 limit && leb limit 1000)
    then Answer.value_error
    else Answer.answered (
        map (λ r. r.body)
          (first_n limit (ordered_by older (where_rows (in_flight worker_id) account.holds))))
