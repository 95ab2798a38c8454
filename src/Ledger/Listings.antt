-- ===== src/Ledger/Listings.antt =====
-- What a ledger lists: `get`, `snapshot`, `leases`, `audit`; and `fenced`, a short transaction of the
-- caller's own under a lease.
use morphogenesis.Base.{
  ℕ, Bool, false, not, ◌&&◌, ◌||◌, List, [], ◌∷◌, ltb, leb, ◌==◌, map, where_rows, first_n,
  ordered_by, reversed_onto,
}
use morphogenesis.Ledger.Types.{Status, Lease, TaskRow, AuditRow}
use morphogenesis.Ledger.Monad.{
  Env, Error, Action, pure, gets, or_raise, ◌>>=◌, ◌>>◌, raise_if, transaction,
}
use morphogenesis.Ledger.Store.{TaskRecord, record_of, status_eq, row, owned}

abbrev bad_limit : ℕ → Bool
bad_limit limit = not (leb 1 limit && leb limit 10000)

-- `ORDER BY created_at, task_id`
abbrev older : TaskRow → TaskRow → Bool
older a b =
    ltb a.created_at b.created_at || (a.created_at == b.created_at && ltb a.task_id b.task_id)

-- `snapshot`
unfoldable pub snapshot : ℕ → Action (List TaskRecord)
snapshot limit = do
  raise_if (bad_limit limit) Error.value_error
  gets (λ s. map (λ r. record_of r s) (first_n limit (ordered_by older s.tasks)))

-- `audit`, the latest rows first
unfoldable pub audit : ℕ → Action (List AuditRow)
audit limit = do
  raise_if (bad_limit limit) Error.value_error
  gets (λ s. first_n limit (reversed_onto s.audit []))

abbrev is_leased : TaskRow → Bool
is_leased r = status_eq r.status Status.claimed || status_eq r.status Status.submitting

module _ (env : Env) where
  -- `get`
  unfoldable pub get : ℕ → Action TaskRecord
  unfolding row
  get task_id = do r ← row env task_id; gets (record_of r)

  -- The lease of a row; a row without an owner or an expiry is no `Lease`.
  unfoldable pub lease_of : TaskRow → Action Lease
  lease_of r = do
    worker_id ← or_raise r.owner Error.value_error
    expires_at ← or_raise r.expiry Error.value_error
    pure (record {
      task_id = r.task_id;
      swarm_id = env.swarm_id;
      scope = r.scope;
      worker_id = worker_id;
      token = r.token;
      expires_at = expires_at;
    })

  unfoldable pub leases_of : List TaskRow → Action (List Lease)
  unfolding lease_of
  leases_of [] = pure []
  leases_of (r ∷ rs) = do lease ← lease_of r; others ← leases_of rs; pure (lease ∷ others)

  -- `leases`
  unfoldable pub leases : Action (List Lease)
  unfolding leases_of
  leases = do rows ← gets (λ s. first_n 10000 (where_rows is_leased s.tasks)); leases_of rows

  -- `fenced`: the caller's body is run between two checks, and is handed a third.
  unfoldable pub fenced : {A : Type 0} → Lease → (Action TaskRow → Action A) → Action A
  unfolding owned
  fenced lease body = transaction (do
    owned env false lease
    answer ← body (owned env false lease)
    owned env false lease
    pure answer)
