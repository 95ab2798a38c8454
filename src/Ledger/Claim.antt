-- ===== src/Ledger/Claim.antt =====
-- `claim`: the atomic acquisition of a task under a fresh fencing token.
use morphogenesis.Base.{
  ℕ, ⊤, ◌+◌, ◌*◌, not, ◌&&◌, Option, none, some, [], ◌∷◌, ◌++◌, ltb, leb, ◌==◌, length, update_rows,
  text_eq, if◌then◌else◌,
}
use morphogenesis.Ledger.Types.{Status, Lease, TaskRow, Event, Outcome}
use morphogenesis.Ledger.Monad.{
  Env, State, Error, Limit, Action, pure, gets, ◌>>=◌, ◌>>◌, raise_if, modify, transaction,
}
use morphogenesis.Ledger.Store.{
  status_eq, find_task, update_task, now, canonical_scope, event, check_runtime,
}
use morphogenesis.Ledger.Eligible.{Locality, LocalFilter, local_filter, is_local, eligible}

module _ (env : Env) where
  -- `_ttl`
  abbrev pub check_ttl : ℕ → Action ⊤
  check_ttl ttl = raise_if (not (ltb 0 ttl && leb ttl (86400 * env.second))) Error.value_error

  -- The row that the SELECT of `claim` returns: the one with the primary key, if it is local and
  -- eligible.
  unfoldable pub claimable : ℕ → LocalFilter → Locality → ℕ → State → Option TaskRow
  unfolding is_local
  claimable task_id f locality t s = elim (find_task task_id s.tasks) [
    | none ↦ none
    | some r ↦
        if is_local locality f s.dependencies r && eligible env t t s.tasks s.dependencies r
        then some r
        else none
  ]

  -- The writes of `claim`, at the reading `t`.
  unfoldable pub grant : TaskRow → ℕ → ℕ → ℕ → Action Lease
  unfolding event
  grant r worker_id ttl t = do
    modify (λ s. record s {
      attempts =
          if status_eq r.status Status.claimed
          then update_rows (λ a. (a.task_id == r.task_id) && (a.token == r.token))
              (λ a. record a { finished_at = some t; outcome = some Outcome.expired }) s.attempts
          else s.attempts;
    })
    let token = r.token + 1
    modify (
        update_task r.task_id λ q. record q {
          status = Status.claimed;
          attempts = q.attempts + 1;
          token = token;
          owner = some worker_id;
          expiry = some (t + ttl);
          updated_at = t;
        })
    modify (λ s. record s {
      attempts =
          s.attempts
          ++ record {
            task_id = r.task_id;
            token = token;
            worker_id = worker_id;
            started_at = t;
            finished_at = none;
            outcome = none;
            evidence = none;
          }
            ∷ [];
    })
    event env (some r.task_id) (Event.claimed worker_id token)
    pure (record {
      task_id = r.task_id;
      swarm_id = env.swarm_id;
      scope = r.scope;
      worker_id = worker_id;
      token = token;
      expires_at = t + ttl;
    })

  unfoldable pub grant_if_canonical : Option TaskRow → ℕ → ℕ → ℕ → Action (Option Lease)
  unfolding grant canonical_scope
  grant_if_canonical none worker_id ttl t = pure none
  grant_if_canonical (some r) worker_id ttl t = do
    scope ← canonical_scope env r.scope
    raise_if (not (text_eq scope r.scope)) Error.lease_lost
    lease ← grant r worker_id ttl t
    pure (some lease)

  unfoldable pub claim_transaction : ℕ → ℕ → ℕ → Locality → LocalFilter → Action (Option Lease)
  unfolding check_runtime now claimable eligible grant_if_canonical
  claim_transaction task_id worker_id ttl locality f = do
    check_runtime env
    attempts ← gets (λ s. length s.attempts)
    raise_if (leb env.limits.max_attempts attempts) (Error.run_limit_reached Limit.max_attempts)
    t ← now env
    found ← gets (claimable task_id f locality t)
    grant_if_canonical found worker_id ttl t

  -- `claim`; the worker's name is 0 if it is blank
  unfoldable pub claim : ℕ → ℕ → ℕ → Locality → Action (Option Lease)
  unfolding local_filter claim_transaction
  claim task_id worker_id ttl locality = do
    check_ttl ttl
    raise_if (worker_id == 0) Error.value_error
    f ← local_filter env locality
    transaction (claim_transaction task_id worker_id ttl locality f)
