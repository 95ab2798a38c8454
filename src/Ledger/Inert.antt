-- ===== src/Ledger/Inert.antt =====
-- What the fenced methods do under a lease that was overtaken.
use morphogenesis.Base.{ℕ, ◌≡◌, ap, true, false, none}
use morphogenesis.Ledger.Types.{TaskKind, Lease, TaskRow}
use morphogenesis.Ledger.Monad.{
  Env, State, Error, Action, Result, ok, raised, ◌>>=◌, settle, transaction, caught, attempt, raise,
}
use morphogenesis.Ledger.Store.{owned}
use morphogenesis.Ledger.Leases.{
  is_valid, release, release_owned, fail, confirm_execution, assert_execution_confirmed,
}
use morphogenesis.Ledger.Publish.{Apply, submit_second}
use morphogenesis.Ledger.Listings.{fenced}
use morphogenesis.Ledger.Runs.{Reach}
use morphogenesis.Ledger.Settled.{IsPast, stale_lease_refused}

module _ {A B : Type 0} where
  bind-raised :
      (m : Action A) (k : A → Action B) (s s' : State) (e : Error)
      → m s ≡ (raised e, s')
      → (m >>= k) s ≡ (raised e, s')
  unfolding ◌>>=◌
  bind-raised m k s s' e h = ap next h
    where
      next : Result A × State → Result B × State
      next r = elim r.0 [ ok a ↦ k a r.1 | raised e ↦ raise e r.1 ]

  bind-ok :
      (m : Action A) (k : A → Action B) (s s' : State) (a : A)
      → m s ≡ (ok a, s')
      → (m >>= k) s ≡ k a s'
  unfolding ◌>>=◌
  bind-ok m k s s' a h = ap next h
    where
      next : Result A × State → Result B × State
      next r = elim r.0 [ ok a ↦ k a r.1 | raised e ↦ raise e r.1 ]

module _ {A : Type 0} where
  transaction-raised :
      (m : Action A) (s : State) (e : Error) → m s ≡ (raised e, s) → transaction m s ≡ (raised e, s)
  unfolding transaction
  transaction-raised m s e h = ap (λ z. settle s z.0 z.1) h

  transaction-ok :
      (m : Action A) (s s' : State) (a : A) → m s ≡ (ok a, s') → transaction m s ≡ (ok a, s')
  unfolding transaction
  transaction-ok m s s' a h = ap (λ z. settle s z.0 z.1) h

  attempt-lost :
      (m : Action A) (s : State) → m s ≡ (raised Error.lease_lost, s) → attempt m s ≡ (ok none, s)
  attempt-lost m s h = ap (λ z. (caught z.0, z.1)) h

module _ (env : Env) where
  -- What every fenced method answers, without a change to any table and without a clock reading.
  pub record Inert (lease : Lease) (s : State) : Type 1 where
    pub invalid : is_valid env lease s ≡ (ok false, s)
    pub unreleased : release env lease s ≡ (ok false, s)
    pub unfailed : (evidence : ℕ) → fail env lease evidence s ≡ (raised Error.lease_lost, s)
    pub unconfirmed :
        (request_id : ℕ) → confirm_execution env lease request_id s ≡ (raised Error.lease_lost, s)
    pub unasserted : assert_execution_confirmed env lease s ≡ (raised Error.lease_lost, s)
    pub unpublished :
        (result_id body : ℕ) (apply : Apply)
        → transaction (submit_second env lease result_id body apply) s
          ≡ (raised Error.lease_lost, s)
    pub unfenced :
        (A : Type 0) (body : Action TaskRow → Action A)
        → fenced env lease body s ≡ (raised Error.lease_lost, s)

  refused-Inert :
      (lease : Lease) (s : State)
      → owned env false lease s ≡ (raised Error.lease_lost, s)
      → owned env true lease s ≡ (raised Error.lease_lost, s)
      → Inert lease s
  unfolding is_valid release release_owned fail confirm_execution assert_execution_confirmed
      submit_second fenced
  refused-Inert lease s h k = record {
    invalid =
        bind-ok (attempt (owned env false lease)) _ s s none
          (attempt-lost (owned env false lease) s h);
    unreleased = transaction-ok _ s s false (
        bind-ok (attempt (owned env false lease)) (release_owned env lease) s s none
          (attempt-lost (owned env false lease) s h));
    unfailed = λ evidence. transaction-raised _ s _ (bind-raised (owned env false lease) _ s s _ h);
    unconfirmed =
        λ request_id. transaction-raised _ s _ (bind-raised (owned env false lease) _ s s _ h);
    unasserted = bind-raised (owned env false lease) _ s s _ h;
    unpublished = λ result_id body apply.
        transaction-raised _ s _ (bind-raised (owned env true lease) _ s s _ k);
    unfenced = λ A body. transaction-raised _ s _ (bind-raised (owned env false lease) _ s s _ h);
  }

  -- Under a lease whose token was overtaken once, and after any further calls: `is_valid` and
  -- `release` answer False, and `fail`, `confirm_execution`, `assert_execution_confirmed`, the
  -- publication of `submit` and a `fenced` block, whatever it does, raise LeaseLost; none of them
  -- changes any table.
  pub stale_lease-Inert :
      (names : TaskKind → ℕ) (s s' : State) (lease : Lease)
      → IsPast lease.task_id lease.token s
      → Reach env names s s'
      → Inert lease s'
  stale_lease-Inert names s s' lease past reach =
      refused-Inert lease s' (stale_lease_refused env names s s' lease false past reach)
        (stale_lease_refused env names s s' lease true past reach)
