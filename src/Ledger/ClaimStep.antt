-- ===== src/Ledger/ClaimStep.antt =====
-- `claim` is one step of a task's life, decided at one reading of the clock.
use morphogenesis.Base.{
  ℕ, ltb, leb, ◌-◌, ◌||◌, ◌+◌, ◌≤◌, ◌≡◌, refl, sym, subst, Bool, true, false, Option, none, some,
  List, [], ◌∷◌, arith, ⊤,
}
use morphogenesis.Ledger.Types.{Status, TaskRow, Text}
use morphogenesis.Ledger.Monad.{
  Env, State, Error, Limit, Action, Result, ok, raised, ◌>>=◌, raise_if,
}
use morphogenesis.Ledger.Store.{find_task, canonical_scope, check_runtime}
use morphogenesis.Ledger.Eligible.{Locality, LocalFilter, local_filter, authorized, eligible}
use morphogenesis.Ledger.Claim.{claimable, grant, grant_if_canonical, claim_transaction, claim}
use morphogenesis.Ledger.Ends.{
  Ends, Ends-now, Ends-raise_if, Ends-event, Ends-modify, Ends-gets, Ends-canonical_scope,
  Ends-bind, tick,
}
use morphogenesis.Ledger.Rows.{find-update, find-task_id}
use morphogenesis.Ledger.Lifecycle.{Move, Effect, Step, transaction-Step}
use morphogenesis.Ledger.Steps.{write-Step, checked-Step}

-- What the SELECT of `claim` has established of the row that it returns.
pub claimable-eligible :
    (env : Env) (task_id : ℕ) (f : LocalFilter) (locality : Locality) (t : ℕ) (s : State)
    {r : TaskRow}
    → claimable env task_id f locality t s ≡ some r
    → (find_task task_id s.tasks ≡ some r) × (eligible env t t s.tasks s.dependencies r ≡ true)
unfolding claimable
claimable-eligible env task_id f locality t s h = ground arith

module _ (env : Env) where
  pub canonical_scope-state : (scope : Text) (s : State) → (canonical_scope env scope s).1 ≡ s
  unfolding canonical_scope ◌>>=◌
  canonical_scope-state scope s = ground arith

  -- A first action that writes nothing.
  pub after_quiet :
      {A B : Type 0} (P : State → Type 0) (m : Action A) (k : A → Action B) (s : State)
      → (m s).1 ≡ s
      → P s
      → ((a : A) → P (k a s).1)
      → P ((m >>= k) s).1
  unfolding ◌>>=◌
  after_quiet {A} {B} P m k s same stop rest = go (m s) same
    where
      go : (out : Result A × State) → out.1 ≡ s → P (((λ _. out) >>= k) s).1
      go (ok a, s') e = subst (λ z. P (k a z).1) (sym e) (rest a)
      go (raised x, s') e = subst P (sym e) stop

  authorized-state :
      (root : Text) (paths : List Text) (s : State) → (authorized env root paths s).1 ≡ s
  unfolding authorized
  authorized-state root [] s = refl
  authorized-state root (p ∷ ps) s =
      after_quiet (λ z. z ≡ s) _ _ s (canonical_scope-state _ s) refl
        λ path.
          after_quiet (λ z. z ≡ s) _ _ s refl refl
            λ _. after_quiet (λ z. z ≡ s) _ _ s (authorized-state root ps s) refl λ _. refl

  pub local_filter-state : (locality : Locality) (s : State) → (local_filter env locality s).1 ≡ s
  unfolding local_filter
  local_filter-state locality s =
      after_quiet (λ z. z ≡ s) _ _ s refl refl
        λ w.
          after_quiet (λ z. z ≡ s) _ _ s (canonical_scope-state _ s) refl
            λ root. after_quiet (λ z. z ≡ s) _ _ s (authorized-state root _ s) refl λ _. refl

  module _ {A : Type 0} (n : ℕ) (P : A → State → Type 0) where
    pub Ends-check_runtime :
        (k : ⊤ → Action A) (s : State)
        → n ≤ s.readings
        → Ends n P (k tt (tick s))
        → Ends n P ((check_runtime env >>= k) s)
    unfolding check_runtime
    Ends-check_runtime k s h keep =
        Ends-bind env n P (λ _ s'. s' ≡ tick s) (check_runtime env) k s
          (Ends-gets env n _ _ _ s (
            Ends-now env n _ _ s h λ t _.
              go (ltb t s.started_at || leb env.limits.max_runtime_seconds (t - s.started_at))))
          (λ _ s' e. subst (λ z. Ends n P (k tt z)) (sym e) keep)
      where
        go :
            (b : Bool)
            → Ends n
                (λ _ s'. s' ≡ tick s)
                (raise_if b (Error.run_limit_reached Limit.run_runtime_limit) (tick s))
        go true = omega arith
        go false = refl

  abbrev granted : TaskRow → ℕ → ℕ → ℕ → TaskRow → TaskRow
  granted r worker_id ttl t q = record q {
    status = Status.claimed;
    attempts = q.attempts + 1;
    token = r.token + 1;
    owner = some worker_id;
    expiry = some (t + ttl);
    updated_at = t;
  }

  -- The two readings before it are those of `_check_runtime` and of `claim` itself.
  pub grant-Step :
      (r : TaskRow) (worker_id ttl t : ℕ) (s : State)
      → env.clock (s.readings + 1) ≡ some t
      → find_task r.task_id s.tasks ≡ some r
      → eligible env t t s.tasks s.dependencies r ≡ true
      → Ends s.readings (λ _ s'. Step env s s') (grant env r worker_id ttl t (tick (tick s)))
  unfolding grant
  grant-Step r worker_id ttl t s reading found can = Ends-modify env _ _ _ _ _ (
      Ends-modify env _ _ _ _ _ (
        Ends-modify env _ _ _ _ _ (
          Ends-event env _ _ _ _ _ _ (omega arith) λ a.
            write-Step env s _ r.task_id r (granted r worker_id ttl t) t (omega arith)
              (record {
                index = s.readings + 1;
                from = omega arith;
                below = omega arith;
                reading = reading;
              })
              found (λ q. refl) (Move.claims worker_id ttl can refl)
              (λ j. find-update j r.task_id (granted r worker_id ttl t) s.tasks r (λ q. refl) found)
              refl)))

  grant_if_canonical-Step :
      (found : Option TaskRow) (worker_id ttl t : ℕ) (s : State)
      → env.clock (s.readings + 1) ≡ some t
      → ((r : TaskRow)
          → found ≡ some r
          → (find_task r.task_id s.tasks ≡ some r)
            × (eligible env t t s.tasks s.dependencies r ≡ true))
      → Ends s.readings
          (λ _ s'. Step env s s')
          (grant_if_canonical env found worker_id ttl t (tick (tick s)))
  unfolding grant_if_canonical
  grant_if_canonical-Step none worker_id ttl t s reading ok' = record {
    later = omega arith;
    effect = Effect.idle (λ j. refl) refl;
  }
  grant_if_canonical-Step (some r) worker_id ttl t s reading ok' =
      Ends-canonical_scope env _ _ _ _ _ (omega arith) λ scope.
        Ends-raise_if env _ _ _ _ _ _ (omega arith) λ same.
          Ends-bind env _ _ _ _ _ _
            (grant-Step r worker_id ttl t s reading (ok' r refl).0 (ok' r refl).1) (λ _ s' h. h)

  pub claim-Step :
      (task_id worker_id ttl : ℕ) (locality : Locality) (s : State)
      → Step env s (claim env task_id worker_id ttl locality s).1
  unfolding claim claim_transaction
  claim-Step task_id worker_id ttl locality s = checked-Step env _ _ _ s (
      checked-Step env _ _ _ s (
        after_quiet (Step env s) _ _ s (local_filter-state locality s)
          (record { later = omega arith; effect = Effect.idle (λ j. refl) refl })
          λ f. transaction-Step env _ s (
            Ends-check_runtime _ _ _ s (omega arith) (
              Ends-gets env _ _ _ _ _ (
                Ends-raise_if env _ _ _ _ _ _ (omega arith) λ below.
                  Ends-now env _ _ _ _ (omega arith) λ t reading. Ends-gets env _ _ _ _ _ (
                    grant_if_canonical-Step _ worker_id ttl t s reading λ r e.
                      let (found, can) =
                        claimable-eligible env task_id f locality t (tick (tick s)) e in
                      (
                        subst (λ k. find_task k s.tasks ≡ some r)
                            (sym (find-task_id task_id s.tasks r found)) found,
                        can,
                      )))))))
