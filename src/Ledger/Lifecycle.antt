-- ===== src/Ledger/Lifecycle.antt =====
-- The life of a task, apart from how the tables are written: what one transaction may do to the
-- rows that a lookup finds.
use morphogenesis.Base.{
  ℕ, ◌+◌, ◌≤◌, ◌<◌, ◌≡◌, refl, ◌⊎◌, Bool, true, false, Option, none, some, List, ◌++◌, ◌==◌, leb,
  is_some, map, if◌then◌else◌, arith,
}
use morphogenesis.Ledger.Types.{Status, TaskRow, Dependency}
use morphogenesis.Ledger.Monad.{Env, State, Result, ok, raised, Action, transaction, settle}
use morphogenesis.Ledger.Store.{find_task}
use morphogenesis.Ledger.Eligible.{eligible}
use morphogenesis.Ledger.Leases.{status_after, is_fixed, coalesce}
use morphogenesis.Ledger.Ends.{Ends}

-- The row is claimed, and its lease runs beyond `t`.
pub record IsLive (t : ℕ) (r : TaskRow) : Type 0 where
  pub until : ℕ
  pub claimed : r.status ≡ Status.claimed
  pub expiry : r.expiry ≡ some until
  pub after : t < until

-- The row is claimed or being published, and its lease runs beyond `t`.
pub record IsHeldUntil (t : ℕ) (r : TaskRow) : Type 0 where
  pub until : ℕ
  pub state : (r.status ≡ Status.claimed) ⊎ (r.status ≡ Status.submitting)
  pub expiry : r.expiry ≡ some until
  pub after : t < until

-- One change of one row, decided at the reading `t` of the clock.
pub data Move (env : Env) (tasks : List TaskRow) (deps : List Dependency) (t : ℕ) (r r' : TaskRow)
    : Type 0 where
  claims :
      (worker_id ttl : ℕ)
      → eligible env t t tasks deps r ≡ true
      → r' ≡ record r {
        status = Status.claimed;
        attempts = r.attempts + 1;
        token = r.token + 1;
        owner = some worker_id;
        expiry = some (t + ttl);
        updated_at = t;
      }
      → Move env tasks deps t r r'
  renews :
      (until at : ℕ)
      → IsLive t r
      → r' ≡ record r { expiry = some until; updated_at = at }
      → Move env tasks deps t r r'
  ends :
      (at : ℕ)
      → IsLive t r
      → r' ≡ record r { status = status_after env r; owner = none; expiry = none; updated_at = at }
      → Move env tasks deps t r r'
  begins :
      (request_id at : ℕ)
      → IsLive t r
      → r.unconfirmed_request_id ≡ none
      → r' ≡ record r { unconfirmed_request_id = some request_id; updated_at = at }
      → Move env tasks deps t r r'
  confirms :
      (request_id at : ℕ)
      → IsLive t r
      → r.unconfirmed_request_id ≡ some request_id
      → r' ≡ record r { unconfirmed_request_id = none; updated_at = at }
      → Move env tasks deps t r r'
  hands_over :
      (partial : Option ℕ) (at : ℕ)
      → IsLive t r
      → r' ≡ record r {
        status = if is_some partial then Status.partial else Status.handoff;
        owner = none;
        expiry = none;
        result = coalesce partial r.result;
        updated_at = at;
      }
      → Move env tasks deps t r r'
  submits :
      (result_id body at : ℕ)
      → IsLive t r
      → r' ≡ record r {
        status = Status.submitting;
        result_id = some result_id;
        result = some body;
        updated_at = at;
      }
      → Move env tasks deps t r r'
  publishes :
      (result_id body at : ℕ) (effect_applied : Bool)
      → IsHeldUntil t r
      → r' ≡ record r {
        status = Status.completed;
        result_id = some result_id;
        result = some body;
        updated_at = at;
        effect_applied = effect_applied;
      }
      → Move env tasks deps t r r'
  counts :
      (at : ℕ)
      → is_fixed r.status ≡ false
      → r' ≡ record r {
        condition_fail_count = r.condition_fail_count + 1;
        status =
            if leb env.limits.max_attempts_per_task (r.condition_fail_count + 1)
            then Status.blocked
            else r.status;
        updated_at = at;
      }
      → Move env tasks deps t r r'

-- A reading that the transaction from `s` to `s'` took.
pub record IsRead (env : Env) (s s' : State) (t : ℕ) : Type 0 where
  pub index : ℕ
  pub from : s.readings ≤ index
  pub below : index < s'.readings
  pub reading : env.clock index ≡ some t

-- A task as `enqueue` creates it.
pub record IsFresh (r : TaskRow) : Type 0 where
  pub status : r.status ≡ Status.available
  pub attempts : r.attempts ≡ 0
  pub token : r.token ≡ 0
  pub owner : r.owner ≡ none
  pub expiry : r.expiry ≡ none
  pub unconfirmed : r.unconfirmed_request_id ≡ none

abbrev pub depends_on : ℕ → ℕ → Dependency
depends_on task_id d = record { task_id = task_id; dependency_id = d }

pub data Effect (env : Env) (s s' : State) : Type 0 where
  idle :
      ((j : ℕ) → find_task j s'.tasks ≡ find_task j s.tasks)
      → s'.dependencies ≡ s.dependencies
      → Effect env s s'
  moves :
      (k : ℕ) (r r' : TaskRow) (t : ℕ)
      → IsRead env s s' t
      → find_task k s.tasks ≡ some r
      → Move env s.tasks s.dependencies t r r'
      → ((j : ℕ) → find_task j s'.tasks ≡ (if j == k then some r' else find_task j s.tasks))
      → s'.dependencies ≡ s.dependencies
      → Effect env s s'
  creates :
      (r : TaskRow) (deps : List ℕ)
      → find_task r.task_id s.tasks ≡ none
      → IsFresh r
      → ((j : ℕ) → find_task j s'.tasks ≡ (if j == r.task_id then some r else find_task j s.tasks))
      → s'.dependencies ≡ s.dependencies ++ map (depends_on r.task_id) deps
      → Effect env s s'

-- One transaction: the clock does not go back to an earlier reading's number, and at most one row
-- is written.
pub record Step (env : Env) (s s' : State) : Type 0 where
  pub later : s.readings ≤ s'.readings
  pub effect : Effect env s s'

settle-Step :
    (env : Env) {A : Type 0} (s : State) (out : Result A × State)
    → Ends s.readings (λ _ s'. Step env s s') out
    → Step env s (settle s out.0 out.1).1
settle-Step env s (ok a, s') h = h
settle-Step env s (raised e, s') h = record { later = h; effect = Effect.idle (λ j. refl) refl }

-- An exception undoes every write.
pub transaction-Step :
    (env : Env) {A : Type 0} (m : Action A) (s : State)
    → Ends s.readings (λ _ s'. Step env s s') (m s)
    → Step env s (transaction m s).1
unfolding transaction
transaction-Step env m s h = settle-Step env s (m s) h

earlier-Effect :
    (env : Env) {s s' : State} (m : ℕ)
    → m ≤ s.readings
    → Effect env s s'
    → Effect env (record s { readings = m }) s'
earlier-Effect env m h (Effect.idle rows deps) = Effect.idle rows deps
earlier-Effect env m h (Effect.moves k r r' t read found move rows deps) =
    Effect.moves k r r' t
      (record {
        index = read.index;
        from = omega arith;
        below = read.below;
        reading = read.reading;
      })
      found move rows deps
earlier-Effect env m h (Effect.creates r ds new fresh rows deps) =
    Effect.creates r ds new fresh rows deps

-- Readings taken before a transaction change nothing.
pub earlier-Step :
    (env : Env) {s s' : State} (m : ℕ)
    → m ≤ s.readings
    → Step env s s'
    → Step env (record s { readings = m }) s'
earlier-Step env m h st = record {
  later = omega (arith, st.later);
  effect = earlier-Effect env m h st.effect;
}
