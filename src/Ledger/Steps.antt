-- ===== src/Ledger/Steps.antt =====
-- Every transaction on a held task is one step of its life.
use morphogenesis.Base.{
  ℕ, is_some, leb, not, same, sym, subst, ◌+◌, ◌≤◌, ◌≡◌, refl, Bool, true, false, Option, none,
  some, arith, ◌==◌, update_rows, if◌then◌else◌,
}
use morphogenesis.Ledger.Types.{Status, Lease, TaskRow, Outcome}
use morphogenesis.Ledger.Monad.{Env, State, Error, Action, ◌>>=◌, raise_if, gets}
use morphogenesis.Ledger.Store.{record_of, find_task, with_id, holds_state}
use morphogenesis.Ledger.Leases.{
  renew, finish_attempt, release, fail, begin_execution, confirm_execution,
  record_condition_failure, handoff, is_fixed, count_condition,
}
use morphogenesis.Ledger.Ends.{
  Ends, Ends-now, Ends-raise_if, Ends-event, Ends-event_last, Ends-bind, Ends-reread, Ends-modify,
  Ends-gets, Ends-row, Ends-owned, Ends-attempt_owned, IsOwned, IsUnwritten, tick,
}
use morphogenesis.Ledger.Rows.{KeepsId, find-update, find-task_id, matches-Agrees}
use morphogenesis.Ledger.Lifecycle.{IsLive, Move, IsRead, Effect, Step, transaction-Step}

status_of_claimed : (r : TaskRow) → holds_state false r.status ≡ true → r.status ≡ Status.claimed
status_of_claimed r h = ground arith

none_of_absent : (o : Option ℕ) → is_some o ≡ false → o ≡ none
none_of_absent none h = refl
none_of_absent (some a) h = cc

some_of_same : (o : Option ℕ) (a : ℕ) → not (same o (some a)) ≡ false → o ≡ some a
some_of_same o a h = ground arith

module _ (env : Env) where
  pub owned-IsLive :
      {lease : Lease} {s : State} {r : TaskRow} → (o : IsOwned env false lease s r) → IsLive o.at r
  owned-IsLive {lease} {s} {r} o =
      let a = matches-Agrees env false lease r o.matched in
      record {
        until = lease.expires_at;
        claimed = status_of_claimed r a.state;
        expiry = a.expiry;
        after = o.unexpired;
      }

  -- A write that keeps the tables of the steps.
  pub write-Step :
      (s s' : State) (k : ℕ) (r : TaskRow) (change : TaskRow → TaskRow) (t : ℕ)
      → s.readings + 1 ≤ s'.readings
      → IsRead env s s' t
      → find_task k s.tasks ≡ some r
      → KeepsId change
      → Move env s.tasks s.dependencies t r (change r)
      → ((j : ℕ) → find_task j s'.tasks ≡ (if j == k then some (change r) else find_task j s.tasks))
      → s'.dependencies ≡ s.dependencies
      → Step env s s'
  write-Step s s' k r change t later read found keeps move rows deps = record {
    later = omega arith;
    effect = Effect.moves k r (change r) t read found move rows deps;
  }

  -- A row is written where a lease was checked by the first reading.
  pub owned-Step :
      {submitting : Bool} {lease : Lease} {s : State} {r : TaskRow} (s' : State)
      (o : IsOwned env submitting lease s r) (change : TaskRow → TaskRow)
      → KeepsId change
      → Move env s.tasks s.dependencies o.at r (change r)
      → s.readings + 1 ≤ s'.readings
      → s'.tasks ≡ update_rows (with_id lease.task_id) change s.tasks
      → s'.dependencies ≡ s.dependencies
      → Step env s s'
  owned-Step {lease = lease} {s} {r} s' o change keeps move later rows deps = record {
    later = omega arith;
    effect =
        Effect.moves lease.task_id r (change r) o.at
          (record {
            index = s.readings;
            from = omega arith;
            below = omega arith;
            reading = o.reading;
          })
          o.found move (λ j. rw rows (find-update j lease.task_id change s.tasks r keeps o.found))
          deps;
  }

  pub unwritten-Step : {s s' : State} → IsUnwritten s.readings s s' → Step env s s'
  unwritten-Step u = record {
    later = u.later;
    effect = Effect.idle (λ j. rw (u.tasks) refl) u.dependencies;
  }

  pub checked-Step :
      {A : Type 0} (b : Bool) (e : Error) (m : Action A) (s : State)
      → Step env s (m s).1
      → Step env s ((raise_if b e >>= λ _. m) s).1
  unfolding ◌>>=◌
  checked-Step true e m s h = record { later = omega arith; effect = Effect.idle (λ j. refl) refl }
  checked-Step false e m s h = h

  pub renew-Step : (lease : Lease) (ttl : ℕ) (s : State) → Step env s (renew env lease ttl s).1
  unfolding renew
  renew-Step lease ttl s = checked-Step _ _ _ s (
      transaction-Step env _ s (
        Ends-attempt_owned env _ _ lease _ s (omega arith) (λ s' u. unwritten-Step u)
          λ r o. Ends-now env _ _ _ (tick s) (omega arith) λ t reading.
            Ends-now env _ _ _ (tick (tick s)) (omega arith) λ at _. Ends-modify env _ _ _ _ _ (
              Ends-event env _ _ _ _ _ _ (omega arith) λ a.
                owned-Step _ o _ (λ q. refl) (Move.renews _ at (owned-IsLive o) refl) (omega arith)
                  refl refl)))

  pub finish_attempt-Step :
      {lease : Lease} {s : State} {r : TaskRow}
      → (o : IsOwned env false lease s r) (outcome : Outcome) (evidence : ℕ)
      → Ends s.readings
          (λ _ s'. Step env s s')
          (finish_attempt env lease r outcome evidence (tick s))
  unfolding finish_attempt
  finish_attempt-Step o outcome evidence = Ends-now env _ _ _ _ (omega arith) λ at _.
      Ends-modify env _ _ _ _ _ (
        Ends-now env _ _ _ _ (omega arith) λ finished _. Ends-modify env _ _ _ _ _ (
          Ends-event_last env _ _ _ _ _ (omega arith) λ a.
            owned-Step _ o _ (λ q. refl) (Move.ends at (owned-IsLive o) refl) (omega arith) refl
              refl))

  pub release-Step : (lease : Lease) (s : State) → Step env s (release env lease s).1
  unfolding release
  release-Step lease s = transaction-Step env _ s (
      Ends-attempt_owned env _ _ lease _ s (omega arith) (λ s' u. unwritten-Step u)
        λ r o. Ends-bind env _ _ _ _ _ _ (finish_attempt-Step o _ _) (λ _ s' h. h))

  pub fail-Step :
      (lease : Lease) (evidence : ℕ) (s : State) → Step env s (fail env lease evidence s).1
  unfolding fail
  fail-Step lease evidence s = transaction-Step env _ s (
      Ends-owned env _ _ false lease _ s (omega arith) λ r o.
        Ends-bind env _ _ _ _ _ _ (finish_attempt-Step o _ _)
          λ _ s' h. Ends-reread env _ _ _ s' h.later (λ _. h))

  pub begin_execution-Step :
      (lease : Lease) (request_id : ℕ) (max_executions : Option ℕ) (s : State)
      → Step env s (begin_execution env lease request_id max_executions s).1
  unfolding begin_execution
  begin_execution-Step lease request_id max_executions s = checked-Step _ _ _ s (
      checked-Step _ _ _ s (
        transaction-Step env _ s (
          Ends-owned env _ _ false lease _ s (omega arith) λ r o.
            Ends-raise_if env _ _ _ _ _ _ (omega arith) λ idle. Ends-gets env _ _ _ _ _ (
              Ends-raise_if env _ _ _ _ _ _ (omega arith) λ below.
                Ends-now env _ _ _ _ (omega arith) λ at _. Ends-modify env _ _ _ _ _ (
                  Ends-event_last env _ _ _ _ _ (omega arith) λ a.
                    owned-Step _ o _ (λ q. refl)
                      (Move.begins request_id at (owned-IsLive o) (none_of_absent _ idle) refl)
                      (omega arith) refl refl)))))

  pub confirm_execution-Step :
      (lease : Lease) (request_id : ℕ) (s : State)
      → Step env s (confirm_execution env lease request_id s).1
  unfolding confirm_execution
  confirm_execution-Step lease request_id s = transaction-Step env _ s (
      Ends-owned env _ _ false lease _ s (omega arith) λ r o.
        Ends-raise_if env _ _ _ _ _ _ (omega arith) λ matched.
          Ends-now env _ _ _ _ (omega arith) λ at _. Ends-modify env _ _ _ _ _ (
            Ends-event_last env _ _ _ _ _ (omega arith) λ a.
              owned-Step _ o _ (λ q. refl)
                (Move.confirms request_id at (owned-IsLive o) (some_of_same _ _ matched) refl)
                (omega arith) refl refl))

  pub handoff-Step :
      (lease : Lease) (next_worker_id : ℕ) (partial : Option ℕ) (s : State)
      → Step env s (handoff env lease next_worker_id partial s).1
  unfolding handoff
  handoff-Step lease next_worker_id partial s = checked-Step _ _ _ s (
      transaction-Step env _ s (
        Ends-owned env _ _ false lease _ s (omega arith) λ r o.
          Ends-raise_if env _ _ _ _ _ _ (omega arith) λ other.
            Ends-now env _ _ _ _ (omega arith) λ at _. Ends-modify env _ _ _ _ _ (
              Ends-now env _ _ _ _ (omega arith) λ finished _. Ends-modify env _ _ _ _ _ (
                Ends-event env _ _ _ _ _ _ (omega arith) λ a.
                  Ends-reread env _ _ _ _ (omega arith) λ _.
                    owned-Step _ o _ (λ q. refl) (Move.hands_over partial at (owned-IsLive o) refl)
                      (omega arith) refl refl))))

  abbrev counted : TaskRow → ℕ → TaskRow → TaskRow
  counted r at q = record q {
    condition_fail_count = r.condition_fail_count + 1;
    status =
        if leb env.limits.max_attempts_per_task (r.condition_fail_count + 1)
        then Status.blocked
        else r.status;
    updated_at = at;
  }

  count_condition-Step :
      (r : TaskRow) (s : State)
      → find_task r.task_id s.tasks ≡ some r
      → is_fixed r.status ≡ false
      → Ends s.readings (λ _ s'. Step env s s') (count_condition env r s)
  unfolding count_condition
  count_condition-Step r s found waiting = Ends-now env _ _ _ s (omega arith) λ at reading.
      Ends-modify env _ _ _ _ _ (
        Ends-event env _ _ _ _ _ _ (omega arith) λ a. Ends-reread env _ _ _ _ (omega arith) λ _.
          write-Step s _ r.task_id r (counted r at) at (omega arith)
            (record {
              index = s.readings;
              from = omega arith;
              below = omega arith;
              reading = reading;
            })
            found (λ q. refl) (Move.counts at waiting refl)
            (λ j. find-update j r.task_id (counted r at) s.tasks r (λ q. refl) found) refl)

  pub record_condition_failure-Step :
      (task_id : ℕ) (s : State) → Step env s (record_condition_failure env task_id s).1
  unfolding record_condition_failure
  record_condition_failure-Step task_id s =
      transaction-Step env _ s
        (Ends-row env _ _ task_id _ s (omega arith) λ r found. go r found (is_fixed r.status) refl)
    where
      go :
          (r : TaskRow)
          → find_task task_id s.tasks ≡ some r
          → (b : Bool) → is_fixed r.status ≡ b
          → Ends s.readings
              (λ _ s'. Step env s s')
              ((if b then gets (record_of r) else count_condition env r) s)
      go r found true e = record { later = omega arith; effect = Effect.idle (λ j. refl) refl }
      go r found false e =
          count_condition-Step r s
            (subst (λ k. find_task k s.tasks ≡ some r) (sym (find-task_id task_id s.tasks r found))
              found)
            e
