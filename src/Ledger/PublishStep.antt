-- ===== src/Ledger/PublishStep.antt =====
-- The two transactions of `submit` are steps of a task's life, whatever the callback does.
use morphogenesis.Base.{
  ℕ, ◌≡◌, refl, Bool, true, false, ◌&&◌, Option, none, some, arith, ◌⊎◌, inl, inr, if◌then◌else◌,
}
use morphogenesis.Ledger.Types.{Status, Lease, TaskRow}
use morphogenesis.Ledger.Monad.{Env, State, transaction}
use morphogenesis.Ledger.Store.{find_task, holds_state, status_eq}
use morphogenesis.Ledger.Publish.{
  Apply, complete, same_owner, run_apply, mark_submitting, publish_or_mark, answer_again,
  submit_new, submit_first, submit_second,
}
use morphogenesis.Ledger.Ends.{
  Ends, Ends-now, Ends-raise_if, Ends-event, Ends-event_last, Ends-modify, Ends-row, Ends-bind,
  Ends-owned, Ends-reread, IsOwned, IsUnwritten, tick,
}
use morphogenesis.Ledger.Rows.{find-update, matches-Agrees}
use morphogenesis.Ledger.Lifecycle.{IsLive, IsHeldUntil, Move, Effect, Step, transaction-Step}
use morphogenesis.Ledger.Steps.{write-Step, owned-Step, owned-IsLive}

status_of_held :
    (r : TaskRow)
    → holds_state true r.status ≡ true
    → (r.status ≡ Status.claimed) ⊎ (r.status ≡ Status.submitting)
status_of_held r h = go r.status h
  where
    go : (s : Status) → holds_state true s ≡ true → (s ≡ Status.claimed) ⊎ (s ≡ Status.submitting)
    go Status.claimed e = inl refl
    go Status.submitting e = inr refl
    go Status.available e = cc
    go Status.partial e = cc
    go Status.handoff e = cc
    go Status.completed e = cc
    go Status.failed e = cc
    go Status.blocked e = cc

live-IsHeldUntil : {t : ℕ} {r : TaskRow} → IsLive t r → IsHeldUntil t r
live-IsHeldUntil l = record {
  until = l.until;
  state = inl l.claimed;
  expiry = l.expiry;
  after = l.after;
}

module _ (env : Env) where
  owned-IsHeldUntil :
      {lease : Lease} {s : State} {r : TaskRow}
      → (o : IsOwned env true lease s r) → IsHeldUntil o.at r
  owned-IsHeldUntil {lease} {s} {r} o =
      let a = matches-Agrees env true lease r o.matched in
      record {
        until = lease.expires_at;
        state = status_of_held r a.state;
        expiry = a.expiry;
        after = o.unexpired;
      }

  abbrev published : ℕ → ℕ → ℕ → Bool → TaskRow → TaskRow
  published result_id body at effect_applied q = record q {
    status = Status.completed;
    result_id = some result_id;
    result = some body;
    updated_at = at;
    effect_applied = effect_applied;
  }

  -- `_complete` right after the check of the lease in state `s`, in a transaction begun in `s0`.
  complete-Step :
      {submitting : Bool} {lease : Lease} {s0 s : State} {r : TaskRow}
      (o : IsOwned env submitting lease s r) (result_id body : ℕ) (effect_applied : Bool)
      → IsHeldUntil o.at r
      → IsUnwritten s0.readings s0 s
      → Ends s0.readings
          (λ _ s'. Step env s0 s')
          (complete env lease result_id body effect_applied (tick s))
  unfolding complete
  complete-Step {lease = lease} {s0} {s} {r} o result_id body effect_applied held u =
      Ends-now env _ _ _ _ (omega (arith, u.later)) λ at _. Ends-modify env _ _ _ _ _ (
        Ends-now env _ _ _ _ (omega (arith, u.later)) λ finished _. Ends-modify env _ _ _ _ _ (
          Ends-event env _ _ _ _ _ _ (omega (arith, u.later)) λ a.
            Ends-reread env _ _ _ _ (omega (arith, u.later)) λ _.
              write-Step env s0 _ lease.task_id r (published result_id body at effect_applied) o.at
                (omega (arith, u.later))
                (record {
                  index = s.readings;
                  from = u.later;
                  below = omega arith;
                  reading = o.reading;
                })
                found (λ q. refl) (Move.publishes result_id body at effect_applied held refl)
                (λ j. rw (u.tasks) (
                  find-update j lease.task_id (published result_id body at effect_applied) s0.tasks
                    r (λ q. refl) found))
                u.dependencies))
    where
      found : find_task lease.task_id s0.tasks ≡ some r
      found = rw (u.tasks) at o.found

  quiet-IsUnwritten : (s : State) → IsUnwritten s.readings s s
  quiet-IsUnwritten s = record {
    later = omega arith;
    tasks = refl;
    dependencies = refl;
    audit = refl;
    attempts = refl;
  }

  tick-IsUnwritten : {n : ℕ} {s s' : State} → IsUnwritten n s s' → IsUnwritten n s (tick s')
  tick-IsUnwritten u = record {
    later = omega (arith, u.later);
    tasks = u.tasks;
    dependencies = u.dependencies;
    audit = u.audit;
    attempts = u.attempts;
  }

  run_apply-Ends :
      (lease : Lease) (apply : Apply) (n : ℕ) (s0 s : State)
      → IsUnwritten n s0 s
      → Ends n (λ _ s'. IsUnwritten n s0 s') (run_apply env lease apply s)
  unfolding run_apply
  run_apply-Ends lease Apply.returns n s0 s u = u
  run_apply-Ends lease Apply.raises n s0 s u = u.later
  run_apply-Ends lease (Apply.asserts rest) n s0 s u =
      Ends-owned env _ _ true lease _ s u.later
        λ r o. run_apply-Ends lease rest n s0 (tick s) (tick-IsUnwritten u)

  pub submit_second-Step :
      (lease : Lease) (result_id body : ℕ) (apply : Apply) (s : State)
      → Step env s (transaction (submit_second env lease result_id body apply) s).1
  unfolding submit_second
  submit_second-Step lease result_id body apply s = transaction-Step env _ s (
      Ends-owned env _ _ true lease _ s (omega arith) λ r o.
        Ends-bind env _ _ _ _ _ _
          (run_apply-Ends lease apply _ s (tick s) (tick-IsUnwritten (quiet-IsUnwritten s)))
          λ _ s' u.
            Ends-owned env _ _ true lease _ s' u.later
              λ q o'. complete-Step o' result_id body true (owned-IsHeldUntil o') u)

  mark_submitting-Step :
      {lease : Lease} {s : State} {r : TaskRow} (result_id body : ℕ)
      → IsOwned env false lease s r
      → Ends s.readings (λ _ s'. Step env s s') (mark_submitting env lease result_id body (tick s))
  unfolding mark_submitting
  mark_submitting-Step result_id body o = Ends-now env _ _ _ _ (omega arith) λ at _.
      Ends-modify env _ _ _ _ _ (
        Ends-event_last env _ _ _ _ _ (omega arith) λ a.
          owned-Step env _ o _ (λ q. refl)
            (Move.submits result_id body at (owned-IsLive env o) refl) (omega arith) refl refl)

  after_check-Step :
      {lease : Lease} {s : State} {r : TaskRow} (result_id body : ℕ) (apply : Option Apply)
      → IsOwned env false lease s r
      → Ends s.readings
          (λ _ s'. Step env s s')
          (publish_or_mark env lease result_id body apply (tick s))
  unfolding publish_or_mark
  after_check-Step {s = s} result_id body none o =
      Ends-bind env _ _ _ _ _ _
        (complete-Step o result_id body false (live-IsHeldUntil (owned-IsLive env o))
          (quiet-IsUnwritten s))
        (λ _ s' h. h)
  after_check-Step result_id body (some apply) o =
      Ends-bind env _ _ _ _ _ _ (mark_submitting-Step result_id body o) (λ _ s' h. h)

  pub submit_first-Step :
      (lease : Lease) (result_id body : ℕ) (apply : Option Apply) (s : State)
      → Step env s (transaction (submit_first env lease result_id body apply) s).1
  unfolding submit_first
  submit_first-Step lease result_id body apply s = transaction-Step env _ s (
      Ends-row env _ _ lease.task_id _ s (omega arith)
        λ r found. go r (status_eq r.status Status.completed && same_owner env lease r))
    where
      go :
          (r : TaskRow) (b : Bool)
          → Ends s.readings
              (λ _ s'. Step env s s')
              ((if b
                  then answer_again env r result_id body
                  else submit_new env lease result_id body apply)
                s)
      go r true =
          Ends-raise_if env _ _ _ _ _ _ (omega arith)
            λ same. record { later = omega arith; effect = Effect.idle (λ j. refl) refl }
      go r false =
          Ends-owned env _ _ false lease _ s (omega arith)
            λ q o. after_check-Step result_id body apply o
