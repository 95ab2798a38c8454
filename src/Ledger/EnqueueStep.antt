-- ===== src/Ledger/EnqueueStep.antt =====
-- `enqueue` creates at most one task, and changes no task that is there.
use morphogenesis.Base.{
  ℕ, ◌≤◌, ◌≡◌, refl, Bool, true, false, Option, none, some, List, [], ◌∷◌, arith,
}
use morphogenesis.Ledger.Types.{Signal, TaskKind, TaskRow, Text, EvidenceKey, Evidence}
use morphogenesis.Ledger.Monad.{Env, State, Error, Action, or_raise, raise_if, ◌>>=◌}
use morphogenesis.Ledger.Store.{find_task, read_clock, now}
use morphogenesis.Ledger.Enqueue.{
  Request, normalize, recall, recount, check_derived, check_dependencies, fresh_row, insert_task,
  by_evidence, report, register, enqueue,
}
use morphogenesis.Ledger.Ends.{
  Ends, Ends-raise_if, Ends-event, Ends-modify, Ends-gets, Ends-row, Ends-quiet, Ends-reread, tick,
}
use morphogenesis.Ledger.Rows.{find-append}
use morphogenesis.Ledger.Lifecycle.{Effect, Step, transaction-Step, earlier-Step}
use morphogenesis.Ledger.Steps.{checked-Step}
use morphogenesis.Ledger.ClaimStep.{Ends-check_runtime, after_quiet, canonical_scope-state}

stay : (env : Env) (s : State) → Step env s s
stay env s = record { later = omega arith; effect = Effect.idle (λ j. refl) refl }

module _ (env : Env) (names : TaskKind → ℕ) where
  check_derived-Ends :
      (parent : Option ℕ) (n : ℕ) (s : State)
      → n ≤ s.readings
      → Ends n (λ _ s'. s' ≡ s) (check_derived env names parent s)
  unfolding check_derived
  check_derived-Ends none n s h = refl
  check_derived-Ends (some p) n s h =
      Ends-row env _ _ p _ s h λ r found. Ends-gets env _ _ _ _ s (go _ _ h)
    where
      go : (b : Bool) (e : Error) → n ≤ s.readings → Ends n (λ _ s'. s' ≡ s) (raise_if b e s)
      go true e h' = h'
      go false e h' = refl

  check_dependencies-Ends :
      (deps : List ℕ) (n : ℕ) (s : State)
      → n ≤ s.readings
      → Ends n (λ _ s'. s' ≡ s) (check_dependencies env names deps s)
  unfolding check_dependencies
  check_dependencies-Ends [] n s h = refl
  check_dependencies-Ends (d ∷ ds) n s h =
      Ends-row env _ _ d _ s h λ r found. check_dependencies-Ends ds n s h

  insert_task-Step :
      (signal : Signal) (deps : List ℕ) (acceptance : ℕ) (key : Option EvidenceKey)
      (derived_from : Option ℕ) (scope : Text) (created : ℕ) (s : State)
      → find_task signal.task_id s.tasks ≡ none
      → Ends s.readings
          (λ _ s'. Step env s s')
          (insert_task env names signal deps acceptance key derived_from scope created s)
  unfolding insert_task
  insert_task-Step signal deps acceptance key derived_from scope created s new =
      Ends-check_runtime env _ _ _ s (omega arith) (
        Ends-gets env _ _ _ _ _ (
          Ends-raise_if env _ _ _ _ _ _ (omega arith) λ below.
            Ends-quiet env _ _ _ _ _ (check_derived-Ends derived_from _ (tick s) (omega arith)) λ _.
              Ends-quiet env _ _ _ _ _ (check_dependencies-Ends deps _ (tick s) (omega arith)) λ _.
                Ends-modify env _ _ _ _ _ (
                  Ends-event env _ _ _ _ _ _ (omega arith) λ a.
                    Ends-reread env _ _ _ _ (omega arith) λ _. record {
                      later = omega arith;
                      effect =
                          Effect.creates
                            (fresh_row env names signal scope acceptance created derived_from) deps
                            new
                            (record {
                              status = refl;
                              attempts = refl;
                              token = refl;
                              owner = refl;
                              expiry = refl;
                              unconfirmed = refl;
                            })
                            (λ j. find-append j _ s.tasks new) refl;
                    })))

  recall-Step :
      (signal : Signal) (deps : List ℕ) (acceptance : ℕ) (r : TaskRow) (s : State)
      → Ends s.readings (λ _ s'. Step env s s') (recall env names signal deps acceptance r s)
  unfolding recall
  recall-Step signal deps acceptance r s = Ends-gets env _ _ _ _ s (
      Ends-raise_if env _ _ _ _ _ s (omega arith)
        λ _. Ends-raise_if env _ _ _ _ _ s (omega arith) λ _. stay env s)

  recount-Step :
      (key : EvidenceKey) (scope : Text) (e : Evidence) (s : State)
      → Ends s.readings (λ _ s'. Step env s s') (recount env names key scope e s)
  unfolding recount
  recount-Step key scope e s = Ends-row env _ _ _ _ s (omega arith) λ r found.
      Ends-raise_if env _ _ _ _ _ s (omega arith) λ _. Ends-modify env _ _ _ _ _ (
        Ends-event env _ _ _ _ _ _ (omega arith)
          λ a. record { later = omega arith; effect = Effect.idle (λ j. refl) refl })

  report-Step :
      (known : Option Evidence) (key : Option EvidenceKey) (q : Request) (signal : Signal)
      (scope : Text) (created : ℕ) (s : State)
      → find_task signal.task_id s.tasks ≡ none
      → Ends s.readings
          (λ _ s'. Step env s s')
          (report env names known key q signal scope created s)
  unfolding report
  report-Step (some e) none q signal scope created s new = omega arith
  report-Step (some e) (some key) q signal scope created s new = recount-Step key scope e s
  report-Step none key q signal scope created s new =
      insert_task-Step signal _ q.acceptance key q.derived_from scope created s new

  register-Step :
      (existing : Option TaskRow) (key : Option EvidenceKey) (q : Request) (signal : Signal)
      (scope : Text) (created : ℕ) (s : State)
      → find_task signal.task_id s.tasks ≡ existing
      → Ends s.readings
          (λ _ s'. Step env s s')
          (register env names existing key q signal scope created s)
  unfolding register by_evidence
  register-Step (some r) key q signal scope created s e = recall-Step signal _ q.acceptance r s
  register-Step none key q signal scope created s e =
      Ends-quiet env _ _ _ _ s (by_evidence-Ends key)
        λ known. report-Step known key q signal scope created s e
    where
      by_evidence-Ends :
          (k : Option EvidenceKey)
          → Ends s.readings (λ _ s'. s' ≡ s) (by_evidence env names k scope s)
      by_evidence-Ends none = refl
      by_evidence-Ends (some k) = refl

  or_raise-state : {A : Type 0} (o : Option A) (e : Error) (s : State) → (or_raise o e s).1 ≡ s
  or_raise-state none e s = refl
  or_raise-state (some a) e s = refl

  -- A reading before the transaction.
  after_now :
      {A : Type 0} (k : ℕ → Action A) (s : State)
      → ((t : ℕ) → Step env (tick s) (k t (tick s)).1)
      → Step env s ((now env >>= k) s).1
  unfolding now ◌>>=◌
  after_now {A} k s h = go (env.clock s.readings)
    where
      go : (o : Option ℕ) → Step env s ((read_clock o >>= k) s).1
      go none = record { later = omega arith; effect = Effect.idle (λ j. refl) refl }
      go (some t) = earlier-Step env s.readings (omega arith) (h t)

  normalize-state : (signal : Signal) (s : State) → (normalize env names signal s).1 ≡ s
  unfolding normalize
  normalize-state signal s =
      after_quiet env (λ z. z ≡ s) _ _ s refl refl
        λ w.
          after_quiet env (λ z. z ≡ s) _ _ s (canonical_scope-state env _ s) refl
            λ root.
              after_quiet env (λ z. z ≡ s) _ _ s (canonical_scope-state env _ s) refl
                λ target.
                  after_quiet env (λ z. z ≡ s) _ _ s (or_raise-state _ _ s) refl λ relative. refl

  pub enqueue-Step : (q : Request) (s : State) → Step env s (enqueue env names q s).1
  unfolding enqueue
  enqueue-Step q s =
      after_quiet env (Step env s) _ _ s (normalize-state q.signal s) (stay env s) λ signal.
        checked-Step env _ _ _ s (
          after_quiet env (Step env s) _ _ s (canonical_scope-state env _ s) (stay env s) λ scope.
            after_now _ s λ created.
              transaction-Step env _ (tick s)
                (Ends-gets env _ _ _ _ _ (register-Step _ _ q signal scope created (tick s) refl)))
