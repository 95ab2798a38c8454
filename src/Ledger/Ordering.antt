-- ===== src/Ledger/Ordering.antt =====
-- No task runs before the tasks that it depends on are completed.
use morphogenesis.Base.{
  ℕ, List, [], ◌∷◌, ◌++◌, map, ◌<◌, ◌≡◌, ◌≢◌, refl, sym, ◌∙◌, ap, subst, true, false, not, ◌&&◌,
  any, Option, none, some, none≢some, ◌==◌, arith,
}
use morphogenesis.Ledger.Types.{TaskRow, Dependency, Status, TaskKind}
use morphogenesis.Ledger.Monad.{Env, State}
use morphogenesis.Ledger.Store.{find_task, status_eq}
use morphogenesis.Ledger.Eligible.{eligible, dependencies_done, is_done}
use morphogenesis.Ledger.Rows.{find-task_id}
use morphogenesis.Ledger.Lifecycle.{Move, Effect, Step, depends_on}
use morphogenesis.Ledger.Runs.{Reach, Reach_ind}
use morphogenesis.Ledger.Settled.{Effect-Fate, Fate-settled}
use morphogenesis.Ledger.Exclusion.{opened}
use morphogenesis.Ledger.Attempts.{Origin, Effect-Origin}

-- Every task that was ever claimed has all of its dependencies completed.
abbrev pub IsOrdered : State → Type 0
IsOrdered s =
    (k : ℕ) (r : TaskRow)
    → find_task k s.tasks ≡ some r
    → 0 < r.token
    → dependencies_done s.tasks s.dependencies k ≡ true

eligible-ordered :
    (env : Env) (t t' : ℕ) (tasks : List TaskRow) (deps : List Dependency) (r : TaskRow)
    → eligible env t t' tasks deps r ≡ true
    → dependencies_done tasks deps r.task_id ≡ true
unfolding eligible
eligible-ordered env t t' tasks deps r h = ground arith

is_done-row :
    (tasks : List TaskRow) (x : ℕ) (r : TaskRow)
    → find_task x tasks ≡ some r
    → r.status ≡ Status.completed
    → is_done tasks x ≡ true
is_done-row tasks x r found e = rw found (rw e refl)

done-row :
    (tasks : List TaskRow) (x : ℕ)
    → is_done tasks x ≡ true
    → (r : TaskRow) × (find_task x tasks ≡ some r) × (r.status ≡ Status.completed)
done-row tasks x h = go (find_task x tasks) refl h
  where
    completed-of : (st : Status) → status_eq st Status.completed ≡ true → st ≡ Status.completed
    completed-of st h = ground arith

    go :
        (o : Option TaskRow)
        → find_task x tasks ≡ o
        → (elim o [ none ↦ false | some p ↦ status_eq p.status Status.completed ]) ≡ true
        → (r : TaskRow) × (find_task x tasks ≡ some r) × (r.status ≡ Status.completed)
    go none e h = cc
    go (some r) e h = (r, e, completed-of r.status h)

-- A completed dependency stays completed.
Effect-is_done :
    {env : Env} {s s' : State}
    → Effect env s s'
    → (x : ℕ) → is_done s.tasks x ≡ true
    → is_done s'.tasks x ≡ true
Effect-is_done {env} {s} {s'} eff x h =
    let (r, found, e) = done-row s.tasks x h in
    is_done-row s'.tasks x r (Fate-settled (rw e refl) (Effect-Fate x r eff found)) e

any-none_mono :
    (k : ℕ) (tasks tasks' : List TaskRow) (deps : List Dependency)
    → ((x : ℕ) → is_done tasks x ≡ true → is_done tasks' x ≡ true)
    → any (λ d. (d.task_id == k) && not (is_done tasks d.dependency_id)) deps ≡ false
    → any (λ d. (d.task_id == k) && not (is_done tasks' d.dependency_id)) deps ≡ false
any-none_mono k tasks tasks' [] keep h = refl
any-none_mono k tasks tasks' (d ∷ deps) keep h =
    ground (arith, keep d.dependency_id, any-none_mono k tasks tasks' deps keep)

any-append :
    (k m : ℕ) (tasks : List TaskRow) (deps : List Dependency) (ds : List ℕ)
    → k ≢ m
    → any (λ d. (d.task_id == k) && not (is_done tasks d.dependency_id)) deps ≡ false
    → any
        (λ d. (d.task_id == k) && not (is_done tasks d.dependency_id))
        (deps ++ map (depends_on m) ds)
      ≡ false
any-append k m tasks [] [] ne h = refl
any-append k m tasks [] (x ∷ ds) ne h = ground (arith, any-append k m tasks [] ds ne h)
any-append k m tasks (d ∷ deps) ds ne h = ground (arith, any-append k m tasks deps ds ne)

-- What was ordered of a task that is there stays ordered.
Effect-ordered :
    {env : Env} {s s' : State} (k : ℕ) (r : TaskRow)
    → Effect env s s'
    → find_task k s.tasks ≡ some r
    → dependencies_done s.tasks s.dependencies k ≡ true
    → dependencies_done s'.tasks s'.dependencies k ≡ true
unfolding dependencies_done
Effect-ordered {env} {s} {s'} k r eff found h = go eff
  where
    kept :
        any (λ d. (d.task_id == k) && not (is_done s'.tasks d.dependency_id)) s.dependencies ≡ false
    kept = any-none_mono k s.tasks s'.tasks s.dependencies (Effect-is_done eff) (ground arith)

    go :
        Effect env s s'
        → not
            (any (λ d. (d.task_id == k) && not (is_done s'.tasks d.dependency_id)) s'.dependencies)
          ≡ true
    go (Effect.idle rows deps) = rw (deps, kept)
    go (Effect.moves m x x' t read there move rows deps) = rw (deps, kept)
    go (Effect.creates x ds new fresh rows deps) = rw (
      deps,
      any-append k x.task_id s'.tasks s.dependencies ds
          (λ e. none≢some (sym new ∙ ap (λ i. find_task i s.tasks) (sym e) ∙ found)) kept,
    )

Move-ordered :
    {env : Env} (s : State) (k : ℕ) {t : ℕ} {r r' : TaskRow}
    → find_task k s.tasks ≡ some r
    → (0 < r.token → dependencies_done s.tasks s.dependencies k ≡ true)
    → Move env s.tasks s.dependencies t r r'
    → 0 < r'.token
    → dependencies_done s.tasks s.dependencies k ≡ true
Move-ordered {env} s k {t} {r} found old (Move.claims w ttl can e) h =
    subst (λ i. dependencies_done s.tasks s.dependencies i ≡ true) (find-task_id k s.tasks r found)
      (eligible-ordered env t t s.tasks s.dependencies r can)
Move-ordered s k found old (Move.renews u at l e) h = old (rw e at h)
Move-ordered s k found old (Move.ends at l e) h = old (rw e at h)
Move-ordered s k found old (Move.begins q at l f e) h = old (rw e at h)
Move-ordered s k found old (Move.confirms q at l f e) h = old (rw e at h)
Move-ordered s k found old (Move.hands_over p at l e) h = old (rw e at h)
Move-ordered s k found old (Move.submits i b at l e) h = old (rw e at h)
Move-ordered s k found old (Move.publishes i b at x l e) h = old (rw e at h)
Move-ordered s k found old (Move.counts at w e) h = old (rw e at h)

Step-IsOrdered : {env : Env} {s s' : State} → Step env s s' → IsOrdered s → IsOrdered s'
Step-IsOrdered {env} {s} {s'} st old k r' found h = go (Effect-Origin k r' st.effect found)
  where
    go : Origin env s s' k r' → dependencies_done s'.tasks s'.dependencies k ≡ true
    go (Origin.kept e) = Effect-ordered k r' st.effect e (old k r' e h)
    go (Origin.moved t r read there move) =
        Effect-ordered k r st.effect there (Move-ordered s k there (old k r there) move h)
    go (Origin.created f) = absurd (omega (arith, f.token))

reached-IsOrdered :
    (env : Env) (names : TaskKind → ℕ) (started n : ℕ) (s : State)
    → Reach env names (opened started n) s
    → IsOrdered s
reached-IsOrdered env names started n s reach =
    Reach_ind env names IsOrdered (λ z z' st h. Step-IsOrdered st h) reach
      (λ k r found h. absurd (none≢some found))

-- In every state that a fresh ledger reaches, every task that was ever claimed has all of its
-- dependencies recorded and completed.
pub dependencies_first :
    (env : Env) (names : TaskKind → ℕ) (started n : ℕ) (s : State) (k : ℕ) (r : TaskRow)
    → Reach env names (opened started n) s
    → find_task k s.tasks ≡ some r
    → 0 < r.token
    → dependencies_done s.tasks s.dependencies k ≡ true
dependencies_first env names started n s k r reach =
    reached-IsOrdered env names started n s reach k r
