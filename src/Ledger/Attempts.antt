-- ===== src/Ledger/Attempts.antt =====
-- Attempts are counted by the fencing token, and are bounded.
use morphogenesis.Base.{
  ℕ, List, ◌+◌, ◌≤◌, ◌<◌, ◌≡◌, sym, ◌∙◌, ap, subst, true, some, none≢some, ◌==◌, ==→≡, arith,
  Bool-cases, inl, inr,
}
use morphogenesis.Ledger.Types.{TaskRow, Dependency, TaskKind}
use morphogenesis.Ledger.Monad.{Env, State}
use morphogenesis.Ledger.Store.{find_task}
use morphogenesis.Ledger.Eligible.{eligible}
use morphogenesis.Ledger.Rows.{find_hit, find_miss}
use morphogenesis.Ledger.Lifecycle.{Move, IsRead, IsFresh, Effect}
use morphogenesis.Ledger.Runs.{Reach, Reach_ind}
use morphogenesis.Ledger.Exclusion.{opened}

-- Where a row that a lookup finds after a step comes from.
pub data Origin (env : Env) (s s' : State) (k : ℕ) (r' : TaskRow) : Type 0 where
  kept : find_task k s.tasks ≡ some r' → Origin env s s' k r'
  moved :
      (t : ℕ) (r : TaskRow)
      → IsRead env s s' t
      → find_task k s.tasks ≡ some r
      → Move env s.tasks s.dependencies t r r'
      → Origin env s s' k r'
  created : IsFresh r' → Origin env s s' k r'

pub Effect-Origin :
    {env : Env} {s s' : State} (k : ℕ) (r' : TaskRow)
    → Effect env s s'
    → find_task k s'.tasks ≡ some r'
    → Origin env s s' k r'
Effect-Origin k r' (Effect.idle rows deps) found = Origin.kept (sym (rows k) ∙ found)
Effect-Origin {env} {s} {s'} k r' (Effect.moves m x x' t read there move rows deps) found =
    elim (Bool-cases (k == m)) [
      | inl here ↦ Origin.moved t x read (ap (λ i. find_task i s.tasks) (==→≡ k m here) ∙ there) (
          subst (λ z. Move env s.tasks s.dependencies t x z)
            (find_hit _ _ _ x' r' (rows k) here found) move)
      | inr away ↦ Origin.kept (find_miss _ _ _ x' r' (rows k) away found)
    ]
Effect-Origin k r' (Effect.creates x ds new fresh rows deps) found =
    elim (Bool-cases (k == x.task_id)) [
      | inl here ↦ Origin.created (subst IsFresh (find_hit _ _ _ x r' (rows k) here found) fresh)
      | inr away ↦ Origin.kept (find_miss _ _ _ x r' (rows k) away found)
    ]

pub record IsCounted (env : Env) (r : TaskRow) : Type 0 where
  pub counted : r.attempts ≡ r.token
  pub bounded : r.attempts ≤ env.limits.max_attempts_per_task

abbrev pub AllCounted : Env → State → Type 0
AllCounted env s = (k : ℕ) (r : TaskRow) → find_task k s.tasks ≡ some r → IsCounted env r

eligible-below :
    (env : Env) (t t' : ℕ) (tasks : List TaskRow) (deps : List Dependency) (r : TaskRow)
    → eligible env t t' tasks deps r ≡ true
    → r.attempts < env.limits.max_attempts_per_task
unfolding eligible
eligible-below env t t' tasks deps r h = ground arith

Move-IsCounted :
    {env : Env} {tasks : List TaskRow} {deps : List Dependency} {t : ℕ} {r r' : TaskRow}
    → Move env tasks deps t r r'
    → IsCounted env r
    → IsCounted env r'
Move-IsCounted {env} {tasks} {deps} {t} {r} (Move.claims w ttl can e) c =
    rw e (record { counted = omega (arith, c.counted); bounded = eligible-next })
  where
    eligible-next : r.attempts + 1 ≤ env.limits.max_attempts_per_task
    eligible-next = omega (arith, eligible-below env t t tasks deps r can)
Move-IsCounted (Move.renews u at l e) c = rw e (record { counted = c.counted; bounded = c.bounded })
Move-IsCounted (Move.ends at l e) c = rw e (record { counted = c.counted; bounded = c.bounded })
Move-IsCounted (Move.begins q at l f e) c =
    rw e (record { counted = c.counted; bounded = c.bounded })
Move-IsCounted (Move.confirms q at l f e) c =
    rw e (record { counted = c.counted; bounded = c.bounded })
Move-IsCounted (Move.hands_over p at l e) c =
    rw e (record { counted = c.counted; bounded = c.bounded })
Move-IsCounted (Move.submits i b at l e) c =
    rw e (record { counted = c.counted; bounded = c.bounded })
Move-IsCounted (Move.publishes i b at x h e) c =
    rw e (record { counted = c.counted; bounded = c.bounded })
Move-IsCounted (Move.counts at w e) c = rw e (record { counted = c.counted; bounded = c.bounded })

Origin-IsCounted :
    {env : Env} {s s' : State} {k : ℕ} {r : TaskRow}
    → AllCounted env s
    → Origin env s s' k r
    → IsCounted env r
Origin-IsCounted {k = k} {r = r} all (Origin.kept e) = all k r e
Origin-IsCounted {k = k} all (Origin.moved t q read found move) =
    Move-IsCounted move (all k q found)
Origin-IsCounted all (Origin.created f) = record {
  counted = f.attempts ∙ sym f.token;
  bounded = omega (arith, f.attempts);
}

reached_counted :
    (env : Env) (names : TaskKind → ℕ) (started n : ℕ) (s : State)
    → Reach env names (opened started n) s
    → AllCounted env s
reached_counted env names started n s reach =
    Reach_ind env names (AllCounted env)
      (λ z z' st all k r found. Origin-IsCounted all (Effect-Origin k r st.effect found)) reach
      (λ k r found. absurd (none≢some found))

-- In every state that a fresh ledger reaches, every task's attempts equal its token and do not
-- exceed `max_attempts_per_task`.
pub attempts_counted :
    (env : Env) (names : TaskKind → ℕ) (started n : ℕ) (s : State) (k : ℕ) (r : TaskRow)
    → Reach env names (opened started n) s
    → find_task k s.tasks ≡ some r
    → (r.attempts ≡ r.token) × (r.attempts ≤ env.limits.max_attempts_per_task)
attempts_counted env names started n s k r reach found =
    let c = reached_counted env names started n s reach k r found in (c.counted, c.bounded)
