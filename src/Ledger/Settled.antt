-- ===== src/Ledger/Settled.antt =====
-- A task that is completed, failed or blocked is never written again; a token never goes back.
use morphogenesis.Base.{
  ℕ, List, ap, none≢some, some_inj, ==→≡, ◌≤◌, ◌<◌, ◌≡◌, sym, ◌∙◌, subst, Bool, true, false, some,
  inl, inr, ◌==◌, arith, Bool-cases,
}
use morphogenesis.Ledger.Types.{Lease, Status, TaskRow, Dependency, TaskKind}
use morphogenesis.Ledger.Monad.{Env, State, Error, raised, ◌>>=◌}
use morphogenesis.Ledger.Store.{find_task, owned}
use morphogenesis.Ledger.Eligible.{eligible}
use morphogenesis.Ledger.Lifecycle.{Move, IsRead, Effect}
use morphogenesis.Ledger.Runs.{Reach, Reach_ind}

-- completed, failed or blocked
abbrev pub is_settled : Status → Bool
is_settled Status.completed = true
is_settled Status.failed = true
is_settled Status.blocked = true
is_settled _ = false

pub eligible-unsettled :
    (env : Env) (t t' : ℕ) (tasks : List TaskRow) (deps : List Dependency) (r : TaskRow)
    → eligible env t t' tasks deps r ≡ true
    → is_settled r.status ≡ false
unfolding eligible
eligible-unsettled env t t' tasks deps r h = ground arith

Move-unsettled :
    {env : Env} {tasks : List TaskRow} {deps : List Dependency} {t : ℕ} {r r' : TaskRow}
    → Move env tasks deps t r r'
    → is_settled r.status ≡ false
Move-unsettled {env} {tasks} {deps} {t} {r} (Move.claims w ttl can e) =
    eligible-unsettled env t t tasks deps r can
Move-unsettled (Move.renews u at l e) = rw (l.claimed)
Move-unsettled (Move.ends at l e) = rw (l.claimed)
Move-unsettled (Move.begins q at l f e) = rw (l.claimed)
Move-unsettled (Move.confirms q at l f e) = rw (l.claimed)
Move-unsettled (Move.hands_over p at l e) = rw (l.claimed)
Move-unsettled (Move.submits i b at l e) = rw (l.claimed)
Move-unsettled {r = r} (Move.publishes i b at x h e) = elim h.state [ inl c ↦ rw c | inr c ↦ rw c ]
Move-unsettled {r = r} (Move.counts at w e) = ground arith

-- What a step does to a row that is there.
pub data Fate (env : Env) (s s' : State) (k : ℕ) (r : TaskRow) : Type 0 where
  kept : find_task k s'.tasks ≡ some r → Fate env s s' k r
  moved :
      (t : ℕ) (r' : TaskRow)
      → IsRead env s s' t
      → Move env s.tasks s.dependencies t r r'
      → find_task k s'.tasks ≡ some r'
      → Fate env s s' k r

pub Effect-Fate :
    {env : Env} {s s' : State} (k : ℕ) (r : TaskRow)
    → Effect env s s'
    → find_task k s.tasks ≡ some r
    → Fate env s s' k r
Effect-Fate k r (Effect.idle rows deps) found = Fate.kept (rows k ∙ found)
Effect-Fate {env} {s} {s'} k r (Effect.moves j q q' t read there move rows deps) found =
    elim (Bool-cases (k == j)) [
      | inl same ↦
          Fate.moved t q' read
            (subst (λ z. Move env s.tasks s.dependencies t z q')
              (some_inj (sym there ∙ ap (λ i. find_task i s.tasks) (sym (==→≡ k j same)) ∙ found))
              move)
            (rows k ∙ rw same)
      | inr other ↦ Fate.kept (rows k ∙ rw other found)
    ]
Effect-Fate {env} {s} {s'} k r (Effect.creates q ds new fresh rows deps) found =
    elim (Bool-cases (k == q.task_id)) [
      | inl same ↦
          absurd (none≢some (sym new ∙ ap (λ i. find_task i s.tasks) (sym (==→≡ k _ same)) ∙ found))
      | inr other ↦ Fate.kept (rows k ∙ rw other found)
    ]

pub Fate-settled :
    {env : Env} {s s' : State} {k : ℕ} {r : TaskRow}
    → is_settled r.status ≡ true
    → Fate env s s' k r
    → find_task k s'.tasks ≡ some r
Fate-settled h (Fate.kept e) = e
Fate-settled h (Fate.moved t r' read move e) = cc (Move-unsettled move)

-- A task that is completed, failed or blocked keeps its row, whatever calls follow, with
-- whatever arguments and whatever the clock reads.
pub settled_forever :
    (env : Env) (names : TaskKind → ℕ) (s s' : State) (k : ℕ) (r : TaskRow)
    → find_task k s.tasks ≡ some r
    → is_settled r.status ≡ true
    → Reach env names s s'
    → find_task k s'.tasks ≡ some r
settled_forever env names s s' k r found h reach =
    Reach_ind env names (λ z. find_task k z.tasks ≡ some r)
      (λ z z' st f. Fate-settled h (Effect-Fate k r st.effect f)) reach found

Move-token :
    {env : Env} {tasks : List TaskRow} {deps : List Dependency} {t : ℕ} {r r' : TaskRow}
    → Move env tasks deps t r r'
    → r.token ≤ r'.token
Move-token (Move.claims w ttl can e) = rw e (omega arith)
Move-token (Move.renews u at l e) = rw e (omega arith)
Move-token (Move.ends at l e) = rw e (omega arith)
Move-token (Move.begins q at l f e) = rw e (omega arith)
Move-token (Move.confirms q at l f e) = rw e (omega arith)
Move-token (Move.hands_over p at l e) = rw e (omega arith)
Move-token (Move.submits i b at l e) = rw e (omega arith)
Move-token (Move.publishes i b at x h e) = rw e (omega arith)
Move-token (Move.counts at w e) = rw e (omega arith)

-- The task is there, and its token is beyond `n`.
pub record IsPast (k n : ℕ) (s : State) : Type 0 where
  pub row : TaskRow
  pub found : find_task k s.tasks ≡ some row
  pub past : n < row.token

Fate-IsPast :
    {env : Env} {s s' : State} {k : ℕ} (n : ℕ) {r : TaskRow}
    → n < r.token
    → Fate env s s' k r
    → IsPast k n s'
Fate-IsPast n {r} h (Fate.kept e) = record { row = r; found = e; past = h }
Fate-IsPast n h (Fate.moved t r' read move e) = record {
  row = r';
  found = e;
  past = omega (arith, Move-token move);
}

pub Reach-IsPast :
    (env : Env) (names : TaskKind → ℕ) {s s' : State} (k n : ℕ)
    → Reach env names s s'
    → IsPast k n s
    → IsPast k n s'
Reach-IsPast env names k n reach =
    Reach_ind env names (IsPast k n)
      (λ z z' st p. Fate-IsPast n p.past (Effect-Fate k p.row st.effect p.found)) reach

-- A lease whose token was overtaken once is refused by the ownership check for ever after,
-- whatever calls follow.
pub stale_lease_refused :
    (env : Env) (names : TaskKind → ℕ) (s s' : State) (lease : Lease) (submitting : Bool)
    → IsPast lease.task_id lease.token s
    → Reach env names s s'
    → owned env submitting lease s' ≡ (raised Error.lease_lost, s')
unfolding owned ◌>>=◌
stale_lease_refused env names s s' lease submitting past reach =
    let p = Reach-IsPast env names lease.task_id lease.token reach past in go p.row p.found p.past
  where
    go :
        (r : TaskRow)
        → find_task lease.task_id s'.tasks ≡ some r
        → lease.token < r.token
        → owned env submitting lease s' ≡ (raised Error.lease_lost, s')
    go r found h = ground arith
