-- ===== src/Ledger/Eligible.antt =====
-- Which tasks may be claimed: the SQL of `_local_filter` and `_eligible`, and `candidates`.
use morphogenesis.Base.{
  ℕ, zero, suc, ◌+◌, Bool, true, false, not, ◌&&◌, ◌||◌, Option, none, some, List, [], ◌∷◌, ◌++◌,
  ltb, leb, ◌==◌, if◌then◌else◌, is_some, any, length, where_rows, map, text_eq, take,
}
use morphogenesis.Ledger.Types.{Text, Status, TaskRow, Dependency}
use morphogenesis.Ledger.Monad.{Env, Error, Action, pure, gets, ◌>>=◌, ◌>>◌, raise_if}
use morphogenesis.Ledger.Store.{TaskRecord, record_of, status_eq, find_task, now, canonical_scope}

pub record Locality : Type 0 where
  pub workspace : Text
  pub authorized_scopes : List Text
  pub modules : List ℕ
  pub dependency_of : List ℕ

-- `substr(text,1,length(prefix))=prefix`
abbrev pub has_prefix : Text → Text → Bool
has_prefix prefix text = text_eq (take (length prefix) text) prefix

abbrev strip_step : ℕ → ℕ → Text → Text
strip_step sep c [] = if c == sep then [] else c ∷ []
strip_step sep c (d ∷ ds) = c ∷ d ∷ ds

-- `str(path).rstrip(os.sep)`
unfoldable pub rstrip : ℕ → Text → Text
rstrip sep [] = []
rstrip sep (c ∷ cs) = strip_step sep c (rstrip sep cs)

-- What `_local_filter` computes: the root, and for each authorized path its text and prefix.
pub record LocalFilter : Type 0 where
  pub root : Text
  pub scopes : List (Text × Text)

module _ (env : Env) where
  unfoldable pub authorized : Text → List Text → Action (List (Text × Text))
  authorized root [] = pure []
  authorized root (a ∷ rest) = do
    path ← canonical_scope env (env.join root a)
    raise_if (not (is_some (env.relative_to root path))) Error.value_error
    scopes ← authorized root rest
    pure ((path, rstrip env.separator path ++ env.separator ∷ []) ∷ scopes)

  -- `_local_filter`
  unfoldable pub local_filter : Locality → Action LocalFilter
  unfolding authorized
  local_filter locality = do
    workspace ← gets (λ s. env.resolve s.readings locality.workspace)
    root ← canonical_scope env workspace
    scopes ← authorized root locality.authorized_scopes
    pure (record { root = root; scopes = scopes })

abbrev mem : List ℕ → ℕ → Bool
mem ids x = any (λ y. x == y) ids

-- The WHERE clause that `_local_filter` writes.
unfoldable pub is_local : Locality → LocalFilter → List Dependency → TaskRow → Bool
is_local locality f deps t =
    text_eq t.workspace f.root
    && (any (λ p. text_eq t.scope p.0 || has_prefix p.1 t.scope) f.scopes
        && ((length locality.modules == 0 || mem locality.modules t.module_name)
            && (length locality.dependency_of == 0
                || (mem locality.dependency_of t.task_id
                    || any
                        (λ d.
                          (d.task_id == t.task_id) && mem locality.dependency_of d.dependency_id
                          || (d.dependency_id == t.task_id) && mem locality.dependency_of d.task_id)
                        deps))))

-- `expiry<=?` and `expiry>?`: false at NULL
abbrev pub expired_at : ℕ → Option ℕ → Bool
expired_at t none = false
expired_at t (some e) = leb e t

abbrev pub live_at : ℕ → Option ℕ → Bool
live_at t none = false
live_at t (some e) = ltb t e

-- Somebody may be writing under the task's scope.
abbrev pub is_held : ℕ → TaskRow → Bool
is_held t c =
    status_eq c.status Status.submitting
    || (status_eq c.status Status.claimed && live_at t c.expiry)

-- `c.scope=t.scope OR substr(c.scope,1,length(t.scope)+1)=t.scope||sep OR …`
unfoldable pub overlap : ℕ → Text → Text → Bool
overlap sep c t =
    text_eq c t
    || (text_eq (take (length t + 1) c) (t ++ sep ∷ [])
        || text_eq (take (length c + 1) t) (c ++ sep ∷ []))

-- `p.status IS NOT NULL AND p.status='completed'`
abbrev is_completed : Option TaskRow → Bool
is_completed none = false
is_completed (some p) = status_eq p.status Status.completed

abbrev pub is_done : List TaskRow → ℕ → Bool
is_done tasks dependency_id = is_completed (find_task dependency_id tasks)

-- No dependency of the task is missing or unfinished.
unfoldable pub dependencies_done : List TaskRow → List Dependency → ℕ → Bool
dependencies_done tasks deps task_id =
    not (any (λ d. (d.task_id == task_id) && not (is_done tasks d.dependency_id)) deps)

-- No other task that is held overlaps the scope.
unfoldable pub is_clear : ℕ → ℕ → List TaskRow → ℕ → Text → Bool
unfolding overlap
is_clear sep t tasks task_id scope =
    not (any (λ c. not (c.task_id == task_id) && (is_held t c && overlap sep c.scope scope)) tasks)

abbrev is_waiting : Status → Bool
is_waiting s =
    status_eq s Status.available || (status_eq s Status.partial || status_eq s Status.handoff)

-- `_eligible`, with its parameters: two readings of the clock, and the limit on attempts.
unfoldable pub eligible : Env → ℕ → ℕ → List TaskRow → List Dependency → TaskRow → Bool
eligible env t t' tasks deps r =
    (is_waiting r.status || (status_eq r.status Status.claimed && expired_at t r.expiry))
    && (ltb r.attempts env.limits.max_attempts_per_task
        && (not (is_some r.unconfirmed_request_id)
            && (dependencies_done tasks deps r.task_id
                && is_clear env.separator t' tasks r.task_id r.scope)))

-- `ORDER BY created_at,task_id`
abbrev comes_before : TaskRow → TaskRow → Bool
comes_before a b =
    ltb a.created_at b.created_at || (a.created_at == b.created_at && ltb a.task_id b.task_id)

insert_row : TaskRow → List TaskRow → List TaskRow
insert_row r [] = r ∷ []
insert_row r (q ∷ qs) =
    let rest = insert_row r qs in if comes_before r q then r ∷ q ∷ qs else q ∷ rest

unfoldable pub order_rows : List TaskRow → List TaskRow
unfolding insert_row
order_rows [] = []
order_rows (r ∷ rs) = insert_row r (order_rows rs)

unfoldable pub limit_rows : ℕ → List TaskRow → List TaskRow
limit_rows n [] = []
limit_rows zero (r ∷ rs) = []
limit_rows (suc n) (r ∷ rs) = r ∷ limit_rows n rs

abbrev in_capabilities : Option (List ℕ) → TaskRow → Bool
in_capabilities none r = true
in_capabilities (some names) r = mem names r.capability

abbrev capability_count : Option (List ℕ) → ℕ
capability_count none = 0
capability_count (some names) = length names

module _ (env : Env) where
  -- `candidates`; `none` for `capabilities` is no condition on them
  unfoldable pub candidates : Locality → ℕ → Bool → Option (List ℕ) → Action (List TaskRecord)
  unfolding local_filter is_local eligible order_rows limit_rows now
  candidates locality limit include_blocked capabilities = do
    raise_if (not (leb 1 limit && leb limit 1000)) Error.value_error
    f ← local_filter env locality
    times ←
        (if include_blocked then pure none else (do t ← now env; t' ← now env; pure (some (t, t'))))
    raise_if (ltb 64 (capability_count capabilities)) Error.value_error
    s ← gets (λ s. s)
    let wanted = λ (r : TaskRow).
        is_local locality f s.dependencies r
        && (passes times s.tasks s.dependencies r && in_capabilities capabilities r)
    pure (map (λ r. record_of r s) (limit_rows limit (order_rows (where_rows wanted s.tasks))))
    where
      passes : Option (ℕ × ℕ) → List TaskRow → List Dependency → TaskRow → Bool
      passes none tasks deps r = true
      passes (some (t, t')) tasks deps r = eligible env t t' tasks deps r
