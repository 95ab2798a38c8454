-- ===== src/Ledger/Enqueue.antt =====
-- `normalize` and `enqueue`: a task is recorded once, whoever reports it.
use morphogenesis.Base.{
  ℕ, suc, ⊤, Bool, true, false, not, ◌&&◌, ◌||◌, Option, none, some, List, [], ◌∷◌, ◌++◌, ltb, leb,
  ◌==◌, is_some, length, count, any, first, update_rows, map, text_eq, sorted_set, if◌then◌else◌,
}
use morphogenesis.Ledger.Types.{
  Text, SignalKind, TaskKind, Signal, Status, TaskRow, EvidenceKey, Evidence, Event,
}
use morphogenesis.Ledger.Monad.{
  Env, Error, Limit, Action, pure, raise, gets, or_raise, ◌>>=◌, ◌>>◌, raise_if, modify,
  transaction,
}
use morphogenesis.Ledger.Store.{
  TaskRecord, record_of, find_task, now, canonical_scope, event, check_runtime, row,
}
use morphogenesis.Ledger.Leases.{reread}

abbrev pub kind_eq : SignalKind → SignalKind → Bool
kind_eq SignalKind.error_pattern SignalKind.error_pattern = true
kind_eq SignalKind.timeout_storm SignalKind.timeout_storm = true
kind_eq SignalKind.retry_flood SignalKind.retry_flood = true
kind_eq SignalKind.opportunity SignalKind.opportunity = true
kind_eq _ _ = false

-- `Signal.task_kind`
unfoldable pub task_kind : SignalKind → TaskKind
task_kind SignalKind.error_pattern = TaskKind.repair
task_kind SignalKind.opportunity = TaskKind.innovation
task_kind _ = TaskKind.optimize

abbrev pub key_eq : EvidenceKey → EvidenceKey → Bool
key_eq (EvidenceKey.given a) (EvidenceKey.given b) = a == b
key_eq (EvidenceKey.literal w s k p) (EvidenceKey.literal w' s' k' p') =
    text_eq w w' && (text_eq s s' && (kind_eq k k' && p == p'))
key_eq _ _ = false

-- The fields that `enqueue` calls stable.
abbrev pub same_content : Signal → Signal → Bool
same_content a b =
    a.task_id == b.task_id
    && (text_eq a.workspace b.workspace
        && (text_eq a.scope b.scope
            && (kind_eq a.kind b.kind
                && (a.payload == b.payload
                    && (a.module_name == b.module_name
                        && a.required_capability == b.required_capability)))))

-- The evidence of a signal, if it has any. A key that is given is taken to differ from the JSON text
-- that the code makes of the other signals.
abbrev pub evidence_of : Option ℕ → Signal → Text → Option EvidenceKey
evidence_of (some k) signal scope = some (EvidenceKey.given k)
evidence_of none signal scope =
    if kind_eq signal.kind SignalKind.opportunity
    then none
    else some (EvidenceKey.literal signal.workspace scope signal.kind signal.payload)

-- `signal.required_capability or signal.task_kind`; `names` gives the text of a kind
abbrev kind_name : (TaskKind → ℕ) → Signal → ℕ
kind_name names s =
    if s.required_capability == 0 then names (task_kind s.kind) else s.required_capability

pub record Request : Type 0 where
  pub signal : Signal
  pub dependencies : List ℕ
  pub acceptance : ℕ
  pub evidence_key : Option ℕ
  pub derived_from : Option ℕ

abbrev find_evidence : EvidenceKey → List Evidence → Option Evidence
find_evidence key = first (λ e. key_eq e.evidence_key key)

module _ (env : Env) (names : TaskKind → ℕ) where
  -- `normalize`
  unfoldable pub normalize : Signal → Action Signal
  unfolding canonical_scope
  normalize signal = do
    workspace ← gets (λ s. env.resolve s.readings signal.workspace)
    root ← canonical_scope env workspace
    target ← canonical_scope env (env.join root signal.scope)
    relative ← or_raise (env.relative_to root target) Error.value_error
    pure (record signal { workspace = root; scope = relative })

  -- The task is known: it must be reported as it was recorded.
  unfoldable pub recall : Signal → List ℕ → ℕ → TaskRow → Action TaskRecord
  recall signal deps acceptance r = do
    found ← gets (record_of r)
    raise_if (not (same_content r.signal signal)) Error.task_conflict
    raise_if
        (not (length deps == 0) && not (text_eq found.dependencies deps)
          || (not (acceptance == 0) && not (r.acceptance == acceptance)))
        Error.task_conflict
    pure found

  -- The evidence is known: it is counted, and the task that it led to is returned.
  unfoldable pub recount : EvidenceKey → Text → Evidence → Action TaskRecord
  unfolding row event
  recount key scope e = do
    old ← row env e.task_id
    raise_if (not (text_eq old.scope scope)) Error.task_conflict
    modify (λ s. record s {
      evidence =
          update_rows (λ q. key_eq q.evidence_key key)
            (λ q. record q { occurrences = suc q.occurrences }) s.evidence;
    })
    event env (some old.task_id) (Event.evidence_duplicate key)
    gets (record_of old)

  unfoldable pub check_derived : Option ℕ → Action ⊤
  unfolding row
  check_derived none = pure tt
  check_derived (some parent) = do
    row env parent
    derived ← gets (λ s. count (λ r. is_some r.derived_from) s.tasks)
    raise_if (leb env.limits.max_derived_tasks derived)
        (Error.run_limit_reached Limit.max_derived_tasks)

  unfoldable pub check_dependencies : List ℕ → Action ⊤
  unfolding row
  check_dependencies [] = pure tt
  check_dependencies (d ∷ ds) = do row env d; check_dependencies ds

  abbrev pub fresh_row : Signal → Text → ℕ → ℕ → Option ℕ → TaskRow
  fresh_row signal scope acceptance created derived_from = record {
    task_id = signal.task_id;
    workspace = signal.workspace;
    scope = scope;
    module_name = signal.module_name;
    capability = kind_name names signal;
    signal = signal;
    status = Status.available;
    acceptance = acceptance;
    attempts = 0;
    token = 0;
    owner = none;
    expiry = none;
    created_at = created;
    updated_at = created;
    derived_from = derived_from;
    result_id = none;
    result = none;
    effect_applied = false;
    condition_fail_count = 0;
    unconfirmed_request_id = none;
  }

  abbrev pub note_evidence : Option EvidenceKey → Signal → List Evidence → List Evidence
  note_evidence none signal table = table
  note_evidence (some key) signal table =
      table
      ++ record {
        evidence_key = key;
        task_id = signal.task_id;
        body = signal.payload;
        occurrences = 1;
      }
        ∷ []

  -- The task and its evidence are new.
  unfoldable pub insert_task :
      Signal → List ℕ → ℕ → Option EvidenceKey → Option ℕ → Text → ℕ → Action TaskRecord
  unfolding check_runtime check_derived check_dependencies event reread
  insert_task signal deps acceptance key derived_from scope created = do
    check_runtime env
    total ← gets (λ s. length s.tasks)
    raise_if (leb env.limits.max_tasks total) (Error.run_limit_reached Limit.max_tasks)
    check_derived derived_from
    check_dependencies deps
    modify (λ s. record s {
      tasks = s.tasks ++ fresh_row signal scope acceptance created derived_from ∷ [];
      dependencies =
          s.dependencies ++ map (λ d. record { task_id = signal.task_id; dependency_id = d }) deps;
      evidence = note_evidence key signal s.evidence;
    })
    event env (some signal.task_id) (Event.created derived_from)
    reread env signal.task_id

  unfoldable pub by_evidence : Option EvidenceKey → Text → Action (Option Evidence)
  by_evidence none scope = pure none
  by_evidence (some key) scope = gets (λ s. find_evidence key s.evidence)

  abbrev pub recount_known : Option EvidenceKey → Text → Evidence → Action TaskRecord
  recount_known none scope e = raise Error.key_error
  recount_known (some key) scope e = recount key scope e

  unfoldable pub report :
      Option Evidence → Option EvidenceKey → Request → Signal → Text → ℕ → Action TaskRecord
  unfolding recount insert_task
  report (some e) key q signal scope created = recount_known key scope e
  report none key q signal scope created =
      insert_task signal (sorted_set q.dependencies) q.acceptance key q.derived_from scope created

  -- The transaction of `enqueue`, by whether the task is there.
  unfoldable pub register :
      Option TaskRow → Option EvidenceKey → Request → Signal → Text → ℕ → Action TaskRecord
  unfolding recall by_evidence report
  register (some r) key q signal scope created =
      recall signal (sorted_set q.dependencies) q.acceptance r
  register none key q signal scope created = do
    known ← by_evidence key scope
    report known key q signal scope created

  -- `enqueue`
  unfoldable pub enqueue : Request → Action TaskRecord
  unfolding normalize now register canonical_scope
  enqueue q = do
    signal ← normalize q.signal
    raise_if (ltb 64 (length q.dependencies) || any (λ d. d == signal.task_id) q.dependencies)
        Error.value_error
    scope ← canonical_scope env (env.join signal.workspace signal.scope)
    created ← now env
    transaction (do
      existing ← gets (λ s. find_task signal.task_id s.tasks)
      register existing (evidence_of q.evidence_key signal scope) q signal scope created)
