-- ===== src/Tests/Samples.antt =====
-- A small ledger, breaker, budget and fault file to evaluate the models on.
use morphogenesis.Base.{
  ℕ, zero, suc, ◌+◌, ◌≡◌, refl, true, false, none, some, List, [], ◌∷◌, ◌++◌, length,
}
use morphogenesis.Ledger.Types.{Text, SignalKind, TaskKind, Signal, Status, RunLimits, TaskRow}
use morphogenesis.Ledger.Monad.{Env, State, ◌>>=◌, transaction}
use morphogenesis.Ledger.Store.{find_task, now, canonical_scope, event, check_runtime, row}
use morphogenesis.Ledger.Eligible.{
  Locality, dependencies_done, is_clear, rstrip, authorized, local_filter, is_local, eligible,
  overlap,
}
use morphogenesis.Ledger.Claim.{claimable, grant, grant_if_canonical, claim_transaction, claim}
use morphogenesis.Ledger.Enqueue.{Request, task_kind, normalize, register, enqueue}
use morphogenesis.Ledger.Call.{Call}
use morphogenesis.Ledger.Runs.{run, Reach}
use morphogenesis.Ledger.Exclusion.{opened}

abbrev drop : ℕ → Text → Text
drop zero t = t
drop (suc n) [] = []
drop (suc n) (c ∷ t) = drop n t

abbrev pub limits : RunLimits
limits = record {
  max_tasks = 10;
  max_attempts = 20;
  max_attempts_per_task = 3;
  max_derived_tasks = 5;
  max_runtime_seconds = 3600;
}

-- The clock shows the number of its reading; every path is its own resolution.
abbrev pub sample_env : Env
sample_env = record {
  swarm_id = 7;
  limits = limits;
  clock = λ i. some i;
  second = 1;
  separator = 47;
  is_absolute = λ t. true;
  resolve = λ i t. t;
  normcase = λ t. t;
  join = λ a b. a ++ 47 ∷ b;
  relative_to = λ a b. some (drop (suc (length a)) b);
}

abbrev pub kind_id : TaskKind → ℕ
kind_id TaskKind.repair = 1
kind_id TaskKind.optimize = 2
kind_id TaskKind.innovation = 3

abbrev workspace : Text
workspace = 47 ∷ 119 ∷ []

abbrev signal_for : ℕ → ℕ → Signal
signal_for task_id letter = record {
  signal_id = 100 + task_id;
  task_id = task_id;
  workspace = workspace;
  scope = letter ∷ [];
  kind = SignalKind.error_pattern;
  payload = task_id;
  required_capability = 0;
  module_name = 0;
}

abbrev request_for : ℕ → ℕ → List ℕ → Request
request_for task_id letter dependencies = record {
  signal = signal_for task_id letter;
  dependencies = dependencies;
  acceptance = 0;
  evidence_key = none;
  derived_from = none;
}

abbrev pub everywhere : Locality
everywhere = record {
  workspace = workspace;
  authorized_scopes = (97 ∷ []) ∷ (98 ∷ []) ∷ [];
  modules = [];
  dependency_of = [];
}

abbrev pub fresh : State
fresh = opened 0 0

-- Two tasks with scopes apart are recorded, and two workers claim them.
abbrev pub two_claimed : State
two_claimed = run sample_env kind_id (Call.claim 2 21 500 everywhere) (
    run sample_env kind_id (Call.claim 1 20 500 everywhere) (
      run sample_env kind_id (Call.enqueue (request_for 2 98 []))
        (run sample_env kind_id (Call.enqueue (request_for 1 97 [])) fresh)))

pub two_claimed-Reach : Reach sample_env kind_id fresh two_claimed
two_claimed-Reach =
    Reach.next
      (Reach.next
        (Reach.next (Reach.next Reach.here (Call.enqueue (request_for 1 97 [])))
          (Call.enqueue (request_for 2 98 [])))
        (Call.claim 1 20 500 everywhere))
      (Call.claim 2 21 500 everywhere)

-- The row of the first and of the second task.
abbrev pub claimed_row : ℕ → ℕ → ℕ → ℕ → ℕ → TaskRow
claimed_row task_id letter worker created claimed = record {
  task_id = task_id;
  workspace = workspace;
  scope = 47 ∷ 119 ∷ 47 ∷ letter ∷ [];
  module_name = 0;
  capability = 1;
  signal = signal_for task_id letter;
  status = Status.claimed;
  acceptance = 0;
  attempts = 1;
  token = 1;
  owner = some worker;
  expiry = some (claimed + 500);
  created_at = created;
  updated_at = claimed;
  derived_from = none;
  result_id = none;
  result = none;
  effect_applied = false;
  condition_fail_count = 0;
  unconfirmed_request_id = none;
}

pub readings_test : two_claimed.readings ≡ 12
unfolding run claim enqueue normalize register ◌>>=◌ transaction now canonical_scope event
    check_runtime row authorized local_filter is_local eligible overlap claimable grant
    grant_if_canonical claim_transaction dependencies_done is_clear rstrip task_kind
readings_test = refl

pub first_found : find_task 1 two_claimed.tasks ≡ some (claimed_row 1 97 20 0 7)
unfolding run claim enqueue normalize register ◌>>=◌ transaction now canonical_scope event
    check_runtime row authorized local_filter is_local eligible overlap claimable grant
    grant_if_canonical claim_transaction dependencies_done is_clear rstrip task_kind
first_found = refl

pub second_found : find_task 2 two_claimed.tasks ≡ some (claimed_row 2 98 21 3 10)
unfolding run claim enqueue normalize register ◌>>=◌ transaction now canonical_scope event
    check_runtime row authorized local_filter is_local eligible overlap claimable grant
    grant_if_canonical claim_transaction dependencies_done is_clear rstrip task_kind
second_found = refl
