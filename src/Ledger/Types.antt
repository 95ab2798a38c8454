-- ===== src/Ledger/Types.antt =====
-- swarm/models.py and the tables of swarm/task_ledger.py: the rows of one swarm.
use morphogenesis.Base.{ℕ, Bool, Option, List}

-- A path or any other text that is taken apart: its code points.
abbrev pub Text : Type 0
Text = List ℕ

pub data SignalKind : Type 0 where
  error_pattern timeout_storm retry_flood opportunity : SignalKind

pub data TaskKind : Type 0 where
  repair optimize innovation : TaskKind

pub record Signal : Type 0 where
  pub signal_id : ℕ
  pub task_id : ℕ
  pub workspace : Text
  pub scope : Text
  pub kind : SignalKind
  pub payload : ℕ
  pub required_capability : ℕ
  pub module_name : ℕ

pub data Status : Type 0 where
  available claimed submitting partial handoff completed failed blocked : Status

pub record Lease : Type 0 where
  pub task_id : ℕ
  pub swarm_id : ℕ
  pub scope : Text
  pub worker_id : ℕ
  pub token : ℕ
  pub expires_at : ℕ

pub record RunLimits : Type 0 where
  pub max_tasks : ℕ
  pub max_attempts : ℕ
  pub max_attempts_per_task : ℕ
  pub max_derived_tasks : ℕ
  pub max_runtime_seconds : ℕ

-- A row of `tasks`.
pub record TaskRow : Type 0 where
  pub task_id : ℕ
  pub workspace : Text
  pub scope : Text
  pub module_name : ℕ
  pub capability : ℕ
  pub signal : Signal
  pub status : Status
  pub acceptance : ℕ
  pub attempts : ℕ
  pub token : ℕ
  pub owner : Option ℕ
  pub expiry : Option ℕ
  pub created_at : ℕ
  pub updated_at : ℕ
  pub derived_from : Option ℕ
  pub result_id : Option ℕ
  pub result : Option ℕ
  pub effect_applied : Bool
  pub condition_fail_count : ℕ
  pub unconfirmed_request_id : Option ℕ

-- A row of `dependencies`.
pub record Dependency : Type 0 where
  pub task_id : ℕ
  pub dependency_id : ℕ

-- The identity of an observation: given by the caller, or the literal facts of the signal.
pub data EvidenceKey : Type 0 where
  given : ℕ → EvidenceKey
  literal : (workspace scope : Text) → SignalKind → (payload : ℕ) → EvidenceKey

-- A row of `task_evidence`.
pub record Evidence : Type 0 where
  pub evidence_key : EvidenceKey
  pub task_id : ℕ
  pub body : ℕ
  pub occurrences : ℕ

-- How an attempt ended.
pub data Outcome : Type 0 where
  expired released failed partial handoff completed : Outcome

-- A row of `task_attempts`.
pub record Attempt : Type 0 where
  pub task_id : ℕ
  pub token : ℕ
  pub worker_id : ℕ
  pub started_at : ℕ
  pub finished_at : Option ℕ
  pub outcome : Option Outcome
  pub evidence : Option ℕ

-- What `_event` is called with: the event's name and its body.
pub data Event : Type 0 where
  created : (derived_from : Option ℕ) → Event
  evidence_duplicate : EvidenceKey → Event
  claimed : (worker_id token : ℕ) → Event
  renewed : (worker_id token expires_at : ℕ) → Event
  attempt_ended : Outcome → (token evidence : ℕ) → Event
  execution_unconfirmed : (request_id token : ℕ) → Event
  execution_confirmed : (request_id token : ℕ) → Event
  condition_failed : (condition_fail_count : ℕ) → Event
  condition_blocked : (condition_fail_count : ℕ) → Event
  handed_off : Outcome → (from_worker to_worker token : ℕ) → Event
  submitting : (token result_id : ℕ) → Event
  submitted : (token result_id : ℕ) → Event
  recorded : (name body : ℕ) → Event

-- A row of `task_audit`; its sequence number is its place in the list.
pub record AuditRow : Type 0 where
  pub task_id : Option ℕ
  pub event : Event
  pub at : ℕ
