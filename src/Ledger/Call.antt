-- ===== src/Ledger/Call.antt =====
-- The calls that write the tables of swarm/task_ledger.py.
use morphogenesis.Base.{ℕ, Option}
use morphogenesis.Ledger.Types.{Lease}
use morphogenesis.Ledger.Eligible.{Locality}
use morphogenesis.Ledger.Publish.{Apply}
use morphogenesis.Ledger.Enqueue.{Request}

-- A writing method of the ledger with its arguments; `submit` is its two transactions, between
-- which other workers may write.
pub data Call : Type 0 where
  record_event : (task_id : Option ℕ) (name body : ℕ) → Call
  enqueue : Request → Call
  claim : (task_id worker_id ttl : ℕ) → Locality → Call
  renew : Lease → (ttl : ℕ) → Call
  release : Lease → Call
  fail : Lease → (evidence : ℕ) → Call
  begin_execution : Lease → (request_id : ℕ) (max_executions : Option ℕ) → Call
  confirm_execution : Lease → (request_id : ℕ) → Call
  record_condition_failure : (task_id : ℕ) → Call
  handoff : Lease → (next_worker_id : ℕ) (partial : Option ℕ) → Call
  submit_first : Lease → (result_id body : ℕ) → Option Apply → Call
  submit_second : Lease → (result_id body : ℕ) → Apply → Call
