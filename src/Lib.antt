-- ===== src/Lib.antt =====
-- A verification library for the coordination core of Morphogenesis: many workers share one SQLite
-- file and one list of tasks, and this core decides who may work on what, who may spend, and which
-- provider may be asked.
--
-- The parts and their files:
-- * Ledger (swarm/task_ledger.py, the models of swarm/models.py): `TaskLedger`. Ledger/Types has the
--   tables as records, Ledger/Monad the state, the errors and the transaction, Ledger/Store the
--   helpers `_event`, `_check_runtime`, `_row`, `_record`, `_owned`, `canonical_scope`;
--   Ledger/Eligible the SQL of `_local_filter`, `_eligible` and `candidates`; Ledger/Claim `claim`;
--   Ledger/Leases `renew`, `is_valid`, `release`, `begin_execution`, `confirm_execution`,
--   `assert_execution_confirmed`, `_finish_attempt`, `fail`, `record_condition_failure`, `handoff`;
--   Ledger/Publish `submit` and `_complete`; Ledger/Enqueue `normalize` and `enqueue`;
--   Ledger/Listings `get`, `snapshot`, `leases`, `audit` and `fenced`; Ledger/Manager the facade
--   `LeaseManager` of swarm/lease.py;
--   Ledger/Call and Ledger/Runs any sequence of calls. Ledger/Lifecycle is the abstract life of a
--   task, and Ledger/Steps, ClaimStep, PublishStep and EnqueueStep relate each method to it by the
--   rules of Ledger/Ends; the rest are the theorems and the lookups that they use.
-- * Faults (swarm/fault_observations.py): Faults/Records the file, its reading and `append`;
--   Faults/Windows samples and aggregates.
-- * Breaker (swarm/breaker.py): Breaker/Transition the pure core, Breaker/Table the durable rows,
--   Breaker/Probes `try_claim_probe` and `_finish_probe`, Breaker/Observe `apply_aggregates`,
--   Breaker/Views `views`, `audit`, `windowed_evidence` and `observe`, which reads the fault file;
--   Breaker/Moves is the state diagram, Breaker/Slot the probe slot, Breaker/Suspension any run,
--   Breaker/Tokens the tokens over a run.
-- * Budget (swarm/budget.py): Budget/Snapshot `_snapshot`, `_trip` and `_stored`,
--   Budget/Reserve `reserve`, Budget/Settle `settle` and `mark_unknown_rejection`,
--   Budget/Pending `pending`; Budget/Book is the
--   well-formedness of the reservations, Budget/Runs any sequence of calls.
-- * Chain (swarm/failure_chain.py): Chain/Guard `guard_provider`, which claims probes of the
--   breakers, and `decide`; Chain/Held follows what the guard leaves, Chain/Coverage counts its claims.
-- * Topology (topology/engine.py, the identities of contracts/identity.py in Contracts):
--   Topology/Engine has every method of `TopologyEngine`, Topology/Runs any sequence of calls.
-- * Contracts (contracts/): Contracts/Results has `Acceptance`, `Verification` and `TaskResult` with
--   their validators, Contracts/Messages `Envelope`, `Gene` and `Provision` with their equality.
-- * Persistence (persistence/store.py): Persistence/Store has every method of `SQLiteStore`,
--   Persistence/Runs any sequence of calls.
-- * Metabolism (metabolism/): Metabolism/Types has the rows and `exponential_decay`,
--   Metabolism/Signals `_applicable`, Metabolism/Cache `ingest`, `resolve`, `bind_attempt`,
--   `mark_used`, `decay_weights` and `archive`, Metabolism/Injecting `inject`; Metabolism/Effects is
--   what a call may do to the cache, and Metabolism/Steps shows that every call does one of these.
-- * Readiness (contracts/readiness.py, readiness/service.py): Readiness/Verdict has the probe results,
--   `dimension_states`, `overall_state` and the validators, Readiness/Service `ReadinessService`.
-- * Research (swarm/research/policy.py): Research/Policy has `accept`, `dedup_keys`,
--   `apply_correction` and `new_condition_branch`, Research/Opportunities `opportunities`;
--   Research/Expected describes the opportunity of one branch, without the loops.
-- * Equality and Table are what the stores use: `==` of values, and a table with a primary key.
-- * Base has the shared names; Tests has sample inputs and the theorems applied at them.
--
-- How the code is represented:
-- * Identities and other texts that are only compared are numbers, 0 being the blank one; a scope or
--   path is the list of its code points; a JSON body is a number, 0 being the empty object.
-- * Times are whole ticks, `Env.second` of them to a second. The ledger's clock readings are
--   numbered: `Env.clock` tells each, `none` being one that is negative or not finite. The breaker,
--   the budget and the fault file are given the reading, since each call takes one; in the budget a
--   tick is a second, since a refusal without a window of its own sleeps for 60.
-- * A table is a list of rows, and holds the rows of one swarm. A write transaction is a function of
--   the tables; an exception restores them, while the readings that were taken stay taken. SQLite's
--   immediate transactions are serial, so workers interleave by whole transactions; `submit` is
--   two of them, and the effect that it applies is a callback, `Apply`, an argument: it may check the
--   ownership any number of times, and it returns or raises.
-- * pathlib and os.path are the parameters of `Env`: a path may resolve differently at each reading.
-- * Money is a number of millionths of the unit of the prices, so an estimate is exact; the
--   rounding and the overflow of floating-point numbers are not modelled.
-- * The breaker's in-process window, a cachetools cache, is a parameter of Breaker/Observe.
-- * Floating-point weights and seconds are a type of their own: `Floats` has its operations in the
--   topology, `Seconds` in the metabolism, `Arithmetic` in the research policy. FAISS is the
--   parameter `search`.
-- No definition uses fuel: the loops are over the rows, the lines and the keys.
--
-- Not modelled: creating and migrating the databases, exports, the rebuilding of the index of the
-- fault file, the diagnostic listings of the topology and the metabolism, and the parts around this
-- core: the worker loop, the router and the pheromone field, the research feedback, the executors, the command line, the orchestration of runs, the network clients, the
-- observatory and the visualisation.
pub mod Base
pub mod Equality
pub mod Table
pub mod Contracts
pub mod Ledger
pub mod Faults
pub mod Breaker
pub mod Budget
pub mod Chain
pub mod Topology
pub mod Persistence
pub mod Metabolism
pub mod Readiness
pub mod Research
mod Tests
