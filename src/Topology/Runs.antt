-- ===== src/Topology/Runs.antt =====
-- Any sequence of the calls of a topology engine.
use morphogenesis.Base.{ℕ, Bool, List, [], ◌∷◌}
use morphogenesis.Contracts.{AgentId, AttemptId, Floats}
use morphogenesis.Topology.Engine.{
  TopologyPolicy, Connection, Engine, record_attempt, record_feedback, advance_idle_window, prune,
  add_connection,
}

-- A call that changes the engine, with its arguments; `record` takes its target from the attempt.
pub data TopologyCall (F : Type 0) : Type 0 where
  records : AttemptId → (success : Bool) → TopologyCall F
  feeds :
      (msg_id : ℕ)
      → AttemptId
      → (success : Bool) → (route_source route_target : AgentId) → TopologyCall F
  idles : TopologyCall F
  prunes : TopologyCall F
  connects : Connection F → TopologyCall F

module _ {F : Type 0} (ops : Floats F) (policy : TopologyPolicy F) where
  -- The engine after a call, whether it returns or raises, and after several.
  unfoldable pub run_topology : TopologyCall F → Engine F → Engine F
  run_topology (TopologyCall.records attempt success) g =
      (record_attempt ops policy attempt success attempt.agent g).1
  run_topology (TopologyCall.feeds msg_id attempt success route_source route_target) g =
      (record_feedback ops policy msg_id attempt success route_source route_target g).1
  run_topology TopologyCall.idles g = advance_idle_window ops policy g
  run_topology TopologyCall.prunes g = (prune ops policy g).1
  run_topology (TopologyCall.connects c) g = (add_connection c g).1

  unfoldable pub run_topologies : List (TopologyCall F) → Engine F → Engine F
  run_topologies [] g = g
  run_topologies (c ∷ cs) g = run_topologies cs (run_topology c g)
