-- ===== src/Tests/OfTopology.antt =====
-- The theorems of the topology applied to a planner with two builders.
use morphogenesis.Base.{
  ℕ, ◌+◌, ◌-◌, ◌*◌, ◌≤◌, ◌≡◌, refl, ◌⊎◌, true, false, not, none, some, List, [], ◌∷◌, ltb, arith,
  length, all,
}
use morphogenesis.Contracts.{Role, AgentId, AttemptId, Tried, Floats}
use morphogenesis.Topology.Engine.{
  TopologyPolicy, Connection, Engine, install, create, select_from, select, prune_edges, prune,
  active_count, record_on, record_attempt, record_feedback, advance_idle_window,
}
use morphogenesis.Topology.Runs.{TopologyCall, run_topology, run_topologies}
use morphogenesis.Topology.Counted.{IsCounted}
use morphogenesis.Topology.Delivered.{run_topologies-IsCounted}
use morphogenesis.Topology.Choice.{IsOrder, Chosen, unbeaten, select_best}
use morphogenesis.Topology.Pruning.{prune_keeps_minimum}

-- Natural numbers as the weights, with 0 also for the -1 below them.
abbrev weights : Floats ℕ
weights = record {
  zero_point = 0;
  one_point = 1;
  below_zero = 0;
  add = λ a b. a + b;
  minus = λ a b. a - b;
  times = λ a b. a * b;
  less = λ a b. ltb a b;
}

abbrev policy : TopologyPolicy ℕ
policy = record {
  decay_lambda = 1;
  reinforcement = 2;
  quality = 3;
  prune_threshold = 1;
  low_activity_window = 1;
  min_active_outgoing = 1;
  candidate_weight = 1;
}

abbrev planner : AgentId
planner = record { role = Role.planner; instance_number = 0 }

abbrev builder : ℕ → AgentId
builder n = record { role = Role.builder; instance_number = n }

abbrev links : List (Connection ℕ)
links =
    record { src = planner; dst = builder 1; weight = 4; required = false }
    ∷ record { src = planner; dst = builder 2; weight = 7; required = true }
    ∷ []

abbrev at_builder : ℕ → AttemptId
at_builder n = record { task_id = 1; agent = builder n; attempt = 0 }

abbrev linked : Engine ℕ
linked = record {
  source = planner;
  edges =
      record {
        spec = record { src = planner; dst = builder 1; weight = 4; required = false };
        weight = 4;
        feedback_count = 0;
        success_count = 0;
        idle_windows = 0;
        active = true;
      }
      ∷ record {
        spec = record { src = planner; dst = builder 2; weight = 7; required = true };
        weight = 7;
        feedback_count = 0;
        success_count = 0;
        idle_windows = 0;
        active = true;
      }
      ∷ [];
  seen_attempts = [];
  seen_msg_ids = [];
}

create_test : create planner links ≡ Tried.done linked
unfolding create install
create_test = refl

abbrev calls : List (TopologyCall ℕ)
calls =
    TopologyCall.records (at_builder 1) true
    ∷ TopologyCall.feeds 5 (at_builder 2) false planner (builder 2)
    ∷ TopologyCall.feeds 6 (at_builder 1) true planner (builder 1)
    ∷ TopologyCall.idles
    ∷ TopologyCall.prunes
    ∷ []

run_test : length (run_topologies weights policy calls linked).seen_attempts ≡ 2
unfolding run_topologies run_topology record_attempt record_on record_feedback advance_idle_window
    prune prune_edges
run_test = refl

run_topologies-IsCounted_example : IsCounted (run_topologies weights policy calls linked)
run_topologies-IsCounted_example =
    run_topologies-IsCounted weights policy planner links linked calls create_test

ltb-IsOrder : IsOrder weights
ltb-IsOrder = record { irreflexive = λ a. ground arith; transitive = λ a b c h k. ground arith }

select_test : select weights (builder 1 ∷ builder 2 ∷ []) linked ≡ some (builder 2)
unfolding select select_from
select_test = refl

select_best_example :
    ((select weights (builder 1 ∷ builder 2 ∷ []) linked ≡ none)
      × (unbeaten weights 0 linked.edges (builder 1 ∷ builder 2 ∷ []) ≡ true))
    ⊎ ((t : AgentId) × (w : ℕ) × (select weights (builder 1 ∷ builder 2 ∷ []) linked ≡ some t)
        × Chosen weights linked.edges (builder 1 ∷ builder 2 ∷ []) t w
        × (unbeaten weights w linked.edges (builder 1 ∷ builder 2 ∷ []) ≡ true))
select_best_example = select_best weights (builder 1 ∷ builder 2 ∷ []) linked ltb-IsOrder

abbrev idled : Engine ℕ
idled = advance_idle_window weights policy linked

prune_keeps_minimum_example :
    (all (λ c. not c.required) (prune weights policy idled).0 ≡ true)
    × (active_count weights (prune weights policy idled).1.edges
          + length (prune weights policy idled).0
        ≡ active_count weights idled.edges)
    × ((length (prune weights policy idled).0 ≡ 0)
        ⊎ (1 ≤ active_count weights (prune weights policy idled).1.edges))
prune_keeps_minimum_example = prune_keeps_minimum weights policy idled
