-- ===== src/Topology/Engine.antt =====
-- `TopologyEngine`, its connections and its policy; the weights are floating-point numbers, a
-- parameter with its operations.
use morphogenesis.Base.{
  ℕ, suc, ◌-◌, Bool, true, false, not, ◌&&◌, ◌||◌, Option, none, some, List, [], ◌∷◌, ◌++◌, ltb,
  leb, ◌==◌, any, first, count, update_rows, if◌then◌else◌, is_some, ⊤,
}
use morphogenesis.Contracts.{AgentId, AttemptId, Raised, Tried, Floats, agent_eq, attempt_eq}

module _ (F : Type 0) where
  pub record TopologyPolicy : Type 0 where
    pub decay_lambda : F
    pub reinforcement : F
    pub quality : F
    pub prune_threshold : F
    pub low_activity_window : ℕ
    pub min_active_outgoing : ℕ
    pub candidate_weight : F

  pub record Connection : Type 0 where
    pub src : AgentId
    pub dst : AgentId
    pub weight : F
    pub required : Bool

  -- `_Edge`; the dictionary `_edges` has the key `spec.dst`
  pub record Edge : Type 0 where
    pub spec : Connection
    pub weight : F
    pub feedback_count : ℕ
    pub success_count : ℕ
    pub idle_windows : ℕ
    pub active : Bool

  pub record Engine : Type 0 where
    pub source : AgentId
    pub edges : List Edge
    pub seen_attempts : List AttemptId
    pub seen_msg_ids : List ℕ

abbrev pub to : {F : Type 0} → AgentId → Edge F → Bool
to target e = agent_eq e.spec.dst target

abbrev pub find_edge : {F : Type 0} → AgentId → List (Edge F) → Option (Edge F)
find_edge target = first (to target)

abbrev pub new_edge : {F : Type 0} → Connection F → Edge F
new_edge c = record {
  spec = c;
  weight = c.weight;
  feedback_count = 0;
  success_count = 0;
  idle_windows = 0;
  active = true;
}

-- The loop of `__init__`.
unfoldable pub install :
    {F : Type 0} → AgentId → List (Connection F) → List (Edge F) → Tried (List (Edge F))
install source [] edges = Tried.done edges
install source (c ∷ cs) edges =
    let rest = install source cs (edges ++ new_edge c ∷ []) in
    if not (agent_eq c.src source)
    then Tried.failed Raised.value_error
    else if is_some (find_edge c.dst edges)
    then Tried.failed Raised.value_error
    else rest

abbrev pub started : {F : Type 0} → AgentId → Tried (List (Edge F)) → Tried (Engine F)
started source (Tried.failed e) = Tried.failed e
started source (Tried.done edges) =
    Tried.done (record { source = source; edges = edges; seen_attempts = []; seen_msg_ids = [] })

-- `__init__`
unfoldable pub create : {F : Type 0} → AgentId → List (Connection F) → Tried (Engine F)
unfolding install
create source connections = started source (install source connections [])

module _ {F : Type 0} (ops : Floats F) where
  -- The loop of `select`, with the best target so far and its weight.
  abbrev pub better : F → Option (Edge F) → Bool
  better best none = false
  better best (some e) = e.active && ops.less best e.weight

  abbrev pub weight_of : F → Option (Edge F) → F
  weight_of w none = w
  weight_of w (some e) = e.weight

  unfoldable pub select_from : List (Edge F) → List AgentId → Option AgentId → F → Option AgentId
  select_from edges [] best w = best
  select_from edges (t ∷ ts) best w =
      let found = find_edge t edges in
      let taken = select_from edges ts (some t) (weight_of w found) in
      let left = select_from edges ts best w in if better w found then taken else left

  -- `select`
  unfoldable pub select : List AgentId → Engine F → Option AgentId
  unfolding select_from
  select targets g = select_from g.edges targets none ops.below_zero

  -- `max(0.0, x)`
  abbrev pub nonnegative : F → F
  nonnegative x = if ops.less ops.zero_point x then x else ops.zero_point

  -- The writes of `_record` on the edge.
  abbrev pub reinforced : TopologyPolicy F → Bool → Edge F → Edge F
  reinforced policy success e = record e {
    weight = nonnegative (
        ops.add (ops.times (ops.minus ops.one_point policy.decay_lambda) e.weight) (
          ops.times (ops.times policy.reinforcement policy.quality)
            (if success then ops.one_point else ops.zero_point)));
    feedback_count = suc e.feedback_count;
    success_count = if success then suc e.success_count else e.success_count;
    idle_windows = 0;
  }

  abbrev pub seen : AttemptId → Engine F → Bool
  seen attempt g = any (λ a. attempt_eq a attempt) g.seen_attempts

  unfoldable pub record_on :
      TopologyPolicy F
      → AttemptId
      → Bool
      → AgentId
      → Option (Edge F)
      → Engine F
      → Tried Bool × Engine F
  record_on policy attempt success target none g = (Tried.failed Raised.value_error, g)
  record_on policy attempt success target (some e) g =
      if not e.active then (Tried.failed Raised.value_error, g) else (
        Tried.done true,
        record g {
          edges = update_rows (to target) (reinforced policy success) g.edges;
          seen_attempts = attempt ∷ g.seen_attempts;
        },
      )

  -- `_record`
  unfoldable pub record_attempt :
      TopologyPolicy F → AttemptId → Bool → AgentId → Engine F → Tried Bool × Engine F
  unfolding record_on
  record_attempt policy attempt success target g =
      if seen attempt g
      then (Tried.done false, g)
      else record_on policy attempt success target (find_edge target g.edges) g

  abbrev pub note_message : ℕ → Tried Bool × Engine F → Tried Bool × Engine F
  note_message msg_id (Tried.failed e, g) = (Tried.failed e, g)
  note_message msg_id (Tried.done false, g) = (Tried.done false, g)
  note_message msg_id (Tried.done true, g) =
      (Tried.done true, record g { seen_msg_ids = msg_id ∷ g.seen_msg_ids })

  -- `record_feedback`; of the envelope it reads the message's identity and the attempt
  unfoldable pub record_feedback :
      TopologyPolicy F → ℕ → AttemptId → Bool → AgentId → AgentId → Engine F → Tried Bool × Engine F
  unfolding record_attempt
  record_feedback policy msg_id attempt success route_source route_target g =
      if not (agent_eq route_source g.source)
      then (Tried.failed Raised.value_error, g)
      else if not (agent_eq route_target attempt.agent)
      then (Tried.failed Raised.value_error, g)
      else if any (λ m. m == msg_id) g.seen_msg_ids || seen attempt g
      then (Tried.done false, g)
      else note_message msg_id (record_attempt policy attempt success route_target g)

  -- `advance_idle_window`
  abbrev pub idle : TopologyPolicy F → Edge F → Edge F
  idle policy e = record e {
    weight = ops.times e.weight (ops.minus ops.one_point policy.decay_lambda);
    idle_windows = suc e.idle_windows;
  }

  unfoldable pub advance_idle_window : TopologyPolicy F → Engine F → Engine F
  advance_idle_window policy g = record g {
    edges = update_rows (λ e. e.active) (idle policy) g.edges;
  }

  abbrev pub active_count : List (Edge F) → ℕ
  active_count = count (λ e. e.active)

  -- The condition of `prune`, with the number of edges that are still active.
  abbrev pub prunable : TopologyPolicy F → ℕ → Edge F → Bool
  prunable policy n e =
      e.active
      && (not e.spec.required
          && (ops.less e.weight policy.prune_threshold
              && (leb policy.low_activity_window e.idle_windows
                  && ltb policy.min_active_outgoing n)))

  unfoldable pub prune_edges :
      TopologyPolicy F → ℕ → List (Edge F) → List (Connection F) × List (Edge F)
  prune_edges policy n [] = ([], [])
  prune_edges policy n (e ∷ es) =
      let pruned = prune_edges policy (n - 1) es in
      let kept = prune_edges policy n es in
      if prunable policy n e
      then (e.spec ∷ pruned.0, record e { active = false } ∷ pruned.1)
      else (kept.0, e ∷ kept.1)

  -- `prune`
  unfoldable pub prune : TopologyPolicy F → Engine F → List (Connection F) × Engine F
  unfolding prune_edges
  prune policy g =
      let (pruned, edges) = prune_edges policy (active_count g.edges) g.edges in
      (pruned, record g { edges = edges })

-- The loop of `candidate_connections`, with the targets that were seen.
unfoldable pub candidates_from :
    {F : Type 0} → TopologyPolicy F → Engine F → List AgentId → List AgentId → List (Connection F)
candidates_from policy g [] seen_targets = []
candidates_from policy g (t ∷ ts) seen_targets =
    let again = candidates_from policy g ts seen_targets in
    let rest = candidates_from policy g ts (t ∷ seen_targets) in
    if any (λ s. agent_eq s t) seen_targets
    then again
    else if not (agent_eq t g.source) && not (is_some (find_edge t g.edges))
    then record { src = g.source; dst = t; weight = policy.candidate_weight; required = false }
      ∷ rest
    else rest

-- `candidate_connections`
unfoldable pub candidate_connections :
    {F : Type 0} → TopologyPolicy F → List AgentId → Engine F → List (Connection F)
unfolding candidates_from
candidate_connections policy targets g = candidates_from policy g targets []

-- `add_connection`
unfoldable pub add_connection : {F : Type 0} → Connection F → Engine F → Tried ⊤ × Engine F
add_connection c g =
    if not (agent_eq c.src g.source)
    then (Tried.failed Raised.value_error, g)
    else if is_some (find_edge c.dst g.edges)
    then (Tried.failed Raised.value_error, g)
    else (Tried.done tt, record g { edges = g.edges ++ new_edge c ∷ [] })
