-- ===== src/Topology/Delivered.antt =====
-- Feedback that is delivered by message, and any run of the engine.
use morphogenesis.Base.{
  ℕ, suc, ◌≤◌, ◌≡◌, ◌≢◌, refl, sym, ap, ◌∙◌, subst, inl, inr, Bool, true, false, not, ◌||◌,
  Bool-cases, Option, none, some, none≢some, List, [], ◌∷◌, ◌++◌, arith, if_true, if_false,
  if◌then◌else◌, is_some, length, ◌==◌, any,
}
use morphogenesis.Contracts.{
  AgentId, AttemptId, Floats, Tried, Raised, agent_eq, agent_eq→≡, agent_eq_refl,
}
use morphogenesis.Topology.Engine.{
  TopologyPolicy, Connection, Edge, Engine, find_edge, new_edge, install, started, create, seen,
  record_on, record_attempt, record_feedback, note_message, advance_idle_window, prune,
  active_count, add_connection,
}
use morphogenesis.Topology.Runs.{TopologyCall, run_topology, run_topologies}
use morphogenesis.Topology.Counted.{
  feedbacks, AreEdges, IsCounted, idle-Alike, prune-Alike, Alike-IsCounted, record-IsCounted,
}

module _ {F : Type 0} (ops : Floats F) (policy : TopologyPolicy F) where
  -- A recorded attempt leaves room for its message.
  grows :
      (attempt : AttemptId) (success : Bool) (target : AgentId) (o : Option (Edge F))
      (g g' : Engine F)
      → record_on ops policy attempt success target o g ≡ (Tried.done true, g')
      → (length g'.seen_attempts ≡ suc (length g.seen_attempts))
        × (g'.seen_msg_ids ≡ g.seen_msg_ids)
  unfolding record_on
  grows attempt success target none g g' h = cc
  grows attempt success target (some x) g g' h = elim (Bool-cases x.active) [
    | inr n ↦ absurd (bad (ap (λ z. z.0) (if_true (not x.active) _ _ _ h (rw n refl))))
    | inl y ↦
        (let e = ap (λ z. z.1) (if_false (not x.active) _ _ _ h (rw y refl)) in
          (sym (ap (λ z. length z.seen_attempts) e), sym (ap (λ z. z.seen_msg_ids) e)))
  ]
    where
      bad : Tried.failed Raised.value_error ≢ Tried.done true
      bad h = cc

  note-IsCounted :
      (msg_id : ℕ) (out : Tried Bool × Engine F)
      → IsCounted out.1
      → (out.0 ≡ Tried.done true → suc (length out.1.seen_msg_ids) ≤ length out.1.seen_attempts)
      → IsCounted (note_message ops msg_id out).1
  note-IsCounted msg_id (Tried.failed e, g) c room = c
  note-IsCounted msg_id (Tried.done false, g) c room = c
  note-IsCounted msg_id (Tried.done true, g) c room = record {
    edges = c.edges;
    counted = c.counted;
    distinct = c.distinct;
    messages = room refl;
  }

  attempt-grows :
      (attempt : AttemptId) (success : Bool) (target : AgentId) (g : Engine F)
      → (record_attempt ops policy attempt success target g).0 ≡ Tried.done true
      → (length (record_attempt ops policy attempt success target g).1.seen_attempts
          ≡ suc (length g.seen_attempts))
        × ((record_attempt ops policy attempt success target g).1.seen_msg_ids ≡ g.seen_msg_ids)
  unfolding record_attempt
  attempt-grows attempt success target g h = elim (Bool-cases (seen ops attempt g)) [
    | inl y ↦ absurd (bad (ap (λ z. z.0) (seen_lem y) ∙ h))
    | inr n ↦ rw n (
        grows attempt success target (find_edge target g.edges) g _ (λ i. (
          fresh n i,
          (record_on ops policy attempt success target (find_edge target g.edges) g).1,
        )))
  ]
    where
      bad : Tried.done false ≢ Tried.done true
      bad h = cc

      seen_lem :
          seen ops attempt g ≡ true
          → (Tried.done false, g) ≡ record_attempt ops policy attempt success target g
      seen_lem y = rw y refl

      fresh :
          seen ops attempt g ≡ false
          → (record_on ops policy attempt success target (find_edge target g.edges) g).0
            ≡ Tried.done true
      fresh n =
          ap
            (λ b.
              (if b
                then (Tried.done false, g)
                else record_on ops policy attempt success target (find_edge target g.edges) g).0)
            (sym n)
          ∙ h

  feedback-IsCounted :
      (msg_id : ℕ) (attempt : AttemptId) (success : Bool) (route_source route_target : AgentId)
      (g : Engine F)
      → IsCounted g
      → IsCounted (record_feedback ops policy msg_id attempt success route_source route_target g).1
  unfolding record_feedback
  feedback-IsCounted msg_id attempt success from at g c =
      elim (Bool-cases (agent_eq from g.source)) [
        | inr n ↦ rw n c
        | inl y ↦ elim (Bool-cases (agent_eq at attempt.agent)) [
          | inr n ↦ rw (y, n) c
          | inl y' ↦
              elim (Bool-cases (any (λ m. m == msg_id) g.seen_msg_ids || seen ops attempt g)) [
                | inl known ↦ rw (y, y', known) c
                | inr new ↦
                    rw (y, y', new)
                      (note-IsCounted msg_id (record_attempt ops policy attempt success at g)
                        (record-IsCounted ops policy attempt success at g c)
                        (λ h.
                          let (one, kept) = attempt-grows attempt success at g h in
                          let messages = c.messages in rw (one, kept) (omega arith)))
              ]
        ]
      ]

none-append :
    {F : Type 0} (k : AgentId) (c : Connection F) (es : List (Edge F))
    → find_edge k es ≡ none
    → agent_eq c.dst k ≡ false
    → find_edge k (es ++ new_edge c ∷ []) ≡ none
none-append k c [] h ne = rw ne refl
none-append k c (e ∷ es) h ne = elim (Bool-cases (agent_eq e.spec.dst k)) [
  | inl y ↦ absurd (none≢some (sym (if_true _ _ _ _ h y)))
  | inr n ↦ rw n (none-append k c es (if_false _ _ _ _ h n) ne)
]

agent_eq_swap : (a b : AgentId) → agent_eq a b ≡ false → agent_eq b a ≡ false
agent_eq_swap a b h = elim (Bool-cases (agent_eq b a)) [
  | inr n ↦ n
  | inl y ↦ absurd (bad (sym h ∙ both y))
]
  where
    bad : false ≢ true
    bad h = cc

    both : agent_eq b a ≡ true → agent_eq a b ≡ true
    both y = subst (λ z. agent_eq z b ≡ true) (agent_eq→≡ b a y) (agent_eq_refl b)

append-AreEdges :
    {F : Type 0} (c : Connection F) (es : List (Edge F))
    → find_edge c.dst es ≡ none
    → AreEdges es
    → AreEdges (es ++ new_edge c ∷ [])
append-AreEdges c [] h all = (refl, omega arith, tt)
append-AreEdges c (e ∷ es) h (new, bound, all) = elim (Bool-cases (agent_eq e.spec.dst c.dst)) [
  | inl y ↦ absurd (none≢some (sym (if_true _ _ _ _ h y)))
  | inr n ↦ (
    none-append e.spec.dst c es new (agent_eq_swap e.spec.dst c.dst n),
    bound,
    append-AreEdges c es (if_false _ _ _ _ h n) all,
  )
]

feedbacks-append :
    {F : Type 0} (c : Connection F) (es : List (Edge F))
    → feedbacks (es ++ new_edge c ∷ []) ≡ feedbacks es
feedbacks-append c [] = omega arith
feedbacks-append c (e ∷ es) = let rest = feedbacks-append c es in omega arith

-- The connection is new where the lookup finds none.
is_none : {F : Type 0} (o : Option (Edge F)) → is_some o ≡ false → o ≡ none
is_none none h = refl
is_none (some e) h = cc

add-IsCounted :
    {F : Type 0} (c : Connection F) (g : Engine F) → IsCounted g → IsCounted (add_connection c g).1
unfolding add_connection
add-IsCounted c g all = elim (Bool-cases (agent_eq c.src g.source)) [
  | inr n ↦ rw n all
  | inl y ↦ elim (Bool-cases (is_some (find_edge c.dst g.edges))) [
    | inl y' ↦ rw (y, y') all
    | inr n ↦
        rw (y, n)
          (record {
            edges = append-AreEdges c g.edges (is_none _ n) all.edges;
            counted = feedbacks-append c g.edges ∙ all.counted;
            distinct = all.distinct;
            messages = all.messages;
          })
  ]
]

install-AreEdges :
    {F : Type 0} (source : AgentId) (cs : List (Connection F)) (es es' : List (Edge F))
    → install source cs es ≡ Tried.done es'
    → AreEdges es
    → feedbacks es ≡ 0
    → AreEdges es' × (feedbacks es' ≡ 0)
unfolding install
install-AreEdges {F = F} source [] es es' h all zeroes = cc_case h all zeroes
  where
    inj : {x y : List (Edge F)} → Tried.done x ≡ Tried.done y → x ≡ y
    inj h = cc

    cc_case :
        Tried.done es ≡ Tried.done es'
        → AreEdges es
        → feedbacks es ≡ 0
        → AreEdges es' × (feedbacks es' ≡ 0)
    cc_case h all zeroes = subst (λ z. AreEdges z × (feedbacks z ≡ 0)) (inj h) (all, zeroes)
install-AreEdges {F = F} source (c ∷ cs) es es' h all zeroes =
    elim (Bool-cases (agent_eq c.src source)) [
      | inr n ↦ absurd (bad (if_true (not (agent_eq c.src source)) _ _ _ h (rw n refl)))
      | inl y ↦
          (let h' = if_false (not (agent_eq c.src source)) _ _ _ h (rw y refl) in
            elim (Bool-cases (is_some (find_edge c.dst es))) [
              | inl y' ↦ absurd (bad (if_true _ _ _ _ h' y'))
              | inr n ↦
                  install-AreEdges source cs (es ++ new_edge c ∷ []) es' (if_false _ _ _ _ h' n)
                    (append-AreEdges c es (is_none _ n) all) (feedbacks-append c es ∙ zeroes)
            ])
    ]
  where
    bad : {x : List (Edge F)} → Tried.failed Raised.value_error ≢ Tried.done x
    bad h = cc

started-IsCounted :
    {F : Type 0} (source : AgentId) (t : Tried (List (Edge F))) (g : Engine F)
    → ((es : List (Edge F)) → t ≡ Tried.done es → AreEdges es × (feedbacks es ≡ 0))
    → started source t ≡ Tried.done g
    → IsCounted g
started-IsCounted source (Tried.failed e) g all h = cc
started-IsCounted {F = F} source (Tried.done es) g all h =
    let (edges, zeroes) = all es refl in
    subst IsCounted (inj h)
      (record { edges = edges; counted = zeroes; distinct = tt; messages = omega arith })
  where
    inj : {x y : Engine F} → Tried.done x ≡ Tried.done y → x ≡ y
    inj h = cc

create-IsCounted :
    {F : Type 0} (source : AgentId) (cs : List (Connection F)) (g : Engine F)
    → create source cs ≡ Tried.done g
    → IsCounted g
unfolding create
create-IsCounted source cs g h =
    started-IsCounted source (install source cs []) g
      (λ es k. install-AreEdges source cs [] es k tt refl) h

module _ {F : Type 0} (ops : Floats F) (policy : TopologyPolicy F) where
  run-IsCounted :
      (c : TopologyCall F) (g : Engine F) → IsCounted g → IsCounted (run_topology ops policy c g)
  unfolding run_topology prune advance_idle_window
  run-IsCounted (TopologyCall.records attempt success) g c =
      record-IsCounted ops policy attempt success attempt.agent g c
  run-IsCounted (TopologyCall.feeds m attempt success from at) g c =
      feedback-IsCounted ops policy m attempt success from at g c
  run-IsCounted TopologyCall.idles g c =
      Alike-IsCounted ops policy g _ (idle-Alike ops policy g.edges) c
  run-IsCounted TopologyCall.prunes g c =
      Alike-IsCounted ops policy g _ (prune-Alike ops policy (active_count ops g.edges) g.edges) c
  run-IsCounted (TopologyCall.connects x) g c = add-IsCounted x g c

  runs-IsCounted :
      (calls : List (TopologyCall F)) (g : Engine F)
      → IsCounted g
      → IsCounted (run_topologies ops policy calls g)
  unfolding run_topologies
  runs-IsCounted [] g c = c
  runs-IsCounted (x ∷ xs) g c =
      runs-IsCounted xs (run_topology ops policy x g) (run-IsCounted x g c)

-- After any calls on an engine that was created from connections: the counted feedback of all its
-- edges together is the number of attempts that were recorded, these are all different, no edge
-- has more successes than feedback, no two edges have one target, and no more messages were taken
-- than attempts.
pub run_topologies-IsCounted :
    {F : Type 0} (ops : Floats F) (policy : TopologyPolicy F) (source : AgentId)
    (connections : List (Connection F)) (g : Engine F) (calls : List (TopologyCall F))
    → create source connections ≡ Tried.done g
    → IsCounted (run_topologies ops policy calls g)
run_topologies-IsCounted ops policy source connections g calls h =
    runs-IsCounted ops policy calls g (create-IsCounted source connections g h)
