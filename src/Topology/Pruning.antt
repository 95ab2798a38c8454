-- ===== src/Topology/Pruning.antt =====
-- What `prune` takes away.
use morphogenesis.Base.{
  ℕ, suc, ◌+◌, ◌-◌, ◌≤◌, ◌<◌, ◌≡◌, ◌⊎◌, refl, inl, inr, Bool, true, false, not, Bool-cases, List,
  [], ◌∷◌, arith, if◌then◌else◌, length, all,
}
use morphogenesis.Contracts.{Floats}
use morphogenesis.Topology.Engine.{
  TopologyPolicy, Connection, Edge, Engine, prunable, prune_edges, prune, active_count,
}

module _ {F : Type 0} (ops : Floats F) (policy : TopologyPolicy F) where
  pub record PrunedRightly (n : ℕ) (es : List (Edge F)) (pruned : List (Connection F))
      (after : List (Edge F)) : Type 0 where
    pub optional : all (λ c. not c.required) pruned ≡ true
    pub balance : active_count ops after + length pruned ≡ active_count ops es
    pub minimum : (length pruned ≡ 0) ⊎ (policy.min_active_outgoing + length pruned ≤ n)

  prune_edges-PrunedRightly :
      (n : ℕ) (es : List (Edge F))
      → PrunedRightly n es (prune_edges ops policy n es).0 (prune_edges ops policy n es).1
  unfolding prune_edges
  prune_edges-PrunedRightly n [] = record {
    optional = refl;
    balance = omega arith;
    minimum = inl refl;
  }
  prune_edges-PrunedRightly n (e ∷ es) = elim (Bool-cases (prunable ops policy n e)) [
    | inr m ↦
        (let rest = prune_edges-PrunedRightly n es in
          rw m (record {
            optional = rest.optional;
            balance = kept _ _ _ e.active rest.balance;
            minimum = rest.minimum;
          }))
    | inl y ↦
        (let rest = prune_edges-PrunedRightly (n - 1) es in
          let active : e.active ≡ true = ground arith in
          let optional : not e.spec.required ≡ true = ground arith in
          let above : policy.min_active_outgoing < n = ground arith in
          rw y (record {
            optional = rw (optional, rest.optional) refl;
            balance = let b = rest.balance in rw active (omega arith);
            minimum = inr (room rest.minimum above);
          }))
  ]
    where
      kept :
          (a c p : ℕ) (b : Bool)
          → a + p ≡ c
          → (if b then suc a else a) + p ≡ (if b then suc c else c)
      kept a c p true h = omega arith
      kept a c p false h = h

      room :
          {k : ℕ}
          → (k ≡ 0) ⊎ (policy.min_active_outgoing + k ≤ n - 1)
          → policy.min_active_outgoing < n
          → policy.min_active_outgoing + suc k ≤ n
      room (inl z) h = omega arith
      room (inr l) h = omega arith

  -- `prune` never takes a required connection; it reports exactly as many connections as become
  -- inactive; and if it takes any, at least the policy's minimum of active ones is left.
  pub prune_keeps_minimum :
      (g : Engine F)
      → (all (λ c. not c.required) (prune ops policy g).0 ≡ true)
        × (active_count ops (prune ops policy g).1.edges + length (prune ops policy g).0
            ≡ active_count ops g.edges)
        × ((length (prune ops policy g).0 ≡ 0)
            ⊎ (policy.min_active_outgoing ≤ active_count ops (prune ops policy g).1.edges))
  unfolding prune
  prune_keeps_minimum g =
      let p = prune_edges-PrunedRightly (active_count ops g.edges) g.edges in
      (p.optional, p.balance, left p.balance p.minimum)
    where
      left :
          {after k before : ℕ}
          → after + k ≡ before
          → (k ≡ 0) ⊎ (policy.min_active_outgoing + k ≤ before)
          → (k ≡ 0) ⊎ (policy.min_active_outgoing ≤ after)
      left h (inl z) = inl z
      left h (inr l) = inr (omega arith)
