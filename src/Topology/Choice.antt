-- ===== src/Topology/Choice.antt =====
-- What `select` returns.
use morphogenesis.Base.{
  ◌≡◌, ◌≢◌, ◌⊎◌, refl, sym, ◌∙◌, subst, inl, inr, Bool, true, false, not, ◌&&◌, ◌||◌, Bool-cases,
  Option, none, some, List, [], ◌∷◌, arith, any, all,
}
use morphogenesis.Contracts.{AgentId, Floats, agent_eq, agent_eq_refl}
use morphogenesis.Topology.Engine.{Edge, Engine, find_edge, better, select_from, select}

-- The comparison is a strict order.
pub record IsOrder {F : Type 0} (ops : Floats F) : Type 0 where
  pub irreflexive : (a : F) → ops.less a a ≡ false
  pub transitive : (a b c : F) → ops.less a b ≡ true → ops.less b c ≡ true → ops.less a c ≡ true

module _ {F : Type 0} (ops : Floats F) where
  -- No target of the list has an active edge of a larger weight.
  abbrev pub unbeaten : F → List (Edge F) → List AgentId → Bool
  unbeaten w edges = all (λ u. not (better ops w (find_edge u edges)))

  -- An edge of the weight that was found, to a target of the list.
  pub record Chosen (edges : List (Edge F)) (targets : List AgentId) (t : AgentId) (w : F)
      : Type 0 where
    pub edge : Edge F
    pub listed : any (λ u. agent_eq u t) targets ≡ true
    pub found : find_edge t edges ≡ some edge
    pub active : edge.active ≡ true
    pub weight : edge.weight ≡ w

  -- What the loop ends with: its weight, which nothing beats, and where it comes from.
  record Ended (edges : List (Edge F)) (ts : List AgentId) (best : Option AgentId) (w : F)
      (result : Option AgentId) : Type 0 where
    last : F
    top : unbeaten last edges ts ≡ true
    above : (o : Option (Edge F)) → better ops w o ≡ false → better ops last o ≡ false
    origin :
        ((result ≡ best) × (last ≡ w))
        ⊎ ((t : AgentId) × (result ≡ some t) × Chosen edges ts t last)

  later :
      {edges : List (Edge F)} {ts : List AgentId} {t : AgentId} {w : F} (u : AgentId)
      → Chosen edges ts t w
      → Chosen edges (u ∷ ts) t w
  later {t = t} u c = record {
    edge = c.edge;
    listed = rw c.listed (or_true (agent_eq u t));
    found = c.found;
    active = c.active;
    weight = c.weight;
  }
    where
      or_true : (b : Bool) → (b || true) ≡ true
      or_true true = refl
      or_true false = refl

  better-above :
      (less_trans : (a b c : F) → ops.less a b ≡ true → ops.less b c ≡ true → ops.less a c ≡ true)
      (w w' : F) (o : Option (Edge F))
      → ops.less w w' ≡ true
      → better ops w o ≡ false
      → better ops w' o ≡ false
  better-above tr w w' none l h = refl
  better-above tr w w' (some e) l h = elim (Bool-cases e.active) [
    | inr n ↦ rw n refl
    | inl y ↦ elim (Bool-cases (ops.less w' e.weight)) [
      | inr n ↦ rw (y, n) refl
      | inl up ↦ absurd (bad (sym (less_of h y) ∙ tr w w' e.weight l up))
    ]
  ]
    where
      bad : false ≢ true
      bad h = cc

      less_of :
          (e.active && ops.less w e.weight) ≡ false → e.active ≡ true → ops.less w e.weight ≡ false
      less_of h y = ground arith

  take_target :
      (order : IsOrder ops) (edges : List (Edge F)) (t : AgentId) (ts : List AgentId)
      (best : Option AgentId) (w : F) (e : Edge F) (result : Option AgentId)
      → find_edge t edges ≡ some e
      → e.active ≡ true
      → ops.less w e.weight ≡ true
      → Ended edges ts (some t) e.weight result
      → Ended edges (t ∷ ts) best w result
  take_target order edges t ts best w e result found active l rest = record {
    last = rest.last;
    top = rw (found, rest.above (some e) itself, rest.top) refl;
    above = λ o h. rest.above o (better-above order.transitive w e.weight o l h);
    origin = from rest.origin;
  }
    where
      itself : better ops e.weight (some e) ≡ false
      itself = rw (active, order.irreflexive e.weight) refl

      from :
          ((result ≡ some t) × (rest.last ≡ e.weight))
            ⊎ ((u : AgentId) × (result ≡ some u) × Chosen edges ts u rest.last)
          → ((result ≡ best) × (rest.last ≡ w))
            ⊎ ((u : AgentId) × (result ≡ some u) × Chosen edges (t ∷ ts) u rest.last)
      from (inl (h, k)) = inr (
        t,
        h,
        record {
          edge = e;
          listed = rw (agent_eq_refl t) refl;
          found = found;
          active = active;
          weight = sym k;
        },
      )
      from (inr (u, h, c)) = inr (u, h, later t c)

  leave_target :
      (edges : List (Edge F)) (t : AgentId) (ts : List AgentId) (best : Option AgentId) (w : F)
      (result : Option AgentId)
      → better ops w (find_edge t edges) ≡ false
      → Ended edges ts best w result
      → Ended edges (t ∷ ts) best w result
  leave_target edges t ts best w result n rest = record {
    last = rest.last;
    top = rw (rest.above (find_edge t edges) n, rest.top) refl;
    above = rest.above;
    origin = from rest.origin;
  }
    where
      from :
          ((result ≡ best) × (rest.last ≡ w))
            ⊎ ((u : AgentId) × (result ≡ some u) × Chosen edges ts u rest.last)
          → ((result ≡ best) × (rest.last ≡ w))
            ⊎ ((u : AgentId) × (result ≡ some u) × Chosen edges (t ∷ ts) u rest.last)
      from (inl h) = inl h
      from (inr (u, h, c)) = inr (u, h, later t c)

  parts :
      (w : F) (o : Option (Edge F))
      → better ops w o ≡ true
      → (e : Edge F) × (o ≡ some e) × (e.active ≡ true) × (ops.less w e.weight ≡ true)
  parts w none h = cc
  parts w (some e) h = (e, refl, ground arith, ground arith)

  select_from-Ended :
      (order : IsOrder ops) (edges : List (Edge F)) (ts : List AgentId) (best : Option AgentId)
      (w : F)
      → Ended edges ts best w (select_from ops edges ts best w)
  unfolding select_from
  select_from-Ended order edges [] best w = record {
    last = w;
    top = refl;
    above = λ o h. h;
    origin = inl (refl, refl);
  }
  select_from-Ended order edges (t ∷ ts) best w =
      elim (Bool-cases (better ops w (find_edge t edges))) [
        | inr n ↦
            rw n (leave_target edges t ts best w _ n (select_from-Ended order edges ts best w))
        | inl y ↦
            (let (e, found, active, l) = parts w (find_edge t edges) y in
              rw (found, active, l)
                (take_target order edges t ts best w e _ found active l
                  (select_from-Ended order edges ts (some t) e.weight)))
      ]

-- Where the comparison of the weights is a strict order: the selected target is one of the given
-- ones with an active connection, and none of them has an active connection of a larger weight;
-- if none is selected, none of them has an active connection of a weight above -1.
pub select_best :
    {F : Type 0} (ops : Floats F) (targets : List AgentId) (g : Engine F)
    → IsOrder ops
    → ((select ops targets g ≡ none) × (unbeaten ops ops.below_zero g.edges targets ≡ true))
      ⊎ ((t : AgentId) × (w : F) × (select ops targets g ≡ some t)
          × Chosen ops g.edges targets t w
          × (unbeaten ops w g.edges targets ≡ true))
unfolding select
select_best {F = F} ops targets g order =
    let done = select_from-Ended ops order g.edges targets none ops.below_zero in
    from done done.origin
  where
    from :
        (done : Ended ops g.edges targets none ops.below_zero (select ops targets g))
        → ((select ops targets g ≡ none) × (done.last ≡ ops.below_zero))
          ⊎ ((t : AgentId) × (select ops targets g ≡ some t)
              × Chosen ops g.edges targets t done.last)
        → ((select ops targets g ≡ none) × (unbeaten ops ops.below_zero g.edges targets ≡ true))
          ⊎ ((t : AgentId) × (w : F) × (select ops targets g ≡ some t)
              × Chosen ops g.edges targets t w
              × (unbeaten ops w g.edges targets ≡ true))
    from done (inl (h, k)) = inl (h, subst (λ z. unbeaten ops z g.edges targets ≡ true) k done.top)
    from done (inr (t, h, c)) = inr (t, done.last, h, c, done.top)
