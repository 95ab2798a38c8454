-- ===== src/Topology/Counted.antt =====
-- Every attempt is counted once, on one connection, however often its feedback is delivered.
use morphogenesis.Base.{
  ⊤, ℕ, suc, ◌+◌, ◌-◌, ◌≤◌, ◌≡◌, refl, sym, ap, ◌∙◌, subst, inl, inr, Bool, true, false, Bool-cases,
  Option, none, some, none≢some, List, [], ◌∷◌, arith, if_true, if_false, if◌then◌else◌, length,
  any, update_rows,
}
use morphogenesis.Contracts.{AgentId, AttemptId, Floats, agent_eq, attempt_eq, agent_eq→≡}
use morphogenesis.Topology.Engine.{
  TopologyPolicy, Edge, Engine, to, find_edge, reinforced, seen, record_on, record_attempt, idle,
  prunable, prune_edges,
}

abbrev pub feedbacks : {F : Type 0} → List (Edge F) → ℕ
feedbacks [] = 0
feedbacks (e ∷ es) = e.feedback_count + feedbacks es

-- Distinct targets, and no edge with more successes than feedback.
abbrev pub AreEdges : {F : Type 0} → List (Edge F) → Type 0
AreEdges [] = ⊤
AreEdges (e ∷ es) =
    (find_edge e.spec.dst es ≡ none) × (e.success_count ≤ e.feedback_count) × AreEdges es

abbrev pub AreDistinct : List AttemptId → Type 0
AreDistinct [] = ⊤
AreDistinct (a ∷ as') = (any (λ b. attempt_eq b a) as' ≡ false) × AreDistinct as'

pub record IsCounted {F : Type 0} (g : Engine F) : Type 0 where
  pub edges : AreEdges g.edges
  pub counted : feedbacks g.edges ≡ length g.seen_attempts
  pub distinct : AreDistinct g.seen_attempts
  pub messages : length g.seen_msg_ids ≤ length g.seen_attempts

-- Lists of edges that differ in weight, idle windows and activity alone.
pub data Alike {F : Type 0} : List (Edge F) → List (Edge F) → Type 0 where
  alike_nil : Alike [] []
  alike_cons :
      {e e' : Edge F} {es es' : List (Edge F)}
      → e'.spec ≡ e.spec
      → e'.feedback_count ≡ e.feedback_count
      → e'.success_count ≡ e.success_count
      → Alike es es'
      → Alike (e ∷ es) (e' ∷ es')

Alike-feedbacks :
    {F : Type 0} {es es' : List (Edge F)} → Alike es es' → feedbacks es' ≡ feedbacks es
Alike-feedbacks Alike.alike_nil = refl
Alike-feedbacks (Alike.alike_cons s f w rest) = let r = Alike-feedbacks rest in omega arith

Alike-none :
    {F : Type 0} {es es' : List (Edge F)} (k : AgentId)
    → Alike es es'
    → find_edge k es ≡ none
    → find_edge k es' ≡ none
Alike-none k Alike.alike_nil h = refl
Alike-none k (Alike.alike_cons {e = e} {e' = e'} s f w rest) h =
    elim (Bool-cases (agent_eq e.spec.dst k)) [
      | inl y ↦ absurd (none≢some (sym (if_true _ _ _ _ h y)))
      | inr n ↦ rw (ap (λ z. agent_eq z.dst k) s, n) (Alike-none k rest (if_false _ _ _ _ h n))
    ]

Alike-AreEdges : {F : Type 0} {es es' : List (Edge F)} → Alike es es' → AreEdges es → AreEdges es'
Alike-AreEdges Alike.alike_nil h = h
Alike-AreEdges (Alike.alike_cons {e = e} {es' = es'} s f w rest) (new, bound, h) = (
  subst (λ z. find_edge z.dst es' ≡ none) (sym s) (Alike-none e.spec.dst rest new),
  omega arith,
  Alike-AreEdges rest h,
)

Alike-refl : {F : Type 0} (es : List (Edge F)) → Alike es es
Alike-refl [] = Alike.alike_nil
Alike-refl (e ∷ es) = Alike.alike_cons refl refl refl (Alike-refl es)

module _ {F : Type 0} (ops : Floats F) (policy : TopologyPolicy F) where
  pub idle-Alike :
      (es : List (Edge F)) → Alike es (update_rows (λ e. e.active) (idle ops policy) es)
  idle-Alike [] = Alike.alike_nil
  idle-Alike (e ∷ es) = elim (Bool-cases e.active) [
    | inl y ↦ rw y (Alike.alike_cons refl refl refl (idle-Alike es))
    | inr n ↦ rw n (Alike.alike_cons refl refl refl (idle-Alike es))
  ]

  pub prune-Alike : (n : ℕ) (es : List (Edge F)) → Alike es (prune_edges ops policy n es).1
  unfolding prune_edges
  prune-Alike n [] = Alike.alike_nil
  prune-Alike n (e ∷ es) = elim (Bool-cases (prunable ops policy n e)) [
    | inl y ↦ rw y (Alike.alike_cons refl refl refl (prune-Alike (n - 1) es))
    | inr m ↦ rw m (Alike.alike_cons refl refl refl (prune-Alike n es))
  ]

  pub Alike-IsCounted :
      (g : Engine F) (es : List (Edge F))
      → Alike g.edges es
      → IsCounted g
      → IsCounted (record g { edges = es })
  Alike-IsCounted g es alike c = record {
    edges = Alike-AreEdges alike c.edges;
    counted = Alike-feedbacks alike ∙ c.counted;
    distinct = c.distinct;
    messages = c.messages;
  }

  -- The edge to the target is the only one that a feedback changes.
  update-none :
      (k : AgentId) (success : Bool) (es : List (Edge F))
      → find_edge k es ≡ none
      → update_rows (to k) (reinforced ops policy success) es ≡ es
  update-none k success [] h = refl
  update-none k success (e ∷ es) h = elim (Bool-cases (agent_eq e.spec.dst k)) [
    | inl y ↦ absurd (none≢some (sym (if_true _ _ _ _ h y)))
    | inr n ↦
        rw
          (
            n,
            update-none k success es
                (if_false (agent_eq e.spec.dst k) (some e) (find_edge k es) none h n),
          )
          refl
  ]

  update_feedbacks :
      (k : AgentId) (success : Bool) (es : List (Edge F)) (found : Edge F)
      → AreEdges es
      → find_edge k es ≡ some found
      → feedbacks (update_rows (to k) (reinforced ops policy success) es) ≡ suc (feedbacks es)
  update_feedbacks k success [] found all h = cc
  update_feedbacks k success (e ∷ es) found (new, bound, all) h =
      elim (Bool-cases (agent_eq e.spec.dst k)) [
        | inl y ↦
            (let gone : find_edge k es ≡ none =
                subst (λ z. find_edge z es ≡ none) (agent_eq→≡ _ _ y) new in
              rw (y, update-none k success es gone) (omega arith))
        | inr n ↦
            (let rest = update_feedbacks k success es found all (if_false _ _ _ _ h n) in
              rw n (omega arith))
      ]

  none-update :
      (j k : AgentId) (success : Bool) (es : List (Edge F))
      → find_edge j es ≡ none
      → find_edge j (update_rows (to k) (reinforced ops policy success) es) ≡ none
  none-update j k success [] h = refl
  none-update j k success (e ∷ es) h = elim (Bool-cases (agent_eq e.spec.dst j)) [
    | inl y ↦ absurd (none≢some (sym (if_true _ _ _ _ h y)))
    | inr n ↦
        (let rest = none-update j k success es (if_false _ _ _ _ h n) in
          elim (Bool-cases (agent_eq e.spec.dst k)) [
            | inl y ↦ rw (y, n) rest
            | inr m ↦ rw (m, n) rest
          ])
  ]

  update-AreEdges :
      (k : AgentId) (success : Bool) (es : List (Edge F))
      → AreEdges es
      → AreEdges (update_rows (to k) (reinforced ops policy success) es)
  update-AreEdges k success [] h = h
  update-AreEdges k success (e ∷ es) (new, bound, h) = elim (Bool-cases (agent_eq e.spec.dst k)) [
    | inl y ↦
        rw y (none-update e.spec.dst k success es new, more success, update-AreEdges k success es h)
    | inr n ↦ rw n (none-update e.spec.dst k success es new, bound, update-AreEdges k success es h)
  ]
    where
      more :
          (b : Bool) → (if b then suc e.success_count else e.success_count) ≤ suc e.feedback_count
      more true = omega arith
      more false = omega arith

  pub record_on-IsCounted :
      (attempt : AttemptId) (success : Bool) (target : AgentId) (o : Option (Edge F)) (g : Engine F)
      → find_edge target g.edges ≡ o
      → seen ops attempt g ≡ false
      → IsCounted g
      → IsCounted (record_on ops policy attempt success target o g).1
  unfolding record_on
  record_on-IsCounted attempt success target none g e new c = c
  record_on-IsCounted attempt success target (some x) g e new c = elim (Bool-cases x.active) [
    | inr n ↦ rw n c
    | inl y ↦
        (let more = update_feedbacks target success g.edges x c.edges e in
          let before = c.counted in
          let messages = c.messages in
          rw y (record {
            edges = update-AreEdges target success g.edges c.edges;
            counted = more ∙ ap (λ n. suc n) before;
            distinct = (new, c.distinct);
            messages = omega arith;
          }))
  ]

  pub record-IsCounted :
      (attempt : AttemptId) (success : Bool) (target : AgentId) (g : Engine F)
      → IsCounted g
      → IsCounted (record_attempt ops policy attempt success target g).1
  unfolding record_attempt
  record-IsCounted attempt success target g c = elim (Bool-cases (seen ops attempt g)) [
    | inl y ↦ rw y c
    | inr n ↦
        rw n (record_on-IsCounted attempt success target (find_edge target g.edges) g refl n c)
  ]
