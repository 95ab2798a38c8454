-- ===== src/Metabolism/Injecting.antt =====
-- `inject`: the genes that apply to an attempt, ranked by similarity and weight; the similarities
-- come from the FAISS index, a parameter.
use morphogenesis.Base.{
  ℕ, zero, suc, Bool, not, ◌&&◌, ◌||◌, ◌==◌, ltb, Option, none, some, List, [], ◌∷◌, ◌++◌,
  if◌then◌else◌, map, any, where_rows,
}
use morphogenesis.Equality.{nat_eq, option_eq, pair_eq, list_eq}
use morphogenesis.Table.{Row, Table, get, add}
use morphogenesis.Contracts.{AgentId, Raised, Tried}
use morphogenesis.Contracts.Results.{provenance_eq}
use morphogenesis.Contracts.Messages.{
  GeneRef, Gene, agent_equality, attempt_equality, role_equality,
}
use morphogenesis.Metabolism.Types.{
  Seconds, Config, GeneState, InjectionBatch, AttemptContext, Cache, ◌>>=◌, commit, checked_now,
}
use morphogenesis.Metabolism.Signals.{Texts, applicable, role_text}
use morphogenesis.Metabolism.Cache.{ref_key, resolve_in, evaluate_where, is_current}

module _ {F : Type 0} (ops : Seconds F) (texts : Texts)
    (search : List Gene → List ℕ → Tried (List (ℕ × F))) where
  abbrev pub Choice : Type 0
  Choice = GeneState F × Gene

  -- `ORDER BY gene_id`; the active states have different ones
  abbrev pub insert_state :
      Row (ℕ × ℕ) (GeneState F) → Table (ℕ × ℕ) (GeneState F) → Table (ℕ × ℕ) (GeneState F)
  insert_state r [] = r ∷ []
  insert_state r (x ∷ xs) =
      let rest = insert_state r xs in if ltb r.key.0 x.key.0 then r ∷ x ∷ xs else x ∷ rest

  abbrev pub by_gene : Table (ℕ × ℕ) (GeneState F) → Table (ℕ × ℕ) (GeneState F)
  by_gene [] = []
  by_gene (x ∷ xs) = insert_state x (by_gene xs)

  -- No later version of the gene is known, tombstones included.
  abbrev pub is_latest : Config F → Table (ℕ × ℕ) (GeneState F) → Row (ℕ × ℕ) (GeneState F) → Bool
  is_latest c rows r = not (
      any
        (λ q.
          provenance_eq q.value.provenance c.provenance
          && (q.key.0 == r.key.0 && ltb r.key.1 q.key.1))
        rows)

  abbrev pub resolve_all : Config F → Cache F → Table (ℕ × ℕ) (GeneState F) → Tried (List Choice)
  resolve_all c s [] = Tried.done []
  resolve_all c s (r ∷ rs) = resolve_in c r.value.ref s >>= λ g.
      resolve_all c s rs >>= λ others. Tried.done ((r.value, g) ∷ others)

  -- `_active`
  unfoldable pub active : Config F → Cache F → Tried (List Choice)
  active c s =
      resolve_all c s
        (by_gene (where_rows (λ r. is_current ops c r && is_latest c s.states r) s.states))

  abbrev pub is_chosen : List Choice → ℕ × ℕ → Bool
  is_chosen choices key = any (λ x. pair_eq.same (ref_key x.0.ref) key) choices

  -- The states of the choices are the rows that were evaluated.
  abbrev pub current : Table (ℕ × ℕ) (GeneState F) → Choice → Choice
  current rows x = (or_same x.0 (get (ref_key x.0.ref) rows), x.1)
    where
      or_same : GeneState F → Option (GeneState F) → GeneState F
      or_same st none = st
      or_same st (some new) = new

  abbrev pub nth : ℕ → List Choice → Tried Choice
  nth n [] = Tried.failed Raised.index_error
  nth zero (x ∷ xs) = Tried.done x
  nth (suc n) (x ∷ xs) = nth n xs

  abbrev pub positive : F → F
  positive x = if ops.less ops.zero_point x then x else ops.zero_point

  -- A choice with its similarity.
  abbrev pub Ranked : Type 0
  Ranked = F × Choice

  abbrev pub score : Ranked → F
  score r = ops.times (positive r.0) r.1.0.weight

  -- The order of the sort's key: a larger score, a larger weight, the smaller identity.
  unfoldable pub precedes : Ranked → Ranked → Bool
  precedes a b =
      ops.less (score b) (score a)
      || (not (ops.less (score a) (score b))
          && (ops.less b.1.0.weight a.1.0.weight
              || (not (ops.less a.1.0.weight b.1.0.weight)
                  && ltb a.1.1.ref.gene_id b.1.1.ref.gene_id)))

  abbrev pub insert_ranked : Ranked → List Ranked → List Ranked
  insert_ranked r [] = r ∷ []
  insert_ranked r (x ∷ xs) =
      let rest = insert_ranked r xs in if precedes x r then x ∷ rest else r ∷ x ∷ xs

  abbrev pub by_rank : List Ranked → List Ranked
  by_rank [] = []
  by_rank (x ∷ xs) = insert_ranked x (by_rank xs)

  abbrev pub look_up : List Choice → List (ℕ × F) → Tried (List Ranked)
  look_up choices [] = Tried.done []
  look_up choices (p ∷ ps) =
      nth p.0 choices >>= λ x. look_up choices ps >>= λ others. Tried.done ((p.1, x) ∷ others)

  abbrev pub prefix : ℕ → List Ranked → List Gene
  prefix zero rs = []
  prefix (suc n) [] = []
  prefix (suc n) (r ∷ rs) = r.1.1 ∷ prefix n rs

  -- `" ".join(signals) or agent.role`
  abbrev pub join_signals : List (List ℕ) → List ℕ
  join_signals [] = []
  join_signals (s ∷ []) = s
  join_signals (s ∷ ss) = s ++ (32 ∷ join_signals ss)

  abbrev pub query : AgentId → List ℕ → List ℕ
  query agent [] = role_text agent.role
  query agent (c ∷ cs) = c ∷ cs

  unfoldable pub choose : AgentId → AttemptContext → ℕ → List Choice → Tried (List Gene)
  unfolding precedes
  choose agent context budget [] = Tried.done []
  choose agent context zero (x ∷ xs) = Tried.done []
  choose agent context (suc n) (x ∷ xs) =
      search (map (λ y. y.1) (x ∷ xs)) (query agent (join_signals context.signals)) >>= λ found.
      look_up (x ∷ xs) found >>= λ ranked. Tried.done (prefix (suc n) (by_rank ranked))

  -- The bodies of a replay; those that a KeyError keeps away are left out.
  unfoldable pub replayed : Config F → Cache F → List GeneRef → Tried (List Gene)
  replayed c s [] = Tried.done []
  replayed c s (ref ∷ refs) = kept (resolve_in c ref s) (replayed c s refs)
    where
      kept : Tried Gene → Tried (List Gene) → Tried (List Gene)
      kept (Tried.failed Raised.key_error) rest = rest
      kept (Tried.failed e) rest = Tried.failed e
      kept (Tried.done g) rest = rest >>= λ gs. Tried.done (g ∷ gs)

  abbrev pub batch_of : Config F → AttemptContext → ℕ → F → List Gene → InjectionBatch F
  batch_of c context budget now chosen = record {
    provenance = c.provenance;
    budget = budget;
    signals = context.signals;
    refs = map (λ g. g.ref) chosen;
    injected_at = now;
  }

  -- The first injection into an attempt.
  unfoldable pub inject_first :
      Config F → AgentId → AttemptContext → ℕ → F → Cache F → Tried (List Gene × Cache F)
  unfolding active choose
  inject_first c agent context budget now s = checked_now ops now >>= λ _. active c s >>= λ found.
      let choices : List Choice = where_rows (λ x. applicable texts x.1 context) found in
      evaluate_where ops (λ r. is_current ops c r && is_chosen choices r.key) now s.states
      >>= λ states. choose agent context budget (map (current states) choices) >>= λ chosen.
          Tried.done (
            chosen,
            record s {
              states = states;
              batches =
                  add (c.run_id, context.attempt) (batch_of c context budget now chosen) s.batches;
            },
          )

  -- The transaction of `inject`, by the batch that it finds.
  unfoldable pub inject_over :
      Config F
      → AgentId
      → AttemptContext
      → ℕ
      → F
      → Option (InjectionBatch F)
      → Cache F
      → Tried (List Gene × Cache F)
  unfolding inject_first replayed
  inject_over c agent context budget now (some prior) s =
      if not (provenance_eq prior.provenance c.provenance)
        || (not (prior.budget == budget) || not (list_eq.same prior.signals context.signals))
      then Tried.failed Raised.value_error
      else (replayed c s prior.refs >>= λ gs. Tried.done (gs, s))
  inject_over c agent context budget now none s = inject_first c agent context budget now s

  abbrev pub inject_with :
      Config F → AgentId → Option AttemptContext → ℕ → F → Cache F → Tried (List Gene) × Cache F
  inject_with c agent none budget now s = (Tried.failed Raised.value_error, s)
  inject_with c agent (some context) budget now s =
      commit s
        (inject_over c agent context budget now (get (c.run_id, context.attempt) s.batches) s)

  -- `inject`
  unfoldable pub inject : Config F → AgentId → ℕ → F → Cache F → Tried (List Gene) × Cache F
  unfolding inject_over
  inject c agent budget now s =
      inject_with c agent (get (c.instance_id, agent) s.contexts) budget now s
