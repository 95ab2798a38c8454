-- ===== src/Metabolism/Cache.antt =====
-- `LocalMetabolism` but `inject`: reading a body, `ingest`, `bind_attempt`, `mark_used`,
-- `decay_weights`, `archive`. `now` is what the clock reads in the call.
use morphogenesis.Base.{
  ℕ, suc, ⊤, Bool, false, not, ◌&&◌, ◌||◌, ◌==◌, Option, none, some, List, [], ◌∷◌, if◌then◌else◌,
  map, where_rows, same, is_some, sorted_set,
}
use morphogenesis.Equality.{nat_eq, option_eq, pair_eq}
use morphogenesis.Table.{Row, Table, get, add, merge, change, remove}
use morphogenesis.Contracts.{AttemptId, Raised, Tried}
use morphogenesis.Contracts.Results.{is_blank, is_replay, provenance_eq}
use morphogenesis.Contracts.Messages.{
  GeneRef, Gene, gene_equality, agent_equality, attempt_equality, role_equality,
}
use morphogenesis.Metabolism.Types.{
  Seconds, Config, GeneState, InjectionBatch, Cache, ◌>>=◌, commit, or_raise, checked_now, evaluate,
}
use morphogenesis.Metabolism.Signals.{Texts, bound}

abbrev pub ref_key : GeneRef → ℕ × ℕ
ref_key ref = (ref.gene_id, ref.version)

abbrev pub raise_if : Bool → Raised → Tried ⊤
raise_if b e = if b then Tried.failed e else Tried.done tt

abbrev pub wrong_asset : GeneRef → Gene → Bool
wrong_asset ref g = is_some ref.asset_id && not (same ref.asset_id g.ref.asset_id)

abbrev pub other_body : Gene → Option Gene → Bool
other_body g none = false
other_body g (some old) = not (gene_equality.same old g)

module _ {F : Type 0} where
  -- `_body`
  unfoldable pub body : GeneRef → Cache F → Tried Gene
  body ref s = or_raise Raised.key_error (get (ref_key ref) s.genes) >>= λ g.
      raise_if (wrong_asset ref g) Raised.value_error >>= λ _. Tried.done g

  -- The test of `_resolve` on the state.
  abbrev pub is_usable : Config F → Option (GeneState F) → Bool
  is_usable c none = false
  is_usable c (some st) = not (is_some st.archived_at) && provenance_eq st.provenance c.provenance

  -- `_resolve`
  unfoldable pub resolve_in : Config F → GeneRef → Cache F → Tried Gene
  unfolding body
  resolve_in c ref s =
      if not (is_usable c (get (ref_key ref) s.states))
      then Tried.failed Raised.key_error
      else (body ref s >>= λ g.
          raise_if (not (provenance_eq g.provenance c.provenance)) Raised.value_error >>= λ _.
          Tried.done g)

  -- `resolve`
  abbrev pub resolve : Config F → GeneRef → Cache F → Tried Gene × Cache F
  resolve c ref s = commit s (resolve_in c ref s >>= λ g. Tried.done (g, s))

  abbrev pub new_state : Config F → Gene → Option ℕ → F → F → GeneState F
  new_state c g uri now one = record {
    ref = g.ref;
    provenance = g.provenance;
    original_run_uri = uri;
    source_attempt = g.source_attempt;
    created_at = now;
    anchor_at = now;
    evaluated_at = now;
    tau_seconds = c.tau_seconds;
    weight = one;
    use_count = 0;
    archived_at = none;
  }

  abbrev pub cached : Gene → Option Gene → Cache F → Table (ℕ × ℕ) Gene
  cached g none s = add (ref_key g.ref) g s.genes
  cached g (some old) s = s.genes

  module _ (ops : Seconds F) where
    -- The transaction of `ingest`, by the state that it finds.
    unfoldable pub ingest_over :
        Config F → Gene → Option ℕ → F → Option (GeneState F) → Cache F → Tried (⊤ × Cache F)
    ingest_over c g uri now (some st) s =
        raise_if (is_some st.archived_at) Raised.value_error >>= λ _.
        resolve_in c g.ref s >>= λ old.
        raise_if (not (gene_equality.same old g) || not (same st.original_run_uri uri))
          Raised.value_error
        >>= λ _. Tried.done (tt, s)
    ingest_over c g uri now none s =
        raise_if (other_body g (get (ref_key g.ref) s.genes)) Raised.value_error >>= λ _.
        checked_now ops now >>= λ _. Tried.done (
          tt,
          record s {
            genes = cached g (get (ref_key g.ref) s.genes) s;
            states = add (ref_key g.ref) (new_state c g uri now ops.one_point) s.states;
          },
        )

    -- `ingest`
    unfoldable pub ingest : Config F → Gene → Option ℕ → F → Cache F → Tried ⊤ × Cache F
    unfolding ingest_over
    ingest c g uri now s =
        if not (provenance_eq g.provenance c.provenance) || (is_replay c.provenance && is_blank uri)
        then (Tried.failed Raised.value_error, s)
        else commit s (ingest_over c g uri now (get (ref_key g.ref) s.states) s)

    -- The state that an adoption leaves.
    abbrev pub adopted : F → GeneState F → GeneState F
    adopted now e = record e {
      anchor_at = now;
      weight = ops.one_point;
      use_count = suc e.use_count;
    }

    abbrev pub exactly_one : List GeneRef → Tried GeneRef
    exactly_one (r ∷ []) = Tried.done r
    exactly_one _ = Tried.failed Raised.value_error

    abbrev pub adopt : ℕ × AttemptId → GeneRef → F → GeneState F → Cache F → ⊤ × Cache F
    adopt key ref now e s = (
      tt,
      record s {
        states = change (ref_key ref) (λ _. adopted now e) s.states;
        adoptions =
            add (key, ref.gene_id) (record { version = ref.version; used_at = now }) s.adoptions;
      },
    )

    -- `mark_used` once the reference is known; that its state is there is what the code asserts
    unfoldable pub use_ref : Config F → ℕ × AttemptId → GeneRef → F → Cache F → Tried (⊤ × Cache F)
    use_ref c key ref now s = resolve_in c ref s >>= λ _.
        or_raise Raised.value_error (get (ref_key ref) s.states) >>= λ st.
        checked_now ops now >>= λ _. evaluate ops now st >>= λ e. Tried.done (adopt key ref now e s)

    -- `mark_used` once the batch is known
    unfoldable pub use_batch :
        Config F → ℕ × AttemptId → ℕ → F → InjectionBatch F → Cache F → Tried (⊤ × Cache F)
    unfolding use_ref
    use_batch c key gene_id now batch s =
        if not (provenance_eq batch.provenance c.provenance)
        then Tried.failed Raised.value_error
        else if is_some (get (key, gene_id) s.adoptions)
        then Tried.done (tt, s)
        else (exactly_one (where_rows (λ r. r.gene_id == gene_id) batch.refs) >>= λ ref.
            use_ref c key ref now s)

    -- `mark_used`
    unfoldable pub mark_used : Config F → ℕ → AttemptId → F → Cache F → Tried ⊤ × Cache F
    unfolding use_batch
    mark_used c gene_id attempt now s = commit s (
        or_raise Raised.value_error (get (c.run_id, attempt) s.batches) >>= λ batch.
        use_batch c (c.run_id, attempt) gene_id now batch s)

    -- `_evaluate` on the rows of a test
    unfoldable pub evaluate_where :
        (Row (ℕ × ℕ) (GeneState F) → Bool)
        → F
        → Table (ℕ × ℕ) (GeneState F)
        → Tried (Table (ℕ × ℕ) (GeneState F))
    evaluate_where test now [] = Tried.done []
    evaluate_where test now (r ∷ rs) =
        let rest = evaluate_where test now rs in
        if test r
        then (evaluate ops now r.value >>= λ e.
            rest >>= λ others. Tried.done (record { key = r.key; value = e } ∷ others))
        else (rest >>= λ others. Tried.done (r ∷ others))

    abbrev pub is_current : Config F → Row (ℕ × ℕ) (GeneState F) → Bool
    is_current c r =
        provenance_eq r.value.provenance c.provenance && not (is_some r.value.archived_at)

    -- `decay_weights`
    unfoldable pub decay_weights : Config F → F → Cache F → Tried ⊤ × Cache F
    unfolding evaluate_where
    decay_weights c now s = commit s (
        checked_now ops now >>= λ _. evaluate_where (is_current c) now s.states >>= λ states.
        Tried.done (tt, record s { states = states }))

    -- The tombstones of `archive`, after the evaluation.
    abbrev pub is_faint : Config F → Row (ℕ × ℕ) (GeneState F) → Bool
    is_faint c r = is_current c r && ops.less r.value.weight c.archive_threshold

    abbrev pub bury : Config F → F → Table (ℕ × ℕ) (GeneState F) → Table (ℕ × ℕ) (GeneState F)
    bury c now [] = []
    bury c now (r ∷ rs) =
        (if is_faint c r
          then record { key = r.key; value = record r.value { archived_at = some now } }
          else r)
        ∷ bury c now rs

    abbrev pub forget : Table (ℕ × ℕ) (GeneState F) → Table (ℕ × ℕ) Gene → Table (ℕ × ℕ) Gene
    forget [] genes = genes
    forget (r ∷ rs) genes = forget rs (remove r.key genes)

    -- `archive`
    unfoldable pub archive : Config F → F → Cache F → Tried (List ℕ) × Cache F
    unfolding evaluate_where
    archive c now s = commit s (
        checked_now ops now >>= λ _. evaluate_where (is_current c) now s.states >>= λ states.
        Tried.done (
          sorted_set (map (λ r. r.key.0) (where_rows (is_faint c) states)),
          record s {
            genes = forget (where_rows (is_faint c) states) s.genes;
            states = bury c now states;
          },
        ))

-- `bind_attempt`
unfoldable pub bind_attempt :
    {F : Type 0} → Texts → Config F → AttemptId → List (List ℕ) → Cache F → Cache F
bind_attempt texts c attempt signals s = record s {
  contexts = merge (c.instance_id, attempt.agent) (bound texts attempt signals) s.contexts;
}
