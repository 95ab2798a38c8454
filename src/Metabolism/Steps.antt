-- ===== src/Metabolism/Steps.antt =====
-- Every call has one of the effects.
use morphogenesis.Base.{
  ℕ, ◌≡◌, ◌≢◌, refl, sym, ap, ◌∙◌, subst, inl, inr, Bool, true, false, not, ◌&&◌, ◌||◌, ◌==◌,
  Bool-cases, Option, none, some, some_inj, none≢some, List, [], ◌∷◌, if_true, if_false, arith,
  is_some, where_rows,
}
use morphogenesis.Equality.{nat_eq, pair_eq, list_eq}
use morphogenesis.Table.{Row, Table, Pointwise, Pointwise-trans, get, get-add_kept}
use morphogenesis.Contracts.{AgentId, AttemptId, Raised, Tried}
use morphogenesis.Contracts.Results.{provenance_eq, is_blank, is_replay}
use morphogenesis.Contracts.Messages.{
  GeneRef, Gene, gene_equality, agent_equality, attempt_equality, role_equality,
}
use morphogenesis.Metabolism.Types.{
  Seconds, Config, GeneState, InjectionBatch, AttemptContext, Cache, commit, or_raise, checked_now,
  evaluate, weigh,
}
use morphogenesis.Metabolism.Signals.{Texts}
use morphogenesis.Metabolism.Cache.{
  ref_key, is_usable, resolve_in, new_state, ingest_over, ingest, adopted, exactly_one, use_ref,
  use_batch, mark_used, evaluate_where, is_current, decay_weights, is_faint, bury, archive,
  bind_attempt,
}
use morphogenesis.Metabolism.Injecting.{
  active, choose, replayed, inject_first, inject_over, inject_with, inject,
}
use morphogenesis.Metabolism.Runs.{CacheCall, run_cache}
use morphogenesis.Metabolism.Effects.{
  Aged, Aged-refl, Aged-trans, Pointwise-Aged, Rows, Effect, Effect-refl, commit-bind, bind-done,
}

done_inj : {A : Type 0} {a b : A} → Tried.done a ≡ Tried.done b → a ≡ b
done_inj h = cc

failed≢done : {A : Type 0} {e : Raised} {a : A} → Tried.failed e ≢ Tried.done a
failed≢done h = cc

module _ {F : Type 0} (ops : Seconds F) where
  weigh-moved :
      (now : F) (st e : GeneState F) (t : Tried F)
      → weigh ops now st t ≡ Tried.done e
      → e ≡ record st { weight = e.weight; evaluated_at = now }
  weigh-moved now st e (Tried.failed x) h = absurd (failed≢done h)
  weigh-moved now st e (Tried.done w) h =
      let k = done_inj h in
      sym k ∙ ap (λ z. record st { weight = z; evaluated_at = now }) (ap (λ z. z.weight) k)

  evaluate-moved :
      (now : F) (st e : GeneState F)
      → evaluate ops now st ≡ Tried.done e
      → e ≡ record st { weight = e.weight; evaluated_at = now }
  unfolding evaluate
  evaluate-moved now st e h = elim (Bool-cases (ops.less now st.evaluated_at)) [
    | inl y ↦ absurd (failed≢done (if_true _ _ _ _ h y))
    | inr n ↦ weigh-moved now st e _ (if_false _ _ _ _ h n)
  ]

  unarchived : (st : GeneState F) (t : F) → is_some st.archived_at ≡ false → st.archived_at ≢ some t
  unarchived st t n h = bad (sym n ∙ ap is_some h)
    where
      bad : false ≢ true
      bad h = cc

  evaluate_where-Aged :
      (test : Row (ℕ × ℕ) (GeneState F) → Bool) (now : F) (rows rows' : Table (ℕ × ℕ) (GeneState F))
      → ((r : Row (ℕ × ℕ) (GeneState F)) → test r ≡ true → is_some r.value.archived_at ≡ false)
      → evaluate_where ops test now rows ≡ Tried.done rows'
      → Pointwise Aged rows rows'
  unfolding evaluate_where
  evaluate_where-Aged test now [] rows' open_ h =
      subst (Pointwise Aged []) (done_inj h) Pointwise.nil
  evaluate_where-Aged test now (r ∷ rs) rows' open_ h = elim (Bool-cases (test r)) [
    | inl y ↦
        (let (e, he, h') = bind-done (evaluate ops now r.value) _ rows' (if_true _ _ _ _ h y) in
          let (others, ho, h'') = bind-done (evaluate_where ops test now rs) _ rows' h' in
          subst (Pointwise Aged (r ∷ rs)) (done_inj h'') (
            Pointwise.cons
              (record {
                weight = e.weight;
                evaluated_at = now;
                archived_at = r.value.archived_at;
                moved = evaluate-moved now r.value e he;
                frozen = λ t k. absurd (unarchived r.value t (open_ r y) k);
              })
              (evaluate_where-Aged test now rs others open_ ho)))
    | inr n ↦
        (let (others, ho, h'') =
            bind-done (evaluate_where ops test now rs) _ rows' (if_false _ _ _ _ h n) in
          subst (Pointwise Aged (r ∷ rs)) (done_inj h'')
            (Pointwise.cons (Aged-refl r.value) (evaluate_where-Aged test now rs others open_ ho)))
  ]

  is_current-open :
      (c : Config F) (r : Row (ℕ × ℕ) (GeneState F))
      → is_current ops c r ≡ true
      → is_some r.value.archived_at ≡ false
  is_current-open c r h = ground arith

  bury-Aged :
      (c : Config F) (now : F) (rows : Table (ℕ × ℕ) (GeneState F))
      → Pointwise Aged rows (bury ops c now rows)
  bury-Aged c now [] = Pointwise.nil
  bury-Aged c now (r ∷ rs) = elim (Bool-cases (is_faint ops c r)) [
    | inr n ↦ rw n (Pointwise.cons (Aged-refl r.value) (bury-Aged c now rs))
    | inl y ↦
        (let open_ : is_some r.value.archived_at ≡ false = ground arith in
          rw y (
            Pointwise.cons
              (record {
                weight = r.value.weight;
                evaluated_at = r.value.evaluated_at;
                archived_at = some now;
                moved = refl;
                frozen = λ t k. absurd (unarchived r.value t open_ k);
              })
              (bury-Aged c now rs)))
  ]

  decay-Effect : (c : Config F) (now : F) (s : Cache F) → Effect s (decay_weights ops c now s).1
  unfolding decay_weights commit
  decay-Effect c now s = commit-bind (Effect s) s (checked_now ops now) _ (Effect-refl s) (λ _ _.
      commit-bind (Effect s) s (evaluate_where ops (is_current ops c) now s.states) _
        (Effect-refl s)
        (λ states h. record {
          rows = Rows.aged (evaluate_where-Aged _ now s.states states (is_current-open c) h) refl;
          batches = λ key b k. k;
        }))

  archive-Effect : (c : Config F) (now : F) (s : Cache F) → Effect s (archive ops c now s).1
  unfolding archive commit
  archive-Effect c now s = commit-bind (Effect s) s (checked_now ops now) _ (Effect-refl s) (λ _ _.
      commit-bind (Effect s) s (evaluate_where ops (is_current ops c) now s.states) _
        (Effect-refl s)
        (λ states h. record {
          rows =
              Rows.aged
                (Pointwise-trans Aged-trans
                  (evaluate_where-Aged _ now s.states states (is_current-open c) h)
                  (bury-Aged c now states))
                refl;
          batches = λ key b k. k;
        }))

  ingest_over-Effect :
      (c : Config F) (g : Gene) (uri : Option ℕ) (now : F) (o : Option (GeneState F)) (s : Cache F)
      → get (ref_key g.ref) s.states ≡ o
      → Effect s (commit s (ingest_over ops c g uri now o s)).1
  unfolding ingest_over commit
  ingest_over-Effect c g uri now (some st) s h =
      commit-bind (Effect s) s _ _ (Effect-refl s) (λ _ _.
        commit-bind (Effect s) s (resolve_in c g.ref s) _ (Effect-refl s)
          (λ old _. commit-bind (Effect s) s _ _ (Effect-refl s) (λ _ _. Effect-refl s)))
  ingest_over-Effect c g uri now none s h = commit-bind (Effect s) s _ _ (Effect-refl s) (λ _ _.
      commit-bind (Effect s) s (checked_now ops now) _ (Effect-refl s) (λ _ _. record {
        rows =
            Rows.created (ref_key g.ref) (new_state c g uri now ops.one_point) h
              (record {
                named = refl;
                unused = refl;
                open_ = refl;
                anchored = refl;
                evaluated = refl;
              })
              refl refl;
        batches = λ key b k. k;
      }))

  ingest-Effect :
      (c : Config F) (g : Gene) (uri : Option ℕ) (now : F) (s : Cache F)
      → Effect s (ingest ops c g uri now s).1
  unfolding ingest
  ingest-Effect c g uri now s =
      elim (Bool-cases (
        not (provenance_eq g.provenance c.provenance)
        || (is_replay c.provenance && is_blank uri))) [
          | inl y ↦ rw y (Effect-refl s)
          | inr n ↦ rw n (ingest_over-Effect c g uri now (get (ref_key g.ref) s.states) s refl)
        ]

  -- A reference that resolves is of a state without a tombstone.
  usable-open :
      (c : Config F) (o : Option (GeneState F)) (st : GeneState F)
      → is_usable c o ≡ true
      → o ≡ some st
      → st.archived_at ≡ none
  usable-open c none st h k = absurd (none≢some k)
  usable-open c (some x) st h k =
      ap (λ z. z.archived_at) (sym (some_inj k)) ∙ tomb x.archived_at (ground arith)
    where
      tomb : (o : Option F) → is_some o ≡ false → o ≡ none
      tomb none h = refl
      tomb (some t) h = cc

  resolve-usable :
      (c : Config F) (ref : GeneRef) (s : Cache F) (g : Gene)
      → resolve_in c ref s ≡ Tried.done g
      → is_usable c (get (ref_key ref) s.states) ≡ true
  unfolding resolve_in
  resolve-usable c ref s g h = elim (Bool-cases (is_usable c (get (ref_key ref) s.states))) [
    | inl y ↦ y
    | inr n ↦
        absurd (
          failed≢done
            (if_true (not (is_usable c (get (ref_key ref) s.states))) _ _ _ h (rw n refl)))
  ]

  or_raise-some :
      {A : Type 0} (e : Raised) (o : Option A) (a : A) → or_raise e o ≡ Tried.done a → o ≡ some a
  or_raise-some e none a h = absurd (failed≢done h)
  or_raise-some e (some x) a h = ap some (done_inj h)

  use_ref-Effect :
      (c : Config F) (key : ℕ × AttemptId) (ref : GeneRef) (now : F) (s : Cache F)
      → Effect s (commit s (use_ref ops c key ref now s)).1
  unfolding use_ref commit
  use_ref-Effect c key ref now s =
      commit-bind (Effect s) s (resolve_in c ref s) _ (Effect-refl s) (λ g hg.
        commit-bind (Effect s) s (or_raise Raised.value_error (get (ref_key ref) s.states)) _
          (Effect-refl s)
          (λ st hs.
            let found = or_raise-some _ (get (ref_key ref) s.states) st hs in
            commit-bind (Effect s) s (checked_now ops now) _ (Effect-refl s) (λ _ _.
              commit-bind (Effect s) s (evaluate ops now st) _ (Effect-refl s) (λ e he. record {
                rows =
                    Rows.used key ref now ops.one_point st (adopted ops now e) found
                      (usable-open c _ st (resolve-usable c ref s g hg) found)
                      (ap (adopted ops now) (evaluate-moved now st e he)) refl refl;
                batches = λ key b k. k;
              }))))

  use_batch-Effect :
      (c : Config F) (key : ℕ × AttemptId) (gene_id : ℕ) (now : F) (b : InjectionBatch F)
      (s : Cache F)
      → Effect s (commit s (use_batch ops c key gene_id now b s)).1
  unfolding use_batch commit
  use_batch-Effect c key gene_id now b s =
      elim (Bool-cases (provenance_eq b.provenance c.provenance)) [
        | inr n ↦ rw n (Effect-refl s)
        | inl y ↦ elim (Bool-cases (is_some (get (key, gene_id) s.adoptions))) [
          | inl y' ↦ rw (y, y') (Effect-refl s)
          | inr n ↦
              rw (y, n)
                (commit-bind (Effect s) s
                  (exactly_one ops (where_rows (λ r. r.gene_id == gene_id) b.refs))
                  (λ ref. use_ref ops c key ref now s) (Effect-refl s)
                  (λ ref _. use_ref-Effect c key ref now s))
        ]
      ]

  mark_used-Effect :
      (c : Config F) (gene_id : ℕ) (attempt : AttemptId) (now : F) (s : Cache F)
      → Effect s (mark_used ops c gene_id attempt now s).1
  unfolding mark_used
  mark_used-Effect c gene_id attempt now s =
      commit-bind (Effect s) s (or_raise Raised.value_error (get (c.run_id, attempt) s.batches)) _
        (Effect-refl s) (λ b _. use_batch-Effect c (c.run_id, attempt) gene_id now b s)

  module _ (texts : Texts) (search : List Gene → List ℕ → Tried (List (ℕ × F))) where
    inject_first-Effect :
        (c : Config F) (agent : AgentId) (context : AttemptContext) (budget : ℕ) (now : F)
        (s : Cache F)
        → Effect s (commit s (inject_first ops texts search c agent context budget now s)).1
    unfolding inject_first commit
    inject_first-Effect c agent context budget now s =
        commit-bind (Effect s) s (checked_now ops now) _ (Effect-refl s) (λ _ _.
          commit-bind (Effect s) s (active ops texts search c s) _ (Effect-refl s) (λ found _.
            commit-bind (Effect s) s (evaluate_where ops _ now s.states) _ (Effect-refl s)
              (λ states h.
                commit-bind (Effect s) s (choose ops texts search agent context budget _) _
                  (Effect-refl s)
                  (λ chosen _. record {
                    rows =
                        Rows.aged
                          (evaluate_where-Aged _ now s.states states
                            (λ r k. is_current-open c r (ground arith)) h)
                          refl;
                    batches = λ key b k. get-add_kept key _ b _ s.batches k;
                  }))))

    inject_over-Effect :
        (c : Config F) (agent : AgentId) (context : AttemptContext) (budget : ℕ) (now : F)
        (o : Option (InjectionBatch F)) (s : Cache F)
        → Effect s (commit s (inject_over ops texts search c agent context budget now o s)).1
    unfolding inject_over commit
    inject_over-Effect c agent context budget now none s =
        inject_first-Effect c agent context budget now s
    inject_over-Effect c agent context budget now (some b) s =
        elim (Bool-cases (
          not (provenance_eq b.provenance c.provenance)
          || (not (b.budget == budget) || not (list_eq.same b.signals context.signals)))) [
            | inl y ↦ rw y (Effect-refl s)
            | inr n ↦ rw n (
                commit-bind (Effect s) s (replayed ops texts search c s b.refs)
                  (λ gs. Tried.done (gs, s)) (Effect-refl s) (λ gs _. Effect-refl s))
          ]

    inject_with-Effect :
        (c : Config F) (agent : AgentId) (o : Option AttemptContext) (budget : ℕ) (now : F)
        (s : Cache F)
        → Effect s (inject_with ops texts search c agent o budget now s).1
    inject_with-Effect c agent none budget now s = Effect-refl s
    inject_with-Effect c agent (some context) budget now s =
        inject_over-Effect c agent context budget now (get (c.run_id, context.attempt) s.batches) s

    inject-Effect :
        (c : Config F) (agent : AgentId) (budget : ℕ) (now : F) (s : Cache F)
        → Effect s (inject ops texts search c agent budget now s).1
    unfolding inject
    inject-Effect c agent budget now s =
        inject_with-Effect c agent (get (c.instance_id, agent) s.contexts) budget now s

    pub run_cache-Effect :
        (c : Config F) (call : CacheCall F) (s : Cache F)
        → Effect s (run_cache ops texts search c call s)
    unfolding run_cache bind_attempt
    run_cache-Effect c (CacheCall.ingests g uri now) s = ingest-Effect c g uri now s
    run_cache-Effect c (CacheCall.binds attempt signals) s = record {
      rows = Rows.aged (Pointwise-Aged s.states) refl;
      batches = λ key b h. h;
    }
    run_cache-Effect c (CacheCall.injects agent budget now) s = inject-Effect c agent budget now s
    run_cache-Effect c (CacheCall.uses gene_id attempt now) s =
        mark_used-Effect c gene_id attempt now s
    run_cache-Effect c (CacheCall.decays now) s = decay-Effect c now s
    run_cache-Effect c (CacheCall.archives now) s = archive-Effect c now s
