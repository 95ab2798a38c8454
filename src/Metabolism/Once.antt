-- ===== src/Metabolism/Once.antt =====
-- Marking a gene as used twice.
use morphogenesis.Base.{
  ℕ, ◌≡◌, ◌≢◌, refl, sym, ap, ◌∙◌, subst, inl, inr, Bool, true, not, ◌==◌, Bool-cases, Option, none,
  some, List, [], ◌∷◌, if_true, if_false, arith, is_some, where_rows, Option-cases, all, ==→≡,
}
use morphogenesis.Equality.{nat_eq, pair_eq}
use morphogenesis.Table.{get, get-add, get-add_kept}
use morphogenesis.Contracts.{AttemptId, Raised, Tried}
use morphogenesis.Contracts.Results.{provenance_eq}
use morphogenesis.Contracts.Messages.{
  GeneRef, Gene, gene_equality, agent_equality, attempt_equality, role_equality,
}
use morphogenesis.Metabolism.Types.{
  Seconds, Config, InjectionBatch, Adoption, Cache, ◌>>=◌, commit, or_raise, checked_now, evaluate,
}
use morphogenesis.Metabolism.Signals.{Texts}
use morphogenesis.Metabolism.Cache.{ref_key, resolve_in, exactly_one, use_ref, use_batch, mark_used}
use morphogenesis.Metabolism.Runs.{CacheCall, run_cache, run_caches}
use morphogenesis.Metabolism.Effects.{Rows, Effect, bind-done}
use morphogenesis.Metabolism.Steps.{run_cache-Effect}

done_inj : {A : Type 0} {a b : A} → Tried.done a ≡ Tried.done b → a ≡ b
done_inj h = cc

failed≢done : {A : Type 0} {e : Raised} {a : A} → Tried.failed e ≢ Tried.done a
failed≢done h = cc

or_raise-some :
    {A : Type 0} (e : Raised) (o : Option A) (a : A) → or_raise e o ≡ Tried.done a → o ≡ some a
or_raise-some e none a h = absurd (failed≢done h)
or_raise-some e (some x) a h = ap some (done_inj h)

all-where_rows : {A : Type 0} (test : A → Bool) (xs : List A) → all test (where_rows test xs) ≡ true
all-where_rows test [] = refl
all-where_rows test (x ∷ xs) = elim (Bool-cases (test x)) [
  | inl y ↦ rw (y, y, all-where_rows test xs) refl
  | inr n ↦ rw n (all-where_rows test xs)
]

module _ {F : Type 0} where
  -- A call that returned left what its transaction computed.
  commit-done :
      {A : Type 0} (s : Cache F) (m : Tried (A × Cache F)) (a : A)
      → (commit s m).0 ≡ Tried.done a
      → m ≡ Tried.done (a, (commit s m).1)
  unfolding commit
  commit-done s (Tried.done r) a h = ap (λ z. Tried.done (z, r.1)) (done_inj h)
  commit-done s (Tried.failed e) a h = absurd (failed≢done h)

  -- The injection of a run and attempt is known to a provenance, and the adoption is recorded.
  record Recorded (c : Config F) (key : ℕ × AttemptId) (gene_id : ℕ) (s : Cache F) : Type 0 where
    batch : InjectionBatch F
    injected : get key s.batches ≡ some batch
    provenance : provenance_eq batch.provenance c.provenance ≡ true
    adoption : Adoption F
    found : get (key, gene_id) s.adoptions ≡ some adoption

  Rows-adoption :
      (k : (ℕ × AttemptId) × ℕ) (a : Adoption F) (s s' : Cache F)
      → Rows s s'
      → get k s.adoptions ≡ some a
      → get k s'.adoptions ≡ some a
  Rows-adoption k a s s' (Rows.aged _ e) h = ap (get k) e ∙ h
  Rows-adoption k a s s' (Rows.created _ _ _ _ _ e) h = ap (get k) e ∙ h
  Rows-adoption k a s s' (Rows.used key ref at w st e _ _ _ _ eq) h =
      ap (get k) eq ∙ get-add_kept k (key, ref.gene_id) a _ s.adoptions h

  Effect-Recorded :
      (c : Config F) (key : ℕ × AttemptId) (gene_id : ℕ) (s s' : Cache F)
      → Effect s s'
      → Recorded c key gene_id s
      → Recorded c key gene_id s'
  Effect-Recorded c key gene_id s s' e r = record {
    batch = r.batch;
    injected = e.batches key r.batch r.injected;
    provenance = r.provenance;
    adoption = r.adoption;
    found = Rows-adoption (key, gene_id) r.adoption s s' e.rows r.found;
  }

  module _ (ops : Seconds F) where
    use_ref-found :
        (c : Config F) (key : ℕ × AttemptId) (ref : GeneRef) (now : F) (s s' : Cache F)
        → get (key, ref.gene_id) s.adoptions ≡ none
        → use_ref ops c key ref now s ≡ Tried.done (tt, s')
        → (s'.batches ≡ s.batches)
          × (get (key, ref.gene_id) s'.adoptions
              ≡ some (record { version = ref.version; used_at = now }))
    unfolding use_ref
    use_ref-found c key ref now s s' new h =
        let (g, _, h1) = bind-done (resolve_in c ref s) _ _ h in
        let (st, _, h2) =
          bind-done (or_raise Raised.value_error (get (ref_key ref) s.states)) _ _ h1 in
        let (_, _, h3) = bind-done (checked_now ops now) _ _ h2 in
        let (e, _, h4) = bind-done (evaluate ops now st) _ _ h3 in
        let eq = ap (λ z. z.1) (done_inj h4) in
        (
          sym (ap (λ z. z.batches) eq),
          sym (ap (λ z. get (key, ref.gene_id) z.adoptions) eq)
              ∙ get-add (key, ref.gene_id) _ s.adoptions new,
        )

    only-true :
        (test : GeneRef → Bool) (refs : List GeneRef) (ref : GeneRef)
        → all test refs ≡ true
        → exactly_one ops refs ≡ Tried.done ref
        → test ref ≡ true
    only-true test [] ref h k = absurd (failed≢done k)
    only-true test (r ∷ []) ref h k = subst (λ z. test z ≡ true) (done_inj k) (ground arith)
    only-true test (r ∷ q ∷ rs) ref h k = absurd (failed≢done k)

    use_batch-Recorded :
        (c : Config F) (key : ℕ × AttemptId) (gene_id : ℕ) (now : F) (b : InjectionBatch F)
        (s s' : Cache F)
        → get key s.batches ≡ some b
        → use_batch ops c key gene_id now b s ≡ Tried.done (tt, s')
        → Recorded c key gene_id s'
    unfolding use_batch
    use_batch-Recorded c key gene_id now b s s' found h =
        elim (Bool-cases (provenance_eq b.provenance c.provenance)) [
          | inr n ↦ absurd (
              failed≢done
                (if_true (not (provenance_eq b.provenance c.provenance)) _ _ _ h (rw n refl)))
          | inl same_run ↦
              (let h' =
                  if_false (not (provenance_eq b.provenance c.provenance)) _ _ _ h
                    (rw same_run refl) in
                elim (Option-cases (get (key, gene_id) s.adoptions)) [
                  | inr (a, old) ↦
                      subst (Recorded c key gene_id)
                        (ap (λ z. z.1)
                          (done_inj (
                            if_true (is_some (get (key, gene_id) s.adoptions)) _ _ _ h'
                              (rw old refl))))
                        (record {
                          batch = b;
                          injected = found;
                          provenance = same_run;
                          adoption = a;
                          found = old;
                        })
                  | inl new ↦
                      adopted_now found same_run new
                        (if_false (is_some (get (key, gene_id) s.adoptions)) _ _ _ h' (rw new refl))
                ])
        ]
      where
        adopted_now :
            get key s.batches ≡ some b
            → provenance_eq b.provenance c.provenance ≡ true
            → get (key, gene_id) s.adoptions ≡ none
            → (exactly_one ops (where_rows (λ r. r.gene_id == gene_id) b.refs) >>= λ ref.
                use_ref ops c key ref now s)
              ≡ Tried.done (tt, s')
            → Recorded c key gene_id s'
        adopted_now found same_run new h =
            let (ref, one, h1) =
              bind-done (exactly_one ops (where_rows (λ r. r.gene_id == gene_id) b.refs)) _ _ h in
            let id : ref.gene_id ≡ gene_id =
              ==→≡ _ _
                (only-true (λ r. r.gene_id == gene_id) _ ref (all-where_rows _ b.refs) one) in
            let (kept, here) =
              use_ref-found c key ref now s s' (ap (λ z. get (key, z) s.adoptions) id ∙ new) h1 in
            record {
              batch = b;
              injected = ap (get key) kept ∙ found;
              provenance = same_run;
              adoption = record { version = ref.version; used_at = now };
              found = ap (λ z. get (key, z) s'.adoptions) (sym id) ∙ here;
            }

    mark_used-Recorded :
        (c : Config F) (gene_id : ℕ) (attempt : AttemptId) (now : F) (s : Cache F)
        → (mark_used ops c gene_id attempt now s).0 ≡ Tried.done tt
        → Recorded c (c.run_id, attempt) gene_id (mark_used ops c gene_id attempt now s).1
    unfolding mark_used
    mark_used-Recorded c gene_id attempt now s h =
        let whole = commit-done s _ tt h in
        let (b, hb, h1) =
          bind-done (or_raise Raised.value_error (get (c.run_id, attempt) s.batches)) _ _ whole in
        use_batch-Recorded c (c.run_id, attempt) gene_id now b s _ (or_raise-some _ _ b hb) h1

    mark_used-again :
        (c : Config F) (gene_id : ℕ) (attempt : AttemptId) (now : F) (s : Cache F)
        → Recorded c (c.run_id, attempt) gene_id s
        → mark_used ops c gene_id attempt now s ≡ (Tried.done tt, s)
    unfolding mark_used use_batch ◌>>=◌ commit
    mark_used-again c gene_id attempt now s r = rw (r.injected, r.provenance, r.found) refl

    module _ (texts : Texts) (search : List Gene → List ℕ → Tried (List (ℕ × F))) where
      runs-Recorded :
          (calls : List (Config F × CacheCall F)) (c : Config F) (key : ℕ × AttemptId) (gene_id : ℕ)
          (s : Cache F)
          → Recorded c key gene_id s
          → Recorded c key gene_id (run_caches ops texts search calls s)
      unfolding run_caches
      runs-Recorded [] c key gene_id s r = r
      runs-Recorded (x ∷ xs) c key gene_id s r =
          runs-Recorded xs c key gene_id (run_cache ops texts search x.0 x.1 s)
            (Effect-Recorded c key gene_id s _ (run_cache-Effect ops texts search x.0 x.1 s) r)

      -- Once `mark_used` has returned for a gene and an attempt, and after any further calls of any
      -- instances, the same call at any time returns and changes nothing.
      pub mark_used_once :
          (calls : List (Config F × CacheCall F)) (c : Config F) (gene_id : ℕ) (attempt : AttemptId)
          (now later : F) (s : Cache F)
          → (mark_used ops c gene_id attempt now s).0 ≡ Tried.done tt
          → mark_used ops c gene_id attempt later
              (run_caches ops texts search calls (mark_used ops c gene_id attempt now s).1)
            ≡ (
              Tried.done tt,
              run_caches ops texts search calls (mark_used ops c gene_id attempt now s).1,
            )
      mark_used_once calls c gene_id attempt now later s h =
          mark_used-again c gene_id attempt later _ (
            runs-Recorded calls c (c.run_id, attempt) gene_id _
              (mark_used-Recorded c gene_id attempt now s h))
