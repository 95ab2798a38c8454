-- ===== src/Metabolism/Archived.antt =====
-- An archived version of a gene is never used again.
use morphogenesis.Base.{
  ℕ, ◌≡◌, refl, sym, ap, ◌∙◌, inl, inr, false, not, ◌&&◌, ◌||◌, Bool-cases, Option, none, some,
  some_inj, none≢some, List, [], ◌∷◌,
}
use morphogenesis.Equality.{nat_eq, pair_eq}
use morphogenesis.Table.{get, get-add_kept, get-change_other, get-Pointwise}
use morphogenesis.Contracts.{Raised, Tried}
use morphogenesis.Contracts.Results.{provenance_eq, is_blank, is_replay}
use morphogenesis.Contracts.Messages.{
  GeneRef, Gene, gene_equality, agent_equality, attempt_equality, role_equality,
}
use morphogenesis.Metabolism.Types.{Seconds, Config, GeneState, Cache, ◌>>=◌, commit}
use morphogenesis.Metabolism.Signals.{Texts}
use morphogenesis.Metabolism.Cache.{ref_key, is_usable, resolve_in, ingest_over, ingest}
use morphogenesis.Metabolism.Runs.{CacheCall, run_cache, run_caches}
use morphogenesis.Metabolism.Effects.{Rows}
use morphogenesis.Metabolism.Steps.{run_cache-Effect}

module _ {F : Type 0} (key : ℕ × ℕ) (st : GeneState F) (t : F) where
  Rows-kept :
      (s s' : Cache F)
      → Rows s s'
      → st.archived_at ≡ some t
      → get key s.states ≡ some st
      → get key s'.states ≡ some st
  Rows-kept s s' (Rows.aged p _) archived h =
      let (w, found, a) = get-Pointwise key st p h in found ∙ ap some (a.frozen t archived)
  Rows-kept s s' (Rows.created k new _ _ e _) archived h =
      ap (get key) e ∙ get-add_kept key k st new s.states h
  Rows-kept s s' (Rows.used k ref at w old e found open_ _ eq _) archived h =
      elim (Bool-cases (pair_eq.same (ref_key ref) key)) [
        | inr n ↦ ap (get key) eq ∙ get-change_other key (ref_key ref) _ s.states n ∙ h
        | inl y ↦ absurd (
            none≢some (
              sym open_
              ∙ ap (λ z. z.archived_at)
                  (some_inj (sym found ∙ ap (λ k. get k s.states) (pair_eq.same→≡ _ _ y) ∙ h))
              ∙ archived))
      ]

  module _ (ops : Seconds F) (texts : Texts)
      (search : List Gene → List ℕ → Tried (List (ℕ × F))) where
    runs-kept :
        (calls : List (Config F × CacheCall F)) (s : Cache F)
        → st.archived_at ≡ some t
        → get key s.states ≡ some st
        → get key (run_caches ops texts search calls s).states ≡ some st
    unfolding run_caches
    runs-kept [] s archived h = h
    runs-kept (c ∷ cs) s archived h =
        runs-kept cs (run_cache ops texts search c.0 c.1 s) archived
          (Rows-kept s _ (run_cache-Effect ops texts search c.0 c.1 s).rows archived h)

module _ {F : Type 0} (ops : Seconds F) where
  unusable :
      (c : Config F) (o : Option (GeneState F)) (st : GeneState F) (t : F)
      → o ≡ some st
      → st.archived_at ≡ some t
      → is_usable c o ≡ false
  unusable c none st t h k = refl
  unusable c (some x) st t h k = rw (some_inj h, k) refl

  resolve-refused :
      (c : Config F) (ref : GeneRef) (s : Cache F) (st : GeneState F) (t : F)
      → get (ref_key ref) s.states ≡ some st
      → st.archived_at ≡ some t
      → resolve_in c ref s ≡ Tried.failed Raised.key_error
  unfolding resolve_in
  resolve-refused c ref s st t h k = rw (unusable c (get (ref_key ref) s.states) st t h k) refl

  ingest_over-refused :
      (c : Config F) (g : Gene) (uri : Option ℕ) (now : F) (o : Option (GeneState F)) (s : Cache F)
      (st : GeneState F) (t : F)
      → o ≡ some st
      → st.archived_at ≡ some t
      → commit s (ingest_over ops c g uri now o s) ≡ (Tried.failed Raised.value_error, s)
  unfolding ingest_over commit ◌>>=◌
  ingest_over-refused c g uri now none s st t h k = absurd (none≢some h)
  ingest_over-refused c g uri now (some x) s st t h k = rw (some_inj h, k) refl

  ingest-refused :
      (c : Config F) (g : Gene) (uri : Option ℕ) (now : F) (s : Cache F) (st : GeneState F) (t : F)
      → get (ref_key g.ref) s.states ≡ some st
      → st.archived_at ≡ some t
      → ingest ops c g uri now s ≡ (Tried.failed Raised.value_error, s)
  unfolding ingest
  ingest-refused c g uri now s st t h k =
      elim (Bool-cases (
        not (provenance_eq g.provenance c.provenance)
        || (is_replay c.provenance && is_blank uri))) [
          | inl y ↦ rw y refl
          | inr n ↦ rw n (ingest_over-refused c g uri now (get (ref_key g.ref) s.states) s st t h k)
        ]

-- Once a version of a gene is archived, its row stays exactly as it is over any calls of any
-- instances; after them, resolving the version raises KeyError, and ingesting it again raises
-- ValueError and changes nothing.
pub archived_forever :
    {F : Type 0} (ops : Seconds F) (texts : Texts)
    (search : List Gene → List ℕ → Tried (List (ℕ × F))) (calls : List (Config F × CacheCall F))
    (c : Config F) (g : Gene) (uri : Option ℕ) (now t : F) (s : Cache F) (st : GeneState F)
    → get (ref_key g.ref) s.states ≡ some st
    → st.archived_at ≡ some t
    → (get (ref_key g.ref) (run_caches ops texts search calls s).states ≡ some st)
      × (resolve_in c g.ref (run_caches ops texts search calls s) ≡ Tried.failed Raised.key_error)
      × (ingest ops c g uri now (run_caches ops texts search calls s)
          ≡ (Tried.failed Raised.value_error, run_caches ops texts search calls s))
archived_forever ops texts search calls c g uri now t s st h k =
    let kept = runs-kept (ref_key g.ref) st t ops texts search calls s k h in
    (kept, resolve-refused ops c g.ref _ st t kept k, ingest-refused ops c g uri now _ st t kept k)
