-- ===== src/Metabolism/Uses.antt =====
-- The count of the uses of a state, and the adoptions.
use morphogenesis.Base.{
  ℕ, suc, ◌≡◌, refl, sym, ap, ◌∙◌, inl, inr, Bool, true, false, ◌&&◌, ◌==◌, Bool-cases, Option,
  none, some, List, [], ◌∷◌, ◌++◌, count, Option-cases,
}
use morphogenesis.Equality.{nat_eq, pair_eq}
use morphogenesis.Table.{
  Row, Table, Pointwise, get, add, change, get-add, get-add_other, get-change, get-change_other,
  get-Pointwise, get-Pointwise-none,
}
use morphogenesis.Contracts.{AttemptId, Tried}
use morphogenesis.Contracts.Messages.{
  GeneRef, Gene, gene_equality, agent_equality, attempt_equality, role_equality,
}
use morphogenesis.Metabolism.Types.{Seconds, Config, GeneState, Adoption, Cache, empty}
use morphogenesis.Metabolism.Signals.{Texts}
use morphogenesis.Metabolism.Cache.{ref_key}
use morphogenesis.Metabolism.Runs.{CacheCall, run_cache, run_caches}
use morphogenesis.Metabolism.Effects.{Aged, Aged-use_count, Rows}
use morphogenesis.Metabolism.Steps.{run_cache-Effect}

module _ {A : Type 0} (test : A → Bool) (x : A) where
  count-hit : (xs : List A) → test x ≡ true → count test (xs ++ x ∷ []) ≡ suc (count test xs)
  count-hit [] h = rw h refl
  count-hit (y ∷ ys) h =
      let rest = count-hit ys h in
      elim (Bool-cases (test y)) [ inl k ↦ rw k (ap suc rest) | inr n ↦ rw n rest ]

  count-miss : (xs : List A) → test x ≡ false → count test (xs ++ x ∷ []) ≡ count test xs
  count-miss [] h = rw h refl
  count-miss (y ∷ ys) h =
      let rest = count-miss ys h in
      elim (Bool-cases (test y)) [ inl k ↦ rw k (ap suc rest) | inr n ↦ rw n rest ]

module _ {F : Type 0} where
  abbrev pub uses_of : Option (GeneState F) → ℕ
  uses_of none = 0
  uses_of (some st) = st.use_count

  -- `SELECT COUNT(*)` of the adoptions of a gene's version.
  abbrev pub adoptions_of : ℕ × ℕ → Table ((ℕ × AttemptId) × ℕ) (Adoption F) → ℕ
  adoptions_of key = count (λ r. r.key.1 == key.0 && r.value.version == key.1)

  Aged-uses :
      (key : ℕ × ℕ) (rs qs : Table (ℕ × ℕ) (GeneState F))
      → Pointwise Aged rs qs
      → uses_of (get key qs) ≡ uses_of (get key rs)
  Aged-uses key rs qs p = elim (Option-cases (get key rs)) [
    | inl n ↦ rw (n, get-Pointwise-none key p n) refl
    | inr (v, h) ↦
        (let (w, found, a) = get-Pointwise key v p h in rw (h, found) (Aged-use_count v w a))
  ]

  Rows-uses :
      (key : ℕ × ℕ) (s s' : Cache F)
      → Rows s s'
      → uses_of (get key s.states) ≡ adoptions_of key s.adoptions
      → uses_of (get key s'.states) ≡ adoptions_of key s'.adoptions
  Rows-uses key s s' (Rows.aged p e) h = Aged-uses key _ _ p ∙ h ∙ ap (adoptions_of key) (sym e)
  Rows-uses key s s' (Rows.created k st new fresh e e') h =
      rw (e, e')
        (elim (Bool-cases (pair_eq.same k key)) [
          | inr n ↦ ap uses_of (get-add_other key k st s.states n) ∙ h
          | inl y ↦
              (let here = pair_eq.same→≡ k key y in
                let before = ap (λ z. get z s.states) (sym here) ∙ new in
                ap uses_of
                  (ap (λ z. get key (add z st s.states)) here ∙ get-add key st s.states before)
                ∙ fresh.unused
                ∙ sym (ap uses_of before)
                ∙ h)
        ])
  Rows-uses key s s' (Rows.used k ref at w st e found open_ more eq eq') h =
      elim (Bool-cases (pair_eq.same (ref_key ref) key)) [
        | inr n ↦
            rw (eq, eq')
              (ap uses_of (get-change_other key (ref_key ref) (λ _. e) s.states n)
                ∙ h
                ∙ sym (
                    count-miss (λ r. r.key.1 == key.0 && r.value.version == key.1) (row k ref at)
                      s.adoptions n))
        | inl y ↦
            (let here = pair_eq.same→≡ (ref_key ref) key y in
              let before = ap (λ z. get z s.states) (sym here) ∙ found in
              let after =
                ap (λ z. get z (change (ref_key ref) (λ _. e) s.states)) (sym here)
                ∙ get-change (ref_key ref) (λ _. e) st s.states found in
              rw (eq, eq')
                (ap uses_of after
                  ∙ ap (λ z. z.use_count) more
                  ∙ ap suc (sym (ap uses_of before) ∙ h)
                  ∙ sym (
                      count-hit (λ r. r.key.1 == key.0 && r.value.version == key.1) (row k ref at)
                        s.adoptions y)))
      ]
    where
      row : ℕ × AttemptId → GeneRef → F → Row ((ℕ × AttemptId) × ℕ) (Adoption F)
      row k ref at = record {
        key = (k, ref.gene_id);
        value = record { version = ref.version; used_at = at };
      }

module _ {F : Type 0} (ops : Seconds F) (texts : Texts)
    (search : List Gene → List ℕ → Tried (List (ℕ × F))) where
  runs-uses :
      (calls : List (Config F × CacheCall F)) (key : ℕ × ℕ) (s : Cache F)
      → uses_of (get key s.states) ≡ adoptions_of key s.adoptions
      → uses_of (get key (run_caches ops texts search calls s).states)
        ≡ adoptions_of key (run_caches ops texts search calls s).adoptions
  unfolding run_caches
  runs-uses [] key s h = h
  runs-uses (c ∷ cs) key s h =
      runs-uses cs key (run_cache ops texts search c.0 c.1 s)
        (Rows-uses key s _ (run_cache-Effect ops texts search c.0 c.1 s).rows h)

  -- After any calls of any instances on an empty cache, the use count of every version of a gene is
  -- the number of its recorded adoptions; a version without a state has none.
  pub uses_counted :
      (calls : List (Config F × CacheCall F)) (key : ℕ × ℕ)
      → uses_of (get key (run_caches ops texts search calls empty).states)
        ≡ adoptions_of key (run_caches ops texts search calls empty).adoptions
  uses_counted calls key = runs-uses calls key empty refl
