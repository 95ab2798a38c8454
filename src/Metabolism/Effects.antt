-- ===== src/Metabolism/Effects.antt =====
-- What a call may do to the cache, and the rules by which a transaction is followed.
use morphogenesis.Base.{
  ℕ, suc, ◌≡◌, ◌≢◌, refl, ap, ◌∙◌, Bool, true, false, Option, none, some, [], ◌∷◌, if◌then◌else◌,
}
use morphogenesis.Equality.{nat_eq, pair_eq}
use morphogenesis.Table.{Table, Pointwise, get, add, change}
use morphogenesis.Contracts.{AttemptId, Raised, Tried}
use morphogenesis.Contracts.Messages.{GeneRef, agent_equality, attempt_equality, role_equality}
use morphogenesis.Metabolism.Types.{GeneState, InjectionBatch, Cache, ◌>>=◌, commit}
use morphogenesis.Metabolism.Cache.{ref_key}

module _ {F : Type 0} where
  abbrev pub aged_to : F → F → Option F → GeneState F → GeneState F
  aged_to weight evaluated_at archived_at st = record st {
    weight = weight;
    evaluated_at = evaluated_at;
    archived_at = archived_at;
  }

  -- The weight and the time of its evaluation may move, and a tombstone may be set, which freezes
  -- the row; no other column moves.
  pub record Aged (st st' : GeneState F) : Type 0 where
    pub weight : F
    pub evaluated_at : F
    pub archived_at : Option F
    pub moved : st' ≡ aged_to weight evaluated_at archived_at st
    pub frozen : (t : F) → st.archived_at ≡ some t → st' ≡ st

  pub Aged-use_count : (st st' : GeneState F) → Aged st st' → st'.use_count ≡ st.use_count
  Aged-use_count st st' a = ap (λ z. z.use_count) a.moved

  pub Aged-refl : (st : GeneState F) → Aged st st
  Aged-refl st = record {
    weight = st.weight;
    evaluated_at = st.evaluated_at;
    archived_at = st.archived_at;
    moved = refl;
    frozen = λ t h. refl;
  }

  pub Aged-trans : (a b c : GeneState F) → Aged a b → Aged b c → Aged a c
  Aged-trans a b c p q = record {
    weight = q.weight;
    evaluated_at = q.evaluated_at;
    archived_at = q.archived_at;
    moved = q.moved ∙ ap (aged_to q.weight q.evaluated_at q.archived_at) p.moved;
    frozen = λ t h. q.frozen t (ap (λ z. z.archived_at) (p.frozen t h) ∙ h) ∙ p.frozen t h;
  }

  -- A state that was never used, and whose times are all that of its creation.
  pub record IsNew (key : ℕ × ℕ) (st : GeneState F) : Type 0 where
    pub named : ref_key st.ref ≡ key
    pub unused : st.use_count ≡ 0
    pub open_ : st.archived_at ≡ none
    pub anchored : st.anchor_at ≡ st.created_at
    pub evaluated : st.evaluated_at ≡ st.created_at

  pub Pointwise-Aged : {K : Type 0} (rs : Table K (GeneState F)) → Pointwise Aged rs rs
  Pointwise-Aged [] = Pointwise.nil
  Pointwise-Aged (r ∷ rs) = Pointwise.cons (Aged-refl r.value) (Pointwise-Aged rs)

  -- The states and the adoptions before and after a call.
  pub data Rows (s s' : Cache F) : Type 0 where
    aged : Pointwise Aged s.states s'.states → s'.adoptions ≡ s.adoptions → Rows s s'
    created :
        (key : ℕ × ℕ) (st : GeneState F)
        → get key s.states ≡ none
        → IsNew key st
        → s'.states ≡ add key st s.states
        → s'.adoptions ≡ s.adoptions
        → Rows s s'
    used :
        (key : ℕ × AttemptId) (ref : GeneRef) (at weight : F) (st e : GeneState F)
        → get (ref_key ref) s.states ≡ some st
        → st.archived_at ≡ none
        → e ≡ record st {
          anchor_at = at;
          evaluated_at = at;
          weight = weight;
          use_count = suc st.use_count;
        }
        → s'.states ≡ change (ref_key ref) (λ _. e) s.states
        → s'.adoptions
          ≡ add (key, ref.gene_id) (record { version = ref.version; used_at = at }) s.adoptions
        → Rows s s'

  -- The same, and the batches that were there are kept.
  pub record Effect (s s' : Cache F) : Type 0 where
    pub rows : Rows s s'
    pub batches :
        (key : ℕ × AttemptId) (b : InjectionBatch F)
        → get key s.batches ≡ some b
        → get key s'.batches ≡ some b

  pub Effect-refl : (s : Cache F) → Effect s s
  Effect-refl s = record { rows = Rows.aged (Pointwise-Aged s.states) refl; batches = λ key b h. h }

  -- What holds of the cache as it was holds after an exception; otherwise it is followed.
  pub commit-bind :
      {A B : Type 0} (P : Cache F → Type 0) (s : Cache F) (m : Tried A)
      (k : A → Tried (B × Cache F))
      → P s
      → ((a : A) → m ≡ Tried.done a → P (commit s (k a)).1)
      → P (commit s (m >>= k)).1
  unfolding ◌>>=◌ commit
  commit-bind P s (Tried.done a) k p h = h a refl
  commit-bind P s (Tried.failed e) k p h = p

  pub commit-if :
      {A : Type 0} (P : Cache F → Type 0) (s : Cache F) (b : Bool) (x y : Tried (A × Cache F))
      → (b ≡ true → P (commit s x).1)
      → (b ≡ false → P (commit s y).1)
      → P (commit s (if b then x else y)).1
  commit-if P s true x y h k = h refl
  commit-if P s false x y h k = k refl

-- The parts of a call that returned.
pub bind-done :
    {A B : Type 0} (m : Tried A) (k : A → Tried B) (b : B)
    → (m >>= k) ≡ Tried.done b
    → (a : A) × (m ≡ Tried.done a) × (k a ≡ Tried.done b)
unfolding ◌>>=◌
bind-done (Tried.done a) k b h = (a, refl, h)
bind-done (Tried.failed e) k b h = absurd (bad h)
  where
    bad : {B : Type 0} {e : Raised} {b : B} → Tried.failed e ≢ Tried.done b
    bad h = cc
