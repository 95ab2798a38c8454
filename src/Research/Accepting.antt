-- ===== src/Research/Accepting.antt =====
-- What `accept` accepts, and that it accepts it once.
use morphogenesis.Base.{
  ℕ, ◌≡◌, ◌≢◌, ◌⊎◌, refl, sym, ap, ◌∙◌, inl, inr, Bool, true, false, ◌||◌, ◌==◌, Bool-cases, List,
  [], ◌∷◌, arith,
}
use morphogenesis.Equality.{==_same}
use morphogenesis.Contracts.{Tried}
use morphogenesis.Research.Policy.{
  ThreeAxisResult, ContributionDecision, DedupKey, seen_key, is_done, is_conclusive, accept,
  accepts,
}

abbrev pub is_accepted : Tried ContributionDecision → Bool
is_accepted (Tried.failed e) = false
is_accepted (Tried.done d) = d.accepted

-- The reviewer is not the actor, and the result is of a finished execution with a conclusion.
pub record Independent (r : ThreeAxisResult) (reviewer : ℕ) : Type 0 where
  pub other : (reviewer == r.actor) ≡ false
  pub executed : is_done r.execution ≡ true
  pub conclusive : is_conclusive r.hypothesis ≡ true

record Taken (r : ThreeAxisResult) (reviewer : ℕ) (seen : List DedupKey) : Type 0 where
  independent : Independent r reviewer
  new :
      (seen_key (DedupKey.result r.result_id) seen || seen_key (DedupKey.source r.source_ref) seen)
      ≡ false
  keys :
      (accept r reviewer seen).1 ≡ DedupKey.result r.result_id ∷ DedupKey.source r.source_ref ∷ seen

abbrev Left : ThreeAxisResult → ℕ → List DedupKey → Type 0
Left r reviewer seen =
    (is_accepted (accept r reviewer seen).0 ≡ false) × ((accept r reviewer seen).1 ≡ seen)

accept-Taken : (r : ThreeAxisResult) (v : ℕ) (seen : List DedupKey) → Left r v seen ⊎ Taken r v seen
unfolding accept
accept-Taken r v seen = elim (Bool-cases (v == 0)) [
  | inl a ↦ inl (rw a (refl, refl))
  | inr a ↦ elim (Bool-cases (v == r.actor)) [
    | inl b ↦ inl (rw (a, b) (refl, refl))
    | inr b ↦ elim (Bool-cases (is_done r.execution)) [
      | inr c ↦ inl (rw (a, b, c) (refl, refl))
      | inl c ↦ elim (Bool-cases (is_conclusive r.hypothesis)) [
        | inr d ↦ inl (rw (a, b, c, d) (refl, refl))
        | inl d ↦
            elim (Bool-cases (
              seen_key (DedupKey.result r.result_id) seen
              || seen_key (DedupKey.source r.source_ref) seen)) [
                | inl e ↦ inl (rw (a, b, c, d, e) (refl, refl))
                | inr e ↦ inr (record {
                  independent = record { other = b; executed = c; conclusive = d };
                  new = e;
                  keys = rw (a, b, c, d, e) refl;
                })
              ]
      ]
    ]
  ]
]

accept-kept :
    (k : DedupKey) (r : ThreeAxisResult) (v : ℕ) (seen : List DedupKey)
    → seen_key k seen ≡ true
    → seen_key k (accept r v seen).1 ≡ true
accept-kept k r v seen h = elim (accept-Taken r v seen) [
  | inl (_, same) ↦ ap (seen_key k) same ∙ h
  | inr t ↦ ap (seen_key k) t.keys ∙ later _ _ _ h
]
  where
    later : (a b c : Bool) → c ≡ true → (a || (b || c)) ≡ true
    later a b c h = ground arith

accepts-kept :
    (k : DedupKey) (cs : List (ThreeAxisResult × ℕ)) (seen : List DedupKey)
    → seen_key k seen ≡ true
    → seen_key k (accepts cs seen) ≡ true
unfolding accepts
accepts-kept k [] seen h = h
accepts-kept k (c ∷ cs) seen h =
    accepts-kept k cs (accept c.0 c.1 seen).1 (accept-kept k c.0 c.1 seen h)

seen-rejected :
    (r : ThreeAxisResult) (v : ℕ) (seen : List DedupKey)
    → (seen_key (DedupKey.result r.result_id) seen || seen_key (DedupKey.source r.source_ref) seen)
      ≡ true
    → is_accepted (accept r v seen).0 ≡ false
seen-rejected r v seen h = elim (accept-Taken r v seen) [
  | inl (none_taken, _) ↦ none_taken
  | inr t ↦ absurd (bad (sym t.new ∙ h))
]
  where
    bad : false ≢ true
    bad h = cc

-- An accepted result has a reviewer other than its actor, a succeeded execution and a hypothesis
-- that was supported or refuted; and after any further calls with the same set of keys, no result
-- with the same identity or the same source is accepted.
pub accept_once :
    (r : ThreeAxisResult) (v : ℕ) (seen : List DedupKey) (cs : List (ThreeAxisResult × ℕ))
    (r' : ThreeAxisResult) (v' : ℕ)
    → is_accepted (accept r v seen).0 ≡ true
    → (r'.result_id ≡ r.result_id) ⊎ (r'.source_ref ≡ r.source_ref)
    → Independent r v × (is_accepted (accept r' v' (accepts cs (accept r v seen).1)).0 ≡ false)
accept_once r v seen cs r' v' h copy = elim (accept-Taken r v seen) [
  | inl (none_taken, _) ↦ absurd (bad (sym none_taken ∙ h))
  | inr t ↦
      (t.independent, seen-rejected r' v' (accepts cs (accept r v seen).1) (known t.keys copy))
]
  where
    bad : false ≢ true
    bad h = cc

    by_result :
        (accept r v seen).1 ≡ DedupKey.result r.result_id ∷ DedupKey.source r.source_ref ∷ seen
        → seen_key (DedupKey.result r.result_id) (accepts cs (accept r v seen).1) ≡ true
    by_result k =
        accepts-kept (DedupKey.result r.result_id) cs (accept r v seen).1
          (ap (seen_key (DedupKey.result r.result_id)) k ∙ rw (==_same r.result_id) refl)

    by_source :
        (accept r v seen).1 ≡ DedupKey.result r.result_id ∷ DedupKey.source r.source_ref ∷ seen
        → seen_key (DedupKey.source r.source_ref) (accepts cs (accept r v seen).1) ≡ true
    by_source k =
        accepts-kept (DedupKey.source r.source_ref) cs (accept r v seen).1
          (ap (seen_key (DedupKey.source r.source_ref)) k ∙ rw (==_same r.source_ref) refl)

    left_known : (a b : Bool) → a ≡ true → (a || b) ≡ true
    left_known a b h = ground arith

    right_known : (a b : Bool) → b ≡ true → (a || b) ≡ true
    right_known a b h = ground arith

    known :
        (accept r v seen).1 ≡ DedupKey.result r.result_id ∷ DedupKey.source r.source_ref ∷ seen
        → (r'.result_id ≡ r.result_id) ⊎ (r'.source_ref ≡ r.source_ref)
        → (seen_key (DedupKey.result r'.result_id) (accepts cs (accept r v seen).1)
            || seen_key (DedupKey.source r'.source_ref) (accepts cs (accept r v seen).1))
          ≡ true
    known k (inl i) =
        left_known (seen_key (DedupKey.result r'.result_id) (accepts cs (accept r v seen).1))
          (seen_key (DedupKey.source r'.source_ref) (accepts cs (accept r v seen).1))
          (ap (λ z. seen_key (DedupKey.result z) (accepts cs (accept r v seen).1)) i ∙ by_result k)
    known k (inr i) =
        right_known (seen_key (DedupKey.result r'.result_id) (accepts cs (accept r v seen).1))
          (seen_key (DedupKey.source r'.source_ref) (accepts cs (accept r v seen).1))
          (ap (λ z. seen_key (DedupKey.source z) (accepts cs (accept r v seen).1)) i ∙ by_source k)
