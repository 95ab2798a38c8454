-- ===== src/Table.antt =====
-- A table with a primary key, as the code reads and writes it through a session: `get`, `add` of a
-- row whose key is new, `merge`, a change of one row, `delete`.
use morphogenesis.Base.{
  subst, some_inj, ◌≡◌, refl, sym, ap, ◌∙◌, inl, inr, true, false, Bool-cases, Option, none, some,
  none≢some, List, [], ◌∷◌, ◌++◌, if◌then◌else◌, if_true, if_false,
}
use morphogenesis.Equality.{Eq}

pub record Row (K V : Type 0) : Type 0 where
  pub key : K
  pub value : V

abbrev pub Table : Type 0 → Type 0 → Type 0
Table K V = List (Row K V)

-- The test of a row whose key equals another's.
swap_key : {K : Type 0} ⦃e : Eq K⦄ (a b k : K) → e.same a b ≡ true → e.same b k ≡ e.same a k
swap_key ⦃e⦄ a b k h = ap (λ z. e.same z k) (sym (e.same→≡ a b h))

module _ {K V : Type 0} ⦃e : Eq K⦄ where
  abbrev pub get : K → Table K V → Option V
  get k [] = none
  get k (r ∷ rs) = if e.same r.key k then some r.value else get k rs

  abbrev pub add : K → V → Table K V → Table K V
  add k v rs = rs ++ record { key = k; value = v } ∷ []

  abbrev pub merge : K → V → Table K V → Table K V
  merge k v [] = record { key = k; value = v } ∷ []
  merge k v (r ∷ rs) =
      let rest = merge k v rs in
      if e.same r.key k then record { key = k; value = v } ∷ rs else r ∷ rest

  abbrev pub change : K → (V → V) → Table K V → Table K V
  change k f [] = []
  change k f (r ∷ rs) =
      let rest = change k f rs in
      if e.same r.key k then record { key = r.key; value = f r.value } ∷ rs else r ∷ rest

  abbrev pub remove : K → Table K V → Table K V
  remove k [] = []
  remove k (r ∷ rs) = let rest = remove k rs in if e.same r.key k then rs else r ∷ rest

  pub get-add : (k : K) (v : V) (rs : Table K V) → get k rs ≡ none → get k (add k v rs) ≡ some v
  get-add k v [] h = rw (e.same_refl k) refl
  get-add k v (r ∷ rs) h = elim (Bool-cases (e.same r.key k)) [
    | inl y ↦ absurd (none≢some (sym (if_true _ _ _ _ h y)))
    | inr n ↦ rw n (get-add k v rs (if_false _ _ _ _ h n))
  ]

  -- A row that is there stays what it is.
  pub get-add_kept :
      (k k' : K) (v v' : V) (rs : Table K V) → get k rs ≡ some v → get k (add k' v' rs) ≡ some v
  get-add_kept k k' v v' [] h = absurd (none≢some h)
  get-add_kept k k' v v' (r ∷ rs) h = elim (Bool-cases (e.same r.key k)) [
    | inl y ↦ rw y (if_true _ _ _ _ h y)
    | inr n ↦ rw n (get-add_kept k k' v v' rs (if_false _ _ _ _ h n))
  ]

  pub get-add_other :
      (k k' : K) (v' : V) (rs : Table K V) → e.same k' k ≡ false → get k (add k' v' rs) ≡ get k rs
  get-add_other k k' v' [] h = rw h refl
  get-add_other k k' v' (r ∷ rs) h = elim (Bool-cases (e.same r.key k)) [
    | inl y ↦ rw y refl
    | inr n ↦ rw n (get-add_other k k' v' rs h)
  ]

  pub get-merge : (k : K) (v : V) (rs : Table K V) → get k (merge k v rs) ≡ some v
  get-merge k v [] = rw (e.same_refl k) refl
  get-merge k v (r ∷ rs) = elim (Bool-cases (e.same r.key k)) [
    | inl y ↦ rw (y, e.same_refl k) refl
    | inr n ↦ rw (n, n) (get-merge k v rs)
  ]

  pub get-merge_other :
      (k k' : K) (v' : V) (rs : Table K V) → e.same k' k ≡ false → get k (merge k' v' rs) ≡ get k rs
  get-merge_other k k' v' [] h = rw h refl
  get-merge_other k k' v' (r ∷ rs) h = elim (Bool-cases (e.same r.key k')) [
    | inl y ↦ rw (y, h, sym (swap_key r.key k' k y) ∙ h) refl
    | inr n ↦ elim (Bool-cases (e.same r.key k)) [
      | inl y ↦ rw (n, y) refl
      | inr m ↦ rw (n, m) (get-merge_other k k' v' rs h)
    ]
  ]

  pub get-change :
      (k : K) (f : V → V) (v : V) (rs : Table K V)
      → get k rs ≡ some v
      → get k (change k f rs) ≡ some (f v)
  get-change k f v [] h = absurd (none≢some h)
  get-change k f v (r ∷ rs) h = elim (Bool-cases (e.same r.key k)) [
    | inl y ↦ rw (y, y) (ap (map_some f) (if_true _ _ _ _ h y))
    | inr n ↦ rw (n, n) (get-change k f v rs (if_false _ _ _ _ h n))
  ]
    where
      map_some : (V → V) → Option V → Option V
      map_some f none = none
      map_some f (some v) = some (f v)

  pub get-change_other :
      (k k' : K) (f : V → V) (rs : Table K V)
      → e.same k' k ≡ false
      → get k (change k' f rs) ≡ get k rs
  get-change_other k k' f [] h = refl
  get-change_other k k' f (r ∷ rs) h = elim (Bool-cases (e.same r.key k')) [
    | inl y ↦ rw (y, sym (swap_key r.key k' k y) ∙ h) refl
    | inr n ↦ elim (Bool-cases (e.same r.key k)) [
      | inl y ↦ rw (n, y) refl
      | inr m ↦ rw (n, m) (get-change_other k k' f rs h)
    ]
  ]

-- Two tables with the same keys in the same order, and values that are related one by one.
pub data Pointwise {K V : Type 0} (R : V → V → Type 0) : Table K V → Table K V → Type 0 where
  nil : Pointwise R [] []
  cons :
      {k : K} {v w : V} {rs qs : Table K V}
      → R v w
      → Pointwise R rs qs
      → Pointwise R (record { key = k; value = v } ∷ rs) (record { key = k; value = w } ∷ qs)

module _ {K V : Type 0} {R : V → V → Type 0} where
  pub Pointwise-trans :
      {xs ys zs : Table K V}
      → ((a b c : V) → R a b → R b c → R a c)
      → Pointwise R xs ys
      → Pointwise R ys zs
      → Pointwise R xs zs
  Pointwise-trans t Pointwise.nil Pointwise.nil = Pointwise.nil
  Pointwise-trans t (Pointwise.cons p ps) (Pointwise.cons q qs) =
      Pointwise.cons (t _ _ _ p q) (Pointwise-trans t ps qs)

  module _ ⦃e : Eq K⦄ where
    pub get-Pointwise :
        (key : K) (value : V) {rs qs : Table K V}
        → Pointwise R rs qs
        → get key rs ≡ some value
        → (w : V) × (get key qs ≡ some w) × R value w
    get-Pointwise key value Pointwise.nil h = absurd (none≢some h)
    get-Pointwise key value (Pointwise.cons {k} {v} {w} {rs} {qs} r ps) h =
        elim (Bool-cases (e.same k key)) [
          | inl y ↦ rw (y) (w, refl, subst (λ z. R z w) (some_inj (if_true _ _ _ _ h y)) r)
          | inr n ↦ rw n (get-Pointwise key value ps (if_false _ _ _ _ h n))
        ]

    pub get-Pointwise-none :
        (key : K) {rs qs : Table K V} → Pointwise R rs qs → get key rs ≡ none → get key qs ≡ none
    get-Pointwise-none key Pointwise.nil h = refl
    get-Pointwise-none key (Pointwise.cons {k} {v} {w} {rs} {qs} r ps) h =
        elim (Bool-cases (e.same k key)) [
          | inl y ↦ absurd (none≢some (sym (if_true _ _ _ _ h y)))
          | inr n ↦ rw n (get-Pointwise-none key ps (if_false _ _ _ _ h n))
        ]
