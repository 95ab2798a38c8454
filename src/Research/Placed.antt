-- ===== src/Research/Placed.antt =====
-- Where the opportunity of a branch stands among those of both loops (swarm/research/policy.py).
use morphogenesis.Base.{
  ℕ, ◌≡◌, refl, sym, ◌∙◌, subst, inl, inr, Bool, true, false, ◌==◌, Bool-cases, Option-cases, some,
  List, [], ◌∷◌, ◌++◌, map, where_rows, any, arith,
}
use morphogenesis.Equality.{nat_eq}
use morphogenesis.Table.{Table, get, merge, get-merge, get-merge_other}
use morphogenesis.Research.Policy.{Weights, Branch}
use morphogenesis.Research.Opportunities.{
  Arithmetic, RouteReason, RouteOpportunity, closed_reason, is_open, closed, closed_all, by_id,
}

module _ {F : Type 0} (ops : Arithmetic F) where
  abbrev pub has_id : ℕ → List (RouteOpportunity F) → Bool
  has_id k = any (λ o. o.branch_id == k)

  by_id-absent :
      (k : ℕ) (os : List (RouteOpportunity F)) (rows : Table ℕ (RouteOpportunity F))
      → has_id k os ≡ false
      → get k (by_id ops os rows) ≡ get k rows
  by_id-absent k [] rows h = refl
  by_id-absent k (o ∷ os) rows h =
      by_id-absent k os (merge o.branch_id o rows) (ground arith)
      ∙ get-merge_other k o.branch_id o rows (ground arith)

  -- The last opportunity with the identity.
  pub data Last (k : ℕ) (o : RouteOpportunity F) : List (RouteOpportunity F) → Type 0 where
    here :
        {os : List (RouteOpportunity F)} → o.branch_id ≡ k → has_id k os ≡ false → Last k o (o ∷ os)
    there :
        {x : RouteOpportunity F} {os : List (RouteOpportunity F)} → Last k o os → Last k o (x ∷ os)

  pub by_id-Last :
      (k : ℕ) (o : RouteOpportunity F) {os : List (RouteOpportunity F)}
      (rows : Table ℕ (RouteOpportunity F))
      → Last k o os
      → get k (by_id ops os rows) ≡ some o
  by_id-Last k o rows (Last.here {os} e h) =
      by_id-absent k os (merge o.branch_id o rows) h
      ∙ subst (λ z. get k (merge z o rows) ≡ some o) (sym e) (get-merge k o rows)
  by_id-Last k o rows (Last.there {x} {os} l) = by_id-Last k o (merge x.branch_id x rows) l

  pub append-Last :
      (k : ℕ) (o : RouteOpportunity F) (xs : List (RouteOpportunity F))
      {os : List (RouteOpportunity F)}
      → Last k o os
      → Last k o (xs ++ os)
  append-Last k o [] l = l
  append-Last k o (x ∷ xs) l = Last.there (append-Last k o xs l)

  append-absent :
      (k : ℕ) (xs ys : List (RouteOpportunity F))
      → has_id k xs ≡ false
      → has_id k ys ≡ false
      → has_id k (xs ++ ys) ≡ false
  append-absent k [] ys h h' = h'
  append-absent k (x ∷ xs) ys h h' =
      let a : (x.branch_id == k) ≡ false = ground arith in
      rw a (append-absent k xs ys (ground arith) h')

  pub Last-append :
      (k : ℕ) (o : RouteOpportunity F) {os : List (RouteOpportunity F)}
      (ys : List (RouteOpportunity F))
      → Last k o os
      → has_id k ys ≡ false
      → Last k o (os ++ ys)
  Last-append k o ys (Last.here {os} e h) h' = Last.here e (append-absent k os ys h h')
  Last-append k o ys (Last.there l) h' = Last.there (Last-append k o ys l h')

  -- The one branch of the list with its identity.
  pub data Among (b : Branch (Weights F)) : List (Branch (Weights F)) → Type 0 where
    here :
        {bs : List (Branch (Weights F))}
        → any (λ c. c.branch_id == b.branch_id) bs ≡ false
        → Among b (b ∷ bs)
    there :
        {c : Branch (Weights F)} {bs : List (Branch (Weights F))}
        → (c.branch_id == b.branch_id) ≡ false
        → Among b bs
        → Among b (c ∷ bs)

  module _ (make : Branch (Weights F) → RouteOpportunity F)
      (named : (b : Branch (Weights F)) → (make b).branch_id ≡ b.branch_id) where
    opened-absent :
        (k : ℕ) (bs : List (Branch (Weights F)))
        → any (λ c. c.branch_id == k) bs ≡ false
        → has_id k (map make (where_rows (is_open ops) bs)) ≡ false
    opened-absent k [] h = refl
    opened-absent k (b ∷ bs) h =
        let rest = opened-absent k bs (ground arith) in
        let a : (b.branch_id == k) ≡ false = ground arith in
        elim (Bool-cases (is_open ops b)) [ inl y ↦ rw (y, named b, a) rest | inr n ↦ rw n rest ]

    pub opened-Last :
        (b : Branch (Weights F)) {bs : List (Branch (Weights F))}
        → is_open ops b ≡ true
        → Among b bs
        → Last b.branch_id (make b) (map make (where_rows (is_open ops) bs))
    opened-Last b y (Among.here {bs} h) =
        rw y (Last.here (named b) (opened-absent b.branch_id bs h))
    opened-Last b y (Among.there {c} {bs} n a) = elim (Bool-cases (is_open ops c)) [
      | inl z ↦ rw z (Last.there (opened-Last b y a))
      | inr z ↦ rw z (opened-Last b y a)
    ]

    pub closed-unopened :
        (b : Branch (Weights F)) {bs : List (Branch (Weights F))}
        → is_open ops b ≡ false
        → Among b bs
        → has_id b.branch_id (map make (where_rows (is_open ops) bs)) ≡ false
    closed-unopened b n (Among.here {bs} h) = rw n (opened-absent b.branch_id bs h)
    closed-unopened b n (Among.there {c} {bs} m a) = elim (Bool-cases (is_open ops c)) [
      | inl z ↦ rw (z, named c, m) (closed-unopened b n a)
      | inr z ↦ rw z (closed-unopened b n a)
    ]

  closed-absent :
      (k : ℕ) (bs : List (Branch (Weights F)))
      → any (λ c. c.branch_id == k) bs ≡ false
      → has_id k (closed_all ops bs) ≡ false
  closed-absent k [] h = refl
  closed-absent k (b ∷ bs) h =
      let rest = closed-absent k bs (ground arith) in
      let a : (b.branch_id == k) ≡ false = ground arith in
      elim (Option-cases (closed_reason ops b)) [ inl y ↦ rw y rest | inr (r, y) ↦ rw (y, a) rest ]

  pub closed-Last :
      (b : Branch (Weights F)) (reason : RouteReason) {bs : List (Branch (Weights F))}
      → closed_reason ops b ≡ some reason
      → Among b bs
      → Last b.branch_id (closed ops b reason) (closed_all ops bs)
  closed-Last b reason e (Among.here {bs} h) =
      rw e (Last.here refl (closed-absent b.branch_id bs h))
  closed-Last b reason e (Among.there {c} {bs} n a) = elim (Option-cases (closed_reason ops c)) [
    | inl y ↦ rw y (closed-Last b reason e a)
    | inr (r, y) ↦ rw y (Last.there (closed-Last b reason e a))
  ]
