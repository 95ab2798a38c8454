-- ===== src/Equality.antt =====
-- `==` of the program's values, as an interface: a test that is true exactly on equal values, for
-- numbers, pairs, options, lists, and whatever is encoded by these.
use morphogenesis.Base.{
  ℕ, ◌≡◌, ◌≢◌, refl, sym, ap, ◌∙◌, inl, inr, Bool, true, false, not, ◌&&◌, ◌==◌, ==→≡, Option, none,
  some, List, [], ◌∷◌, arith, Bool-cases,
}

pub record Eq {ℓ} (A : Type ℓ) : Type ℓ where
  pub same : A → A → Bool
  pub same_refl : (a : A) → same a a ≡ true
  pub same→≡ : (a b : A) → same a b ≡ true → a ≡ b

pub ==_same : (n : ℕ) → (n == n) ≡ true
==_same n = ground arith

instance abbrev pub nat_eq : Eq ℕ
nat_eq = record { same = ◌==◌; same_refl = ==_same; same→≡ = ==→≡ }

abbrev pub bool_same : Bool → Bool → Bool
bool_same true b = b
bool_same false b = not b

pub bool_same→≡ : (a b : Bool) → bool_same a b ≡ true → a ≡ b
bool_same→≡ true true h = refl
bool_same→≡ true false h = cc
bool_same→≡ false true h = cc
bool_same→≡ false false h = refl

pub bool_same_refl : (a : Bool) → bool_same a a ≡ true
bool_same_refl true = refl
bool_same_refl false = refl

instance abbrev pub bool_eq : Eq Bool
bool_eq = record { same = bool_same; same_refl = bool_same_refl; same→≡ = bool_same→≡ }

-- Values of A that are encoded in B.
abbrev pub encoded : {A B : Type 0} (f : A → B) (g : B → A) → ((a : A) → g (f a) ≡ a) → Eq B → Eq A
encoded f g h e = record {
  same = λ a b. e.same (f a) (f b);
  same_refl = λ a. e.same_refl (f a);
  same→≡ = λ a b k. sym (h a) ∙ ap g (e.same→≡ (f a) (f b) k) ∙ h b;
}

module _ {A : Type 0} ⦃e : Eq A⦄ where
  abbrev pub option_same : Option A → Option A → Bool
  option_same none none = true
  option_same (some a) (some b) = e.same a b
  option_same _ _ = false

  pub option_same_refl : (o : Option A) → option_same o o ≡ true
  option_same_refl none = refl
  option_same_refl (some a) = e.same_refl a

  pub option_same→≡ : (o p : Option A) → option_same o p ≡ true → o ≡ p
  option_same→≡ none none h = refl
  option_same→≡ none (some b) h = cc
  option_same→≡ (some a) none h = cc
  option_same→≡ (some a) (some b) h = ap some (e.same→≡ a b h)

  instance abbrev pub option_eq : Eq (Option A)
  option_eq = record { same = option_same; same_refl = option_same_refl; same→≡ = option_same→≡ }

  abbrev pub list_same : List A → List A → Bool
  list_same [] [] = true
  list_same (x ∷ xs) (y ∷ ys) = e.same x y && list_same xs ys
  list_same _ _ = false

  pub list_same_refl : (xs : List A) → list_same xs xs ≡ true
  list_same_refl [] = refl
  list_same_refl (x ∷ xs) = rw (e.same_refl x, list_same_refl xs) refl

  pub list_same→≡ : (xs ys : List A) → list_same xs ys ≡ true → xs ≡ ys
  list_same→≡ [] [] h = refl
  list_same→≡ [] (y ∷ ys) h = cc
  list_same→≡ (x ∷ xs) [] h = cc
  list_same→≡ (x ∷ xs) (y ∷ ys) h =
      let p : x ≡ y = e.same→≡ x y (ground arith) in
      let q : xs ≡ ys = list_same→≡ xs ys (ground arith) in λ i. p i ∷ q i

  instance abbrev pub list_eq : Eq (List A)
  list_eq = record { same = list_same; same_refl = list_same_refl; same→≡ = list_same→≡ }

  -- The test is symmetric.
  pub same_sym : (a b : A) → e.same a b ≡ false → e.same b a ≡ false
  same_sym a b n = elim (Bool-cases (e.same b a)) [
    | inr m ↦ m
    | inl y ↦ absurd (swapped (e.same→≡ b a y) n)
  ]
    where
      distinct : true ≢ false
      distinct h = cc

      swapped : b ≡ a → e.same a b ≢ false
      swapped h k = distinct (sym (e.same_refl a) ∙ ap (λ z. e.same a z) (sym h) ∙ k)

module _ {A B : Type 0} ⦃d : Eq A⦄ ⦃e : Eq B⦄ where
  pub both_refl : (a : A) (b : B) → (d.same a a && e.same b b) ≡ true
  both_refl a b = rw (d.same_refl a, e.same_refl b) refl

  pub both→≡ : (a a' : A) (b b' : B) → (d.same a a' && e.same b b') ≡ true → (a ≡ a') × (b ≡ b')
  both→≡ a a' b b' h = (d.same→≡ _ _ (ground arith), e.same→≡ _ _ (ground arith))

  instance abbrev pub pair_eq : Eq (A × B)
  pair_eq = record {
    same = λ p q. d.same p.0 q.0 && e.same p.1 q.1;
    same_refl = λ p. both_refl p.0 p.1;
    same→≡ = λ p q h. let (l, r) = both→≡ p.0 q.0 p.1 q.1 h in λ i. (l i, r i);
  }
