-- ===== src/Breaker/Rows.antt =====
-- Lookups by provider and reason after the writes of the breaker.
use morphogenesis.Base.{
  ℕ, ◌≡◌, refl, false, ◌&&◌, none, some, List, [], ◌∷◌, ◌++◌, ◌==◌, Bool-cases, inl, inr, arith,
  update_rows, if◌then◌else◌,
}
use morphogenesis.Breaker.Table.{BreakerView, with_key, find_row}

abbrev pub KeepsKey : (BreakerView → BreakerView) → Type 0
KeepsKey change =
    (r : BreakerView) → ((change r).provider ≡ r.provider) × ((change r).reason ≡ r.reason)

pub find-key :
    (p q : ℕ) (rows : List BreakerView) (r : BreakerView)
    → find_row p q rows ≡ some r
    → (r.provider ≡ p) × (r.reason ≡ q)
find-key p q [] r h = cc
find-key p q (x ∷ rows) r h = elim (Bool-cases (with_key p q x)) [
  | inl hit ↦ (ground arith, ground arith)
  | inr miss ↦ find-key p q rows r (ground arith)
]

-- The row at the key itself.
pub find-update_self :
    (p q : ℕ) (change : BreakerView → BreakerView) (rows : List BreakerView) (r : BreakerView)
    → KeepsKey change
    → find_row p q rows ≡ some r
    → find_row p q (update_rows (with_key p q) change rows) ≡ some (change r)
find-update_self p q change [] r keeps h = cc
find-update_self p q change (x ∷ rows) r keeps h = elim (Bool-cases (with_key p q x)) [
  | inl hit ↦ ground (arith, keeps x)
  | inr miss ↦ ground (arith, find-update_self p q change rows r keeps)
]

-- The rows at the other keys.
pub find-update_other :
    (p q p' q' : ℕ) (change : BreakerView → BreakerView) (rows : List BreakerView)
    → KeepsKey change
    → (p == p' && q == q') ≡ false
    → find_row p' q' (update_rows (with_key p q) change rows) ≡ find_row p' q' rows
find-update_other p q p' q' change [] keeps ne = refl
find-update_other p q p' q' change (x ∷ rows) keeps ne =
    ground (arith, keeps x, find-update_other p q p' q' change rows keeps)

pub find-append :
    (p q : ℕ) (x : BreakerView) (rows : List BreakerView)
    → find_row x.provider x.reason rows ≡ none
    → find_row p q (rows ++ x ∷ [])
      ≡ (if x.provider == p && x.reason == q then some x else find_row p q rows)
find-append p q x [] h = ground arith
find-append p q x (y ∷ rows) h = ground (arith, find-append p q x rows)
