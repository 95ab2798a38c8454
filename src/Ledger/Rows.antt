-- ===== src/Ledger/Rows.antt =====
-- Lookups by task identity after the writes that the ledger makes.
use morphogenesis.Base.{
  ℕ, sym, some_inj, ◌∙◌, ◌≡◌, ◌≢◌, refl, Bool, true, false, Option, none, some, List, [], ◌∷◌, ◌++◌,
  inl, inr, ◌==◌, if◌then◌else◌, any, arith, update_rows, text_eq, Bool-cases,
}
use morphogenesis.Ledger.Types.{TaskRow, Lease}
use morphogenesis.Ledger.Monad.{Env}
use morphogenesis.Ledger.Store.{with_id, find_task, matches_lease, holds_state}

abbrev pub KeepsId : (TaskRow → TaskRow) → Type 0
KeepsId change = (q : TaskRow) → (change q).task_id ≡ q.task_id

pub find-task_id : (j : ℕ) (l : List TaskRow) (r : TaskRow) → find_task j l ≡ some r → r.task_id ≡ j
find-task_id j [] r h = cc
find-task_id j (q ∷ l) r h = ground (arith, find-task_id j l r)

find-update_ne :
    (j k : ℕ) (change : TaskRow → TaskRow) (l : List TaskRow)
    → KeepsId change
    → j ≢ k
    → find_task j (update_rows (with_id k) change l) ≡ find_task j l
find-update_ne j k change [] keeps ne = refl
find-update_ne j k change (q ∷ l) keeps ne =
    ground (arith, keeps q, find-update_ne j k change l keeps ne)

find-update_self :
    (k : ℕ) (change : TaskRow → TaskRow) (l : List TaskRow) (r : TaskRow)
    → KeepsId change
    → find_task k l ≡ some r
    → find_task k (update_rows (with_id k) change l) ≡ some (change r)
find-update_self k change [] r keeps h = cc
find-update_self k change (q ∷ l) r keeps h = elim (Bool-cases (q.task_id == k)) [
  | inl hit ↦ ground (arith, keeps q)
  | inr miss ↦ ground (arith, find-update_self k change l r keeps)
]

pub find-update :
    (j k : ℕ) (change : TaskRow → TaskRow) (l : List TaskRow) (r : TaskRow)
    → KeepsId change
    → find_task k l ≡ some r
    → find_task j (update_rows (with_id k) change l)
      ≡ (if j == k then some (change r) else find_task j l)
find-update j k change l r keeps h =
    ground (arith, find-update_ne j k change l keeps, find-update_self k change l r keeps h)

pub find-append :
    (j : ℕ) (r : TaskRow) (l : List TaskRow)
    → find_task r.task_id l ≡ none
    → find_task j (l ++ r ∷ []) ≡ (if j == r.task_id then some r else find_task j l)
find-append j r [] h = ground arith
find-append j r (q ∷ l) h = ground (arith, find-append j r l)

-- What a test refutes of every row it refutes of the row that a lookup finds.
pub any-find :
    (test : TaskRow → Bool) (j : ℕ) (l : List TaskRow) (r : TaskRow)
    → any test l ≡ false
    → find_task j l ≡ some r
    → test r ≡ false
any-find test j [] r h e = cc
any-find test j (q ∷ l) r h e = ground (arith, any-find test j l r)

pub text_eq→≡ : (a b : List ℕ) → text_eq a b ≡ true → a ≡ b
text_eq→≡ [] [] h = refl
text_eq→≡ [] (y ∷ b) h = cc
text_eq→≡ (x ∷ a) [] h = cc
text_eq→≡ (x ∷ a) (y ∷ b) h = ground (arith, text_eq→≡ a b)

pub text_eq_refl : (a : List ℕ) → text_eq a a ≡ true
text_eq_refl [] = refl
text_eq_refl (x ∷ a) = ground (arith, text_eq_refl a)

-- The fields of a row that a lease agrees with.
pub record Agrees (env : Env) (submitting : Bool) (lease : Lease) (r : TaskRow) : Type 0 where
  pub swarm : lease.swarm_id ≡ env.swarm_id
  pub owner : r.owner ≡ some lease.worker_id
  pub token : r.token ≡ lease.token
  pub scope : r.scope ≡ lease.scope
  pub expiry : r.expiry ≡ some lease.expires_at
  pub state : holds_state submitting r.status ≡ true

pub matches-Agrees :
    (env : Env) (submitting : Bool) (lease : Lease) (r : TaskRow)
    → matches_lease env submitting lease r ≡ true
    → Agrees env submitting lease r
matches-Agrees env submitting lease r h = record {
  swarm = ground arith;
  owner = ground arith;
  token = ground arith;
  scope = text_eq→≡ r.scope lease.scope (ground arith);
  expiry = ground arith;
  state = ground arith;
}

-- A lookup through a table that differs at one key.
pub find_hit :
    (a o : Option TaskRow) (b : Bool) (x r : TaskRow)
    → a ≡ (if b then some x else o)
    → b ≡ true
    → a ≡ some r
    → x ≡ r
find_hit a o true x r e hit h = some_inj (sym e ∙ h)
find_hit a o false x r e hit h = cc

pub find_miss :
    (a o : Option TaskRow) (b : Bool) (x r : TaskRow)
    → a ≡ (if b then some x else o)
    → b ≡ false
    → a ≡ some r
    → o ≡ some r
find_miss a o true x r e miss h = cc
find_miss a o false x r e miss h = sym e ∙ h
