-- ===== src/Persistence/Evidence.antt =====
-- The results of a store, and what live acceptance of one stands for.
use morphogenesis.Base.{
  ℕ, ◌≡◌, ◌≢◌, refl, ap, ◌∙◌, subst, inl, inr, Bool, true, false, ==→≡, Bool-cases, some, none≢some,
  some_inj, List, [], ◌∷◌, if_true, if_false, all, arith,
}
use morphogenesis.Equality.{nat_eq, pair_eq}
use morphogenesis.Table.{Table, get, merge, get-merge, get-merge_other}
use morphogenesis.Contracts.{AttemptId, Raised, Tried}
use morphogenesis.Contracts.Results.{
  TaskResult, validate_result, is_passed, Accepted, validate_result-Accepted, validate_result-Each,
  result_guards, Each,
}
use morphogenesis.Contracts.Messages.{attempt_equality, agent_equality, role_equality}
use morphogenesis.Persistence.Store.{
  Stored, opened, result_key, result_rows, save_result, get_result,
}
use morphogenesis.Persistence.Runs.{StoreCall, run_store, run_stores}

abbrev are_valid : Table (ℕ × AttemptId) TaskResult → Bool
are_valid = all (λ r. validate_result r.value)

merge-valid :
    (k : ℕ × AttemptId) (r : TaskResult) (rows : Table (ℕ × AttemptId) TaskResult)
    → validate_result r ≡ true
    → are_valid rows ≡ true
    → are_valid (merge k r rows) ≡ true
merge-valid k r [] v h = rw v refl
merge-valid k r (x ∷ xs) v h =
    let rest : are_valid xs ≡ true = ground arith in
    let kept : validate_result x.value ≡ true = ground arith in
    elim (Bool-cases (pair_eq.same x.key k)) [
      | inl y ↦ rw (y, v, rest) refl
      | inr n ↦ rw (n, kept, merge-valid k r xs v rest) refl
    ]

get-valid :
    (k : ℕ × AttemptId) (r : TaskResult) (rows : Table (ℕ × AttemptId) TaskResult)
    → are_valid rows ≡ true
    → get k rows ≡ some r
    → validate_result r ≡ true
get-valid k r [] h g = absurd (none≢some g)
get-valid k r (x ∷ xs) h g =
    let rest : are_valid xs ≡ true = ground arith in
    let kept : validate_result x.value ≡ true = ground arith in
    elim (Bool-cases (pair_eq.same x.key k)) [
      | inl y ↦ subst (λ z. validate_result z ≡ true) (some_inj (if_true _ _ _ _ g y)) kept
      | inr n ↦ get-valid k r xs rest (if_false _ _ _ _ g n)
    ]

result_rows-valid :
    (r : TaskResult) (rows : Table (ℕ × AttemptId) TaskResult)
    → are_valid rows ≡ true
    → are_valid (result_rows r rows).1 ≡ true
unfolding result_rows
result_rows-valid r rows h = elim (Bool-cases (validate_result r)) [
  | inr n ↦ rw n h
  | inl y ↦ rw y (merge-valid (result_key r) r rows y h)
]

run-valid :
    (c : StoreCall) (s : Stored)
    → are_valid s.results ≡ true
    → are_valid (run_store c s).results ≡ true
unfolding run_store
run-valid (StoreCall.appends e) s h = h
run-valid (StoreCall.handles r m) s h = h
run-valid (StoreCall.saves_result r) s h = result_rows-valid r s.results h
run-valid (StoreCall.saves_gene g) s h = h
run-valid (StoreCall.saves_provision p) s h = h

runs-valid :
    (cs : List StoreCall) (s : Stored)
    → are_valid s.results ≡ true
    → are_valid (run_stores cs s).results ≡ true
unfolding run_stores
runs-valid [] s h = h
runs-valid (c ∷ cs) s h = runs-valid cs (run_store c s) (run-valid c s h)

-- In a store that any calls filled, a result that claims live acceptance of its task is of live
-- provenance and succeeded, and its verdict passed with exit code 0, evidence, an artifact and a
-- reviewer other than the agent of the attempt.
pub get_result-Accepted :
    (cs : List StoreCall) (run_id : ℕ) (attempt : AttemptId) (r : TaskResult)
    → get_result run_id attempt (run_stores cs opened) ≡ some r
    → is_passed r.acceptance.task_live ≡ true
    → Accepted r
get_result-Accepted cs run_id attempt r g h =
    validate_result-Accepted r
      (get-valid (run_id, attempt) r (run_stores cs opened).results (runs-valid cs opened refl) g) h

own_key : (r : TaskResult) → validate_result r ≡ true → result_key r ≡ (r.run_id, r.attempt)
own_key r v =
    let g : Each (result_guards r) = validate_result-Each r v in
    let task : r.task_id ≡ r.attempt.task_id = ==→≡ _ _ g.1.1.0 in
    λ i.
      (r.run_id, record { task_id = task i; agent = r.attempt.agent; attempt = r.attempt.attempt })

result_rows-get :
    (r : TaskResult) (key : ℕ × AttemptId) (rows : Table (ℕ × AttemptId) TaskResult)
    → (result_rows r rows).0 ≡ Tried.done tt
    → (get (r.run_id, r.attempt) (result_rows r rows).1 ≡ some r)
      × (pair_eq.same (r.run_id, r.attempt) key ≡ false
          → get key (result_rows r rows).1 ≡ get key rows)
unfolding result_rows
result_rows-get r key rows h = elim (Bool-cases (validate_result r)) [
  | inr n ↦ absurd (refused (ap (λ z. z.0) (stopped n) ∙ h))
  | inl y ↦
      rw (y, own_key r y)
        (get-merge (r.run_id, r.attempt) r rows, get-merge_other key (r.run_id, r.attempt) r rows)
]
  where
    refused : Tried.failed Raised.value_error ≢ Tried.done tt
    refused h = cc

    stopped :
        validate_result r ≡ false → (Tried.failed Raised.value_error, rows) ≡ result_rows r rows
    stopped n = rw n refl

-- A result that was saved is what its run and attempt read, and what any other run and attempt
-- read is as before.
pub save_result-get_result :
    (r : TaskResult) (s : Stored) (run_id : ℕ) (attempt : AttemptId)
    → (save_result r s).0 ≡ Tried.done tt
    → pair_eq.same (r.run_id, r.attempt) (run_id, attempt) ≡ false
    → (get_result r.run_id r.attempt (save_result r s).1 ≡ some r)
      × (get_result run_id attempt (save_result r s).1 ≡ get_result run_id attempt s)
save_result-get_result r s run_id attempt h other =
    let p = result_rows-get r (run_id, attempt) s.results h in (p.0, p.1 other)
