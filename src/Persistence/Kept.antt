-- ===== src/Persistence/Kept.antt =====
-- What a store keeps over any calls.
use morphogenesis.Base.{
  ℕ, ⊤, ◌≡◌, ◌≢◌, refl, sym, ap, ◌∙◌, subst, inl, inr, Bool, true, false, Bool-cases, Option, none,
  some, none≢some, some_inj, List, [], ◌∷◌, if◌then◌else◌,
}
use morphogenesis.Equality.{Eq, nat_eq, option_eq, pair_eq}
use morphogenesis.Table.{Table, get, change, get-add, get-add_kept, get-change, get-change_other}
use morphogenesis.Contracts.{Raised, Tried}
use morphogenesis.Contracts.Messages.{
  Envelope, Facts, facts, facts_equality, validate_lineage, Gene, gene_equality, provision_equality,
  attempt_equality, agent_equality, role_equality,
}
use morphogenesis.Persistence.Store.{
  EventRow, Stored, append_over, append_row, append_event, mark_over, save_over, save_gene,
  asset_matches, read_gene, get_gene,
}
use morphogenesis.Persistence.Runs.{StoreCall, run_store, run_stores}

failed≢done : {A : Type 0} {e : Raised} {a : A} → Tried.failed e ≢ Tried.done a
failed≢done h = cc

done_inj : {A : Type 0} {a b : A} → Tried.done a ≡ Tried.done b → a ≡ b
done_inj h = cc

module _ {V : Type 0} ⦃e : Eq V⦄ where
  save_over-kept :
      (k key : ℕ × ℕ) (v w : V) (o : Option V) (rows : Table (ℕ × ℕ) V)
      → get k rows ≡ some v
      → get k (save_over key w o rows).1 ≡ some v
  unfolding save_over
  save_over-kept k key v w none rows h = get-add_kept k key v w rows h
  save_over-kept k key v w (some old) rows h = elim (Bool-cases (e.same old w)) [
    | inl y ↦ rw y h
    | inr n ↦ rw n h
  ]

  save_over-saved :
      (key : ℕ × ℕ) (v : V) (o : Option V) (rows : Table (ℕ × ℕ) V)
      → get key rows ≡ o
      → (save_over key v o rows).0 ≡ Tried.done tt
      → get key (save_over key v o rows).1 ≡ some v
  unfolding save_over
  save_over-saved key v none rows h k = get-add key v rows h
  save_over-saved key v (some old) rows h k = elim (Bool-cases (e.same old v)) [
    | inl y ↦ rw y (h ∙ ap some (e.same→≡ old v y))
    | inr n ↦ absurd (failed≢done (refused n ∙ k))
  ]
    where
      refused :
          e.same old v ≡ false
          → Tried.failed Raised.value_error ≡ (save_over key v (some old) rows).0
      refused n = rw n refl

run-gene :
    (key : ℕ × ℕ) (g : Gene) (c : StoreCall) (s : Stored)
    → get key s.genes ≡ some g
    → get key (run_store c s).genes ≡ some g
unfolding run_store
run-gene key g (StoreCall.appends e) s h = h
run-gene key g (StoreCall.handles r m) s h = h
run-gene key g (StoreCall.saves_result r) s h = h
run-gene key g (StoreCall.saves_gene new) s h =
    save_over-kept key _ g new (get (new.ref.gene_id, new.ref.version) s.genes) s.genes h
run-gene key g (StoreCall.saves_provision p) s h = h

runs-gene :
    (key : ℕ × ℕ) (g : Gene) (cs : List StoreCall) (s : Stored)
    → get key s.genes ≡ some g
    → get key (run_stores cs s).genes ≡ some g
unfolding run_stores
runs-gene key g [] s h = h
runs-gene key g (c ∷ cs) s h = runs-gene key g cs (run_store c s) (run-gene key g c s h)

asset_itself : (o : Option ℕ) → asset_matches o o ≡ true
asset_itself none = refl
asset_itself (some a) = option_eq.same_refl (some a)

read-itself : (g : Gene) (o : Option Gene) → o ≡ some g → read_gene g.ref o ≡ Tried.done (some g)
unfolding read_gene
read-itself g none h = absurd (none≢some h)
read-itself g (some x) h = rw (some_inj h, asset_itself g.ref.asset_id) refl

-- The answer to a gene under an identity and version that are taken.
abbrev pub again : Gene → Gene → Tried ⊤
again old new =
    if gene_equality.same old new then Tried.done tt else Tried.failed Raised.value_error

save_over-again :
    (key : ℕ × ℕ) (old new : Gene) (o : Option Gene) (rows : Table (ℕ × ℕ) Gene)
    → o ≡ some old
    → save_over key new o rows ≡ (again old new, rows)
unfolding save_over
save_over-again key old new none rows h = absurd (none≢some h)
save_over-again key old new (some x) rows h =
    rw (some_inj h)
      (elim (Bool-cases (gene_equality.same old new)) [ inl y ↦ rw y refl | inr n ↦ rw n refl ])

-- A gene that was saved is what its reference reads, after any further calls; and saving a gene
-- under the same identity and version after these calls changes nothing: it returns if the genes
-- are equal, and raises ValueError if not.
pub save_gene-get_gene :
    (g new : Gene) (s : Stored) (cs : List StoreCall)
    → (save_gene g s).0 ≡ Tried.done tt
    → new.ref.gene_id ≡ g.ref.gene_id
    → new.ref.version ≡ g.ref.version
    → (get_gene g.ref (run_stores cs (save_gene g s).1) ≡ Tried.done (some g))
      × (save_gene new (run_stores cs (save_gene g s).1)
          ≡ (again g new, run_stores cs (save_gene g s).1))
save_gene-get_gene g new s cs h id version =
    let key : ℕ × ℕ = (g.ref.gene_id, g.ref.version) in
    let after : Stored = run_stores cs (save_gene g s).1 in
    let saved = save_over-saved key g (get key s.genes) s.genes refl h in
    let kept = runs-gene key g cs (save_gene g s).1 saved in
    let found = ap (λ z. get z after.genes) (same_key id version) ∙ kept in
    (
      read-itself g _ kept,
      ap (λ z. (z.0, record after { genes = z.1 }))
          (save_over-again (new.ref.gene_id, new.ref.version) g new _ after.genes found),
    )
  where
    same_key : {a b c d : ℕ} → a ≡ b → c ≡ d → ◌≡◌ {A = ℕ × ℕ} (a, c) (b, d)
    same_key p q i = (p i, q i)

module _ (f : Facts) (key : ℕ × ℕ) where
  -- The event under the key, with these facts.
  record Delivered (rows : Table (ℕ × ℕ) EventRow) : Type 0 where
    row : EventRow
    found : get key rows ≡ some row
    same : facts row.body ≡ f

  append_over-Delivered :
      (e : Envelope) (o : Option EventRow) (rows : Table (ℕ × ℕ) EventRow)
      → Delivered rows
      → Delivered (append_over e o rows).1
  unfolding append_over
  append_over-Delivered e none rows d = record {
    row = d.row;
    found = get-add_kept key _ _ _ rows d.found;
    same = d.same;
  }
  append_over-Delivered e (some row) rows d =
      elim (Bool-cases (facts_equality.same (facts row.body) (facts e))) [
        | inl y ↦ rw y d
        | inr n ↦ rw n d
      ]

  mark_over-Delivered :
      (k : ℕ × ℕ) (o : Option EventRow) (rows : Table (ℕ × ℕ) EventRow)
      → Delivered rows
      → Delivered (mark_over k o rows).1
  unfolding mark_over
  mark_over-Delivered k none rows d = d
  mark_over-Delivered k (some row) rows d = elim (Bool-cases (pair_eq.same k key)) [
    | inr n ↦ record {
      row = d.row;
      found = get-change_other key k _ rows n ∙ d.found;
      same = d.same;
    }
    | inl y ↦ record {
      row = record d.row { handled = true };
      found =
          subst
            (λ z.
              get key (change z (λ r. record r { handled = true }) rows)
              ≡ some (record d.row { handled = true }))
            (sym (pair_eq.same→≡ k key y)) (get-change key _ d.row rows d.found);
      same = d.same;
    }
  ]

  run-Delivered :
      (c : StoreCall) (s : Stored) → Delivered s.events → Delivered (run_store c s).events
  unfolding run_store append_row
  run-Delivered (StoreCall.appends e) s d = elim (Bool-cases (validate_lineage e)) [
    | inr n ↦ rw n d
    | inl y ↦ rw y (append_over-Delivered e (get (e.run_id, e.msg_id) s.events) s.events d)
  ]
  run-Delivered (StoreCall.handles r m) s d =
      mark_over-Delivered (r, m) (get (r, m) s.events) s.events d
  run-Delivered (StoreCall.saves_result r) s d = d
  run-Delivered (StoreCall.saves_gene g) s d = d
  run-Delivered (StoreCall.saves_provision p) s d = d

  runs-Delivered :
      (cs : List StoreCall) (s : Stored) → Delivered s.events → Delivered (run_stores cs s).events
  unfolding run_stores
  runs-Delivered [] s d = d
  runs-Delivered (c ∷ cs) s d = runs-Delivered cs (run_store c s) (run-Delivered c s d)

append_over-done :
    (e : Envelope) (b : Bool) (o : Option EventRow) (rows : Table (ℕ × ℕ) EventRow)
    → get (e.run_id, e.msg_id) rows ≡ o
    → (append_over e o rows).0 ≡ Tried.done b
    → Delivered (facts e) (e.run_id, e.msg_id) (append_over e o rows).1
unfolding append_over
append_over-done e b none rows h k = record { row = _; found = get-add _ _ rows h; same = refl }
append_over-done e b (some row) rows h k =
    elim (Bool-cases (facts_equality.same (facts row.body) (facts e))) [
      | inl y ↦ rw y (record { row = row; found = h; same = facts_equality.same→≡ _ _ y })
      | inr n ↦ absurd (failed≢done (refused n ∙ k))
    ]
  where
    refused :
        facts_equality.same (facts row.body) (facts e) ≡ false
        → Tried.failed Raised.value_error ≡ (append_over e (some row) rows).0
    refused n = rw n refl

append_row-done :
    (e : Envelope) (b : Bool) (rows : Table (ℕ × ℕ) EventRow)
    → (append_row e rows).0 ≡ Tried.done b
    → Delivered (facts e) (e.run_id, e.msg_id) (append_row e rows).1
unfolding append_row
append_row-done e b rows h = elim (Bool-cases (validate_lineage e)) [
  | inr n ↦ absurd (failed≢done (refused n ∙ h))
  | inl y ↦ rw y (append_over-done e b (get (e.run_id, e.msg_id) rows) rows refl (passed y ∙ h))
]
  where
    refused : validate_lineage e ≡ false → Tried.failed Raised.value_error ≡ (append_row e rows).0
    refused n = rw n refl

    passed :
        validate_lineage e ≡ true
        → (append_over e (get (e.run_id, e.msg_id) rows) rows).0 ≡ (append_row e rows).0
    passed y = rw y refl

-- The answer to an event under an identity that is taken by one with these facts.
abbrev pub redelivered : Facts → Envelope → Tried Bool
redelivered f new =
    if facts_equality.same f (facts new) then Tried.done false else Tried.failed Raised.value_error

append_over-again :
    (row : EventRow) (new : Envelope) (rows : Table (ℕ × ℕ) EventRow)
    → append_over new (some row) rows ≡ (redelivered (facts row.body) new, rows)
unfolding append_over
append_over-again row new rows =
    elim (Bool-cases (facts_equality.same (facts row.body) (facts new))) [
      | inl y ↦ rw y refl
      | inr n ↦ rw n refl
    ]

append_row-again :
    (f : Facts) (new : Envelope) (rows : Table (ℕ × ℕ) EventRow)
    → Delivered f (new.run_id, new.msg_id) rows
    → validate_lineage new ≡ true
    → append_row new rows ≡ (redelivered f new, rows)
unfolding append_row
append_row-again f new rows d valid =
    rw (valid, d.found)
      (append_over-again d.row new rows ∙ ap (λ z. (redelivered z new, rows)) d.same)

-- Once `append_event` has returned for an event, and after any further calls, a valid event with
-- the same run and message identities changes nothing: it is answered False if it agrees with the
-- first in everything but `handled`, and raises ValueError if not.
pub append_event_once :
    (e new : Envelope) (b : Bool) (s : Stored) (cs : List StoreCall)
    → (append_event e s).0 ≡ Tried.done b
    → new.run_id ≡ e.run_id
    → new.msg_id ≡ e.msg_id
    → validate_lineage new ≡ true
    → append_event new (run_stores cs (append_event e s).1)
      ≡ (redelivered (facts e) new, run_stores cs (append_event e s).1)
append_event_once e new b s cs h run msg valid =
    let after : Stored = run_stores cs (append_event e s).1 in
    let first = append_row-done e b s.events h in
    let kept = runs-Delivered (facts e) (e.run_id, e.msg_id) cs (append_event e s).1 first in
    ap (λ z. (z.0, record after { events = z.1 }))
      (append_row-again (facts e) new after.events (moved run msg kept) valid)
  where
    moved :
        {rows : Table (ℕ × ℕ) EventRow}
        → new.run_id ≡ e.run_id
        → new.msg_id ≡ e.msg_id
        → Delivered (facts e) (e.run_id, e.msg_id) rows
        → Delivered (facts e) (new.run_id, new.msg_id) rows
    moved {rows = rows} p q d =
        subst (λ a. Delivered (facts e) (a, new.msg_id) rows) (sym p)
          (subst (λ a. Delivered (facts e) (e.run_id, a) rows) (sym q) d)
