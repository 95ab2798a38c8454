-- ===== src/Faults/Appending.antt =====
-- What an append does to the file as a whole reading sees it.
use morphogenesis.Base.{
  ℕ, suc, ◌+◌, ◌≡◌, ◌≢◌, refl, sym, ap, ◌∙◌, inl, inr, true, false, not, Bool-cases, Option, none,
  some, List, [], ◌∷◌, ◌++◌, arith, ◌==◌, if_true, if_false, same, length,
}
use morphogenesis.Faults.Records.{
  FailureClass, CostState, FaultObservation, class_eq, cost_eq, same_facts, same_key, Entry,
  FaultReadResult, Line, find_key, has_identity, read_line, read_from, read_all, AppendError,
  Appended, identity_taken, contradicts, decide_append, append,
}

read_from-append :
    (n : ℕ) (ls : List Line) (l : Line) (r : FaultReadResult)
    → read_from n (ls ++ l ∷ []) r ≡ read_line (n + length ls) l (read_from n ls r)
unfolding read_from
read_from-append n [] l r = ap (λ k. read_line k l r) (omega arith)
read_from-append n (x ∷ ls) l r =
    read_from-append (suc n) ls l (read_line n x r)
    ∙ ap (λ k. read_line k l (read_from (suc n) ls (read_line n x r))) (omega arith)

class_eq_refl : (c : FailureClass) → class_eq c c ≡ true
class_eq_refl FailureClass.confirmed_rejection = refl
class_eq_refl FailureClass.unknown_effect = refl
class_eq_refl FailureClass.budget_exhausted = refl
class_eq_refl FailureClass.capability_mismatch = refl

cost_eq_refl : (c : Option CostState) → cost_eq c c ≡ true
cost_eq_refl none = refl
cost_eq_refl (some CostState.settled) = refl
cost_eq_refl (some CostState.unknown) = refl
cost_eq_refl (some CostState.reserved) = refl

==_refl : (n : ℕ) → (n == n) ≡ true
==_refl n = ground arith

same_refl : (o : Option ℕ) → same o o ≡ true
same_refl none = refl
same_refl (some n) = ==_refl n

pub same_facts_refl : (x : FaultObservation) → same_facts x x ≡ true
unfolding same_facts
same_facts_refl x =
    rw
      (
        ==_refl x.run_id,
        ==_refl x.task_id,
        ==_refl x.request_id,
        ==_refl x.attempt,
        ==_refl x.provider,
        ==_refl x.model,
        class_eq_refl x.failure_class,
        ==_refl x.normalized_reason,
        same_refl x.retry_after_seconds,
        same_refl x.switched_to,
        cost_eq_refl x.cost_state,
        ==_refl x.occurred_at,
      )
      (same_refl x.evidence_ref)

-- A record of the run with the same identity would have the same key.
no_identity :
    (x : FaultObservation) (entries : List Entry)
    → find_key x entries ≡ none
    → identity_taken x entries ≡ false
    → has_identity x entries ≡ false
no_identity x [] h k = refl
no_identity x (e ∷ es) h k = ground (arith, no_identity x es)

find-last :
    (x : FaultObservation) (entries : List Entry) (e : Entry)
    → find_key x entries ≡ none
    → same_key e.item x ≡ true
    → find_key x (entries ++ e ∷ []) ≡ some e
find-last x [] e h k = rw k refl
find-last x (q ∷ es) e h k = elim (Bool-cases (same_key q.item x)) [
  | inl y ↦ absurd (no_some (if_true _ _ _ _ h y))
  | inr n ↦ rw n (find-last x es e (if_false _ _ _ _ h n) k)
]
  where
    no_some : {q : Entry} → some q ≢ none
    no_some h = cc

taken-last :
    (x : FaultObservation) (entries : List Entry) (e : Entry)
    → e.item ≡ x
    → identity_taken x entries ≡ false
    → identity_taken x (entries ++ e ∷ []) ≡ false
taken-last x [] e i h =
    rw (i, ==_refl x.run_id, ==_refl x.observation_id, ==_refl x.request_id, ==_refl x.attempt) refl
taken-last x (q ∷ es) e i h = ground (arith, taken-last x es e i)

-- What `written` says.
pub record Fresh (run_id : ℕ) (x : FaultObservation) (lines lines' : List Line) : Type 0 where
  pub run : (x.run_id == run_id) ≡ true
  pub unknown_key : find_key x (read_all lines).entries ≡ none
  pub free : identity_taken x (read_all lines).entries ≡ false
  pub extended : lines' ≡ lines ++ some x ∷ []

written_inj : (a b : List Line) → Appended.written a ≡ Appended.written b → a ≡ b
written_inj a b h = cc

append-Fresh :
    (run_id : ℕ) (x : FaultObservation) (lines lines' : List Line)
    → append run_id x lines ≡ Appended.written lines'
    → Fresh run_id x lines lines'
unfolding append
append-Fresh run_id x lines lines' h = elim (Bool-cases (x.run_id == run_id)) [
  | inl y ↦
      go (find_key x (read_all lines).entries) refl y
        (if_false (not (x.run_id == run_id)) _ _ _ h (rw y refl))
  | inr n ↦ absurd (bad (if_true (not (x.run_id == run_id)) _ _ _ h (rw n refl)))
]
  where
    bad : {e : AppendError} → Appended.refused e ≢ Appended.written lines'
    bad h = cc

    again : Appended.replayed ≢ Appended.written lines'
    again h = cc

    go :
        (o : Option Entry)
        → find_key x (read_all lines).entries ≡ o
        → (x.run_id == run_id) ≡ true
        → decide_append x o (read_all lines).entries lines ≡ Appended.written lines'
        → Fresh run_id x lines lines'
    go none e y k = elim (Bool-cases (identity_taken x (read_all lines).entries)) [
      | inl t ↦ absurd (bad (if_true _ _ _ _ k t))
      | inr f ↦ record {
        run = y;
        unknown_key = e;
        free = f;
        extended = sym (written_inj _ _ (if_false _ _ _ _ k f));
      }
    ]
    go (some q) e y k = elim (Bool-cases (contradicts x (some q))) [
      | inl c ↦ absurd (bad (if_true _ _ _ _ k c))
      | inr c ↦ elim (Bool-cases (identity_taken x (read_all lines).entries)) [
        | inl t ↦ absurd (bad (if_true _ _ _ _ (if_false _ _ _ _ k c) t))
        | inr f ↦ absurd (again (if_false _ _ _ _ (if_false _ _ _ _ k c) f))
      ]
    ]

judge-Fresh :
    (n : ℕ) (x : FaultObservation) (r : FaultReadResult)
    → find_key x r.entries ≡ none
    → identity_taken x r.entries ≡ false
    → read_line n (some x) r
      ≡ record r { entries = r.entries ++ record { item = x; line = n } ∷ [] }
unfolding read_line
judge-Fresh n x r h k = rw (h, no_identity x r.entries h k) refl

-- What reading the whole file gives after an accepted append.
read_all-Fresh :
    (run_id : ℕ) (x : FaultObservation) (lines lines' : List Line)
    → Fresh run_id x lines lines'
    → read_all lines' ≡ record (read_all lines) {
      entries = (read_all lines).entries ++ record { item = x; line = suc (length lines) } ∷ [];
    }
unfolding read_all
read_all-Fresh run_id x lines lines' f =
    ap read_all f.extended
    ∙ (read_from-append 1 lines (some x) _
        ∙ (judge-Fresh (1 + length lines) x (read_all lines) f.unknown_key f.free
            ∙ ap
                (λ n. record (read_all lines) {
                  entries = (read_all lines).entries ++ record { item = x; line = n } ∷ [];
                })
                (omega arith)))

replays :
    (run_id : ℕ) (x : FaultObservation) (lines : List Line) (e : Entry)
    → (x.run_id == run_id) ≡ true
    → e.item ≡ x
    → find_key x (read_all lines).entries ≡ some e
    → identity_taken x (read_all lines).entries ≡ false
    → append run_id x lines ≡ Appended.replayed
unfolding append
replays run_id x lines e y i h f = rw (y, h, ap (λ z. same_facts z x) i, same_facts_refl x, f) refl

-- An append that writes adds exactly its record to what a reading of the file yields, on a line of
-- its own after all others, with no new issue and every earlier record and issue as it was; and the
-- same append again writes nothing and succeeds.
pub append_once :
    (run_id : ℕ) (x : FaultObservation) (lines lines' : List Line)
    → append run_id x lines ≡ Appended.written lines'
    → (read_all lines' ≡ record (read_all lines) {
      entries = (read_all lines).entries ++ record { item = x; line = suc (length lines) } ∷ [];
    })
      × (append run_id x lines' ≡ Appended.replayed)
append_once run_id x lines lines' h =
    let f = append-Fresh run_id x lines lines' h in
    let all : read_all lines' ≡ record (read_all lines) {
      entries = (read_all lines).entries ++ record { item = x; line = suc (length lines) } ∷ [];
    } =
      read_all-Fresh run_id x lines lines' f in
    let e : Entry = record { item = x; line = suc (length lines) } in
    let key : same_key x x ≡ true =
      rw (==_refl x.run_id, ==_refl x.request_id, ==_refl x.attempt) refl in
    (
      all,
      replays run_id x lines' e f.run refl
          (ap (λ r. find_key x r.entries) all
            ∙ find-last x (read_all lines).entries e f.unknown_key key)
          (ap (λ r. identity_taken x r.entries) all
            ∙ taken-last x (read_all lines).entries e refl f.free),
    )
