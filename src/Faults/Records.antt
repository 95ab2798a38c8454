-- ===== src/Faults/Records.antt =====
-- The observation file and its reading: `FaultObservationStore._read_all`, `read`, `append`. A file
-- is its lines; a line that is no valid record is `none`.
use morphogenesis.Base.{
  ℕ, suc, Bool, true, false, not, ◌&&◌, Option, none, some, List, [], ◌∷◌, ◌++◌, ◌==◌, same, any,
  first, length, where_rows, if◌then◌else◌, is_some,
}

pub data FailureClass : Type 0 where
  confirmed_rejection unknown_effect budget_exhausted capability_mismatch : FailureClass

pub data CostState : Type 0 where
  settled unknown reserved : CostState

pub record FaultObservation : Type 0 where
  pub observation_id : ℕ
  pub run_id : ℕ
  pub task_id : ℕ
  pub request_id : ℕ
  pub attempt : ℕ
  pub provider : ℕ
  pub model : ℕ
  pub failure_class : FailureClass
  pub normalized_reason : ℕ
  pub retry_after_seconds : Option ℕ
  pub switched_to : Option ℕ
  pub cost_state : Option CostState
  pub occurred_at : ℕ
  pub evidence_ref : Option ℕ

abbrev pub class_eq : FailureClass → FailureClass → Bool
class_eq FailureClass.confirmed_rejection FailureClass.confirmed_rejection = true
class_eq FailureClass.unknown_effect FailureClass.unknown_effect = true
class_eq FailureClass.budget_exhausted FailureClass.budget_exhausted = true
class_eq FailureClass.capability_mismatch FailureClass.capability_mismatch = true
class_eq _ _ = false

abbrev pub cost_eq : Option CostState → Option CostState → Bool
cost_eq none none = true
cost_eq (some CostState.settled) (some CostState.settled) = true
cost_eq (some CostState.unknown) (some CostState.unknown) = true
cost_eq (some CostState.reserved) (some CostState.reserved) = true
cost_eq _ _ = false

-- `_same_facts`: every field but the observation's identity
unfoldable pub same_facts : FaultObservation → FaultObservation → Bool
same_facts a b =
    a.run_id == b.run_id
    && (a.task_id == b.task_id
        && (a.request_id == b.request_id
            && (a.attempt == b.attempt
                && (a.provider == b.provider
                    && (a.model == b.model
                        && (class_eq a.failure_class b.failure_class
                            && (a.normalized_reason == b.normalized_reason
                                && (same a.retry_after_seconds b.retry_after_seconds
                                    && (same a.switched_to b.switched_to
                                        && (cost_eq a.cost_state b.cost_state
                                            && (a.occurred_at == b.occurred_at
                                                && same a.evidence_ref b.evidence_ref)))))))))))

-- The key `(run_id, request_id, attempt)`.
abbrev pub same_key : FaultObservation → FaultObservation → Bool
same_key a b = a.run_id == b.run_id && (a.request_id == b.request_id && a.attempt == b.attempt)

-- The identity `(run_id, observation_id)`.
abbrev pub same_identity : FaultObservation → FaultObservation → Bool
same_identity a b = a.run_id == b.run_id && a.observation_id == b.observation_id

pub data Problem : Type 0 where
  invalid_record duplicate_record conflicting_record : Problem

pub record FaultReadIssue : Type 0 where
  pub line_number : ℕ
  pub reason : Problem

-- A record with the line that it stands on: `records` and `record_lines` zipped.
pub record Entry : Type 0 where
  pub item : FaultObservation
  pub line : ℕ

pub record FaultReadResult : Type 0 where
  pub entries : List Entry
  pub issues : List FaultReadIssue

abbrev pub Line : Type 0
Line = Option FaultObservation

abbrev pub find_key : FaultObservation → List Entry → Option Entry
find_key x = first (λ e. same_key e.item x)

abbrev pub has_identity : FaultObservation → List Entry → Bool
has_identity x = any (λ e. same_identity e.item x)

abbrev pub add_issue : ℕ → Problem → FaultReadResult → FaultReadResult
add_issue number reason r = record r {
  issues = r.issues ++ record { line_number = number; reason = reason } ∷ [];
}

abbrev pub judge : ℕ → FaultObservation → Option Entry → FaultReadResult → FaultReadResult
judge number x (some e) r =
    add_issue number
      (if same_facts e.item x then Problem.duplicate_record else Problem.conflicting_record) r
judge number x none r =
    if has_identity x r.entries
    then add_issue number Problem.conflicting_record r
    else record r { entries = r.entries ++ record { item = x; line = number } ∷ [] }

-- The body of the loop of `_read_all`.
unfoldable pub read_line : ℕ → Line → FaultReadResult → FaultReadResult
unfolding same_facts
read_line number none r = add_issue number Problem.invalid_record r
read_line number (some x) r = judge number x (find_key x r.entries) r

unfoldable pub read_from : ℕ → List Line → FaultReadResult → FaultReadResult
unfolding read_line
read_from number [] r = r
read_from number (l ∷ ls) r = read_from (suc number) ls (read_line number l r)

-- `_read_all`
unfoldable pub read_all : List Line → FaultReadResult
unfolding read_from
read_all lines = read_from 1 lines (record { entries = []; issues = [] })

-- `read`, for the store of one run
unfoldable pub read : ℕ → List Line → FaultReadResult
unfolding read_all
read run_id lines = record (read_all lines) {
  entries = where_rows (λ e. e.item.run_id == run_id) (read_all lines).entries;
}

-- `checkpoint`
unfoldable pub checkpoint : List Line → ℕ
checkpoint lines = length lines

pub data AppendError : Type 0 where
  run_id_mismatch observation_conflict : AppendError

-- What `append` does to the file, and returns.
pub data Appended : Type 0 where
  written : List Line → Appended
  replayed : Appended
  refused : AppendError → Appended

-- Another request attempt of the run has the identity.
abbrev pub identity_taken : FaultObservation → List Entry → Bool
identity_taken x = any (λ e.
    same_identity e.item x
    && not (e.item.request_id == x.request_id && e.item.attempt == x.attempt))

-- An earlier record of the key has other facts.
abbrev pub contradicts : FaultObservation → Option Entry → Bool
contradicts x none = false
contradicts x (some e) = not (same_facts e.item x)

abbrev pub decide_append : FaultObservation → Option Entry → List Entry → List Line → Appended
decide_append x existing index lines =
    if contradicts x existing
    then Appended.refused AppendError.observation_conflict
    else if identity_taken x index
    then Appended.refused AppendError.observation_conflict
    else if is_some existing
    then Appended.replayed
    else Appended.written (lines ++ some x ∷ [])

-- `append`; the index holds what `_read_all` finds in the file, as `_ensure_index` rebuilds it
unfoldable pub append : ℕ → FaultObservation → List Line → Appended
unfolding read_all same_facts
append run_id x lines =
    if not (x.run_id == run_id)
    then Appended.refused AppendError.run_id_mismatch
    else decide_append x (find_key x (read_all lines).entries) (read_all lines).entries lines
