-- ===== src/Faults/Windows.antt =====
-- `FaultSample`, `FaultAggregate` and `aggregate`: the failures of a window by provider and reason.
use morphogenesis.Base.{
  ℕ, ◌+◌, Bool, ◌&&◌, ◌||◌, Option, none, some, List, [], ◌∷◌, map, ltb, leb, ◌==◌, count, length,
  where_rows, if◌then◌else◌,
}
use morphogenesis.Faults.Records.{FailureClass, class_eq, FaultObservation, Entry, Line, read}

pub record FaultSample : Type 0 where
  pub sequence : ℕ
  pub occurred_at : ℕ
  pub confirmed_rejection : Bool
  pub retry_after_until : Option ℕ

pub record FaultAggregate : Type 0 where
  pub provider : ℕ
  pub normalized_reason : ℕ
  pub sample_count : ℕ
  pub confirmed_rejections : ℕ
  pub first_occurred_at : ℕ
  pub last_occurred_at : ℕ
  pub retry_after_until : Option ℕ
  pub samples : List FaultSample

-- `min` and `max` over a list that is not empty
unfoldable pub earliest : FaultSample → List FaultSample → ℕ
earliest x [] = x.occurred_at
earliest x (y ∷ ys) =
    let rest = earliest y ys in if ltb x.occurred_at rest then x.occurred_at else rest

unfoldable pub latest : FaultSample → List FaultSample → ℕ
latest x [] = x.occurred_at
latest x (y ∷ ys) = let rest = latest y ys in if ltb rest x.occurred_at then x.occurred_at else rest

-- The larger of two deadlines, where there are any.
abbrev pub later_deadline : Option ℕ → Option ℕ → Option ℕ
later_deadline none d = d
later_deadline (some a) none = some a
later_deadline (some a) (some b) = some (if ltb a b then b else a)

-- `max(deadlines) if deadlines else None`
unfoldable pub last_deadline : List FaultSample → Option ℕ
last_deadline [] = none
last_deadline (x ∷ xs) = later_deadline x.retry_after_until (last_deadline xs)

-- `from_samples`; `min()` of no samples raises
unfoldable pub from_samples : ℕ → ℕ → List FaultSample → Option FaultAggregate
unfolding earliest latest last_deadline
from_samples provider reason [] = none
from_samples provider reason (x ∷ xs) = some (record {
  provider = provider;
  normalized_reason = reason;
  sample_count = length (x ∷ xs);
  confirmed_rejections = count (λ y. y.confirmed_rejection) (x ∷ xs);
  first_occurred_at = earliest x xs;
  last_occurred_at = latest x xs;
  retry_after_until = last_deadline (x ∷ xs);
  samples = x ∷ xs;
})

-- The condition of `after_recovery` on a sample.
unfoldable pub is_after : ℕ → Option ℕ → FaultSample → Bool
is_after at none x = ltb at x.occurred_at
is_after at (some sequence) x = ltb sequence x.sequence && leb at x.occurred_at

-- `after_recovery`
unfoldable pub after_recovery : ℕ → Option ℕ → FaultAggregate → Option FaultAggregate
unfolding is_after from_samples
after_recovery at sequence a =
    if length a.samples == 0
    then (if ltb at a.first_occurred_at then some a else none)
    else from_samples a.provider a.normalized_reason (where_rows (is_after at sequence) a.samples)

abbrev pub deadline_of : FaultObservation → Option ℕ
deadline_of x = shifted x.retry_after_seconds
  where
    shifted : Option ℕ → Option ℕ
    shifted none = none
    shifted (some d) = some (x.occurred_at + d)

abbrev pub sample_of : Entry → FaultSample
sample_of e = record {
  sequence = e.line;
  occurred_at = e.item.occurred_at;
  confirmed_rejection = class_eq e.item.failure_class FailureClass.confirmed_rejection;
  retry_after_until = deadline_of e.item;
}

-- `now - window_seconds < occurred_at <= now`, without a subtraction that stops at 0
unfoldable pub in_window : ℕ → ℕ → Entry → Bool
in_window now window e = ltb now (e.item.occurred_at + window) && leb e.item.occurred_at now

abbrev pub has_group : ℕ → ℕ → Entry → Bool
has_group provider reason e = e.item.provider == provider && e.item.normalized_reason == reason

-- One group of `aggregate`.
unfoldable pub aggregate_group : ℕ → ℕ → ℕ → ℕ → List Entry → Option FaultAggregate
unfolding in_window from_samples
aggregate_group now window provider reason entries = from_samples provider reason (
    map sample_of (where_rows (λ e. in_window now window e && has_group provider reason e) entries))

-- The keys of the groups, in the order of `sorted(groups.items())`.
insert_key : ℕ × ℕ → List (ℕ × ℕ) → List (ℕ × ℕ)
insert_key k [] = k ∷ []
insert_key k (j ∷ js) =
    let rest = insert_key k js in
    if k.0 == j.0 && k.1 == j.1
    then j ∷ js
    else if ltb k.0 j.0 || (k.0 == j.0 && ltb k.1 j.1)
    then k ∷ j ∷ js
    else j ∷ rest

unfoldable pub group_keys : List Entry → List (ℕ × ℕ)
unfolding insert_key
group_keys [] = []
group_keys (e ∷ es) = insert_key (e.item.provider, e.item.normalized_reason) (group_keys es)

keep_some : List (Option FaultAggregate) → List FaultAggregate
keep_some [] = []
keep_some (none ∷ xs) = keep_some xs
keep_some (some a ∷ xs) = a ∷ keep_some xs

-- `aggregate`; `none` is the ValueError for a window that is not positive
unfoldable pub aggregate : ℕ → ℕ → ℕ → List Line → Option (List FaultAggregate)
unfolding read aggregate_group group_keys keep_some in_window
aggregate run_id now window lines =
    if window == 0
    then none
    else some (
        keep_some (
          map (λ k. aggregate_group now window k.0 k.1 (read run_id lines).entries)
            (group_keys (where_rows (in_window now window) (read run_id lines).entries))))
