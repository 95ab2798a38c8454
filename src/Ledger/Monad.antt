-- ===== src/Ledger/Monad.antt =====
-- A call on the ledger: the database and the number of clock readings so far are passed along, and
-- an exception is a value. `transaction` is the `with` block of `connection(write=True)`.
use morphogenesis.Base.{ℕ, ⊤, Bool, Option, none, some, List, if◌then◌else◌}
use morphogenesis.Ledger.Types.{Text, RunLimits, TaskRow, Dependency, Evidence, Attempt, AuditRow}

-- What a ledger is opened with, and its surroundings: the host's clock, whose readings are
-- numbered (`none` is a reading that is negative or not finite), and the host's paths, whose
-- resolution may change between two readings.
pub record Env : Type 0 where
  pub swarm_id : ℕ
  pub limits : RunLimits
  pub clock : ℕ → Option ℕ
  pub second : ℕ
  pub separator : ℕ
  pub is_absolute : Text → Bool
  pub resolve : (reading : ℕ) → Text → Text
  pub normcase : Text → Text
  pub join : Text → Text → Text
  pub relative_to : Text → Text → Option Text

-- The tables, and the number of clock readings that were taken.
pub record State : Type 0 where
  pub started_at : ℕ
  pub tasks : List TaskRow
  pub dependencies : List Dependency
  pub evidence : List Evidence
  pub attempts : List Attempt
  pub audit : List AuditRow
  pub readings : ℕ

pub data Limit : Type 0 where
  run_runtime_limit max_tasks max_attempts max_derived_tasks : Limit

-- ValueError, KeyError, LeaseLost, TaskConflict, RunLimitReached, and what a callback raises.
pub data Error : Type 0 where
  value_error key_error lease_lost task_conflict callback_error : Error
  run_limit_reached : Limit → Error

pub data Result (A : Type 0) : Type 0 where
  ok : A → Result A
  raised : Error → Result A

abbrev pub Action : Type 0 → Type 0
Action A = State → Result A × State

module _ {A : Type 0} where
  abbrev pub pure : A → Action A
  pure a s = (ok a, s)

  abbrev pub raise : Error → Action A
  raise e s = (raised e, s)

  abbrev pub gets : (State → A) → Action A
  gets f s = (ok (f s), s)

  abbrev pub or_raise : Option A → Error → Action A
  or_raise none e = raise e
  or_raise (some a) e = pure a

infixl 5 ◌>>=◌ ◌>>◌
unfoldable pub ◌>>=◌ : {A B : Type 0} → Action A → (A → Action B) → Action B
◌>>=◌ m f s = let (r, s') = m s in elim r [ ok a ↦ f a s' | raised e ↦ raise e s' ]

abbrev pub ◌>>◌ : {A B : Type 0} → Action A → Action B → Action B
m >> k = m >>= λ _. k

abbrev pub raise_if : Bool → Error → Action ⊤
raise_if c e s = (if c then raised e else ok tt, s)

abbrev pub modify : (State → State) → Action ⊤
modify f s = (ok tt, f s)

-- Commit on a result; on an exception every table is as before. The clock has still been read.
abbrev pub settle : {A : Type 0} → State → Result A → State → Result A × State
settle s (ok a) s' = (ok a, s')
settle s (raised e) s' = (raised e, record s { readings = s'.readings })

unfoldable pub transaction : {A : Type 0} → Action A → Action A
transaction m s = let (r, s') = m s in settle s r s'

-- `except (LeaseLost, KeyError)`
abbrev pub caught : {A : Type 0} → Result A → Result (Option A)
caught (ok a) = ok (some a)
caught (raised Error.lease_lost) = ok none
caught (raised Error.key_error) = ok none
caught (raised e) = raised e

abbrev pub attempt : {A : Type 0} → Action A → Action (Option A)
attempt m s = let (r, s') = m s in (caught r, s')
