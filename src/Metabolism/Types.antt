-- ===== src/Metabolism/Types.antt =====
-- metabolism/models.py and metabolism/decay.py: the rows of the cache, what its calls return, and
-- the decay of a weight. Seconds and weights are floating-point numbers, a parameter.
use morphogenesis.Base.{ℕ, Bool, not, ◌||◌, Option, none, some, List, [], if◌then◌else◌}
use morphogenesis.Equality.{nat_eq, pair_eq}
use morphogenesis.Table.{Table}
use morphogenesis.Contracts.{AgentId, AttemptId, Raised, Tried}
use morphogenesis.Contracts.Results.{Provenance}
use morphogenesis.Contracts.Messages.{GeneRef, Gene}

-- The operations on floating-point numbers: `math.isfinite`, `<`, `-`, `*`, `max(0.0, x)`,
-- `math.exp(-a / b)`.
pub record Seconds (F : Type 0) : Type 0 where
  pub zero_point : F
  pub one_point : F
  pub is_finite : F → Bool
  pub less : F → F → Bool
  pub minus : F → F → F
  pub times : F → F → F
  pub exp_ratio : F → F → F

-- What an instance of `LocalMetabolism` is built with; `instance_id` tells the instances apart.
pub record Config (F : Type 0) : Type 0 where
  pub instance_id : ℕ
  pub run_id : ℕ
  pub provenance : Provenance
  pub tau_seconds : F
  pub archive_threshold : F

pub record GeneState (F : Type 0) : Type 0 where
  pub ref : GeneRef
  pub provenance : Provenance
  pub original_run_uri : Option ℕ
  pub source_attempt : Option AttemptId
  pub created_at : F
  pub anchor_at : F
  pub evaluated_at : F
  pub tau_seconds : F
  pub weight : F
  pub use_count : ℕ
  pub archived_at : Option F

pub record InjectionBatch (F : Type 0) : Type 0 where
  pub provenance : Provenance
  pub budget : ℕ
  pub signals : List (List ℕ)
  pub refs : List GeneRef
  pub injected_at : F

pub record Adoption (F : Type 0) : Type 0 where
  pub version : ℕ
  pub used_at : F

pub record AttemptContext : Type 0 where
  pub attempt : AttemptId
  pub signals : List (List ℕ)

-- The tables, and the contexts that the instances hold in memory. The keys: gene and version; run
-- and attempt; the same and the gene; instance and agent.
pub record Cache (F : Type 0) : Type 0 where
  pub genes : Table (ℕ × ℕ) Gene
  pub states : Table (ℕ × ℕ) (GeneState F)
  pub batches : Table (ℕ × AttemptId) (InjectionBatch F)
  pub adoptions : Table ((ℕ × AttemptId) × ℕ) (Adoption F)
  pub contexts : Table (ℕ × AgentId) AttemptContext

abbrev pub empty : {F : Type 0} → Cache F
empty = record { genes = []; states = []; batches = []; adoptions = []; contexts = [] }

infixl 5 ◌>>=◌
unfoldable pub ◌>>=◌ : {A B : Type 0} → Tried A → (A → Tried B) → Tried B
Tried.done a >>= k = k a
Tried.failed e >>= k = Tried.failed e

-- `_transaction`: what is returned is committed; an exception leaves the tables as they were.
unfoldable pub commit : {F A : Type 0} → Cache F → Tried (A × Cache F) → Tried A × Cache F
commit s (Tried.done r) = (Tried.done r.0, r.1)
commit s (Tried.failed e) = (Tried.failed e, s)

abbrev pub or_raise : {A : Type 0} → Raised → Option A → Tried A
or_raise e none = Tried.failed e
or_raise e (some a) = Tried.done a

module _ {F : Type 0} (ops : Seconds F) where
  -- `exponential_decay`
  unfoldable pub exponential_decay : F → F → Tried F
  exponential_decay elapsed tau =
      if not (ops.is_finite elapsed) || ops.less elapsed ops.zero_point
      then Tried.failed Raised.value_error
      else if not (ops.is_finite tau) || not (ops.less ops.zero_point tau)
      then Tried.failed Raised.value_error
      else Tried.done (ops.exp_ratio elapsed tau)

  -- `_now`, of the clock's reading; `decay_weights` tests its argument the same way
  unfoldable pub checked_now : F → Tried F
  checked_now now =
      if not (ops.is_finite now) || ops.less now ops.zero_point
      then Tried.failed Raised.value_error
      else Tried.done now

  abbrev pub evaluated : F → GeneState F → F → GeneState F
  evaluated now s weight = record s { weight = weight; evaluated_at = now }

  abbrev pub weigh : F → GeneState F → Tried F → Tried (GeneState F)
  weigh now s (Tried.failed e) = Tried.failed e
  weigh now s (Tried.done weight) = Tried.done (evaluated now s weight)

  -- `_evaluate`
  unfoldable pub evaluate : F → GeneState F → Tried (GeneState F)
  unfolding exponential_decay
  evaluate now s =
      if ops.less now s.evaluated_at
      then Tried.failed Raised.value_error
      else weigh now s (exponential_decay (ops.minus now s.anchor_at) s.tau_seconds)
