-- ===== src/Tests/OfCache.antt =====
-- The theorems of the cache applied to one gene that is injected, used and archived.
use morphogenesis.Base.{ℕ, ◌-◌, ◌*◌, ◌≡◌, refl, true, none, some, List, [], ◌∷◌, ltb, if◌then◌else◌}
use morphogenesis.Table.{get}
use morphogenesis.Equality.{nat_eq, pair_eq}
use morphogenesis.Contracts.{Role, AgentId, AttemptId, Raised, Tried}
use morphogenesis.Contracts.Results.{Provenance}
use morphogenesis.Contracts.Messages.{Gene}
use morphogenesis.Metabolism.Types.{
  Seconds, Config, GeneState, Cache, empty, ◌>>=◌, commit, checked_now, exponential_decay, evaluate,
}
use morphogenesis.Metabolism.Signals.{Texts, folded, bound, applicable}
use morphogenesis.Metabolism.Cache.{
  ref_key, body, resolve_in, ingest_over, ingest, use_ref, use_batch, mark_used, evaluate_where,
  decay_weights, archive, bind_attempt,
}
use morphogenesis.Metabolism.Injecting.{active, precedes, choose, inject_first, inject_over, inject}
use morphogenesis.Metabolism.Runs.{CacheCall, run_cache, run_caches}
use morphogenesis.Metabolism.Archived.{archived_forever}
use morphogenesis.Metabolism.Uses.{uses_of, adoptions_of, uses_counted}
use morphogenesis.Metabolism.Once.{mark_used_once}

-- Whole seconds; a weight is 1 until tau has passed, and 0 from then on.
abbrev seconds : Seconds ℕ
seconds = record {
  zero_point = 0;
  one_point = 1;
  is_finite = λ x. true;
  less = λ a b. ltb a b;
  minus = λ a b. a - b;
  times = λ a b. a * b;
  exp_ratio = λ a b. if ltb a b then 1 else 0;
}

abbrev plain : Texts
plain = record { strip = λ s. s; casefold = λ s. s }

abbrev find_first : List Gene → List ℕ → Tried (List (ℕ × ℕ))
find_first genes query = Tried.done ((0, 1) ∷ [])

abbrev config : Config ℕ
config = record {
  instance_id = 1;
  run_id = 1;
  provenance = Provenance.live;
  tau_seconds = 10;
  archive_threshold = 1;
}

abbrev builder : AgentId
builder = record { role = Role.builder; instance_number = 1 }

abbrev attempt : AttemptId
attempt = record { task_id = 3; agent = builder; attempt = 0 }

abbrev gene : Gene
gene = record {
  ref = record { gene_id = 5; version = 1; asset_id = none };
  signals_match = [];
  strategy = 8 ∷ [];
  avoid = [];
  verification = [];
  provenance = Provenance.live;
  source_attempt = none;
}

abbrev start : List (Config ℕ × CacheCall ℕ)
start =
    (config, CacheCall.ingests gene none 0)
    ∷ (config, CacheCall.binds attempt [])
    ∷ (config, CacheCall.injects builder 1 1)
    ∷ []

abbrev injected : Cache ℕ
injected = run_caches seconds plain find_first start empty

abbrev later : List (Config ℕ × CacheCall ℕ)
later = (config, CacheCall.decays 20) ∷ (config, CacheCall.archives 50) ∷ []

used_test : (mark_used seconds config 5 attempt 2 injected).0 ≡ Tried.done tt
unfolding run_caches run_cache ingest ingest_over bind_attempt bound folded inject inject_over
    inject_first active choose precedes applicable evaluate_where evaluate exponential_decay
    checked_now commit ◌>>=◌ resolve_in body mark_used use_batch use_ref
used_test = refl

mark_used_once_example :
    mark_used seconds config 5 attempt 60
      (run_caches seconds plain find_first later (mark_used seconds config 5 attempt 2 injected).1)
    ≡ (
      Tried.done tt,
      run_caches seconds plain find_first later (mark_used seconds config 5 attempt 2 injected).1,
    )
mark_used_once_example =
    mark_used_once seconds plain find_first later config 5 attempt 2 60 injected used_test

uses_counted_example :
    uses_of (get (5, 1) (run_caches seconds plain find_first start empty).states)
    ≡ adoptions_of (5, 1) (run_caches seconds plain find_first start empty).adoptions
uses_counted_example = uses_counted seconds plain find_first start (5, 1)

abbrev buried_state : GeneState ℕ
buried_state = record {
  ref = record { gene_id = 5; version = 1; asset_id = none };
  provenance = Provenance.live;
  original_run_uri = none;
  source_attempt = none;
  created_at = 0;
  anchor_at = 0;
  evaluated_at = 50;
  tau_seconds = 10;
  weight = 0;
  use_count = 0;
  archived_at = some 50;
}

abbrev buried : Cache ℕ
buried = run_caches seconds plain find_first later injected

buried_test : get (5, 1) buried.states ≡ some buried_state
unfolding run_caches run_cache ingest ingest_over bind_attempt bound folded inject inject_over
    inject_first active choose precedes applicable evaluate_where evaluate exponential_decay
    checked_now commit ◌>>=◌ resolve_in body decay_weights archive
buried_test = refl

archived_forever_example :
    (get (ref_key gene.ref) (run_caches seconds plain find_first start buried).states
      ≡ some buried_state)
    × (resolve_in config gene.ref (run_caches seconds plain find_first start buried)
        ≡ Tried.failed Raised.key_error)
    × (ingest seconds config gene none 70 (run_caches seconds plain find_first start buried)
        ≡ (Tried.failed Raised.value_error, run_caches seconds plain find_first start buried))
archived_forever_example =
    archived_forever seconds plain find_first start config gene none 70 50 buried buried_state
      buried_test refl
