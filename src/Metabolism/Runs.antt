-- ===== src/Metabolism/Runs.antt =====
-- Any sequence of the calls of several instances that share the cache.
use morphogenesis.Base.{ℕ, Option, List, [], ◌∷◌}
use morphogenesis.Contracts.{AgentId, AttemptId, Tried}
use morphogenesis.Contracts.Messages.{Gene}
use morphogenesis.Metabolism.Types.{Seconds, Config, Cache}
use morphogenesis.Metabolism.Signals.{Texts}
use morphogenesis.Metabolism.Cache.{ingest, bind_attempt, mark_used, decay_weights, archive}
use morphogenesis.Metabolism.Injecting.{inject}

-- A call with its arguments and the clock's reading, on an instance.
pub data CacheCall (F : Type 0) : Type 0 where
  ingests : Gene → (original_run_uri : Option ℕ) → (now : F) → CacheCall F
  binds : AttemptId → (signals : List (List ℕ)) → CacheCall F
  injects : AgentId → (budget : ℕ) → (now : F) → CacheCall F
  uses : (gene_id : ℕ) → AttemptId → (now : F) → CacheCall F
  decays : (now : F) → CacheCall F
  archives : (now : F) → CacheCall F

module _ {F : Type 0} (ops : Seconds F) (texts : Texts)
    (search : List Gene → List ℕ → Tried (List (ℕ × F))) where
  -- The cache after a call, whether it returns or raises, and after several.
  unfoldable pub run_cache : Config F → CacheCall F → Cache F → Cache F
  run_cache c (CacheCall.ingests g uri now) s = (ingest ops c g uri now s).1
  run_cache c (CacheCall.binds attempt signals) s = bind_attempt texts c attempt signals s
  run_cache c (CacheCall.injects agent budget now) s =
      (inject ops texts search c agent budget now s).1
  run_cache c (CacheCall.uses gene_id attempt now) s = (mark_used ops c gene_id attempt now s).1
  run_cache c (CacheCall.decays now) s = (decay_weights ops c now s).1
  run_cache c (CacheCall.archives now) s = (archive ops c now s).1

  unfoldable pub run_caches : List (Config F × CacheCall F) → Cache F → Cache F
  run_caches [] s = s
  run_caches (c ∷ cs) s = run_caches cs (run_cache c.0 c.1 s)
