-- ===== src/Ledger/Manager.antt =====
-- swarm/lease.py: `LeaseManager`, a facade of the ledger.
use morphogenesis.Base.{ℕ, Bool, Option, List}
use morphogenesis.Ledger.Types.{Lease}
use morphogenesis.Ledger.Monad.{Env, Action}
use morphogenesis.Ledger.Store.{TaskRecord}
use morphogenesis.Ledger.Eligible.{Locality}
use morphogenesis.Ledger.Claim.{claim}
use morphogenesis.Ledger.Leases
use morphogenesis.Ledger.Publish
use morphogenesis.Ledger.Publish.{Apply}
use morphogenesis.Ledger.Listings.{leases}

module _ (env : Env) where
  abbrev pub acquire : ℕ → ℕ → ℕ → Locality → Action (Option Lease)
  acquire task_id worker_id ttl locality = claim env task_id worker_id ttl locality

  abbrev pub renew : Lease → ℕ → Action (Option Lease)
  renew lease ttl = Leases.renew env lease ttl

  abbrev pub release : Lease → Action Bool
  release lease = Leases.release env lease

  abbrev pub handoff : Lease → ℕ → Option ℕ → Action TaskRecord
  handoff lease next partial = Leases.handoff env lease next partial

  abbrev pub is_valid : Lease → Action Bool
  is_valid lease = Leases.is_valid env lease

  abbrev pub submit : Lease → ℕ → ℕ → Option Apply → Action TaskRecord
  submit lease result_id result apply = Publish.submit env lease result_id result apply

  abbrev pub snapshot : Action (List Lease)
  snapshot = leases env
