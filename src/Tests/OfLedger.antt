-- ===== src/Tests/OfLedger.antt =====
-- Each theorem of the ledger, the breaker, the budget and the fault file applied at small inputs.
use morphogenesis.Base.{ℕ, ◌≤◌, ◌≡◌, ◌≢◌, refl, true, false, none, some, some_inj, [], ◌∷◌, arith}
use morphogenesis.Ledger.Types.{Status, Lease, TaskRow}
use morphogenesis.Ledger.Monad.{State, Error, raised}
use morphogenesis.Ledger.Store.{find_task, owned}
use morphogenesis.Ledger.Eligible.{overlap, dependencies_done}
use morphogenesis.Ledger.Call.{Call}
use morphogenesis.Ledger.Runs.{run, run-Step, Reach}
use morphogenesis.Ledger.Lifecycle.{Step}
use morphogenesis.Ledger.Lapsed.{IsNowAtLeast, IsMonotone, IsStranded, unconfirmed_never_reclaimed}
use morphogenesis.Ledger.Settled.{IsPast, settled_forever, stale_lease_refused}
use morphogenesis.Ledger.Inert.{Inert, stale_lease-Inert}
use morphogenesis.Ledger.Exclusion.{mutual_exclusion}
use morphogenesis.Ledger.Attempts.{attempts_counted}
use morphogenesis.Ledger.Ordering.{dependencies_first}
use morphogenesis.Ledger.Scopes.{path_text, scopes_collide, overlap-scopes_collide, overlap_root}
use morphogenesis.Tests.Samples.{
  limits, sample_env, kind_id, everywhere, fresh, two_claimed, two_claimed-Reach, claimed_row,
  first_found, second_found, readings_test,
}

monotone : IsMonotone sample_env
monotone i j a b h e f = let x = some_inj e in let y = some_inj f in omega arith

no_letter : ◌≢◌ {A = ℕ} 97 47
no_letter h = omega arith

mutual_exclusion_example :
    overlap 47 (claimed_row 1 97 20 0 7).scope (claimed_row 2 98 21 3 10).scope ≡ false
mutual_exclusion_example =
    mutual_exclusion sample_env kind_id 0 0 two_claimed monotone two_claimed-Reach 50 50
      (rw readings_test (omega arith)) refl 1 2 (claimed_row 1 97 20 0 7) (claimed_row 2 98 21 3 10)
      (λ h. omega arith) first_found second_found refl refl

-- The first task, claimed for the second time.
abbrev retried : State
retried = record fresh { tasks = record (claimed_row 1 97 20 0 7) { token = 2; attempts = 2 } ∷ [] }

abbrev old_lease : Lease
old_lease = record {
  task_id = 1;
  swarm_id = 7;
  scope = 47 ∷ 119 ∷ 47 ∷ 97 ∷ [];
  worker_id = 20;
  token = 1;
  expires_at = 507;
}

retried-IsPast : IsPast 1 1 retried
retried-IsPast = record {
  row = record (claimed_row 1 97 20 0 7) { token = 2; attempts = 2 };
  found = refl;
  past = omega arith;
}

abbrev after_failure : State
after_failure = run sample_env kind_id (Call.record_condition_failure 1) retried

stale_lease_refused_example :
    owned sample_env false old_lease after_failure ≡ (raised Error.lease_lost, after_failure)
stale_lease_refused_example =
    stale_lease_refused sample_env kind_id retried after_failure old_lease false retried-IsPast
      (Reach.next Reach.here (Call.record_condition_failure 1))

stale_lease-Inert_example : Inert sample_env old_lease after_failure
stale_lease-Inert_example =
    stale_lease-Inert sample_env kind_id retried after_failure old_lease retried-IsPast
      (Reach.next Reach.here (Call.record_condition_failure 1))

-- The first task, whose request was sent under a lease that ended at 60.
abbrev sent_row : TaskRow
sent_row = record (claimed_row 1 97 20 0 7) { expiry = some 60; unconfirmed_request_id = some 900 }

abbrev sent : State
sent = record fresh { tasks = sent_row ∷ []; readings = 60 }

sent-IsStranded : IsStranded 60 1 900 1 sent
sent-IsStranded = record {
  row = sent_row;
  found = refl;
  unconfirmed = refl;
  token = refl;
  lapsed = λ until e. let x = some_inj e in omega arith;
}

sent_now : IsNowAtLeast sample_env 60 sent
sent_now i u h e = let x = some_inj e in omega arith

abbrev after_claim : State
after_claim = run sample_env kind_id (Call.claim 1 21 500 everywhere) sent

unconfirmed_never_reclaimed_example :
    (r : TaskRow) × (find_task 1 after_claim.tasks ≡ some r)
    × (r.unconfirmed_request_id ≡ some 900)
    × (r.token ≡ 1)
unconfirmed_never_reclaimed_example =
    unconfirmed_never_reclaimed sample_env kind_id sent after_claim 60 1 900 1 sent_now
      sent-IsStranded (Reach.next Reach.here (Call.claim 1 21 500 everywhere))

run-Step_example :
    Step sample_env two_claimed
      (run sample_env kind_id (Call.record_condition_failure 1) two_claimed)
run-Step_example = run-Step sample_env kind_id (Call.record_condition_failure 1) two_claimed

dependencies_first_example : dependencies_done two_claimed.tasks two_claimed.dependencies 1 ≡ true
dependencies_first_example =
    dependencies_first sample_env kind_id 0 0 two_claimed 1 (claimed_row 1 97 20 0 7)
      two_claimed-Reach first_found (omega arith)

abbrev done_row : TaskRow
done_row = record (claimed_row 1 97 20 0 7) {
  status = Status.completed;
  owner = none;
  expiry = none;
}

abbrev done : State
done = record fresh { tasks = done_row ∷ [] }

settled_forever_example :
    find_task 1 (run sample_env kind_id (Call.claim 1 21 500 everywhere) done).tasks ≡ some done_row
settled_forever_example =
    settled_forever sample_env kind_id done
      (run sample_env kind_id (Call.claim 1 21 500 everywhere) done) 1 done_row refl refl
      (Reach.next Reach.here (Call.claim 1 21 500 everywhere))

attempts_counted_example :
    ((claimed_row 1 97 20 0 7).attempts ≡ (claimed_row 1 97 20 0 7).token)
    × ((claimed_row 1 97 20 0 7).attempts ≤ limits.max_attempts_per_task)
attempts_counted_example =
    attempts_counted sample_env kind_id 0 0 two_claimed 1 (claimed_row 1 97 20 0 7)
      two_claimed-Reach first_found

overlap-scopes_collide_example :
    overlap 47 (path_text 47 ((97 ∷ []) ∷ [])) (path_text 47 ((97 ∷ []) ∷ (97 ∷ []) ∷ []))
    ≡ scopes_collide ((97 ∷ []) ∷ []) ((97 ∷ []) ∷ (97 ∷ []) ∷ [])
overlap-scopes_collide_example =
    overlap-scopes_collide 47 (97 ∷ []) (97 ∷ []) [] ((97 ∷ []) ∷ []) ((no_letter, _), _)
      ((no_letter, _), ((no_letter, _), _))

overlap_root_example :
    (overlap 47 (path_text 47 []) (path_text 47 ((97 ∷ []) ∷ [])) ≡ false)
    × (scopes_collide [] ((97 ∷ []) ∷ []) ≡ true)
overlap_root_example = overlap_root 47 97 [] [] no_letter
