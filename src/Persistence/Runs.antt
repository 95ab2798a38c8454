-- ===== src/Persistence/Runs.antt =====
-- Any sequence of the calls that write to a store.
use morphogenesis.Base.{ℕ, List, [], ◌∷◌}
use morphogenesis.Contracts.Results.{TaskResult}
use morphogenesis.Contracts.Messages.{Envelope, Gene, Provision}
use morphogenesis.Persistence.Store.{
  Stored, append_event, mark_handled, save_result, save_gene, save_provision,
}

pub data StoreCall : Type 0 where
  appends : Envelope → StoreCall
  handles : (run_id msg_id : ℕ) → StoreCall
  saves_result : TaskResult → StoreCall
  saves_gene : Gene → StoreCall
  saves_provision : Provision → StoreCall

-- The store after a call, whether it returns or raises, and after several.
unfoldable pub run_store : StoreCall → Stored → Stored
run_store (StoreCall.appends e) s = (append_event e s).1
run_store (StoreCall.handles run_id msg_id) s = (mark_handled run_id msg_id s).1
run_store (StoreCall.saves_result r) s = (save_result r s).1
run_store (StoreCall.saves_gene g) s = (save_gene g s).1
run_store (StoreCall.saves_provision p) s = (save_provision p s).1

unfoldable pub run_stores : List StoreCall → Stored → Stored
run_stores [] s = s
run_stores (c ∷ cs) s = run_stores cs (run_store c s)
