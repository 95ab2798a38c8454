-- ===== src/Tests/OfRecords.antt =====
-- The theorems of the store applied to one result, one gene and one event.
use morphogenesis.Base.{ℕ, ◌≡◌, refl, Bool, true, false, none, some, List, [], ◌∷◌}
use morphogenesis.Contracts.{Role, AgentId, AttemptId, Tried}
use morphogenesis.Contracts.Results.{
  Provenance, CheckState, TaskStatus, TaskResult, validate_evidence, validate_pass, validate_result,
  Accepted,
}
use morphogenesis.Contracts.Messages.{MsgType, Envelope, facts, Gene}
use morphogenesis.Persistence.Store.{
  opened, append_over, append_row, append_event, result_rows, save_result, get_result, save_over,
  save_gene, get_gene,
}
use morphogenesis.Persistence.Runs.{StoreCall, run_store, run_stores}
use morphogenesis.Persistence.Kept.{again, redelivered, save_gene-get_gene, append_event_once}
use morphogenesis.Persistence.Evidence.{get_result-Accepted, save_result-get_result}

abbrev builder : AgentId
builder = record { role = Role.builder; instance_number = 1 }

abbrev reviewer : AgentId
reviewer = record { role = Role.reviewer; instance_number = 2 }

abbrev attempt : ℕ → AttemptId
attempt n = record { task_id = 3; agent = builder; attempt = n }

abbrev accepted : ℕ → TaskResult
accepted n = record {
  run_id = 1;
  task_id = 3;
  attempt = attempt n;
  status = TaskStatus.succeeded;
  verdict = record {
    passed = some true;
    reviewer = some reviewer;
    evidence = 8 ∷ [];
    command = [];
    exit_code = some 0;
    summary = 4;
  };
  artifact_uri = some 6;
  provenance = Provenance.live;
  original_run_uri = none;
  acceptance = record {
    contract_local = CheckState.passed;
    interface_live = CheckState.passed;
    task_live = CheckState.passed;
    provenance = Provenance.live;
    original_run_uri = none;
  };
  usage = 0;
}

save_test : (save_result (accepted 0) opened).0 ≡ Tried.done tt
unfolding result_rows validate_result validate_evidence validate_pass
save_test = refl

read_test :
    get_result 1 (attempt 0) (run_stores (StoreCall.saves_result (accepted 0) ∷ []) opened)
    ≡ some (accepted 0)
unfolding run_stores run_store result_rows validate_result validate_evidence validate_pass
read_test = refl

get_result-Accepted_example : Accepted (accepted 0)
get_result-Accepted_example =
    get_result-Accepted (StoreCall.saves_result (accepted 0) ∷ []) 1 (attempt 0) (accepted 0)
      read_test refl

save_result-get_result_example :
    (get_result 1 (attempt 0) (save_result (accepted 0) opened).1 ≡ some (accepted 0))
    × (get_result 1 (attempt 1) (save_result (accepted 0) opened).1
        ≡ get_result 1 (attempt 1) opened)
save_result-get_result_example =
    save_result-get_result (accepted 0) opened 1 (attempt 1) save_test refl

abbrev gene : ℕ → Gene
gene n = record {
  ref = record { gene_id = 5; version = 1; asset_id = some 9 };
  signals_match = [];
  strategy = n ∷ [];
  avoid = [];
  verification = [];
  provenance = Provenance.live;
  source_attempt = some (attempt 0);
}

gene_test : (save_gene (gene 1) opened).0 ≡ Tried.done tt
unfolding save_over
gene_test = refl

abbrev calls : List StoreCall
calls =
    StoreCall.saves_gene (gene 2) ∷ StoreCall.saves_result (accepted 0) ∷ StoreCall.handles 1 7 ∷ []

save_gene-get_gene_example :
    (get_gene (gene 1).ref (run_stores calls (save_gene (gene 1) opened).1)
      ≡ Tried.done (some (gene 1)))
    × (save_gene (gene 2) (run_stores calls (save_gene (gene 1) opened).1)
        ≡ (again (gene 1) (gene 2), run_stores calls (save_gene (gene 1) opened).1))
save_gene-get_gene_example = save_gene-get_gene (gene 1) (gene 2) opened calls gene_test refl refl

abbrev event : Bool → Envelope
event handled = record {
  run_id = 1;
  msg_id = 7;
  msg_type = MsgType.result;
  sender = builder;
  receiver = none;
  task_id = 3;
  attempt = attempt 0;
  artifact_uri = none;
  seq = 1;
  handled = handled;
  provenance = Provenance.live;
  original_run_uri = none;
  ts = 10;
  payload = 0;
}

event_test : (append_event (event false) opened).0 ≡ Tried.done true
unfolding append_row append_over
event_test = refl

append_event_once_example :
    append_event (event true) (run_stores calls (append_event (event false) opened).1) ≡ (
      redelivered (facts (event false)) (event true),
      run_stores calls (append_event (event false) opened).1,
    )
append_event_once_example =
    append_event_once (event false) (event true) true opened calls event_test refl refl refl
