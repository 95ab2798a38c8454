-- ===== src/Persistence/Store.antt =====
-- `SQLiteStore`: its tables and every method. A body in JSON is the value that it encodes; a value
-- is validated again before it is written, and a `ValidationError` is a `ValueError`.
use morphogenesis.Base.{
  ℕ, ⊤, Bool, true, false, not, ◌&&◌, ◌||◌, ◌==◌, ltb, leb, Option, none, some, List, [], ◌∷◌,
  if◌then◌else◌, map, where_rows,
}
use morphogenesis.Equality.{Eq, nat_eq, option_eq, pair_eq}
use morphogenesis.Table.{Row, Table, get, add, merge, change}
use morphogenesis.Contracts.{AttemptId, Raised, Tried}
use morphogenesis.Contracts.Results.{TaskResult, validate_result}
use morphogenesis.Contracts.Messages.{
  Envelope, facts, facts_equality, validate_lineage, GeneRef, Gene, gene_equality, Provision,
  validate_members, provision_equality, attempt_equality, agent_equality, role_equality,
}

pub record EventRow : Type 0 where
  pub seq : ℕ
  pub body : Envelope
  pub handled : Bool

-- Keys: run and message; run and attempt; gene and version; run and provision.
pub record Stored : Type 0 where
  pub events : Table (ℕ × ℕ) EventRow
  pub results : Table (ℕ × AttemptId) TaskResult
  pub genes : Table (ℕ × ℕ) Gene
  pub provisions : Table (ℕ × ℕ) Provision

-- A new file.
abbrev pub opened : Stored
opened = record { events = []; results = []; genes = []; provisions = [] }

-- An IntegrityError means that the key is there.
unfoldable pub append_over :
    Envelope → Option EventRow → Table (ℕ × ℕ) EventRow → Tried Bool × Table (ℕ × ℕ) EventRow
append_over e none rows = (
  Tried.done true,
  add (e.run_id, e.msg_id) (record { seq = e.seq; body = e; handled = e.handled }) rows,
)
append_over e (some row) rows =
    if not (facts_equality.same (facts row.body) (facts e))
    then (Tried.failed Raised.value_error, rows)
    else (Tried.done false, rows)

unfoldable pub append_row : Envelope → Table (ℕ × ℕ) EventRow → Tried Bool × Table (ℕ × ℕ) EventRow
unfolding append_over
append_row e rows =
    if not (validate_lineage e)
    then (Tried.failed Raised.value_error, rows)
    else append_over e (get (e.run_id, e.msg_id) rows) rows

-- `append_event`
abbrev pub append_event : Envelope → Stored → Tried Bool × Stored
append_event e s =
    let (answer, rows) = append_row e s.events in (answer, record s { events = rows })

abbrev pub earlier : Row (ℕ × ℕ) EventRow → Row (ℕ × ℕ) EventRow → Bool
earlier a b = ltb a.value.seq b.value.seq || (a.value.seq == b.value.seq && leb a.key.1 b.key.1)

-- `ORDER BY seq, msg_id`
abbrev pub insert_event : Row (ℕ × ℕ) EventRow → Table (ℕ × ℕ) EventRow → Table (ℕ × ℕ) EventRow
insert_event r [] = r ∷ []
insert_event r (x ∷ xs) =
    let rest = insert_event r xs in if earlier r x then r ∷ x ∷ xs else x ∷ rest

abbrev pub by_seq : Table (ℕ × ℕ) EventRow → Table (ℕ × ℕ) EventRow
by_seq [] = []
by_seq (x ∷ xs) = insert_event x (by_seq xs)

abbrev pub delivered : Row (ℕ × ℕ) EventRow → Envelope
delivered r = record r.value.body { handled = r.value.handled }

-- `events`
unfoldable pub events : ℕ → Stored → List Envelope
events run_id s = map delivered (by_seq (where_rows (λ r. r.key.0 == run_id) s.events))

unfoldable pub mark_over :
    ℕ × ℕ → Option EventRow → Table (ℕ × ℕ) EventRow → Tried ⊤ × Table (ℕ × ℕ) EventRow
mark_over key none rows = (Tried.failed Raised.key_error, rows)
mark_over key (some row) rows = (Tried.done tt, change key (λ r. record r { handled = true }) rows)

-- `mark_handled`
abbrev pub mark_handled : ℕ → ℕ → Stored → Tried ⊤ × Stored
mark_handled run_id msg_id s =
    let (answer, rows) = mark_over (run_id, msg_id) (get (run_id, msg_id) s.events) s.events in
    (answer, record s { events = rows })

abbrev pub result_key : TaskResult → ℕ × AttemptId
result_key r =
    (r.run_id, record { task_id = r.task_id; agent = r.attempt.agent; attempt = r.attempt.attempt })

unfoldable pub result_rows :
    TaskResult → Table (ℕ × AttemptId) TaskResult → Tried ⊤ × Table (ℕ × AttemptId) TaskResult
result_rows r rows =
    if not (validate_result r)
    then (Tried.failed Raised.value_error, rows)
    else (Tried.done tt, merge (result_key r) r rows)

-- `save_result`
abbrev pub save_result : TaskResult → Stored → Tried ⊤ × Stored
save_result r s =
    let (answer, rows) = result_rows r s.results in (answer, record s { results = rows })

-- `get_result`
abbrev pub get_result : ℕ → AttemptId → Stored → Option TaskResult
get_result run_id attempt s = get (run_id, attempt) s.results

-- The rows of a value that never changes under its key: `save_gene` and `save_provision`.
unfoldable pub save_over :
    {V : Type 0} ⦃e : Eq V⦄ → ℕ × ℕ → V → Option V → Table (ℕ × ℕ) V → Tried ⊤ × Table (ℕ × ℕ) V
save_over ⦃e⦄ key v (some old) rows =
    if not (e.same old v) then (Tried.failed Raised.value_error, rows) else (Tried.done tt, rows)
save_over ⦃e⦄ key v none rows = (Tried.done tt, add key v rows)

-- `save_gene`
abbrev pub save_gene : Gene → Stored → Tried ⊤ × Stored
save_gene g s =
    let key : ℕ × ℕ = (g.ref.gene_id, g.ref.version) in
    let (answer, rows) = save_over key g (get key s.genes) s.genes in
    (answer, record s { genes = rows })

abbrev pub asset_matches : Option ℕ → Option ℕ → Bool
asset_matches none stored = true
asset_matches (some a) stored = option_eq.same (some a) stored

unfoldable pub read_gene : GeneRef → Option Gene → Tried (Option Gene)
read_gene ref none = Tried.done none
read_gene ref (some g) =
    if not (asset_matches ref.asset_id g.ref.asset_id)
    then Tried.failed Raised.value_error
    else Tried.done (some g)

-- `get_gene`
abbrev pub get_gene : GeneRef → Stored → Tried (Option Gene)
get_gene ref s = read_gene ref (get (ref.gene_id, ref.version) s.genes)

unfoldable pub provision_rows :
    Provision → Table (ℕ × ℕ) Provision → Tried ⊤ × Table (ℕ × ℕ) Provision
unfolding save_over
provision_rows p rows =
    if not (validate_members p)
    then (Tried.failed Raised.value_error, rows)
    else save_over (p.run_id, p.provision_id) p (get (p.run_id, p.provision_id) rows) rows

-- `save_provision`
abbrev pub save_provision : Provision → Stored → Tried ⊤ × Stored
save_provision p s =
    let (answer, rows) = provision_rows p s.provisions in (answer, record s { provisions = rows })

-- `get_provision`
abbrev pub get_provision : ℕ → ℕ → Stored → Option Provision
get_provision run_id provision_id s = get (run_id, provision_id) s.provisions
