-- ===== src/Contracts/Results.antt =====
-- contracts/provenance.py and contracts/results.py: the evidence that a result carries, and the
-- validators that run whenever a model is built from data.
use morphogenesis.Base.{
  ⊤, ℕ, ◌≡◌, refl, sym, ap, ◌∙◌, Bool, true, false, not, ◌&&◌, ◌||◌, ◌==◌, ==→≡, Option, none, some,
  List, [], ◌∷◌, same, arith,
}
use morphogenesis.Contracts.{AgentId, AttemptId, agent_eq}

pub data Provenance : Type 0 where
  live replay mock : Provenance

pub data CheckState : Type 0 where
  not_run passed failed blocked : CheckState

pub data TaskStatus : Type 0 where
  succeeded failed interrupted pending_review insufficient_evidence : TaskStatus

abbrev pub is_live : Provenance → Bool
is_live Provenance.live = true
is_live _ = false

abbrev pub is_replay : Provenance → Bool
is_replay Provenance.replay = true
is_replay _ = false

abbrev pub provenance_eq : Provenance → Provenance → Bool
provenance_eq Provenance.live Provenance.live = true
provenance_eq Provenance.replay Provenance.replay = true
provenance_eq Provenance.mock Provenance.mock = true
provenance_eq _ _ = false

abbrev pub is_passed : CheckState → Bool
is_passed CheckState.passed = true
is_passed _ = false

abbrev pub is_succeeded : TaskStatus → Bool
is_succeeded TaskStatus.succeeded = true
is_succeeded _ = false

-- `not text`, for an optional text
abbrev pub is_blank : Option ℕ → Bool
is_blank none = true
is_blank (some t) = t == 0

abbrev pub is_empty : List ℕ → Bool
is_empty [] = true
is_empty (x ∷ xs) = false

-- `Acceptance`
pub record Acceptance : Type 0 where
  pub contract_local : CheckState
  pub interface_live : CheckState
  pub task_live : CheckState
  pub provenance : Provenance
  pub original_run_uri : Option ℕ

-- Every condition of a validator holds, each the negation of one that raises ValueError.
abbrev pub all_true : List Bool → Bool
all_true [] = true
all_true (b ∷ bs) = b && all_true bs

abbrev pub evidence_guards : Acceptance → List Bool
evidence_guards a =
    not (is_replay a.provenance && is_blank a.original_run_uri)
    ∷ not (not (is_live a.provenance) && (is_passed a.interface_live || is_passed a.task_live))
    ∷ []

-- `validate_evidence` returns, and does not raise
unfoldable pub validate_evidence : Acceptance → Bool
validate_evidence a = all_true (evidence_guards a)

-- `Verification`
pub record Verification : Type 0 where
  pub passed : Option Bool
  pub reviewer : Option AgentId
  pub evidence : List ℕ
  pub command : List ℕ
  pub exit_code : Option ℕ
  pub summary : ℕ

abbrev pub is_true : Option Bool → Bool
is_true (some true) = true
is_true _ = false

abbrev pub is_false : Option Bool → Bool
is_false (some false) = true
is_false _ = false

abbrev pub is_missing : Option AgentId → Bool
is_missing none = true
is_missing (some a) = false

abbrev pub verdict_guards : Verification → List Bool
verdict_guards v =
    not (
      is_true v.passed
      && (is_missing v.reviewer || (is_empty v.evidence || not (same v.exit_code (some 0)))))
    ∷ not (is_false v.passed && same v.exit_code (some 0))
    ∷ []

-- `validate_pass` returns
unfoldable pub validate_pass : Verification → Bool
validate_pass v = all_true (verdict_guards v)

-- `TaskResult`; `usage` is only stored
pub record TaskResult : Type 0 where
  pub run_id : ℕ
  pub task_id : ℕ
  pub attempt : AttemptId
  pub status : TaskStatus
  pub verdict : Verification
  pub artifact_uri : Option ℕ
  pub provenance : Provenance
  pub original_run_uri : Option ℕ
  pub acceptance : Acceptance
  pub usage : ℕ

abbrev pub reviewed_by : AgentId → Option AgentId → Bool
reviewed_by agent none = false
reviewed_by agent (some reviewer) = agent_eq reviewer agent

abbrev pub result_guards : TaskResult → List Bool
result_guards r =
    validate_evidence r.acceptance
    ∷ validate_pass r.verdict
    ∷ (r.task_id == r.attempt.task_id)
    ∷ provenance_eq r.acceptance.provenance r.provenance
    ∷ not (is_replay r.provenance && is_blank r.original_run_uri)
    ∷ not (is_replay r.provenance && not (same r.original_run_uri r.acceptance.original_run_uri))
    ∷ not (is_true r.verdict.passed && reviewed_by r.attempt.agent r.verdict.reviewer)
    ∷ not (is_succeeded r.status && (not (is_true r.verdict.passed) || is_blank r.artifact_uri))
    ∷ not (is_passed r.acceptance.task_live && not (is_succeeded r.status))
    ∷ []

-- `validate_result` returns; its parts were validated before it
unfoldable pub validate_result : TaskResult → Bool
validate_result r = all_true (result_guards r)

-- What live acceptance of a task stands for.
pub record Accepted (r : TaskResult) : Type 0 where
  pub live : r.provenance ≡ Provenance.live
  pub succeeded : r.status ≡ TaskStatus.succeeded
  pub verified : r.verdict.passed ≡ some true
  pub reviewer : AgentId
  pub reviewed : r.verdict.reviewer ≡ some reviewer
  pub independent : agent_eq reviewer r.attempt.agent ≡ false
  pub exit_code : r.verdict.exit_code ≡ some 0
  pub evidence : is_empty r.verdict.evidence ≡ false
  pub artifact : is_blank r.artifact_uri ≡ false

is_live→≡ : (p q : Provenance) → is_live p ≡ true → provenance_eq p q ≡ true → q ≡ Provenance.live
is_live→≡ Provenance.live Provenance.live h k = refl
is_live→≡ Provenance.live Provenance.replay h k = cc
is_live→≡ Provenance.live Provenance.mock h k = cc
is_live→≡ Provenance.replay q h k = cc
is_live→≡ Provenance.mock q h k = cc

is_succeeded→≡ : (s : TaskStatus) → is_succeeded s ≡ true → s ≡ TaskStatus.succeeded
is_succeeded→≡ TaskStatus.succeeded h = refl
is_succeeded→≡ TaskStatus.failed h = cc
is_succeeded→≡ TaskStatus.interrupted h = cc
is_succeeded→≡ TaskStatus.pending_review h = cc
is_succeeded→≡ TaskStatus.insufficient_evidence h = cc

is_true→≡ : (o : Option Bool) → is_true o ≡ true → o ≡ some true
is_true→≡ (some true) h = refl
is_true→≡ (some false) h = cc
is_true→≡ none h = cc

reviewer_of : (o : Option AgentId) → is_missing o ≡ false → (a : AgentId) × (o ≡ some a)
reviewer_of none h = cc
reviewer_of (some a) h = (a, refl)

-- A guard that did not raise: its condition is false.
passes : (a b : Bool) → not (a && not b) ≡ true → a ≡ true → b ≡ true
passes a b h k = ground arith

-- Each condition of the list.
abbrev pub Each : List Bool → Type 0
Each [] = ⊤
Each (b ∷ bs) = (b ≡ true) × Each bs

pub all_true-Each : (bs : List Bool) → all_true bs ≡ true → Each bs
all_true-Each [] h = tt
all_true-Each (b ∷ bs) h = (head b (all_true bs) h, all_true-Each bs (last b (all_true bs) h))
  where
    head : (a c : Bool) → (a && c) ≡ true → a ≡ true
    head a c h = ground arith

    last : (a c : Bool) → (a && c) ≡ true → c ≡ true
    last a c h = ground arith

live_of : (a b c : Bool) → not (not a && (b || c)) ≡ true → c ≡ true → a ≡ true
live_of a b c h k = ground arith

part_of_success :
    (a b c : Bool) → not (a && (not b || c)) ≡ true → a ≡ true → (b ≡ true) × (c ≡ false)
part_of_success a b c h k = (ground arith, ground arith)

parts_of_verdict :
    (a b c d : Bool)
    → not (a && (b || (c || not d))) ≡ true
    → a ≡ true
    → (b ≡ false) × (c ≡ false) × (d ≡ true)
parts_of_verdict a b c d h k = (ground arith, ground arith, ground arith)

apart : (a b : Bool) → not (a && b) ≡ true → a ≡ true → b ≡ false
apart a b h k = ground arith

exit_of : (o : Option ℕ) → same o (some 0) ≡ true → o ≡ some 0
exit_of none h = cc
exit_of (some n) h = ap some (==→≡ n 0 h)

pub validate_result-Each : (r : TaskResult) → validate_result r ≡ true → Each (result_guards r)
unfolding validate_result
validate_result-Each r h = all_true-Each (result_guards r) h

pub validate_result-Accepted :
    (r : TaskResult)
    → validate_result r ≡ true
    → is_passed r.acceptance.task_live ≡ true
    → Accepted r
unfolding validate_evidence validate_pass
validate_result-Accepted r h accepted =
    let g = validate_result-Each r h in
    let live_guards = all_true-Each (evidence_guards r.acceptance) g.0 in
    let pass_guards = all_true-Each (verdict_guards r.verdict) g.1.0 in
    let one_source = g.1.1.1.0 in
    let others = g.1.1.1.1.1.1 in
    let success = passes _ _ others.1.1.0 accepted in
    let (verified, artifact) = part_of_success _ _ _ others.1.0 success in
    let (named, evidence, exits) = parts_of_verdict _ _ _ _ pass_guards.0 verified in
    let (reviewer, reviewed) = reviewer_of r.verdict.reviewer named in
    record {
      live =
          is_live→≡ r.acceptance.provenance r.provenance (live_of _ _ _ live_guards.1.0 accepted)
            one_source;
      succeeded = is_succeeded→≡ r.status success;
      verified = is_true→≡ r.verdict.passed verified;
      reviewer = reviewer;
      reviewed = reviewed;
      independent = sym (ap (reviewed_by r.attempt.agent) reviewed) ∙ apart _ _ others.0 verified;
      exit_code = exit_of r.verdict.exit_code exits;
      evidence = evidence;
      artifact = artifact;
    }
