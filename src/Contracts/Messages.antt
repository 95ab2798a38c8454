-- ===== src/Contracts/Messages.antt =====
-- contracts/messages.py, contracts/resolution.py and contracts/runtime.py: envelopes, genes and
-- provisions, with their equality.
use morphogenesis.Base.{
  ℕ, zero, suc, ◌≡◌, refl, Bool, true, not, ◌&&◌, ◌==◌, Option, none, some, List, [], ◌∷◌, leb,
  length, any,
}
use morphogenesis.Equality.{Eq, encoded, nat_eq, bool_eq, option_eq, list_eq, pair_eq}
use morphogenesis.Contracts.{Role, AgentId, AttemptId, agent_eq}
use morphogenesis.Contracts.Results.{Provenance, is_replay, is_blank}

abbrev pub role_code : Role → ℕ
role_code Role.planner = 0
role_code Role.builder = 1
role_code Role.reviewer = 2
role_code Role.aggregator = 3

abbrev pub role_from : ℕ → Role
role_from zero = Role.planner
role_from (suc zero) = Role.builder
role_from (suc (suc zero)) = Role.reviewer
role_from _ = Role.aggregator

pub role_from-role_code : (r : Role) → role_from (role_code r) ≡ r
role_from-role_code Role.planner = refl
role_from-role_code Role.builder = refl
role_from-role_code Role.reviewer = refl
role_from-role_code Role.aggregator = refl

instance abbrev pub role_equality : Eq Role
role_equality = encoded role_code role_from role_from-role_code nat_eq

abbrev pub provenance_code : Provenance → ℕ
provenance_code Provenance.live = 0
provenance_code Provenance.replay = 1
provenance_code Provenance.mock = 2

abbrev pub provenance_from : ℕ → Provenance
provenance_from zero = Provenance.live
provenance_from (suc zero) = Provenance.replay
provenance_from _ = Provenance.mock

pub provenance_from-provenance_code : (p : Provenance) → provenance_from (provenance_code p) ≡ p
provenance_from-provenance_code Provenance.live = refl
provenance_from-provenance_code Provenance.replay = refl
provenance_from-provenance_code Provenance.mock = refl

instance abbrev pub provenance_equality : Eq Provenance
provenance_equality = encoded provenance_code provenance_from provenance_from-provenance_code nat_eq

instance abbrev pub agent_equality : Eq AgentId
agent_equality =
    encoded (λ a. (a.role, a.instance_number)) (λ p. record { role = p.0; instance_number = p.1 })
      (λ a. refl) pair_eq

instance abbrev pub attempt_equality : Eq AttemptId
attempt_equality =
    encoded {B = ℕ × (AgentId × ℕ)} (λ a. (a.task_id, (a.agent, a.attempt)))
      (λ p. record { task_id = p.0; agent = p.1.0; attempt = p.1.1 }) (λ a. refl) pair_eq

pub data MsgType : Type 0 where
  intent result signal : MsgType

abbrev pub msg_code : MsgType → ℕ
msg_code MsgType.intent = 0
msg_code MsgType.result = 1
msg_code MsgType.signal = 2

abbrev pub msg_from : ℕ → MsgType
msg_from zero = MsgType.intent
msg_from (suc zero) = MsgType.result
msg_from _ = MsgType.signal

pub msg_from-msg_code : (t : MsgType) → msg_from (msg_code t) ≡ t
msg_from-msg_code MsgType.intent = refl
msg_from-msg_code MsgType.result = refl
msg_from-msg_code MsgType.signal = refl

instance abbrev pub msg_equality : Eq MsgType
msg_equality = encoded msg_code msg_from msg_from-msg_code nat_eq

-- `Envelope`; a receiver that is none is the literal "broadcast"
pub record Envelope : Type 0 where
  pub run_id : ℕ
  pub msg_id : ℕ
  pub msg_type : MsgType
  pub sender : AgentId
  pub receiver : Option AgentId
  pub task_id : ℕ
  pub attempt : AttemptId
  pub artifact_uri : Option ℕ
  pub seq : ℕ
  pub handled : Bool
  pub provenance : Provenance
  pub original_run_uri : Option ℕ
  pub ts : ℕ
  pub payload : ℕ

-- `validate_lineage` returns
abbrev pub validate_lineage : Envelope → Bool
validate_lineage e =
    e.task_id == e.attempt.task_id && not (is_replay e.provenance && is_blank e.original_run_uri)

-- `event.model_dump(exclude={"handled"})`
abbrev pub Facts : Type 0
Facts =
    ℕ
    × (ℕ
        × (MsgType
            × (AgentId
                × (Option AgentId
                    × (ℕ × (AttemptId × (Option ℕ × (ℕ × (Provenance × (Option ℕ × (ℕ × ℕ)))))))))))

abbrev pub facts : Envelope → Facts
facts e = (
  e.run_id,
  (
    e.msg_id,
    (
      e.msg_type,
      (
        e.sender,
        (
          e.receiver,
          (
            e.task_id,
            (
              e.attempt,
              (e.artifact_uri, (e.seq, (e.provenance, (e.original_run_uri, (e.ts, e.payload))))),
            ),
          ),
        ),
      ),
    ),
  ),
)

instance abbrev pub facts_equality : Eq Facts
facts_equality = pair_eq

-- `GeneRef`
pub record GeneRef : Type 0 where
  pub gene_id : ℕ
  pub version : ℕ
  pub asset_id : Option ℕ

-- `Gene`; a signal is the list of its code points
pub record Gene : Type 0 where
  pub ref : GeneRef
  pub signals_match : List (List ℕ)
  pub strategy : List ℕ
  pub avoid : List ℕ
  pub verification : List ℕ
  pub provenance : Provenance
  pub source_attempt : Option AttemptId

instance abbrev pub ref_equality : Eq GeneRef
ref_equality =
    encoded {B = ℕ × (ℕ × Option ℕ)} (λ r. (r.gene_id, (r.version, r.asset_id)))
      (λ p. record { gene_id = p.0; version = p.1.0; asset_id = p.1.1 }) (λ r. refl) pair_eq

instance abbrev pub gene_equality : Eq Gene
gene_equality =
    encoded
      {B = GeneRef
        × (List (List ℕ) × (List ℕ × (List ℕ × (List ℕ × (Provenance × Option AttemptId)))))}
      (λ g. (
        g.ref,
        (
          g.signals_match,
          (g.strategy, (g.avoid, (g.verification, (g.provenance, g.source_attempt)))),
        ),
      ))
      (λ p. record {
        ref = p.0;
        signals_match = p.1.0;
        strategy = p.1.1.0;
        avoid = p.1.1.1.0;
        verification = p.1.1.1.1.0;
        provenance = p.1.1.1.1.1.0;
        source_attempt = p.1.1.1.1.1.1;
      })
      (λ g. refl) pair_eq

-- `Provision`; its source and its external identities are only compared
pub record Provision : Type 0 where
  pub provision_id : ℕ
  pub run_id : ℕ
  pub source : ℕ
  pub requested : ℕ
  pub members : List AgentId
  pub quota : Option ℕ
  pub provenance : Provenance
  pub external_ids : ℕ

abbrev pub are_unique : List AgentId → Bool
are_unique [] = true
are_unique (a ∷ others) = not (any (λ b. agent_eq a b) others) && are_unique others

abbrev pub within_quota : ℕ → Option ℕ → Bool
within_quota n none = true
within_quota n (some q) = leb n q

-- `validate_members` returns
abbrev pub validate_members : Provision → Bool
validate_members p =
    are_unique p.members
    && (leb (length p.members) p.requested && within_quota (length p.members) p.quota)

instance abbrev pub provision_equality : Eq Provision
provision_equality =
    encoded {B = ℕ × (ℕ × (ℕ × (ℕ × (List AgentId × (Option ℕ × (Provenance × ℕ))))))}
      (λ p. (
        p.provision_id,
        (
          p.run_id,
          (p.source, (p.requested, (p.members, (p.quota, (p.provenance, p.external_ids))))),
        ),
      ))
      (λ p. record {
        provision_id = p.0;
        run_id = p.1.0;
        source = p.1.1.0;
        requested = p.1.1.1.0;
        members = p.1.1.1.1.0;
        quota = p.1.1.1.1.1.0;
        provenance = p.1.1.1.1.1.1.0;
        external_ids = p.1.1.1.1.1.1.1;
      })
      (λ p. refl) pair_eq
