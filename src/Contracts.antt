-- ===== src/Contracts.antt =====
-- contracts/identity.py and contracts/messages.py: who works, and on which attempt; and what the
-- floating-point numbers of the repository are used for.
pub mod Results
pub mod Messages
use morphogenesis.Base.{ℕ, ◌≡◌, refl, Bool, true, false, ◌&&◌, ◌==◌, ==→≡, arith}

pub data Role : Type 0 where
  planner builder reviewer aggregator : Role

pub record AgentId : Type 0 where
  pub role : Role
  pub instance_number : ℕ

pub record AttemptId : Type 0 where
  pub task_id : ℕ
  pub agent : AgentId
  pub attempt : ℕ

-- ValueError, KeyError, IndexError, or what the call returns.
pub data Raised : Type 0 where
  value_error key_error index_error : Raised

pub data Tried (A : Type 0) : Type 0 where
  done : A → Tried A
  failed : Raised → Tried A

-- The operations on floating-point numbers that the code calls, and their comparison.
pub record Floats (F : Type 0) : Type 0 where
  pub zero_point : F
  pub one_point : F
  pub below_zero : F
  pub add : F → F → F
  pub minus : F → F → F
  pub times : F → F → F
  pub less : F → F → Bool

abbrev pub role_eq : Role → Role → Bool
role_eq Role.planner Role.planner = true
role_eq Role.builder Role.builder = true
role_eq Role.reviewer Role.reviewer = true
role_eq Role.aggregator Role.aggregator = true
role_eq _ _ = false

abbrev pub agent_eq : AgentId → AgentId → Bool
agent_eq a b = role_eq a.role b.role && a.instance_number == b.instance_number

abbrev pub attempt_eq : AttemptId → AttemptId → Bool
attempt_eq a b = a.task_id == b.task_id && (agent_eq a.agent b.agent && a.attempt == b.attempt)

pub role_eq_refl : (r : Role) → role_eq r r ≡ true
role_eq_refl Role.planner = refl
role_eq_refl Role.builder = refl
role_eq_refl Role.reviewer = refl
role_eq_refl Role.aggregator = refl

pub ==_refl : (n : ℕ) → (n == n) ≡ true
==_refl n = ground arith

pub agent_eq_refl : (a : AgentId) → agent_eq a a ≡ true
agent_eq_refl a = rw (role_eq_refl a.role, ==_refl a.instance_number) refl

pub attempt_eq_refl : (a : AttemptId) → attempt_eq a a ≡ true
attempt_eq_refl a = rw (==_refl a.task_id, agent_eq_refl a.agent, ==_refl a.attempt) refl

role_eq→≡ : (a b : Role) → role_eq a b ≡ true → a ≡ b
role_eq→≡ Role.planner Role.planner h = refl
role_eq→≡ Role.planner Role.builder h = cc
role_eq→≡ Role.planner Role.reviewer h = cc
role_eq→≡ Role.planner Role.aggregator h = cc
role_eq→≡ Role.builder Role.planner h = cc
role_eq→≡ Role.builder Role.builder h = refl
role_eq→≡ Role.builder Role.reviewer h = cc
role_eq→≡ Role.builder Role.aggregator h = cc
role_eq→≡ Role.reviewer Role.planner h = cc
role_eq→≡ Role.reviewer Role.builder h = cc
role_eq→≡ Role.reviewer Role.reviewer h = refl
role_eq→≡ Role.reviewer Role.aggregator h = cc
role_eq→≡ Role.aggregator Role.planner h = cc
role_eq→≡ Role.aggregator Role.builder h = cc
role_eq→≡ Role.aggregator Role.reviewer h = cc
role_eq→≡ Role.aggregator Role.aggregator h = refl

pub agent_eq→≡ : (a b : AgentId) → agent_eq a b ≡ true → a ≡ b
agent_eq→≡ a b h =
    let r : a.role ≡ b.role = role_eq→≡ _ _ (ground arith) in
    let n : a.instance_number ≡ b.instance_number = ==→≡ _ _ (ground arith) in
    λ i. record { role = r i; instance_number = n i }
