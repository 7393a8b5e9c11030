-- ===== src/Types/Records.antt =====
-- The rows of the store and the records they hold (apps/server/src/types.ts). A timestamp is the
-- number of milliseconds that its ISO text stands for: the texts that `toISOString` writes are
-- ordered as those numbers.
use tik_tok_jam.Base.{ℕ, String, Bool, Option, List}
use tik_tok_jam.Types.Enums.{
  AgentStatus, RunStatus, MessageRole, Scope, Egress, SecurityLevel, Resource, GrantAction, Sandbox,
  Trust, ApprovalSource, ApprovalKind, ApprovalStatus, ApprovalRisk, RunEventKind, Decision,
}

pub record AgentPermissions : Type 0 where
  pub sandbox : Sandbox
  pub network : Bool
  pub web_search : Bool
  pub tools : List Scope

pub record Label : Type 0 where
  pub grant_id : String
  pub origin : String
  pub egress : List Egress
  pub level : SecurityLevel
  pub trust : Trust

pub record FingerprintEntry : Type 0 where
  pub run_id : String
  pub label : Label
  pub hashes : List String

pub record RunToken : Type 0 where
  pub jti : String
  pub run_id : String
  pub agent_id : String
  pub owner_id : String
  pub scp : List Scope
  pub taints : List Label
  pub egress_allow : List String
  pub estimated : List Scope
  pub withheld : List Scope
  pub thread_id : Option String
  pub issued_at : ℕ
  pub expires_at : ℕ
  pub revoked_at : Option ℕ

pub record PolicyGrant : Type 0 where
  pub id : String
  pub from_owner : String
  pub from_agent : Option String
  pub to_agent : String
  pub resource : Resource
  pub actions : List GrantAction
  pub egress : List Egress
  pub trust_content : Bool
  pub created_at : ℕ
  pub expires_at : Option ℕ
  pub revoked_at : Option ℕ

pub record ApprovalEvidence : Type 0 where
  pub user_asked : Option String
  pub attempting : String
  pub outside_task_scope : Bool
  pub untrusted_origin : Option String
  pub classified_origin : Option String

-- The `Pick<PolicyGrant, ...>` that a card carries.
pub record GrantRequest : Type 0 where
  pub from_owner : String
  pub from_agent : Option String
  pub to_agent : String
  pub resource : Resource
  pub actions : List GrantAction
  pub egress : List Egress

pub record ApprovalRequest : Type 0 where
  pub id : String
  pub source : ApprovalSource
  pub kind : ApprovalKind
  pub agent_id : String
  pub owner_id : String
  pub run_id : Option String
  pub jti : Option String
  pub resource : String
  pub action : String
  pub scope : Option Scope
  pub grant : Option GrantRequest
  pub reason : String
  pub risk : ApprovalRisk
  pub evidence : ApprovalEvidence
  pub status : ApprovalStatus
  pub created_at : ℕ
  pub decided_at : Option ℕ
  pub decided_by : Option String

-- The values that the code puts into an event's `detail`.
mutual
  pub data Value : Type 0 where
    null : Value
    bool : Bool → Value
    num : ℕ → Value
    str : String → Value
    arr : Items → Value
    obj : Fields → Value

  pub data Items : Type 0 where
    nil : Items
    cons : Value → Items → Items

  pub data Fields : Type 0 where
    done : Fields
    field : String → Value → Fields → Fields

pub record RunEvent : Type 0 where
  pub id : String
  pub run_id : Option String
  pub agent_id : String
  pub owner_id : String
  pub at : ℕ
  pub kind : RunEventKind
  pub action : String
  pub resource : String
  pub decision : Option Decision
  pub reason : Option String
  pub detail : Value

pub record TempScope : Type 0 where
  pub scope : Scope
  pub expires_at : ℕ

pub record Agent : Type 0 where
  pub id : String
  pub name : String
  pub description : String
  pub instructions : String
  pub owner_id : String
  pub permissions : AgentPermissions
  pub temp_scopes : List TempScope
  pub status : AgentStatus
  pub workspace_path : String
  pub codex_thread_id : Option String
  pub last_error : Option String
  pub created_at : ℕ
  pub updated_at : ℕ

pub record Message : Type 0 where
  pub id : String
  pub agent_id : String
  pub run_id : String
  pub role : MessageRole
  pub content : String
  pub created_at : ℕ

pub record RunUsage : Type 0 where
  pub input_tokens : Option ℕ
  pub cached_input_tokens : Option ℕ
  pub output_tokens : Option ℕ

pub record AgentRun : Type 0 where
  pub id : String
  pub agent_id : String
  pub status : RunStatus
  pub prompt : String
  pub output : Option String
  pub error : Option String
  pub usage : Option RunUsage
  pub started_at : Option ℕ
  pub completed_at : Option ℕ
  pub created_at : ℕ

pub record Database : Type 0 where
  pub agents : List Agent
  pub messages : List Message
  pub runs : List AgentRun
  pub run_tokens : List RunToken
  pub policy_grants : List PolicyGrant
  pub approvals : List ApprovalRequest
  pub run_events : List RunEvent
  pub fingerprints : List FingerprintEntry
