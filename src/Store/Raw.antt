-- ===== src/Store/Raw.antt =====
-- The rows of the stored file as `JSON.parse` gives them (apps/server/src: store.ts, ifc.ts). A field that
-- a row may lack is an option, of which `none` is an absent key; where the code says `??`, it is null as
-- well. The rows are of their types otherwise, which nothing checks.
use tik_tok_jam.Base.{ℕ, String, Bool, Option, List}
use tik_tok_jam.Types.Enums.{
  Scope, Egress, SecurityLevel, Resource, GrantAction, Trust, ApprovalSource, ApprovalKind,
  ApprovalStatus, ApprovalRisk, AgentStatus,
}
use tik_tok_jam.Types.Records.{
  ApprovalEvidence, GrantRequest, TempScope, Message, AgentRun, RunEvent, FingerprintEntry,
}
use tik_tok_jam.Service.Agents.{PermissionsPatch}

pub record RawLabel : Type 0 where
  pub grant_id : String
  pub origin : String
  pub egress : List Egress
  pub level : Option SecurityLevel
  pub trust : Option Trust

pub record RawFingerprint : Type 0 where
  pub run_id : String
  pub label : RawLabel
  pub hashes : List String

-- A taint of a row lacks at most its trust.
pub record RawTaint : Type 0 where
  pub grant_id : String
  pub origin : String
  pub egress : List Egress
  pub level : SecurityLevel
  pub trust : Option Trust

pub record RawToken : Type 0 where
  pub jti : String
  pub run_id : String
  pub agent_id : String
  pub owner_id : String
  pub scp : List Scope
  pub taints : Option (List RawTaint)
  pub egress_allow : Option (List String)
  pub estimated : Option (List Scope)
  pub withheld : Option (List Scope)
  pub thread_id : Option String
  pub issued_at : ℕ
  pub expires_at : ℕ
  pub revoked_at : Option ℕ

pub record RawGrant : Type 0 where
  pub id : String
  pub from_owner : String
  pub from_agent : Option String
  pub to_agent : String
  pub resource : Resource
  pub actions : List GrantAction
  pub egress : List Egress
  pub trust_content : Option Bool
  pub created_at : ℕ
  pub expires_at : Option ℕ
  pub revoked_at : Option ℕ

pub record RawCard : Type 0 where
  pub id : String
  pub source : ApprovalSource
  pub kind : ApprovalKind
  pub agent_id : String
  pub owner_id : String
  pub run_id : Option String
  pub jti : Option String
  pub resource : String
  pub action : String
  pub scope : Option Scope
  pub grant : Option GrantRequest
  pub reason : String
  pub risk : Option ApprovalRisk
  pub evidence : Option ApprovalEvidence
  pub status : ApprovalStatus
  pub created_at : ℕ
  pub decided_at : Option ℕ
  pub decided_by : Option String

pub record RawAgent : Type 0 where
  pub id : String
  pub name : String
  pub description : String
  pub instructions : String
  pub owner_id : Option String
  pub permissions : Option PermissionsPatch
  pub temp_scopes : Option (List TempScope)
  pub status : AgentStatus
  pub workspace_path : String
  pub codex_thread_id : Option String
  pub last_error : Option String
  pub created_at : ℕ
  pub updated_at : ℕ

pub record RawDatabase : Type 0 where
  pub version : Option ℕ
  pub agents : Option (List RawAgent)
  pub messages : Option (List Message)
  pub runs : Option (List AgentRun)
  pub run_tokens : Option (List RawToken)
  pub policy_grants : Option (List RawGrant)
  pub approvals : Option (List RawCard)
  pub run_events : Option (List RunEvent)
  pub fingerprints : Option (List FingerprintEntry)
