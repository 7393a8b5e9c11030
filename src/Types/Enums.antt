-- ===== src/Types/Enums.antt =====
-- The string-literal unions of apps/server/src/types.ts, and their texts.
use tik_tok_jam.Base.{String, List, [], ◌∷◌}

pub data AgentStatus : Type 0 where
  ready busy stopped error : AgentStatus

pub data RunStatus : Type 0 where
  queued running completed failed cancelled : RunStatus

pub data MessageRole : Type 0 where
  user assistant : MessageRole

pub data Scope : Type 0 where
  workspace_read workspace_write crm_read crm_write webhook_send : Scope

abbrev pub scopes : List Scope
scopes =
    Scope.workspace_read ∷ Scope.workspace_write ∷ Scope.crm_read ∷ Scope.crm_write
    ∷ Scope.webhook_send ∷ []

-- Where data read under a grant may flow.
pub data Egress : Type 0 where
  internal agent external : Egress

pub data SecurityLevel : Type 0 where
  public internal confidential secret : SecurityLevel

abbrev pub security_levels : List SecurityLevel
security_levels =
    SecurityLevel.public ∷ SecurityLevel.internal ∷ SecurityLevel.confidential
    ∷ SecurityLevel.secret ∷ []

pub data Resource : Type 0 where
  workspace crm : Resource

pub data GrantAction : Type 0 where
  read write : GrantAction

pub data Sandbox : Type 0 where
  read_only workspace_write : Sandbox

pub data Trust : Type 0 where
  trusted untrusted : Trust

pub data ApprovalSource : Type 0 where
  live_deny nl_intent : ApprovalSource

pub data ApprovalKind : Type 0 where
  scope grant declassify : ApprovalKind

pub data ApprovalDecision : Type 0 where
  allow_run allow_always deny : ApprovalDecision

pub data ApprovalStatus : Type 0 where
  pending : ApprovalStatus
  decided : ApprovalDecision → ApprovalStatus

pub data ApprovalRisk : Type 0 where
  routine elevated critical : ApprovalRisk

pub data RunEventKind : Type 0 where
  command file_change mcp_call gateway approval grant llm : RunEventKind

pub data Decision : Type 0 where
  allow deny pending : Decision

-- The texts of the literals, where the code writes one into a string.
abbrev pub scope_text : Scope → String
scope_text Scope.workspace_read = "workspace:read"
scope_text Scope.workspace_write = "workspace:write"
scope_text Scope.crm_read = "crm:read"
scope_text Scope.crm_write = "crm:write"
scope_text Scope.webhook_send = "webhook:send"

abbrev pub egress_text : Egress → String
egress_text Egress.internal = "internal"
egress_text Egress.agent = "agent"
egress_text Egress.external = "external"

abbrev pub level_text : SecurityLevel → String
level_text SecurityLevel.public = "public"
level_text SecurityLevel.internal = "internal"
level_text SecurityLevel.confidential = "confidential"
level_text SecurityLevel.secret = "secret"

abbrev pub resource_text : Resource → String
resource_text Resource.workspace = "workspace"
resource_text Resource.crm = "crm"

abbrev pub action_text : GrantAction → String
action_text GrantAction.read = "read"
action_text GrantAction.write = "write"

abbrev pub decision_text : ApprovalDecision → String
decision_text ApprovalDecision.allow_run = "allow_run"
decision_text ApprovalDecision.allow_always = "allow_always"
decision_text ApprovalDecision.deny = "deny"

abbrev pub source_text : ApprovalSource → String
source_text ApprovalSource.live_deny = "live_deny"
source_text ApprovalSource.nl_intent = "nl_intent"

abbrev pub kind_text : ApprovalKind → String
kind_text ApprovalKind.scope = "scope"
kind_text ApprovalKind.grant = "grant"
kind_text ApprovalKind.declassify = "declassify"
