-- ===== src/Types/Equality.antt =====
-- Equality of the literals of types.ts.
use tik_tok_jam.Base.{ℕ, ◌≡◌, Bool, true, false, nat_eq, Eq, arith}
use tik_tok_jam.Types.Enums.{
  AgentStatus, RunStatus, Scope, Egress, Resource, GrantAction, Trust, ApprovalKind, RunEventKind,
  ApprovalStatus,
}

abbrev pub agent_status_rank : AgentStatus → ℕ
agent_status_rank AgentStatus.ready = 0
agent_status_rank AgentStatus.busy = 1
agent_status_rank AgentStatus.stopped = 2
agent_status_rank AgentStatus.error = 3

pub agent_status_sound :
    (a b : AgentStatus) → nat_eq (agent_status_rank a) (agent_status_rank b) ≡ true → a ≡ b
agent_status_sound a b h = ground arith

pub agent_status_self :
    (a : AgentStatus) → nat_eq (agent_status_rank a) (agent_status_rank a) ≡ true
agent_status_self a = ground arith

instance abbrev pub Eq-AgentStatus : Eq AgentStatus
Eq-AgentStatus = record {
  same = λ a b. nat_eq (agent_status_rank a) (agent_status_rank b);
  sound = agent_status_sound;
  same_self = agent_status_self;
}

abbrev pub run_status_rank : RunStatus → ℕ
run_status_rank RunStatus.queued = 0
run_status_rank RunStatus.running = 1
run_status_rank RunStatus.completed = 2
run_status_rank RunStatus.failed = 3
run_status_rank RunStatus.cancelled = 4

pub run_status_sound :
    (a b : RunStatus) → nat_eq (run_status_rank a) (run_status_rank b) ≡ true → a ≡ b
run_status_sound a b h = ground arith

pub run_status_self : (a : RunStatus) → nat_eq (run_status_rank a) (run_status_rank a) ≡ true
run_status_self a = ground arith

instance abbrev pub Eq-RunStatus : Eq RunStatus
Eq-RunStatus = record {
  same = λ a b. nat_eq (run_status_rank a) (run_status_rank b);
  sound = run_status_sound;
  same_self = run_status_self;
}

abbrev pub scope_rank : Scope → ℕ
scope_rank Scope.workspace_read = 0
scope_rank Scope.workspace_write = 1
scope_rank Scope.crm_read = 2
scope_rank Scope.crm_write = 3
scope_rank Scope.webhook_send = 4

pub scope_sound : (a b : Scope) → nat_eq (scope_rank a) (scope_rank b) ≡ true → a ≡ b
scope_sound a b h = ground arith

pub scope_self : (a : Scope) → nat_eq (scope_rank a) (scope_rank a) ≡ true
scope_self a = ground arith

instance abbrev pub Eq-Scope : Eq Scope
Eq-Scope = record {
  same = λ a b. nat_eq (scope_rank a) (scope_rank b);
  sound = scope_sound;
  same_self = scope_self;
}

abbrev pub egress_rank : Egress → ℕ
egress_rank Egress.internal = 0
egress_rank Egress.agent = 1
egress_rank Egress.external = 2

pub egress_sound : (a b : Egress) → nat_eq (egress_rank a) (egress_rank b) ≡ true → a ≡ b
egress_sound a b h = ground arith

pub egress_self : (a : Egress) → nat_eq (egress_rank a) (egress_rank a) ≡ true
egress_self a = ground arith

instance abbrev pub Eq-Egress : Eq Egress
Eq-Egress = record {
  same = λ a b. nat_eq (egress_rank a) (egress_rank b);
  sound = egress_sound;
  same_self = egress_self;
}

abbrev pub resource_rank : Resource → ℕ
resource_rank Resource.workspace = 0
resource_rank Resource.crm = 1

pub resource_sound : (a b : Resource) → nat_eq (resource_rank a) (resource_rank b) ≡ true → a ≡ b
resource_sound a b h = ground arith

pub resource_self : (a : Resource) → nat_eq (resource_rank a) (resource_rank a) ≡ true
resource_self a = ground arith

instance abbrev pub Eq-Resource : Eq Resource
Eq-Resource = record {
  same = λ a b. nat_eq (resource_rank a) (resource_rank b);
  sound = resource_sound;
  same_self = resource_self;
}

abbrev pub grant_action_rank : GrantAction → ℕ
grant_action_rank GrantAction.read = 0
grant_action_rank GrantAction.write = 1

pub grant_action_sound :
    (a b : GrantAction) → nat_eq (grant_action_rank a) (grant_action_rank b) ≡ true → a ≡ b
grant_action_sound a b h = ground arith

pub grant_action_self :
    (a : GrantAction) → nat_eq (grant_action_rank a) (grant_action_rank a) ≡ true
grant_action_self a = ground arith

instance abbrev pub Eq-GrantAction : Eq GrantAction
Eq-GrantAction = record {
  same = λ a b. nat_eq (grant_action_rank a) (grant_action_rank b);
  sound = grant_action_sound;
  same_self = grant_action_self;
}

abbrev pub trust_rank : Trust → ℕ
trust_rank Trust.trusted = 0
trust_rank Trust.untrusted = 1

pub trust_sound : (a b : Trust) → nat_eq (trust_rank a) (trust_rank b) ≡ true → a ≡ b
trust_sound a b h = ground arith

pub trust_self : (a : Trust) → nat_eq (trust_rank a) (trust_rank a) ≡ true
trust_self a = ground arith

instance abbrev pub Eq-Trust : Eq Trust
Eq-Trust = record {
  same = λ a b. nat_eq (trust_rank a) (trust_rank b);
  sound = trust_sound;
  same_self = trust_self;
}

abbrev pub approval_kind_rank : ApprovalKind → ℕ
approval_kind_rank ApprovalKind.scope = 0
approval_kind_rank ApprovalKind.grant = 1
approval_kind_rank ApprovalKind.declassify = 2

pub approval_kind_sound :
    (a b : ApprovalKind) → nat_eq (approval_kind_rank a) (approval_kind_rank b) ≡ true → a ≡ b
approval_kind_sound a b h = ground arith

pub approval_kind_self :
    (a : ApprovalKind) → nat_eq (approval_kind_rank a) (approval_kind_rank a) ≡ true
approval_kind_self a = ground arith

instance abbrev pub Eq-ApprovalKind : Eq ApprovalKind
Eq-ApprovalKind = record {
  same = λ a b. nat_eq (approval_kind_rank a) (approval_kind_rank b);
  sound = approval_kind_sound;
  same_self = approval_kind_self;
}

abbrev pub event_kind_rank : RunEventKind → ℕ
event_kind_rank RunEventKind.command = 0
event_kind_rank RunEventKind.file_change = 1
event_kind_rank RunEventKind.mcp_call = 2
event_kind_rank RunEventKind.gateway = 3
event_kind_rank RunEventKind.approval = 4
event_kind_rank RunEventKind.grant = 5
event_kind_rank RunEventKind.llm = 6

pub event_kind_sound :
    (a b : RunEventKind) → nat_eq (event_kind_rank a) (event_kind_rank b) ≡ true → a ≡ b
event_kind_sound a b h = ground arith

pub event_kind_self : (a : RunEventKind) → nat_eq (event_kind_rank a) (event_kind_rank a) ≡ true
event_kind_self a = ground arith

instance abbrev pub Eq-RunEventKind : Eq RunEventKind
Eq-RunEventKind = record {
  same = λ a b. nat_eq (event_kind_rank a) (event_kind_rank b);
  sound = event_kind_sound;
  same_self = event_kind_self;
}

abbrev pub is_pending : ApprovalStatus → Bool
is_pending ApprovalStatus.pending = true
is_pending (ApprovalStatus.decided d) = false
