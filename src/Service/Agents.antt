-- ===== src/Service/Agents.antt =====
-- apps/server/src/agent-service.ts: the life of an agent, and the kill switch. That a run in progress
-- is cancelled and awaited is an action of its own, which the runner does.
pub mod Killing
use Prim.Native.String.{◌++◌}
use tik_tok_jam.Base.{
  ℕ, String, Bool, not, ◌&&◌, Option, none, some, List, [], ◌∷◌, map, ◌==◌, filter, push, length,
  modify_first, modify_all, if◌then◌else◌, Eq-String,
}
use tik_tok_jam.Types.Enums.{AgentStatus, Scope, Sandbox, ApprovalDecision, RunEventKind, Decision}
use tik_tok_jam.Types.Equality.{Eq-AgentStatus, is_pending}
use tik_tok_jam.Types.Records.{
  Database, Agent, AgentPermissions, RunToken, ApprovalRequest, str, num, arr, obj, field, done,
  Items, nil, cons,
}
use tik_tok_jam.Text.{trim}
use tik_tok_jam.Action.{
  Action, Result, ok, err, http_error, pure, throw_if, mutate, update, read_db, now, random_uuid,
  for_each, ◌>>=◌, ◌>>◌,
}
use tik_tok_jam.Store.{default_permissions}
use tik_tok_jam.Audit.{record_event}
use tik_tok_jam.Grants.{agent_of, or_else, is_null}
use tik_tok_jam.Approvals.Answers.{decide_approval}
use tik_tok_jam.Workspace.{join_path, create_workspace, write_instructions, archive}
use tik_tok_jam.Service.Ownership.{get_agent}

-- `Partial<AgentPermissions>`
pub record PermissionsPatch : Type 0 where
  pub sandbox : Option Sandbox
  pub network : Option Bool
  pub web_search : Option Bool
  pub tools : Option (List Scope)

pub record CreateAgentInput : Type 0 where
  pub name : String
  pub description : Option String
  pub instructions : Option String
  pub permissions : Option PermissionsPatch

pub record UpdateAgentInput : Type 0 where
  pub name : Option String
  pub description : Option String
  pub instructions : Option String
  pub permissions : Option PermissionsPatch

-- `{ ...permissions, ...(patch ?? {}) }`
abbrev pub patch_permissions : AgentPermissions → Option PermissionsPatch → AgentPermissions
patch_permissions p none = p
patch_permissions p (some patch) = record {
  sandbox = or_else patch.sandbox p.sandbox;
  network = or_else patch.network p.network;
  web_search = or_else patch.web_search p.web_search;
  tools = or_else patch.tools p.tools;
}

abbrev trimmed : Option String → String → String
trimmed none old = old
trimmed (some s) old = trim s

abbrev pub new_agent : CreateAgentInput → String → String → String → ℕ → Agent
new_agent input owner_id root id at = record {
  id = id;
  name = trim input.name;
  description = trimmed input.description "";
  instructions = trimmed input.instructions "";
  owner_id = owner_id;
  permissions = patch_permissions default_permissions input.permissions;
  temp_scopes = [];
  status = AgentStatus.ready;
  workspace_path = join_path root id;
  codex_thread_id = none;
  last_error = none;
  created_at = at;
  updated_at = at;
}

abbrev pub push_agent : Agent → Database → Database
push_agent agent d = record d { agents = push d.agents agent }

unfoldable pub create_agent : String → CreateAgentInput → String → Action Agent
create_agent root input owner_id = do
  at ← now
  id ← random_uuid
  let agent = new_agent input owner_id root id at
  create_workspace agent
  update (push_agent agent)
  pure agent

abbrev pub edit_agent : UpdateAgentInput → ℕ → Agent → Agent
edit_agent input at agent = record agent {
  name = trimmed input.name agent.name;
  description = trimmed input.description agent.description;
  instructions = trimmed input.instructions agent.instructions;
  permissions = patch_permissions agent.permissions input.permissions;
  last_error = none;
  updated_at = at;
}

abbrev pub modify_agent : String → (Agent → Agent) → Database → Database
modify_agent id f d = record d { agents = modify_first (λ a. a.id == id) f d.agents }

unfoldable pub edit_in : String → UpdateAgentInput → ℕ → Database → Result (Agent × Database)
edit_in id input at d = elim (agent_of id d) [
  | none ↦ err (http_error 404 "Agent not found")
  | some agent ↦
      if agent.status == AgentStatus.busy
      then err (http_error 409 "Stop the active run before editing this Agent")
      else ok (edit_agent input at agent, modify_agent id (edit_agent input at) d)
]

unfoldable pub update_agent : String → UpdateAgentInput → Action Agent
update_agent id input = do
  current ← get_agent id
  throw_if (current.status == AgentStatus.busy)
      (http_error 409 "Stop the active run before editing this Agent")
  at ← now
  updated ← mutate (edit_in id input at)
  write_instructions updated
  pure updated

unfoldable pub delete_in : String → Database → Database
delete_in id d = record d {
  agents = filter (λ a. not (a.id == id)) d.agents;
  messages = filter (λ m. not (m.agent_id == id)) d.messages;
  runs = filter (λ r. not (r.agent_id == id)) d.runs;
}

unfoldable pub delete_agent :
    String → (ℕ → String) → (String → Action (Unit {0})) → String → Action String
delete_agent root stamp cancel_execution id = do
  agent ← get_agent id
  cancel_execution id
  archived ← archive root stamp agent
  update (delete_in id)
  pure archived

abbrev clear_error : AgentStatus → Option String → Option String
clear_error AgentStatus.ready old = none
clear_error AgentStatus.busy old = old
clear_error AgentStatus.stopped old = old
clear_error AgentStatus.error old = old

abbrev pub with_status : AgentStatus → ℕ → Agent → Agent
with_status status at agent = record agent {
  status = status;
  last_error = clear_error status agent.last_error;
  updated_at = at;
}

unfoldable pub status_in : String → AgentStatus → ℕ → Database → Result (Agent × Database)
status_in id status at d = elim (agent_of id d) [
  | none ↦ err (http_error 404 "Agent not found")
  | some agent ↦
      if status == AgentStatus.ready && agent.status == AgentStatus.busy
      then err (http_error 409 "Stop the active run before starting this Agent")
      else ok (with_status status at agent, modify_agent id (with_status status at) d)
]

unfoldable pub set_status : String → AgentStatus → Action Agent
set_status id status = do at ← now; mutate (status_in id status at)

unfoldable pub start_agent : String → Action Agent
start_agent id = set_status id AgentStatus.ready

unfoldable pub stop_agent : (String → Action (Unit {0})) → String → Action Agent
stop_agent cancel_execution id = do
  get_agent id
  cancel_execution id
  set_status id AgentStatus.stopped

-- `revokeToken`: a token that is revoked already keeps its time.
abbrev pub revoke_token : ℕ → RunToken → RunToken
revoke_token at token = record token { revoked_at = some (or_else token.revoked_at at) }

abbrev pub strip_agent : ℕ → Agent → Agent
strip_agent at agent = record agent {
  permissions = record agent.permissions { tools = [] };
  temp_scopes = [];
  updated_at = at;
}

abbrev pub live_runs : String → Database → List String
live_runs agent_id d =
    map (λ t. t.run_id) (filter (λ t. t.agent_id == agent_id && is_null t.revoked_at) d.run_tokens)

pub record Killed : Type 0 where
  pub agent : Agent
  pub run_ids : List String

unfoldable pub kill_in : String → ℕ → Database → Result (Killed × Database)
kill_in agent_id at d = elim (agent_of agent_id d) [
  | none ↦ err (http_error 404 "Agent not found")
  | some agent ↦ ok (
    record { agent = strip_agent at agent; run_ids = live_runs agent_id d },
    record d {
      agents = modify_first (λ a. a.id == agent_id) (strip_agent at) d.agents;
      run_tokens = modify_all (λ t. t.agent_id == agent_id) (revoke_token at) d.run_tokens;
    },
  )
]

abbrev pub pending_of : String → Database → List ApprovalRequest
pending_of agent_id d = filter (λ c. c.agent_id == agent_id && is_pending c.status) d.approvals

abbrev pub void_card : String → ApprovalRequest → Action (Unit {0})
void_card caller_id card = do decide_approval card.id ApprovalDecision.deny caller_id none; pure tt

unfoldable pub void_pending_cards : String → String → Action ℕ
void_pending_cards agent_id caller_id = do
  pending ← read_db (pending_of agent_id)
  for_each (void_card caller_id) pending
  pure (length pending)

abbrev text_items : List String → Items
text_items [] = nil
text_items (s ∷ more) = cons (str s) (text_items more)

abbrev only : List String → Option String
only [] = none
only (r ∷ []) = some r
only (r ∷ s ∷ more) = none

unfoldable pub kill_agent : String → String → Action Agent
kill_agent agent_id caller_id = do
  at ← now
  killed ← mutate (kill_in agent_id at)
  voided ← void_pending_cards agent_id caller_id
  record_event (record {
    run_id = only killed.run_ids;
    agent_id = agent_id;
    owner_id = caller_id;
    kind = RunEventKind.gateway;
    action = "kill";
    resource = "agent/" ++ agent_id;
    decision = some Decision.deny;
    reason = some "revoked-by-operator";
    detail = obj (
        field "revokedRuns" (arr (text_items killed.run_ids))
          (field "voidedCards" (num voided) done));
  })
  pure killed.agent
