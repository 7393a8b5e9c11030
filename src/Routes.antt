-- ===== src/Routes.antt =====
-- apps/server/src/app.ts: the routes, the gate of ownership in front of them and the answers of errors.
-- A body or a query has the types of its schema; the bounds of the schema are written out, and one that
-- fails, as one of other types, is answered as the 400 that the error handler makes of it. The check of
-- a UUID by zod is a parameter. Without `production` no file of the web client is served.
pub mod Handlers
pub mod Owned
use Prim.Native.String.{◌++◌}
use tik_tok_jam.Base.{
  ℕ, String, Bool, true, false, not, ◌&&◌, ◌||◌, Option, none, some, List, [], ◌∷◌, leb, includes,
  ◌==◌, find, if◌then◌else◌, Eq-String,
}
use tik_tok_jam.Types.Enums.{GrantAction, Egress, ApprovalDecision}
use tik_tok_jam.Types.Records.{
  Value, Agent, AgentRun, Message, PolicyGrant, ApprovalRequest, RunEvent,
}
use tik_tok_jam.Text.{trim}
use tik_tok_jam.Action.{
  World, Action, Exception, Result, ok, err, http_error, denied, run_cancelled, failure, pure,
  throw, throw_if, require, read_db, ◌>>=◌, ◌>>◌,
}
use tik_tok_jam.Grants
use tik_tok_jam.Grants.{GrantInput, is_null}
use tik_tok_jam.Approvals.{list_approvals}
use tik_tok_jam.Config.{text_length}
use tik_tok_jam.Gateway.Jail.{starts_with}
use tik_tok_jam.Service.Ownership.{
  list_agents, get_agent, get_messages, get_runs, get_grants, get_run_scopes, RunScopes,
  create_grant, assert_agent_ownership, assert_run_ownership, assert_grant_ownership,
  assert_approval_ownership,
}
use tik_tok_jam.Service.Agents.{
  CreateAgentInput, UpdateAgentInput, PermissionsPatch, create_agent, update_agent, delete_agent,
  start_agent, stop_agent, kill_agent,
}
use tik_tok_jam.Service.Mint.{MintDeps, Sent, send_message}
use tik_tok_jam.Service.Requests
use tik_tok_jam.Service.Requests.{
  GrantIntent, EventFilter, parse_grant_request, get_run_events, get_agent_events,
}
use tik_tok_jam.Workspace.Files.{
  Folder, WorkspaceListing, WorkspaceFileContent, Bytes, list_workspace_files, read_workspace_file,
}

-- The registered routes, each with its body or query.
pub data Route : Type 0 where
  health probe system index_agents index_approvals : Route
  new_agent : CreateAgentInput → Route
  show_agent remove_agent start stop kill messages runs show_run grants files revoke : Route
  change_agent : UpdateAgentInput → Route
  post_message : String → Route
  show_content : String → Route
  new_grant : GrantInput → Route
  parse_grant : String → Route
  decide : ApprovalDecision → Option Bool → Route
  run_events : EventFilter → Route
  agent_events : EventFilter → ℕ → Route

abbrev pub route_url : Route → String
route_url Route.health = "/api/health"
route_url Route.probe = "/api/auth"
route_url Route.system = "/api/system"
route_url Route.index_agents = "/api/agents"
route_url Route.index_approvals = "/api/approvals"
route_url (Route.new_agent body) = "/api/agents"
route_url Route.show_agent = "/api/agents/:id"
route_url Route.remove_agent = "/api/agents/:id"
route_url Route.start = "/api/agents/:id/start"
route_url Route.stop = "/api/agents/:id/stop"
route_url Route.kill = "/api/agents/:id/kill"
route_url Route.messages = "/api/agents/:id/messages"
route_url Route.runs = "/api/agents/:id/runs"
route_url Route.show_run = "/api/runs/:id"
route_url Route.grants = "/api/agents/:id/grants"
route_url Route.files = "/api/agents/:id/files"
route_url Route.revoke = "/api/grants/:id/revoke"
route_url (Route.change_agent body) = "/api/agents/:id"
route_url (Route.post_message text) = "/api/agents/:id/messages"
route_url (Route.show_content relative) = "/api/agents/:id/files/content"
route_url (Route.new_grant body) = "/api/grants"
route_url (Route.parse_grant text) = "/api/grants/parse"
route_url (Route.decide decision trust) = "/api/approvals/:id/decide"
route_url (Route.run_events filter) = "/api/runs/:id/events"
route_url (Route.agent_events filter limit) = "/api/agents/:id/events"

-- What a request brings: the route that it matched, its method, the id in its path, where the route names
-- one, and the human of its verified token.
pub record Request : Type 0 where
  pub route : Route
  pub method : String
  pub id : Option String
  pub caller : Option String

pub data Body : Type 0 where
  value : Value → Body
  agent : Agent → Body
  agents : List Agent → Body
  archived : String → Body
  messages : List Message → Body
  runs : List AgentRun → Body
  sent : Sent → Body
  run : AgentRun → RunScopes → Body
  grants : List PolicyGrant → Body
  grant : PolicyGrant → Body
  approvals : List ApprovalRequest → Body
  approval : ApprovalRequest → Body
  events : List RunEvent → Body
  listing : WorkspaceListing → Body
  file : WorkspaceFileContent → Body

pub record Reply : Type 0 where
  pub status : ℕ
  pub body : Body

-- What the routes are given beside the store.
pub record Api : Type 0 where
  pub is_uuid : String → Bool
  pub mint : MintDeps
  pub workspace_root : String
  pub stamp : ℕ → String
  pub cancel_execution : String → Action (Unit {0})
  pub parse_intent : String → Option GrantIntent
  pub system_info : Action Value
  pub read_folder : String → Action (Option Folder)
  pub bytes : Bytes
  pub constant : String → Value

-- `callerOf`
unfoldable pub caller_of : Option String → Action String
caller_of caller = require caller (http_error 500 "Route reached without a verified principal")

-- The entries of `ownershipChecks`
pub data Check : Type 0 where
  of_agent of_run of_grant of_approval : Check

abbrev pub prefix : Check → String
prefix Check.of_agent = "/api/agents/"
prefix Check.of_run = "/api/runs/"
prefix Check.of_grant = "/api/grants/"
prefix Check.of_approval = "/api/approvals/"

abbrev pub checks : List Check
checks = Check.of_agent ∷ Check.of_run ∷ Check.of_grant ∷ Check.of_approval ∷ []

abbrev ignore : {A : Type 0} → Action A → Action (Unit {0})
ignore m = do m; pure tt

unfoldable pub run_check : Check → String → String → String → Action (Unit {0})
run_check Check.of_agent id caller action = ignore (assert_agent_ownership id caller action)
run_check Check.of_run id caller action = ignore (assert_run_ownership id caller action)
run_check Check.of_grant id caller action = ignore (assert_grant_ownership id caller action)
run_check Check.of_approval id caller action = ignore (assert_approval_ownership id caller action)

abbrev pub idless_routes : List String
idless_routes = "/api/grants/parse" ∷ []

-- The check that stands before a route.
abbrev pub check_of : String → Option Check
check_of url =
    if includes idless_routes url then none else find (λ c. starts_with url (prefix c)) checks

invalid : Exception
invalid = http_error 400 "Validation failed"

module _ (api : Api) where
  abbrev check_id : Request → Check → String → Action (Unit {0})
  check_id request check id = if not (api.is_uuid id) then pure tt else (do
    caller ← caller_of request.caller
    run_check check id caller ("api:" ++ request.method))

  abbrev run_checks : Request → Option Check → Action (Unit {0})
  run_checks request none = pure tt
  run_checks request (some check) = do
    id ← require request.id (
        http_error 500
          ("Guarded route " ++ route_url request.route ++ " does not name its id param :id"))
    check_id request check id

  -- The `preHandler` hook.
  unfoldable pub pre_handler : Request → Action (Unit {0})
  unfolding caller_of run_check
  pre_handler request = run_checks request (check_of (route_url request.route))

  -- `agentIdParams.parse(request.params)`
  unfoldable pub parse_id : Option String → Action String
  unfolding invalid
  parse_id none = throw invalid
  parse_id (some id) = if api.is_uuid id then pure id else throw invalid

-- The status that the error handler gives.
abbrev pub status_of : Exception → ℕ
status_of (http_error status message) = status
status_of (denied status code message) = 500
status_of run_cancelled = 500
status_of (failure message) = 500

abbrev pub status_or : Result Reply → ℕ
status_or (ok reply) = reply.status
status_or (err e) = status_of e
