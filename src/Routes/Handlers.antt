-- ===== src/Routes/Handlers.antt =====
-- apps/server/src/app.ts: the bounds of the schemas, the handlers of the routes, and a request as a whole.
use tik_tok_jam.Base.{
  ℕ, String, Bool, true, false, not, ◌&&◌, Option, none, some, List, [], ◌∷◌, leb, ◌==◌,
  if◌then◌else◌, Eq-String,
}
use tik_tok_jam.Types.Enums.{GrantAction}
use tik_tok_jam.Text.{trim}
use tik_tok_jam.Action.{Action, http_error, pure, throw_if, read_db, ◌>>=◌, ◌>>◌}
use tik_tok_jam.Grants
use tik_tok_jam.Grants.{GrantInput, is_null}
use tik_tok_jam.Approvals.{list_approvals}
use tik_tok_jam.Config.{text_length}
use tik_tok_jam.Gateway.Jail.{starts_with}
use tik_tok_jam.Service.Ownership.{
  list_agents, get_agent, get_messages, get_runs, get_grants, get_run_scopes, create_grant,
  assert_run_ownership,
}
use tik_tok_jam.Service.Agents.{
  CreateAgentInput, UpdateAgentInput, create_agent, update_agent, delete_agent, start_agent,
  stop_agent, kill_agent,
}
use tik_tok_jam.Service.Mint.{send_message}
use tik_tok_jam.Service.Requests
use tik_tok_jam.Service.Requests.{
  GrantIntent, EventFilter, parse_grant_request, get_run_events, get_agent_events,
}
use tik_tok_jam.Workspace.Files.{list_workspace_files, read_workspace_file}
use tik_tok_jam.Routes.{Route, Request, Body, Reply, Api, caller_of, pre_handler, parse_id}

-- `z.string().max(n).optional()`
abbrev optional_within : ℕ → Option String → Bool
optional_within n none = true
optional_within n (some s) = leb (text_length s) n

-- `z.string().trim().min(1).max(n)`
abbrev filled_within : ℕ → String → Bool
filled_within n s = not (trim s == "") && leb (text_length (trim s)) n

abbrev optional_filled : ℕ → Option String → Bool
optional_filled n none = true
optional_filled n (some s) = filled_within n s

abbrev pub is_create_body : CreateAgentInput → Bool
is_create_body body =
    filled_within 80 body.name
    && optional_within 500 body.description
    && optional_within 10000 body.instructions

abbrev pub is_update_body : UpdateAgentInput → Bool
is_update_body body =
    optional_filled 80 body.name
    && optional_within 500 body.description
    && optional_within 10000 body.instructions
    && not (
        is_null body.name
        && is_null body.description
        && is_null body.instructions
        && is_null body.permissions)

abbrev no_actions : List GrantAction → Bool
no_actions [] = true
no_actions (a ∷ more) = false

-- `path` of `workspaceFileQuery`
abbrev is_file_query : String → Bool
is_file_query path = not (path == "") && leb (text_length path) 1024 && not (starts_with path "/")

module _ (api : Api) where
  -- `grantBody`, which has no expiry
  abbrev is_grant_body : GrantInput → Bool
  is_grant_body body =
      (elim body.from_agent [ none ↦ true | some id ↦ api.is_uuid id ])
      && api.is_uuid body.to_agent
      && not (no_actions body.actions)
      && is_null body.expires_at

  abbrev answer : ℕ → Body → Action Reply
  answer status body = pure (record { status = status; body = body })

  abbrev validated : Bool → Action (Unit {0})
  validated good = throw_if (not good) (http_error 400 "Validation failed")

  -- The handlers, in the order of the source.
  unfoldable pub handler : Request → Route → Action Reply
  unfolding parse_id caller_of
  handler request Route.health = answer 200 (Body.value (api.constant "health"))
  handler request Route.probe = answer 200 (Body.value (api.constant "required"))
  handler request Route.system = do info ← api.system_info; answer 200 (Body.value info)
  handler request Route.index_agents = do
    caller ← caller_of request.caller
    found ← read_db (list_agents caller)
    answer 200 (Body.agents found)
  handler request (Route.new_agent body) = do
    validated (is_create_body body)
    caller ← caller_of request.caller
    made ← create_agent api.workspace_root (record body { name = trim body.name }) caller
    answer 201 (Body.agent made)
  handler request Route.show_agent = do
    id ← parse_id api request.id
    a ← get_agent id
    answer 200 (Body.agent a)
  handler request (Route.change_agent body) = do
    id ← parse_id api request.id
    validated (is_update_body body)
    a ← update_agent id body
    answer 200 (Body.agent a)
  handler request Route.remove_agent = do
    id ← parse_id api request.id
    where_to ← delete_agent api.workspace_root api.stamp api.cancel_execution id
    answer 200 (Body.archived where_to)
  handler request Route.start = do
    id ← parse_id api request.id
    a ← start_agent id
    answer 200 (Body.agent a)
  handler request Route.stop = do
    id ← parse_id api request.id
    a ← stop_agent api.cancel_execution id
    answer 200 (Body.agent a)
  handler request Route.kill = do
    id ← parse_id api request.id
    caller ← caller_of request.caller
    a ← kill_agent id caller
    answer 200 (Body.agent a)
  handler request Route.messages = do
    id ← parse_id api request.id
    ms ← get_messages id
    answer 200 (Body.messages ms)
  handler request Route.runs = do
    id ← parse_id api request.id
    rs ← get_runs id
    answer 200 (Body.runs rs)
  handler request (Route.post_message text) = do
    id ← parse_id api request.id
    validated (filled_within 50000 text)
    result ← send_message api.mint id (trim text)
    answer 202 (Body.sent result)
  handler request Route.show_run = do
    id ← parse_id api request.id
    caller ← caller_of request.caller
    r ← assert_run_ownership id caller "GET /api/runs/:id"
    breakdown ← read_db (get_run_scopes id)
    answer 200 (Body.run r breakdown)
  handler request Route.grants = do
    id ← parse_id api request.id
    gs ← get_grants id
    answer 200 (Body.grants gs)
  handler request Route.files = do
    id ← parse_id api request.id
    a ← get_agent id
    folder ← api.read_folder a.workspace_path
    answer 200 (Body.listing (list_workspace_files folder))
  handler request (Route.show_content relative) = do
    id ← parse_id api request.id
    validated (is_file_query relative)
    a ← get_agent id
    f ← read_workspace_file api.bytes a.workspace_path relative
    answer 200 (Body.file f)
  handler request (Route.new_grant body) = do
    validated (is_grant_body body)
    caller ← caller_of request.caller
    g ← create_grant body caller
    answer 201 (Body.grant g)
  handler request (Route.parse_grant text) = do
    validated (filled_within 500 text)
    caller ← caller_of request.caller
    made ← parse_grant_request api.parse_intent (trim text) caller
    answer (if made.1 then 201 else 200) (Body.approval made.0)
  handler request Route.revoke = do
    id ← parse_id api request.id
    caller ← caller_of request.caller
    g ← Grants.revoke_grant id caller
    answer 200 (Body.grant g)
  handler request Route.index_approvals = do
    caller ← caller_of request.caller
    found ← read_db (list_approvals caller)
    answer 200 (Body.approvals found)
  handler request (Route.decide decision trust) = do
    id ← parse_id api request.id
    caller ← caller_of request.caller
    card ← Requests.decide_approval id decision caller trust
    answer 200 (Body.approval card)
  handler request (Route.run_events filter) = do
    id ← parse_id api request.id
    es ← get_run_events id filter
    answer 200 (Body.events es)
  handler request (Route.agent_events filter limit) = do
    id ← parse_id api request.id
    validated (leb 1 limit && leb limit 1000)
    es ← get_agent_events id filter limit
    answer 200 (Body.events es)

  -- A request behind the gate of tokens: the hook and then the route's handler.
  unfoldable pub serve : Request → Action Reply
  unfolding pre_handler handler
  serve request = do pre_handler api request; handler request request.route
