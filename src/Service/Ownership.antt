-- ===== src/Service/Ownership.antt =====
-- apps/server/src/agent-service.ts: who may name which row, and the audit of a crossed tenant.
use Prim.Native.String.{◌++◌}
use tik_tok_jam.Base.{
  String, not, Option, none, some, List, [], ◌==◌, leb, find, filter, sort_by, if◌then◌else◌,
  Eq-String,
}
use tik_tok_jam.Types.Enums.{Scope, RunEventKind, Decision}
use tik_tok_jam.Types.Records.{
  Database, Agent, AgentRun, Message, PolicyGrant, ApprovalRequest, obj, done,
}
use tik_tok_jam.Action.{Action, http_error, pure, throw, require, read_db, ◌>>=◌, ◌>>◌}
use tik_tok_jam.Audit.{record_event}
use tik_tok_jam.Grants
use tik_tok_jam.Grants.{GrantInput, agent_of, grant_of, list_grants}
use tik_tok_jam.Approvals.{card_of}

abbrev pub run_of : String → Database → Option AgentRun
run_of id d = find (λ r. r.id == id) d.runs

unfoldable pub list_agents : String → Database → List Agent
list_agents owner_id d =
    sort_by (λ a b. leb b.updated_at a.updated_at) (filter (λ a. a.owner_id == owner_id) d.agents)

unfoldable pub get_agent : String → Action Agent
get_agent id = do found ← read_db (agent_of id); require found (http_error 404 "Agent not found")

unfoldable pub get_run : String → Action AgentRun
get_run id = do found ← read_db (run_of id); require found (http_error 404 "Run not found")

unfoldable pub log_cross_tenant : String → String → String → String → Action (Unit {0})
log_cross_tenant agent_id caller_id action resource = do
  record_event (record {
    run_id = none;
    agent_id = agent_id;
    owner_id = caller_id;
    kind = RunEventKind.gateway;
    action = action;
    resource = resource;
    decision = some Decision.deny;
    reason = some "cross-tenant";
    detail = obj done;
  })
  pure tt

unfoldable pub deny_cross_tenant : String → String → String → String → Action (Unit {0})
deny_cross_tenant agent_id caller_id action resource = do
  log_cross_tenant agent_id caller_id action resource
  throw (http_error 403 "That resource belongs to another tenant")

-- The check that the four gates share: the row goes through if its owner calls.
unfoldable pub gate : {A : Type 0} → A → String → String → String → String → String → Action A
gate row owner_id agent_id caller_id action resource =
    if not (owner_id == caller_id)
    then (do deny_cross_tenant agent_id caller_id action resource; pure row)
    else pure row

unfoldable pub assert_agent_ownership : String → String → String → Action Agent
assert_agent_ownership agent_id caller_id action = do
  agent ← get_agent agent_id
  gate agent agent.owner_id agent.id caller_id action ("agent/" ++ agent.id)

unfoldable pub assert_run_ownership : String → String → String → Action AgentRun
assert_run_ownership run_id caller_id action = do
  run ← get_run run_id
  agent ← get_agent run.agent_id
  gate run agent.owner_id agent.id caller_id action ("run/" ++ run.id)

unfoldable pub assert_grant_ownership : String → String → String → Action PolicyGrant
assert_grant_ownership grant_id caller_id action = do
  found ← read_db (grant_of grant_id)
  grant ← require found (http_error 404 "Grant not found")
  gate grant grant.from_owner grant.to_agent caller_id action ("grant/" ++ grant.id)

unfoldable pub assert_approval_ownership : String → String → String → Action ApprovalRequest
assert_approval_ownership approval_id caller_id action = do
  found ← read_db (card_of approval_id)
  card ← require found (http_error 404 "Approval not found")
  gate card card.owner_id card.agent_id caller_id action ("approval/" ++ card.id)

pub record RunScopes : Type 0 where
  pub active : List Scope
  pub withheld : List Scope
  pub estimated : List Scope

unfoldable pub get_run_scopes : String → Database → RunScopes
get_run_scopes run_id d = elim (find (λ t. t.run_id == run_id) d.run_tokens) [
  | none ↦ record { active = []; withheld = []; estimated = [] }
  | some token ↦ record {
    active = token.scp;
    withheld = token.withheld;
    estimated = token.estimated;
  }
]

unfoldable pub get_messages : String → Action (List Message)
get_messages agent_id = do
  get_agent agent_id
  read_db (λ d.
      sort_by (λ a b. leb a.created_at b.created_at)
        (filter (λ m. m.agent_id == agent_id) d.messages))

unfoldable pub get_runs : String → Action (List AgentRun)
get_runs agent_id = do
  get_agent agent_id
  read_db (λ d.
      sort_by (λ a b. leb b.created_at a.created_at) (filter (λ r. r.agent_id == agent_id) d.runs))

unfoldable pub get_grants : String → Action (List PolicyGrant)
get_grants agent_id = do get_agent agent_id; read_db (list_grants agent_id)

abbrev source_of : Option String → Database → Option Agent
source_of none d = none
source_of (some id) d = agent_of id d

abbrev log_foreign_source : Option Agent → String → Action (Unit {0})
log_foreign_source none by_owner = pure tt
log_foreign_source (some source) by_owner =
    if not (source.owner_id == by_owner)
    then log_cross_tenant source.id by_owner "api:POST" ("agent/" ++ source.id)
    else pure tt

-- The service's `createGrant`, which records what that of grants.ts refuses in silence.
unfoldable pub create_grant : GrantInput → String → Action PolicyGrant
create_grant input by_owner = do
  assert_agent_ownership input.to_agent by_owner "api:POST"
  source ← read_db (source_of input.from_agent)
  log_foreign_source source by_owner
  Grants.create_grant input by_owner
