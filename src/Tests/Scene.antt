-- ===== src/Tests/Scene.antt =====
-- A tenant with two agents for the examples: the writer, whose workspace the reader may read under a
-- grant, and the reader, whose run is live.
use tik_tok_jam.Base.{
  String, true, false, Option, none, some, List, [], ◌∷◌, ◌==◌, if◌then◌else◌, Eq-String,
}
use tik_tok_jam.Types.Enums.{Sandbox, Scope, Egress, Resource, GrantAction, AgentStatus}
use tik_tok_jam.Types.Records.{Agent, RunToken, PolicyGrant, Database}
use tik_tok_jam.Store.{empty_database}
use tik_tok_jam.Action.{World, ok}
use tik_tok_jam.Gateway.Context.{GatewayDeps, AgentClaims, Ctx, ctx_of}

abbrev pub agent_named : String → String → List Scope → Agent
agent_named id name tools = record {
  id = id;
  name = name;
  description = "";
  instructions = "";
  owner_id = "user-jean";
  permissions = record {
    sandbox = Sandbox.workspace_write;
    network = true;
    web_search = false;
    tools = tools;
  };
  temp_scopes = [];
  status = AgentStatus.ready;
  workspace_path = "/ws";
  codex_thread_id = none;
  last_error = none;
  created_at = 1;
  updated_at = 1;
}

abbrev pub writer : Agent
writer = agent_named "a1" "writer" []

abbrev pub reader : Agent
reader = agent_named "a2" "reader" (Scope.workspace_read ∷ Scope.webhook_send ∷ [])

abbrev pub grant : PolicyGrant
grant = record {
  id = "g1";
  from_owner = "user-jean";
  from_agent = some "a1";
  to_agent = "a2";
  resource = Resource.workspace;
  actions = GrantAction.read ∷ [];
  egress = Egress.internal ∷ [];
  trust_content = false;
  created_at = 1;
  expires_at = some 50;
  revoked_at = none;
}

abbrev pub token : RunToken
token = record {
  jti = "j1";
  run_id = "r1";
  agent_id = "a2";
  owner_id = "user-jean";
  scp = Scope.workspace_read ∷ Scope.webhook_send ∷ [];
  taints = [];
  egress_allow = [];
  estimated = [];
  withheld = [];
  thread_id = none;
  issued_at = 1;
  expires_at = 90;
  revoked_at = none;
}

abbrev pub database : Database
database = record empty_database {
  agents = writer ∷ reader ∷ [];
  run_tokens = token ∷ [];
  policy_grants = grant ∷ [];
}

abbrev pub claims : AgentClaims
claims = record { sub = "a2"; own = "user-jean"; run = "r1"; jti = "j1"; scp = [] }

abbrev pub verify : String → Option AgentClaims
verify raw = if raw == "good" then some claims else none

abbrev pub deps : GatewayDeps
deps = record {
  verify_agent_token = verify;
  enforce = true;
  workspace_root = "/ws";
  with_owner = none;
  webhook_sink = some (λ url body. ok 200);
  digest = λ codes. "hash";
}

abbrev pub ctx : Ctx
ctx = ctx_of claims token

abbrev pub file : String → Option String
file path = if path == "/ws/a1/plan.md" then some "the plan" else none

abbrev pub world : World
world = record {
  db = database;
  index = [];
  files = file;
  sent = [];
  clock = λ n. 10;
  uuids = λ n. "id";
}
