-- ===== src/Store.antt =====
-- apps/server/src/store.ts: the scopes that a new token may carry, and the defaults of an agent.
pub mod Migration
pub mod Raw
pub mod Stored
use tik_tok_jam.Base.{ℕ, true, false, List, [], map, filter, ltb, unique}
use mathlib.Core.List.{◌++◌}
use tik_tok_jam.Types.Enums.{Scope, Sandbox}
use tik_tok_jam.Types.Equality.{Eq-Scope}
use tik_tok_jam.Types.Records.{Agent, AgentPermissions, Database}

abbrev pub empty_database : Database
empty_database = record {
  agents = [];
  messages = [];
  runs = [];
  run_tokens = [];
  policy_grants = [];
  approvals = [];
  run_events = [];
  fingerprints = [];
}

-- The scopes of the `tempScopes` that have not expired.
abbrev pub live_temp_scopes : Agent → ℕ → List Scope
live_temp_scopes agent at = map (λ t. t.scope) (filter (λ t. ltb at t.expires_at) agent.temp_scopes)

unfoldable pub effective_scopes : Agent → ℕ → List Scope
unfolding unique
effective_scopes agent at = unique (agent.permissions.tools ++ live_temp_scopes agent at)

abbrev pub default_permissions : AgentPermissions
default_permissions = record {
  sandbox = Sandbox.workspace_write;
  network = true;
  web_search = false;
  tools = [];
}
