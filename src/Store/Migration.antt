-- ===== src/Store/Migration.antt =====
-- apps/server/src/store.ts: `migrateDatabase`, which turns the stored file's rows into today's; ifc.ts:
-- `loadFingerprints`.
use Prim.Native.String.{◌++◌}
use tik_tok_jam.Base.{
  ℕ, String, Bool, false, ◌||◌, not, Option, none, some, List, [], map, nat_eq, if◌then◌else◌,
}
use tik_tok_jam.Types.Enums.{SecurityLevel, Trust, ApprovalRisk}
use tik_tok_jam.Types.Records.{
  Database, Agent, RunToken, PolicyGrant, ApprovalRequest, ApprovalEvidence, Label,
  FingerprintEntry,
}
use tik_tok_jam.Action.{Result, ok, err, failure, World}
use tik_tok_jam.Store.{default_permissions}
use tik_tok_jam.Grants.{or_else}
use tik_tok_jam.Service.Agents.{patch_permissions}
use tik_tok_jam.Store.Raw.{
  RawFingerprint, RawTaint, RawToken, RawGrant, RawCard, RawAgent, RawDatabase,
}

abbrev pub migrate_taint : RawTaint → Label
migrate_taint taint = record {
  grant_id = taint.grant_id;
  origin = taint.origin;
  egress = taint.egress;
  level = taint.level;
  trust = or_else taint.trust Trust.untrusted;
}

abbrev pub migrate_token : RawToken → RunToken
migrate_token token = record {
  jti = token.jti;
  run_id = token.run_id;
  agent_id = token.agent_id;
  owner_id = token.owner_id;
  scp = token.scp;
  taints = map migrate_taint (or_else token.taints []);
  egress_allow = or_else token.egress_allow [];
  estimated = or_else token.estimated [];
  withheld = or_else token.withheld [];
  thread_id = token.thread_id;
  issued_at = token.issued_at;
  expires_at = token.expires_at;
  revoked_at = token.revoked_at;
}

abbrev pub migrate_grant : RawGrant → PolicyGrant
migrate_grant grant = record {
  id = grant.id;
  from_owner = grant.from_owner;
  from_agent = grant.from_agent;
  to_agent = grant.to_agent;
  resource = grant.resource;
  actions = grant.actions;
  egress = grant.egress;
  trust_content = or_else grant.trust_content false;
  created_at = grant.created_at;
  expires_at = grant.expires_at;
  revoked_at = grant.revoked_at;
}

abbrev pub plain_evidence : RawCard → ApprovalEvidence
plain_evidence card = record {
  user_asked = none;
  attempting = card.action ++ " on " ++ card.resource;
  outside_task_scope = false;
  untrusted_origin = none;
  classified_origin = none;
}

abbrev pub migrate_card : RawCard → ApprovalRequest
migrate_card card = record {
  id = card.id;
  source = card.source;
  kind = card.kind;
  agent_id = card.agent_id;
  owner_id = card.owner_id;
  run_id = card.run_id;
  jti = card.jti;
  resource = card.resource;
  action = card.action;
  scope = card.scope;
  grant = card.grant;
  reason = card.reason;
  risk = or_else card.risk ApprovalRisk.routine;
  evidence = or_else card.evidence (plain_evidence card);
  status = card.status;
  created_at = card.created_at;
  decided_at = card.decided_at;
  decided_by = card.decided_by;
}

abbrev pub migrate_agent : String → RawAgent → Agent
migrate_agent default_owner agent = record {
  id = agent.id;
  name = agent.name;
  description = agent.description;
  instructions = agent.instructions;
  owner_id = or_else agent.owner_id default_owner;
  permissions = patch_permissions default_permissions agent.permissions;
  temp_scopes = or_else agent.temp_scopes [];
  status = agent.status;
  workspace_path = agent.workspace_path;
  codex_thread_id = agent.codex_thread_id;
  last_error = agent.last_error;
  created_at = agent.created_at;
  updated_at = agent.updated_at;
}

abbrev pub migrated : RawDatabase → List RawAgent → String → Database
migrated raw agents default_owner = record {
  agents = map (migrate_agent default_owner) agents;
  messages = or_else raw.messages [];
  runs = or_else raw.runs [];
  run_tokens = map migrate_token (or_else raw.run_tokens []);
  policy_grants = map migrate_grant (or_else raw.policy_grants []);
  approvals = map migrate_card (or_else raw.approvals []);
  run_events = or_else raw.run_events [];
  fingerprints = or_else raw.fingerprints [];
}

abbrev pub is_supported : Option ℕ → Bool
is_supported none = false
is_supported (some version) = nat_eq version 1 || nat_eq version 2

abbrev migrate_agents : RawDatabase → Option (List RawAgent) → String → Result Database
migrate_agents raw none default_owner = err (failure "Unsupported database format")
migrate_agents raw (some agents) default_owner =
    if not (is_supported raw.version)
    then err (failure "Unsupported database format")
    else ok (migrated raw agents default_owner)

unfoldable pub migrate_database : RawDatabase → String → Result Database
migrate_database raw default_owner = migrate_agents raw raw.agents default_owner

abbrev pub load_entry : RawFingerprint → FingerprintEntry
load_entry entry = record {
  run_id = entry.run_id;
  label = record {
    grant_id = entry.label.grant_id;
    origin = entry.label.origin;
    egress = entry.label.egress;
    level = or_else entry.label.level SecurityLevel.internal;
    trust = or_else entry.label.trust Trust.untrusted;
  };
  hashes = entry.hashes;
}

-- The cache that a restart builds from the stored entries.
unfoldable pub load_fingerprints : List RawFingerprint → World → World
load_fingerprints stored w = record w { index = map load_entry stored }
