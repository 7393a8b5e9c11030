-- ===== src/Store/Stored.antt =====
-- Today's rows as they are written to the file, and what reading them again gives.
use mathlib.Core.Path.{sym}
use tik_tok_jam.Base.{
  ℕ, String, ◌≡◌, refl, ap, not, some, List, [], ◌∷◌, map, push, filter, ◌∙◌, ◌==◌, Eq-String,
}
use tik_tok_jam.Types.Records.{
  Database, Agent, AgentPermissions, RunToken, PolicyGrant, ApprovalRequest, Label,
  FingerprintEntry,
}
use tik_tok_jam.Action.{ok, World}
use tik_tok_jam.Ifc.{fingerprint, entry_for}
use tik_tok_jam.Ifc.Screen.{clear_fingerprints}
use tik_tok_jam.Service.Agents.{PermissionsPatch}
use tik_tok_jam.Store.Raw.{
  RawLabel, RawFingerprint, RawTaint, RawToken, RawGrant, RawCard, RawAgent, RawDatabase,
}
use tik_tok_jam.Store.Migration.{
  migrate_taint, migrate_token, migrate_grant, migrate_card, migrate_agent, migrate_database,
  load_fingerprints, load_entry,
}

abbrev stored_taint : Label → RawTaint
stored_taint l = record {
  grant_id = l.grant_id;
  origin = l.origin;
  egress = l.egress;
  level = l.level;
  trust = some l.trust;
}

abbrev stored_token : RunToken → RawToken
stored_token t = record {
  jti = t.jti;
  run_id = t.run_id;
  agent_id = t.agent_id;
  owner_id = t.owner_id;
  scp = t.scp;
  taints = some (map stored_taint t.taints);
  egress_allow = some t.egress_allow;
  estimated = some t.estimated;
  withheld = some t.withheld;
  thread_id = t.thread_id;
  issued_at = t.issued_at;
  expires_at = t.expires_at;
  revoked_at = t.revoked_at;
}

abbrev stored_grant : PolicyGrant → RawGrant
stored_grant g = record {
  id = g.id;
  from_owner = g.from_owner;
  from_agent = g.from_agent;
  to_agent = g.to_agent;
  resource = g.resource;
  actions = g.actions;
  egress = g.egress;
  trust_content = some g.trust_content;
  created_at = g.created_at;
  expires_at = g.expires_at;
  revoked_at = g.revoked_at;
}

abbrev stored_card : ApprovalRequest → RawCard
stored_card c = record {
  id = c.id;
  source = c.source;
  kind = c.kind;
  agent_id = c.agent_id;
  owner_id = c.owner_id;
  run_id = c.run_id;
  jti = c.jti;
  resource = c.resource;
  action = c.action;
  scope = c.scope;
  grant = c.grant;
  reason = c.reason;
  risk = some c.risk;
  evidence = some c.evidence;
  status = c.status;
  created_at = c.created_at;
  decided_at = c.decided_at;
  decided_by = c.decided_by;
}

abbrev stored_permissions : AgentPermissions → PermissionsPatch
stored_permissions p = record {
  sandbox = some p.sandbox;
  network = some p.network;
  web_search = some p.web_search;
  tools = some p.tools;
}

abbrev stored_agent : Agent → RawAgent
stored_agent a = record {
  id = a.id;
  name = a.name;
  description = a.description;
  instructions = a.instructions;
  owner_id = some a.owner_id;
  permissions = some (stored_permissions a.permissions);
  temp_scopes = some a.temp_scopes;
  status = a.status;
  workspace_path = a.workspace_path;
  codex_thread_id = a.codex_thread_id;
  last_error = a.last_error;
  created_at = a.created_at;
  updated_at = a.updated_at;
}

-- What `persist` writes.
abbrev pub stored : Database → RawDatabase
stored d = record {
  version = some 2;
  agents = some (map stored_agent d.agents);
  messages = some d.messages;
  runs = some d.runs;
  run_tokens = some (map stored_token d.run_tokens);
  policy_grants = some (map stored_grant d.policy_grants);
  approvals = some (map stored_card d.approvals);
  run_events = some d.run_events;
  fingerprints = some d.fingerprints;
}

module _ {A B : Type 0} (write : A → B) (read : B → A) (back : (a : A) → read (write a) ≡ a) where
  map-back : (xs : List A) → map read (map write xs) ≡ xs
  map-back [] = refl
  map-back (x ∷ xs) = cc (back x, map-back xs)

token-back : (t : RunToken) → migrate_token (stored_token t) ≡ t
token-back t =
    ap (λ ls. record t { taints = ls }) (map-back stored_taint migrate_taint (λ l. refl) t.taints)

-- A store that was written to the file is read back as it was, whoever the default owner is.
pub migrate_database-stored :
    (d : Database) (default_owner : String) → migrate_database (stored d) default_owner ≡ ok d
unfolding migrate_database
migrate_database-stored d default_owner = cc (
  map-back stored_agent (migrate_agent default_owner) (λ a. refl) d.agents,
  map-back stored_token migrate_token token-back d.run_tokens,
  map-back stored_grant migrate_grant (λ g. refl) d.policy_grants,
  map-back stored_card migrate_card (λ c. refl) d.approvals,
)

abbrev stored_label : Label → RawLabel
stored_label l = record {
  grant_id = l.grant_id;
  origin = l.origin;
  egress = l.egress;
  level = some l.level;
  trust = some l.trust;
}

abbrev pub stored_fingerprint : FingerprintEntry → RawFingerprint
stored_fingerprint e = record { run_id = e.run_id; label = stored_label e.label; hashes = e.hashes }

-- A server that starts anew on the file that the store `d` was written to.
abbrev pub restart : Database → World → World
restart d w = load_fingerprints (map stored_fingerprint d.fingerprints) w

-- The cache of fingerprints stays that of the store, where it was so, when one run's read is
-- fingerprinted and another's are cleared; and a restart after that builds the same cache.
pub load_fingerprints-fingerprint :
    (digest : List ℕ → String) (run_id cleared : String) (label : Label) (content : String)
    (w fresh : World)
    → w.index ≡ w.db.fingerprints
    → let after = (clear_fingerprints cleared (fingerprint digest run_id label content w).1).1 in
      (after.index ≡ after.db.fingerprints) × ((restart after.db fresh).index ≡ after.index)
unfolding load_fingerprints fingerprint clear_fingerprints
load_fingerprints-fingerprint digest run_id cleared label content w fresh synced =
    let kept =
      ap
        (λ es.
          filter (λ e. not (e.run_id == cleared)) (push es (entry_for digest run_id label content)))
        synced in
    (
      kept,
      map-back stored_fingerprint load_entry (λ e. refl)
            (clear_fingerprints cleared
              (fingerprint digest run_id label content w).1).1.db.fingerprints
          ∙ sym kept,
    )
