-- ===== src/Gateway/Context.antt =====
-- apps/server/src/gateway.ts: what the gateway is given, and the authentication of a call.
use tik_tok_jam.Base.{ℕ, String, Bool, not, Option, none, some, List, ◌==◌, leb, Eq-String}
use tik_tok_jam.Types.Enums.{Scope, RunEventKind, Decision}
use tik_tok_jam.Types.Records.{RunToken, RunEvent, Fields, obj}
use tik_tok_jam.Text.{strip_prefix}
use tik_tok_jam.Action.{Action, Result, denied, pure, throw_if, require, read_db, now, ◌>>=◌, ◌>>◌}
use tik_tok_jam.Audit.{record_event}
use tik_tok_jam.Grants.{token_of, or_else, is_null}

pub record AgentClaims : Type 0 where
  pub sub : String
  pub own : String
  pub run : String
  pub jti : String
  pub scp : List Scope

-- The tenant's records behind row-level security, for an owner and an agent: the rows as JSON text,
-- and the id of a written row.
pub record Crm : Type 0 where
  pub select : String → String → Option String → Result String
  pub upsert : String → String → String → String → Result String

-- `GatewayDeps`, less the store, with the digest of node:crypto.
pub record GatewayDeps : Type 0 where
  pub verify_agent_token : String → Option AgentClaims
  pub enforce : Bool
  pub workspace_root : String
  pub with_owner : Option Crm
  pub webhook_sink : Option (String → String → Result ℕ)
  pub digest : List ℕ → String

pub record Ctx : Type 0 where
  pub sub : String
  pub own : String
  pub run : String
  pub jti : String
  pub token : RunToken
  pub owner_id : String

abbrev pub ctx_of : AgentClaims → RunToken → Ctx
ctx_of claims token = record {
  sub = claims.sub;
  own = claims.own;
  run = claims.run;
  jti = claims.jti;
  token = token;
  owner_id = token.owner_id;
}

-- The text behind "Bearer ", or the empty text.
abbrev pub bearer_of : Option String → String
bearer_of none = ""
bearer_of (some header) = or_else (strip_prefix "Bearer " header) ""

unfoldable pub authenticate : GatewayDeps → Option String → Action Ctx
authenticate deps header = do
  throw_if (bearer_of header == "") (denied 401 "no-token" "Authentication required")
  claims ←
      require (deps.verify_agent_token (bearer_of header))
        (denied 401 "bad-token" "Invalid agent token")
  found ← read_db (token_of claims.jti)
  token ← require found (denied 403 "unknown-token" "Unknown run token")
  throw_if (not (is_null token.revoked_at)) (denied 403 "revoked" "Agent token revoked by operator")
  at ← now
  throw_if (leb token.expires_at at) (denied 403 "expired" "Agent token expired")
  pure (ctx_of claims token)

-- `audit` for a call that is authenticated, and for one that is not.
unfoldable pub audit : Ctx → String → String → Decision → Option String → Fields → Action RunEvent
audit ctx action resource decision reason detail = record_event (record {
  run_id = some ctx.run;
  agent_id = ctx.sub;
  owner_id = ctx.own;
  kind = RunEventKind.gateway;
  action = action;
  resource = resource;
  decision = some decision;
  reason = reason;
  detail = obj detail;
})

unfoldable pub audit_unknown : String → String → Option String → Fields → Action RunEvent
audit_unknown action resource reason detail = record_event (record {
  run_id = none;
  agent_id = "unknown";
  owner_id = "unknown";
  kind = RunEventKind.gateway;
  action = action;
  resource = resource;
  decision = some Decision.deny;
  reason = reason;
  detail = obj detail;
})
