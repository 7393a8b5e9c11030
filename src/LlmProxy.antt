-- ===== src/LlmProxy.antt =====
-- apps/server/src/llm-proxy.ts: the proxy before the model. `fetch` is a parameter: a status, or
-- nothing where the request fails.
pub mod Live
use tik_tok_jam.Base.{
  ℕ, String, Bool, true, false, ◌&&◌, Option, none, some, ◌==◌, leb, ltb, if◌then◌else◌, Eq-String,
}
use tik_tok_jam.Types.Enums.{RunEventKind, Decision}
use tik_tok_jam.Types.Records.{RunToken, Fields, null, num, obj, field, done}
use tik_tok_jam.Action.{Action, pure, read_db, now, ◌>>=◌, ◌>>◌}
use tik_tok_jam.Audit.{record_event}
use tik_tok_jam.Auth.{AgentPrincipal, Principal, PrincipalType, verify_token}
use tik_tok_jam.Grants.{token_of, is_null}
use tik_tok_jam.Gateway.Context.{bearer_of}

pub record LlmProxyDeps : Type 0 where
  pub jwt_verify : String → Option Fields
  pub ark_api_key : String
  pub fetch : String → Option ℕ

pub data ProxyReply : Type 0 where
  invalid_token inactive unconfigured unavailable : ProxyReply
  forwarded : ℕ → ProxyReply

abbrev pub is_active : AgentPrincipal → ℕ → Option RunToken → Bool
is_active principal at none = false
is_active principal at (some token) =
    token.agent_id == principal.agent_id
    && token.owner_id == principal.owner_id
    && token.run_id == principal.run_id
    && is_null token.revoked_at
    && ltb at token.expires_at

abbrev log_call : AgentPrincipal → Decision → Option String → Fields → Action (Unit {0})
log_call principal decision reason detail = do
  record_event (record {
    run_id = some principal.run_id;
    agent_id = principal.agent_id;
    owner_id = principal.owner_id;
    kind = RunEventKind.llm;
    action = "responses";
    resource = "ark";
    decision = some decision;
    reason = reason;
    detail = obj detail;
  })
  pure tt

abbrev is_ok : ℕ → Bool
is_ok status = leb 200 status && leb status 299

abbrev forward : LlmProxyDeps → AgentPrincipal → Option ℕ → Action ProxyReply
forward deps principal none = do
  log_call principal Decision.deny (some "upstream-unavailable") done
  pure ProxyReply.unavailable
forward deps principal (some status) = do
  log_call principal (if is_ok status then Decision.allow else Decision.deny)
      (if is_ok status then none else some "upstream-status")
      (field "status" (num status) (field "usage" null done))
  pure (ProxyReply.forwarded status)

abbrev pub call_model : LlmProxyDeps → AgentPrincipal → String → Bool → Action ProxyReply
call_model deps principal body false = do
  log_call principal Decision.deny (some "revoked-or-expired") done
  pure ProxyReply.inactive
call_model deps principal body true =
    if deps.ark_api_key == ""
    then pure ProxyReply.unconfigured
    else forward deps principal (deps.fetch body)

abbrev agent_from : LlmProxyDeps → String → Option Principal
agent_from deps raw =
    if raw == "" then none else verify_token deps.jwt_verify raw PrincipalType.agent

abbrev respond : LlmProxyDeps → String → Option Principal → Action ProxyReply
respond deps body none = pure ProxyReply.invalid_token
respond deps body (some (Principal.human user_id)) = pure ProxyReply.invalid_token
respond deps body (some (Principal.agent principal)) = do
  token ← read_db (token_of principal.jti)
  at ← now
  call_model deps principal body (is_active principal at token)

-- `POST /llm/responses`
unfoldable pub post_responses : LlmProxyDeps → Option String → String → Action ProxyReply
post_responses deps header body = respond deps body (agent_from deps (bearer_of header))
