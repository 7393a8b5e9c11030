-- ===== src/LlmProxy/Live.antt =====
-- apps/server/src/llm-proxy.ts: which calls reach the model.
use tik_tok_jam.Base.{
  ℕ, ◌<◌, String, ◌≡◌, refl, Option, some, none, arith, Eq-String, Bool, true, false, Option-cases,
  inl, inr, ◌==◌,
}
use tik_tok_jam.Types.Records.{RunToken}
use tik_tok_jam.Action.{World, ok}
use tik_tok_jam.Audit.{record_event}
use tik_tok_jam.Grants.{token_of}
use tik_tok_jam.Gateway.Context.{bearer_of}
use tik_tok_jam.Auth.{AgentPrincipal, Principal, PrincipalType, verify_token}
use tik_tok_jam.LlmProxy.{
  LlmProxyDeps, ProxyReply, is_active, agent_from, respond, call_model, post_responses,
}

-- A call that was forwarded: its agent's token verified, and the token's row names the same run, agent
-- and owner, and is neither revoked nor expired.
pub record Forwarded (deps : LlmProxyDeps) (header : Option String) (w : World) : Type 0 where
  pub principal : AgentPrincipal
  pub token : RunToken
  pub verified :
      verify_token deps.jwt_verify (bearer_of header) PrincipalType.agent
      ≡ some (Principal.agent principal)
  pub row : token_of principal.jti w.db ≡ some token
  pub run : token.run_id ≡ principal.run_id
  pub agent : token.agent_id ≡ principal.agent_id
  pub owner : token.owner_id ≡ principal.owner_id
  pub unrevoked : token.revoked_at ≡ none
  pub unexpired : w.clock 0 < token.expires_at

active_row :
    (p : AgentPrincipal) (at : ℕ) (found : Option RunToken)
    → is_active p at found ≡ true
    → (t : RunToken) × (found ≡ some t)
      × (t.run_id ≡ p.run_id)
      × (t.agent_id ≡ p.agent_id)
      × (t.owner_id ≡ p.owner_id)
      × (t.revoked_at ≡ none)
      × (at < t.expires_at)
active_row p at none h = absurd (ground arith)
active_row p at (some t) h = (
  t,
  refl,
  Eq-String.sound _ _ (ground arith),
  Eq-String.sound _ _ (ground arith),
  Eq-String.sound _ _ (ground arith),
  ground arith,
  ground arith,
)

active_call :
    (deps : LlmProxyDeps) (p : AgentPrincipal) (body : String) (active : Bool) (w : World)
    (status : ℕ)
    → (call_model deps p body active w).0 ≡ ok (ProxyReply.forwarded status)
    → (active ≡ true) × (deps.fetch body ≡ some status) × ((deps.ark_api_key == "") ≡ false)
unfolding record_event
active_call deps p body true w status h = ground arith
active_call deps p body false w status h = absurd (ground arith)

-- A model call that is answered from upstream was made for a verified agent token whose row is live and
-- names the same run, agent and owner; a key is configured, and the status is that of upstream.
pub post_responses-Forwarded :
    (deps : LlmProxyDeps) (header : Option String) (body : String) (w : World) (status : ℕ)
    → (post_responses deps header body w).0 ≡ ok (ProxyReply.forwarded status)
    → Forwarded deps header w × (deps.fetch body ≡ some status) × ((deps.ark_api_key == "") ≡ false)
unfolding post_responses
post_responses-Forwarded deps header body w status h =
    elim (Option-cases (agent_from deps (bearer_of header))) [
      | inl missing ↦ absurd (ground (arith, missing))
      | inr (Principal.human user_id, found) ↦ absurd (ground (arith, found))
      | inr (Principal.agent p, found) ↦
          let called : (respond deps body (some (Principal.agent p)) w).0
              ≡ ok (ProxyReply.forwarded status) =
            rw found at h in
          let (active, fetched, key) = active_call deps p body _ _ status called in
          let (token, row, run, agent, owner, unrevoked, unexpired) =
            active_row p (w.clock 0) (token_of p.jti w.db) active in
          (
            record {
              principal = p;
              token = token;
              verified = ground (arith, found);
              row = row;
              run = run;
              agent = agent;
              owner = owner;
              unrevoked = unrevoked;
              unexpired = unexpired;
            },
            fetched,
            key,
          )
    ]
