-- ===== src/Ark/Quiet.antt =====
-- From a prompt to what leaves the server: scope-estimator.ts, the minting of agent-service.ts and
-- gateway.ts together.
use tik_tok_jam.Base.{
  ℕ, String, ◌≡◌, refl, ap, ◌∙◌, inl, inr, Bool, true, false, includes, ◌==◌, arith, Bool-cases,
}
use tik_tok_jam.Types.Enums.{Scope}
use tik_tok_jam.Types.Equality.{Eq-Scope}
use tik_tok_jam.Types.Records.{Agent, Database}
use tik_tok_jam.Action.{World, Effect, webhook, crm_note}
use tik_tok_jam.Store.{live_temp_scopes}
use tik_tok_jam.Gateway.Context.{GatewayDeps, Ctx}
use tik_tok_jam.Gateway.Tools.{ToolCall, handle_call}
use tik_tok_jam.Gateway.Outbound.{Permitted, handle_call-Sends}
use tik_tok_jam.Service.Mint.{mint_token}
use tik_tok_jam.Ark.Estimator.{keyword_scopes, rule, utf16}
use tik_tok_jam.Ark.Least.{mint_token-keyword_scopes}

module _ (agent : Agent) (prompt : String) (timeout at : ℕ) (jti run_id : String)
    (d : Database) where
  unasked :
      (s : Scope)
      → (s == Scope.workspace_read) ≡ false
      → rule s (utf16 prompt) ≡ false
      → includes (live_temp_scopes agent at) s ≡ false
      → includes (mint_token agent (keyword_scopes prompt) timeout at jti run_id d).scp s ≡ false
  unasked s other silent lent =
      elim (Bool-cases
        (includes (mint_token agent (keyword_scopes prompt) timeout at jti run_id d).scp s)) [
          | inl held ↦
              let why = mint_token-keyword_scopes agent prompt timeout at jti run_id d s held in
              absurd (ground (arith, why, other, silent, lent))
          | inr free ↦ free
        ]

  unsent :
      (ctx : Ctx) (w : World) (e : Effect)
      → includes ctx.token.scp Scope.webhook_send ≡ false
      → includes ctx.token.scp Scope.crm_write ≡ false
      → Permitted ctx w e
      → Path Bool true false
  unsent ctx w (webhook url body) h k p = ground (arith, h, p.0)
  unsent ctx w (crm_note owner customer note) h k p = ground (arith, k, p.1)

  -- With enforcement on, no tool call of a run sends anything outside, whatever the call and whatever the
  -- agent has read, where the run's prompt has neither the pattern of sending nor that of logging in the
  -- CRM, its token holds the scopes that were minted from the prompt by the keyword grammar, and no human
  -- had granted the agent one of those two scopes for the time being.
  pub handle_call-quiet :
      (deps : GatewayDeps) (ctx : Ctx) (call : ToolCall) (w : World)
      → deps.enforce ≡ true
      → ctx.token.scp ≡ (mint_token agent (keyword_scopes prompt) timeout at jti run_id d).scp
      → rule Scope.webhook_send (utf16 prompt) ≡ false
      → rule Scope.crm_write (utf16 prompt) ≡ false
      → includes (live_temp_scopes agent at) Scope.webhook_send ≡ false
      → includes (live_temp_scopes agent at) Scope.crm_write ≡ false
      → (handle_call deps ctx call w).1.sent ≡ w.sent
  handle_call-quiet deps ctx call w on minted no_send no_log send_unlent log_unlent =
      let no_webhook =
        ap (λ ss. includes ss Scope.webhook_send) minted
        ∙ unasked Scope.webhook_send refl no_send send_unlent in
      let no_note =
        ap (λ ss. includes ss Scope.crm_write) minted
        ∙ unasked Scope.crm_write refl no_log log_unlent in
      elim (handle_call-Sends deps ctx w on call) [
        | inl none_sent ↦ none_sent
        | inr (e, one, permitted) ↦
            absurd (ground (arith, unsent ctx w e no_webhook no_note permitted))
      ]
