-- ===== src/Gateway/Outbound.antt =====
-- apps/server/src/gateway.ts: what leaves the server by a tool call, and when.
use Prim.Native.String.{◌++◌}
use tik_tok_jam.Base.{
  String, ◌≡◌, refl, ◌∙◌, ◌⊎◌, inl, inr, true, Option, includes, arith, push, Eq-String,
}
use tik_tok_jam.Types.Enums.{Egress, Scope, GrantAction}
use tik_tok_jam.Types.Equality.{Eq-Scope}
use tik_tok_jam.Action.{World, Effect, webhook, crm_note}
use tik_tok_jam.Action.Cases.{Result-cases}
use tik_tok_jam.Grants.{token_of}
use tik_tok_jam.Ifc.{add_taint, fingerprint}
use tik_tok_jam.Gateway.Context.{GatewayDeps, Ctx}
use tik_tok_jam.Gateway.Checks.{Tool, resolve_workspace, tag_self_read, Resolved}
use tik_tok_jam.Gateway.Flow.{
  MayFlow, egress_gate_keeps, egress_gate_passes, scope_of_keeps, scope_of_lem,
  resolve_workspace_lem,
}
use tik_tok_jam.Gateway.Confined.{jail_lem}
use tik_tok_jam.Gateway.Pipeline.{run_tool-sent}
use tik_tok_jam.Gateway.Tools.{
  ToolCall, workspace_read, workspace_write, crm_read, crm_write, webhook_send, handle_call,
  do_webhook_send, do_crm_write, do_crm_read, do_workspace_read, do_workspace_write, read_resolved,
  write_resolved, tag_read, is_agent,
}

-- When an effect may happen: the token has the scope of its tool, and the flow was let through.
abbrev pub Permitted : Ctx → World → Effect → Type 0
Permitted ctx w (webhook url body) =
    (includes ctx.token.scp Scope.webhook_send ≡ true)
    × MayFlow (token_of ctx.jti w.db) Egress.external url true
Permitted ctx w (crm_note owner customer note) =
    (owner ≡ ctx.owner_id)
    × (includes ctx.token.scp Scope.crm_write ≡ true)
    × MayFlow (token_of ctx.jti w.db) Egress.internal (ctx.owner_id ++ "/crm") true

abbrev pub Sends : Ctx → World → World → Type 0
Sends ctx w w' = (w'.sent ≡ w.sent) ⊎ ((e : Effect) × (w'.sent ≡ push w.sent e) × Permitted ctx w e)

module _ (deps : GatewayDeps) (ctx : Ctx) (w : World) (on : deps.enforce ≡ true) where
  pub do_webhook_send-sent :
      (url body : String)
      → ((do_webhook_send deps ctx url body w).1.sent ≡ w.sent)
        ⊎ (((do_webhook_send deps ctx url body w).1.sent ≡ push w.sent (webhook url body))
            × (includes ctx.token.scp Scope.webhook_send ≡ true)
            × MayFlow (token_of ctx.jti w.db) Egress.external url true)
  unfolding do_webhook_send
  do_webhook_send-sent url body = ground (
    arith,
    scope_of_keeps deps ctx Tool.webhook_send w,
    scope_of_lem deps ctx Tool.webhook_send w,
    egress_gate_keeps deps ctx Egress.external body url true w,
    egress_gate_passes deps ctx Egress.external body url true w,
  )

  do_webhook_send-Sends : (url body : String) → Sends ctx w (do_webhook_send deps ctx url body w).1
  do_webhook_send-Sends url body = elim (do_webhook_send-sent url body) [
    | inl none_sent ↦ inl none_sent
    | inr (one, scoped, flows) ↦ inr (webhook url body, one, (scoped, flows))
  ]

  do_crm_write-sent :
      (customer note : String)
      → ((do_crm_write deps ctx customer note w).1.sent ≡ w.sent)
        ⊎ (((do_crm_write deps ctx customer note w).1.sent
              ≡ push w.sent (crm_note ctx.owner_id customer note))
            × (includes ctx.token.scp Scope.crm_write ≡ true)
            × MayFlow (token_of ctx.jti w.db) Egress.internal (ctx.owner_id ++ "/crm") true)
  unfolding do_crm_write
  do_crm_write-sent customer note = ground (
    arith,
    scope_of_keeps deps ctx Tool.crm_write w,
    scope_of_lem deps ctx Tool.crm_write w,
    egress_gate_keeps deps ctx Egress.internal note (ctx.owner_id ++ "/crm") true w,
    egress_gate_passes deps ctx Egress.internal note (ctx.owner_id ++ "/crm") true w,
  )

  do_crm_write-Sends :
      (customer note : String) → Sends ctx w (do_crm_write deps ctx customer note w).1
  do_crm_write-Sends customer note = elim (do_crm_write-sent customer note) [
    | inl none_sent ↦ inl none_sent
    | inr (one, scoped, flows) ↦
        inr (crm_note ctx.owner_id customer note, one, (refl, scoped, flows))
  ]

  do_crm_read-sent : (customer : Option String) → (do_crm_read deps ctx customer w).1.sent ≡ w.sent
  unfolding do_crm_read add_taint fingerprint
  do_crm_read-sent customer = ground (arith, scope_of_keeps deps ctx Tool.crm_read w)

  read_resolved-sent :
      (rel : String) (r : Resolved) (v : World) → (read_resolved deps ctx rel r v).1.sent ≡ v.sent
  unfolding read_resolved tag_read add_taint fingerprint tag_self_read
  read_resolved-sent rel r v = ground (arith, (jail_lem deps.workspace_root r.target.id rel v).0)

  write_resolved-sent :
      (rel body : String) (r : Resolved) (v : World)
      → (write_resolved deps rel body r v).1.sent ≡ v.sent
  unfolding write_resolved
  write_resolved-sent rel body r v =
      ground (arith, (jail_lem deps.workspace_root r.target.id rel v).0)

  do_workspace_read-sent :
      (agent rel : String) → (do_workspace_read deps ctx agent rel w).1.sent ≡ w.sent
  unfolding do_workspace_read
  do_workspace_read-sent agent rel =
      let (resolves, db, files, sent) =
        resolve_workspace_lem deps ctx agent GrantAction.read w on in
      let v = (resolve_workspace deps ctx agent GrantAction.read w).1 in
      elim (Result-cases (resolve_workspace deps ctx agent GrantAction.read w).0) [
        | inl (r, found) ↦
            ground
              (arith, scope_of_keeps deps ctx Tool.workspace_read w, read_resolved-sent rel r v)
        | inr (e, stopped) ↦ ground (arith, scope_of_keeps deps ctx Tool.workspace_read w)
      ]

  do_workspace_write-sent :
      (agent rel body : String) (dest : Egress) (resource : String)
      → (do_workspace_write deps ctx agent rel body dest resource w).1.sent ≡ w.sent
  unfolding do_workspace_write
  do_workspace_write-sent agent rel body dest resource =
      let (resolves, db, files, sent) =
        resolve_workspace_lem deps ctx agent GrantAction.write w on in
      let v = (resolve_workspace deps ctx agent GrantAction.write w).1 in
      elim (Result-cases (resolve_workspace deps ctx agent GrantAction.write w).0) [
        | inl (r, found) ↦ ground (
          arith,
          scope_of_keeps deps ctx Tool.workspace_write w,
          egress_gate_keeps deps ctx dest body resource (is_agent dest) v,
          write_resolved-sent rel body r v,
        )
        | inr (e, stopped) ↦ ground (arith, scope_of_keeps deps ctx Tool.workspace_write w)
      ]

  -- With enforcement on, a tool call sends nothing, or one thing that was permitted: the token has the
  -- tool's scope, and either a human approved the destination for this run or every taint of the run
  -- permits the destination's class and is trusted.
  pub handle_call-Sends : (call : ToolCall) → Sends ctx w (handle_call deps ctx call w).1
  unfolding handle_call
  handle_call-Sends (workspace_read agent rel) =
      inl (run_tool-sent _ _ _ _ w ∙ do_workspace_read-sent agent rel)
  handle_call-Sends (workspace_write agent rel body) =
      inl (run_tool-sent _ _ _ _ w ∙ do_workspace_write-sent agent rel body _ _)
  handle_call-Sends (crm_read customer) = inl (run_tool-sent _ _ _ _ w ∙ do_crm_read-sent customer)
  handle_call-Sends (crm_write customer note) = rw run_tool-sent (do_crm_write-Sends customer note)
  handle_call-Sends (webhook_send url body) = rw run_tool-sent (do_webhook_send-Sends url body)
