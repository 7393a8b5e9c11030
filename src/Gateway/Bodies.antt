-- ===== src/Gateway/Bodies.antt =====
-- apps/server/src/gateway.ts: the bodies of the tools, and the audit trail.
use Prim.Native.String.{◌++◌}
use tik_tok_jam.Base.{String, ◌≡◌, inl, inr, true, Option, arith}
use tik_tok_jam.Types.Enums.{Egress, GrantAction}
use tik_tok_jam.Action.{World}
use tik_tok_jam.Action.Cases.{Result-cases}
use tik_tok_jam.Ifc.{add_taint, add_taint_in, fingerprint}
use tik_tok_jam.Gateway.Context.{GatewayDeps, Ctx}
use tik_tok_jam.Gateway.Checks.{Tool, resolve_workspace, tag_self_read, Resolved}
use tik_tok_jam.Gateway.Flow.{egress_gate_keeps, scope_of_keeps}
use tik_tok_jam.Gateway.Confined.{jail_lem}
use tik_tok_jam.Gateway.Tools.{
  do_webhook_send, do_crm_write, do_crm_read, do_workspace_read, do_workspace_write, read_resolved,
  write_resolved, tag_read, is_agent,
}

module _ (deps : GatewayDeps) (ctx : Ctx) where
  pub read_resolved-events :
      (rel : String) (r : Resolved) (v : World)
      → (read_resolved deps ctx rel r v).1.db.run_events ≡ v.db.run_events
  unfolding read_resolved tag_read add_taint add_taint_in fingerprint tag_self_read
  read_resolved-events rel r v = ground (arith, (jail_lem deps.workspace_root r.target.id rel v).0)

  pub write_resolved-events :
      (rel body : String) (r : Resolved) (v : World)
      → (write_resolved deps rel body r v).1.db.run_events ≡ v.db.run_events
  unfolding write_resolved
  write_resolved-events rel body r v =
      ground (arith, (jail_lem deps.workspace_root r.target.id rel v).0)

  pub do_crm_read-events :
      (customer : Option String) (w : World)
      → (do_crm_read deps ctx customer w).1.db.run_events ≡ w.db.run_events
  unfolding do_crm_read add_taint add_taint_in fingerprint
  do_crm_read-events customer w = ground (arith, scope_of_keeps deps ctx Tool.crm_read w)

  pub do_crm_write-events :
      (customer note : String) (w : World)
      → (do_crm_write deps ctx customer note w).1.db.run_events ≡ w.db.run_events
  unfolding do_crm_write
  do_crm_write-events customer note w = ground (
    arith,
    scope_of_keeps deps ctx Tool.crm_write w,
    egress_gate_keeps deps ctx Egress.internal note (ctx.owner_id ++ "/crm") true w,
  )

  pub do_webhook_send-events :
      (url body : String) (w : World)
      → (do_webhook_send deps ctx url body w).1.db.run_events ≡ w.db.run_events
  unfolding do_webhook_send
  do_webhook_send-events url body w = ground (
    arith,
    scope_of_keeps deps ctx Tool.webhook_send w,
    egress_gate_keeps deps ctx Egress.external body url true w,
  )

  pub resolve_workspace-events :
      (ref : String) (action : GrantAction) (w : World)
      → (resolve_workspace deps ctx ref action w).1.db.run_events ≡ w.db.run_events
  unfolding resolve_workspace
  resolve_workspace-events ref action w = ground arith

  pub do_workspace_read-events :
      (agent rel : String) (w : World)
      → (do_workspace_read deps ctx agent rel w).1.db.run_events ≡ w.db.run_events
  unfolding do_workspace_read
  do_workspace_read-events agent rel w =
      let v = (resolve_workspace deps ctx agent GrantAction.read w).1 in
      let same = resolve_workspace-events agent GrantAction.read w in
      elim (Result-cases (resolve_workspace deps ctx agent GrantAction.read w).0) [
        | inl (r, found) ↦
            ground
              (arith, scope_of_keeps deps ctx Tool.workspace_read w, read_resolved-events rel r v)
        | inr (e, stopped) ↦ ground (arith, scope_of_keeps deps ctx Tool.workspace_read w)
      ]

  pub do_workspace_write-events :
      (agent rel body : String) (dest : Egress) (resource : String) (w : World)
      → (do_workspace_write deps ctx agent rel body dest resource w).1.db.run_events
        ≡ w.db.run_events
  unfolding do_workspace_write
  do_workspace_write-events agent rel body dest resource w =
      let v = (resolve_workspace deps ctx agent GrantAction.write w).1 in
      let same = resolve_workspace-events agent GrantAction.write w in
      elim (Result-cases (resolve_workspace deps ctx agent GrantAction.write w).0) [
        | inl (r, found) ↦ ground (
          arith,
          scope_of_keeps deps ctx Tool.workspace_write w,
          egress_gate_keeps deps ctx dest body resource (is_agent dest) v,
          write_resolved-events rel body r v,
        )
        | inr (e, stopped) ↦ ground (arith, scope_of_keeps deps ctx Tool.workspace_write w)
      ]
