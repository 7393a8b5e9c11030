-- ===== src/Gateway/Isolated.antt =====
-- apps/server/src/gateway.ts: calls that name an agent of another tenant.
use Prim.Native.String.{◌++◌}
use tik_tok_jam.Base.{String, ◌≡◌, ◌≢◌, ◌∙◌, some, arith, Eq-String}
use tik_tok_jam.Types.Enums.{GrantAction, Egress}
use tik_tok_jam.Types.Records.{Agent}
use tik_tok_jam.Action.{World, ok, err, Exception, denied}
use tik_tok_jam.Gateway.Context.{GatewayDeps, Ctx}
use tik_tok_jam.Gateway.Checks.{resolve_workspace, agent_by_ref, Tool}
use tik_tok_jam.Gateway.Tools.{
  handle_call, workspace_read, workspace_write, text, do_workspace_read, do_workspace_write,
}
use tik_tok_jam.Gateway.Flow.{scope_of_keeps}
use tik_tok_jam.Gateway.Pipeline.{run_tool-files, run_tool-text}

module _ (deps : GatewayDeps) (ctx : Ctx) (target : Agent) (w : World) (ref : String) where
  -- Another tenant's agent resolves to no workspace, also without enforcement.
  foreign_refused :
      (action : GrantAction)
      → agent_by_ref ref w.db ≡ some target
      → target.id ≢ ctx.sub
      → target.owner_id ≢ ctx.owner_id
      → (e : Exception) × (resolve_workspace deps ctx ref action w ≡ (err e, w))
  unfolding resolve_workspace
  foreign_refused action found other foreign = (
    denied 403 "cross-tenant" ("Agent " ++ ref ++ " belongs to another tenant"),
    ground (arith, Eq-String.sound target.id ctx.sub, Eq-String.sound target.owner_id ctx.owner_id),
  )

  unread :
      (rel content : String)
      → agent_by_ref ref w.db ≡ some target
      → target.id ≢ ctx.sub
      → target.owner_id ≢ ctx.owner_id
      → (do_workspace_read deps ctx ref rel w).0 ≢ ok (text content)
  unfolding do_workspace_read
  unread rel content found other foreign h =
      let (e, refused) = foreign_refused GrantAction.read found other foreign in
      absurd (ground (arith, scope_of_keeps deps ctx Tool.workspace_read w, refused))

  unwritten :
      (rel body : String) (dest : Egress) (resource : String)
      → agent_by_ref ref w.db ≡ some target
      → target.id ≢ ctx.sub
      → target.owner_id ≢ ctx.owner_id
      → (do_workspace_write deps ctx ref rel body dest resource w).1.files ≡ w.files
  unfolding do_workspace_write
  unwritten rel body dest resource found other foreign =
      let (e, refused) = foreign_refused GrantAction.write found other foreign in
      ground (arith, scope_of_keeps deps ctx Tool.workspace_write w, refused)

  -- A call that names an agent of another tenant reads no file and writes none, with enforcement on or
  -- off.
  pub handle_call_isolated :
      agent_by_ref ref w.db ≡ some target
      → target.id ≢ ctx.sub
      → target.owner_id ≢ ctx.owner_id
      → ((rel content : String)
          → (handle_call deps ctx (workspace_read ref rel) w).0 ≢ ok (text content))
        × ((rel body : String)
            → (handle_call deps ctx (workspace_write ref rel body) w).1.files ≡ w.files)
  unfolding handle_call
  handle_call_isolated found other foreign = (
    λ rel content h. unread rel content found other foreign (run_tool-text _ _ _ _ w content h),
    λ rel body. run_tool-files _ _ _ _ w ∙ unwritten rel body _ _ found other foreign,
  )
