-- ===== src/Gateway/Leaks.antt =====
-- apps/server/src/gateway.ts and ifc.ts together: what was borrowed in one call cannot be sent out by a later one.

use tik_tok_jam.Base.{
  String, ◌≡◌, ◌≢◌, ◌∙◌, inl, inr, true, false, Option, some, includes, arith, Eq-String,
}
use tik_tok_jam.Types.Enums.{Egress, GrantAction}
use tik_tok_jam.Types.Equality.{Eq-Egress}
use tik_tok_jam.Types.Records.{Agent, PolicyGrant, RunToken, Label}
use tik_tok_jam.Action.{World, ok}
use tik_tok_jam.Grants.{token_of, find_live_grant}
use tik_tok_jam.Ifc.{with_taint}
use tik_tok_jam.Ifc.Taints.{Narrow, check_egress-with_taint}
use tik_tok_jam.Gateway.Context.{GatewayDeps, Ctx}
use tik_tok_jam.Gateway.Checks.{agent_by_ref, workspace_query}
use tik_tok_jam.Gateway.Flow.{MayFlow, Borrows}
use tik_tok_jam.Gateway.Reads.{Read, do_workspace_read_lem}
use tik_tok_jam.Gateway.Pipeline.{run_tool-text, run_tool-tokens}
use tik_tok_jam.Gateway.Outbound.{do_webhook_send-sent}
use tik_tok_jam.Gateway.Pipeline.{run_tool-sent}
use tik_tok_jam.Gateway.Tools.{text, workspace_read, webhook_send, handle_call, borrowed_label}

-- With enforcement on, a read that answers with a text has answered from a file inside the workspace of
-- the agent that was named, at a path of names only: the caller's own, or one of its tenant under a live
-- grant to read; the token has the scope, and in the borrowed case its row has taken the grant's taint
-- afterwards. After a read of its own the row is as it was.
pub handle_call-Read :
    (deps : GatewayDeps) (ctx : Ctx) (agent rel content : String) (w : World)
    → deps.enforce ≡ true
    → (handle_call deps ctx (workspace_read agent rel) w).0 ≡ ok (text content)
    → Read deps ctx agent w (handle_call deps ctx (workspace_read agent rel) w).1 content
unfolding handle_call
handle_call-Read deps ctx agent rel content w on h =
    let r =
      do_workspace_read_lem deps ctx agent rel content w on (run_tool-text _ _ _ _ w content h) in
    record {
      target = r.target;
      grant = r.grant;
      path = r.path;
      scoped = r.scoped;
      named = r.named;
      allowed = r.allowed;
      inside = r.inside;
      stored = r.stored;
      tainted = rw run_tool-tokens r.tainted;
    }

with_taint-allow : (l : Label) (t : RunToken) → (with_taint l t).egress_allow ≡ t.egress_allow
with_taint-allow l t = ground arith

-- A token that took such a taint, and no approval of the url, lets nothing flow to it.
pub closed :
    (token : RunToken) (label : Label) (url : String)
    → includes label.egress Egress.external ≡ false
    → Narrow label Egress.external token.taints
    → includes token.egress_allow url ≡ false
    → ¬ MayFlow (some (with_taint label token)) Egress.external url true
closed token label url h k u flows =
    ground
      (arith, check_egress-with_taint label token Egress.external h k, with_taint-allow label token)

borrowed-taint :
    (ctx : Ctx) (target : Agent) (grant : PolicyGrant) (w : World) (r : Option PolicyGrant)
    (t : Agent)
    → t ≡ target
    → target.id ≢ ctx.sub
    → Borrows ctx GrantAction.read t r w
    → find_live_grant (workspace_query target ctx GrantAction.read) (w.clock 0) w.db ≡ some grant
    → r ≡ some grant
borrowed-taint ctx target grant w r t e other (inl own) live = absurd (other (cc))
borrowed-taint ctx target grant w r t e other (inr (tenant, (g, given, found))) live = cc

-- With enforcement on: after a read answered from another agent's workspace, under a grant that does
-- not permit external flow, no webhook call of that run sends anything to a url that no human approved
-- for it, at any later time at which the token's row is as the read left it, where no earlier taint of
-- that grant and origin permitted external flow.
pub borrowed_stays :
    (deps : GatewayDeps) (ctx : Ctx) (agent rel content url body : String) (w later : World)
    (target : Agent) (grant : PolicyGrant) (token : RunToken)
    → deps.enforce ≡ true
    → (handle_call deps ctx (workspace_read agent rel) w).0 ≡ ok (text content)
    → agent_by_ref agent w.db ≡ some target
    → target.id ≢ ctx.sub
    → find_live_grant (workspace_query target ctx GrantAction.read) (w.clock 0) w.db ≡ some grant
    → includes grant.egress Egress.external ≡ false
    → token_of ctx.jti w.db ≡ some token
    → Narrow (borrowed_label grant target content) Egress.external token.taints
    → includes token.egress_allow url ≡ false
    → token_of ctx.jti later.db
      ≡ token_of ctx.jti (handle_call deps ctx (workspace_read agent rel) w).1.db
    → (handle_call deps ctx (webhook_send url body) later).1.sent ≡ later.sent
unfolding handle_call
borrowed_stays deps ctx agent rel content url body w later target grant token on read named other
      live narrow held known unapproved kept =
    let r = handle_call-Read deps ctx agent rel content w on read in
    let same : r.target ≡ target = cc (r.named, named) in
    let under : r.grant ≡ some grant =
      borrowed-taint ctx target grant w r.grant r.target same other r.allowed live in
    let row : token_of ctx.jti later.db
        ≡ some (with_taint (borrowed_label grant target content) token) =
      kept ∙ r.tainted ∙ cc in
    run_tool-sent _ _ _ _ later ∙ elim (do_webhook_send-sent deps ctx later on url body) [
      | inl nothing ↦ nothing
      | inr (one, scoped, flows) ↦ absurd (
          closed token (borrowed_label grant target content) url narrow known unapproved
            (rw row at flows))
    ]
