-- ===== src/Gateway/CrmReads.antt =====
-- apps/server/src/gateway.ts: what a read of the tenant's CRM records leaves on the caller's token.
use mathlib.Core.Option
use tik_tok_jam.Base.{
  Option-cases, inl, inr, String, ◌≡◌, ◌∙◌, true, false, Option, some, includes, arith, Eq-String,
}
use tik_tok_jam.Types.Enums.{Egress, Scope}
use tik_tok_jam.Types.Equality.{Eq-Egress, Eq-Scope}
use tik_tok_jam.Types.Records.{RunToken, PolicyGrant}
use tik_tok_jam.Action.{World, ok}
use tik_tok_jam.Action.Cases.{Result-cases}
use tik_tok_jam.Grants.{token_of, find_live_grant}
use tik_tok_jam.Ifc.{with_taint, add_taint, fingerprint}
use tik_tok_jam.Ifc.Taints.{Narrow, token_of-add_taint}
use tik_tok_jam.Gateway.Context.{GatewayDeps, Ctx, Crm}
use tik_tok_jam.Gateway.Checks.{Tool}
use tik_tok_jam.Gateway.Flow.{scope_of_lem, scope_of_keeps}
use tik_tok_jam.Gateway.Leaks.{closed}
use tik_tok_jam.Gateway.Outbound.{do_webhook_send-sent}
use tik_tok_jam.Gateway.Pipeline.{run_tool-rows, run_tool-sent, run_tool-tokens}
use tik_tok_jam.Gateway.Tools.{
  rows, do_crm_read, crm_read, crm_label, crm_query, truthy, webhook_send, handle_call,
}

-- The standing grant of the caller's tenant for its CRM, at the time of the call.
abbrev pub standing_grant : Ctx → World → Option PolicyGrant
standing_grant ctx w = find_live_grant (crm_query ctx) (w.clock 0) w.db

-- What a read of the CRM that answered has done.
pub record CrmRead (deps : GatewayDeps) (ctx : Ctx) (customer : Option String) (w w' : World)
    (content : String) : Type 0 where
  pub crm : Crm
  pub there : deps.with_owner ≡ some crm
  pub selected : crm.select ctx.owner_id ctx.sub (truthy customer) ≡ ok content
  pub scoped : includes ctx.token.scp Scope.crm_read ≡ true
  pub tainted :
      token_of ctx.jti w'.db
      ≡ Option.map
          (with_taint (crm_label ctx (standing_grant ctx w) content))
          (token_of ctx.jti w.db)

do_crm_read_lem :
    (deps : GatewayDeps) (ctx : Ctx) (customer : Option String) (content : String) (w : World)
    → deps.enforce ≡ true
    → (do_crm_read deps ctx customer w).0 ≡ ok (rows content)
    → CrmRead deps ctx customer w (do_crm_read deps ctx customer w).1 content
unfolding do_crm_read add_taint fingerprint
do_crm_read_lem deps ctx customer content w on h =
    let kept = scope_of_keeps deps ctx Tool.crm_read w in
    let scoped = scope_of_lem deps ctx Tool.crm_read w on in
    elim (Option-cases deps.with_owner) [
      | inl missing ↦ absurd (ground (arith, missing))
      | inr (crm, there) ↦ elim (Result-cases (crm.select ctx.owner_id ctx.sub (truthy customer))) [
        | inr (e, stopped) ↦ absurd (ground (arith, there, stopped))
        | inl (found, selected) ↦
            let same : found ≡ content = ground (arith, there, selected) in
            record {
              crm = crm;
              there = there;
              selected = ground (arith, selected, same);
              scoped = ground (arith, there, selected);
              tainted = ground (
                arith,
                there,
                selected,
                same,
                token_of-add_taint ctx.jti (crm_label ctx (standing_grant ctx w) content) w.db,
              );
            }
      ]
    ]

-- With enforcement on, records that `crm_read` answers were selected for the caller's own owner and
-- agent, its token has the scope, and the token's row takes the taint of the tenant's CRM, under the
-- tenant's standing grant where there is one: one taint more, unless it holds one of that grant and origin.
pub handle_call-CrmRead :
    (deps : GatewayDeps) (ctx : Ctx) (customer : Option String) (content : String) (w : World)
    → deps.enforce ≡ true
    → (handle_call deps ctx (crm_read customer) w).0 ≡ ok (rows content)
    → CrmRead deps ctx customer w (handle_call deps ctx (crm_read customer) w).1 content
unfolding handle_call
handle_call-CrmRead deps ctx customer content w on h =
    let r = do_crm_read_lem deps ctx customer content w on (run_tool-rows _ _ _ _ w content h) in
    record {
      crm = r.crm;
      there = r.there;
      selected = r.selected;
      scoped = r.scoped;
      tainted = rw run_tool-tokens r.tainted;
    }

-- With enforcement on: after records of the CRM were answered, and where no standing grant permits them
-- to flow outside, no webhook call of that run sends anything to a url that no human approved for it, at
-- any later time at which the token's row is as the read left it, where no earlier taint of that grant
-- and origin permitted external flow.
pub crm_stays :
    (deps : GatewayDeps) (ctx : Ctx) (customer : Option String) (content url body : String)
    (w later : World) (token : RunToken)
    → deps.enforce ≡ true
    → (handle_call deps ctx (crm_read customer) w).0 ≡ ok (rows content)
    → includes (crm_label ctx (standing_grant ctx w) content).egress Egress.external ≡ false
    → token_of ctx.jti w.db ≡ some token
    → Narrow (crm_label ctx (standing_grant ctx w) content) Egress.external token.taints
    → includes token.egress_allow url ≡ false
    → token_of ctx.jti later.db ≡ token_of ctx.jti (handle_call deps ctx (crm_read customer) w).1.db
    → (handle_call deps ctx (webhook_send url body) later).1.sent ≡ later.sent
unfolding handle_call
crm_stays deps ctx customer content url body w later token on read narrow held known unapproved
      kept =
    let label = crm_label ctx (standing_grant ctx w) content in
    let r = handle_call-CrmRead deps ctx customer content w on read in
    let row : token_of ctx.jti later.db ≡ some (with_taint label token) = kept ∙ r.tainted ∙ cc in
    run_tool-sent _ _ _ _ later ∙ elim (do_webhook_send-sent deps ctx later on url body) [
      | inl nothing ↦ nothing
      | inr (one, scoped, flows) ↦
          absurd (closed token label url narrow known unapproved (rw row at flows))
    ]
