-- ===== src/Tests/Crm.antt =====
-- Examples of reads of the tenant's CRM.
use tik_tok_jam.Base.{◌≡◌, refl, none, some, [], ◌∷◌, Eq-String}
use tik_tok_jam.Types.Enums.{Scope}
use tik_tok_jam.Types.Records.{RunToken}
use tik_tok_jam.Action.{World, ok}
use tik_tok_jam.Audit.{record_event}
use tik_tok_jam.Grants.{find_live_grant}
use tik_tok_jam.Ifc.{add_taint, fingerprint}
use tik_tok_jam.Gateway.Context.{GatewayDeps, Ctx, Crm, ctx_of, audit}
use tik_tok_jam.Gateway.Checks.{scope_of}
use tik_tok_jam.Gateway.Tools.{
  rows, crm_query, crm_read, webhook_send, handle_call, run_tool, do_crm_read,
}
use tik_tok_jam.Gateway.CrmReads.{CrmRead, handle_call-CrmRead, crm_stays}
use tik_tok_jam.Gateway.Powers.{Tainted, handle_call-Tainted}
use tik_tok_jam.Tests.Scene.{token, database, deps, claims, world}

abbrev crm : Crm
crm = record {
  select = λ owner agent customer. ok "[]";
  upsert = λ owner agent customer note. ok "n1";
}

abbrev crm_deps : GatewayDeps
crm_deps = record deps { with_owner = some crm }

abbrev crm_token : RunToken
crm_token = record token { scp = Scope.crm_read ∷ Scope.webhook_send ∷ [] }

abbrev crm_ctx : Ctx
crm_ctx = ctx_of claims crm_token

abbrev crm_world : World
crm_world = record world { db = record database { run_tokens = crm_token ∷ [] } }

abbrev after_read : World
after_read = (handle_call crm_deps crm_ctx (crm_read (some "acme")) crm_world).1

answered : (handle_call crm_deps crm_ctx (crm_read (some "acme")) crm_world).0 ≡ ok (rows "[]")
unfolding handle_call run_tool do_crm_read scope_of find_live_grant add_taint fingerprint audit
    record_event
answered = refl

handle_call-CrmRead_example : CrmRead crm_deps crm_ctx (some "acme") crm_world after_read "[]"
handle_call-CrmRead_example =
    handle_call-CrmRead crm_deps crm_ctx (some "acme") "[]" crm_world refl answered

no_standing_grant : find_live_grant (crm_query crm_ctx) 10 crm_world.db ≡ none
unfolding find_live_grant
no_standing_grant = refl

-- The records stay: the webhook call after the read sends nothing.
crm_stays_example :
    (handle_call crm_deps crm_ctx (webhook_send "https://x" "[]") after_read).1.sent
    ≡ after_read.sent
crm_stays_example =
    crm_stays crm_deps crm_ctx (some "acme") "[]" "https://x" "[]" crm_world after_read crm_token
      refl answered (rw no_standing_grant refl) refl tt refl refl

handle_call-Tainted_example :
    Tainted crm_ctx crm_world (handle_call crm_deps crm_ctx (crm_read (some "acme")) crm_world).1
handle_call-Tainted_example =
    handle_call-Tainted crm_deps crm_ctx (crm_read (some "acme")) crm_world
