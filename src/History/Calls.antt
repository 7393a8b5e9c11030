-- ===== src/History/Calls.antt =====
-- apps/server/src/gateway.ts: a tool call as a sequence of mutations.
use tik_tok_jam.Base.{String, refl, Bool, false, Option, none, some, arith, Eq-String, ap}
use tik_tok_jam.Types.Enums.{Egress, Decision, GrantAction, SecurityLevel}
use tik_tok_jam.Types.Records.{Agent, PolicyGrant, Fields}
use tik_tok_jam.Action.{Action, Result, ok, err, Effect, http_error, denied, run_cancelled, failure}
use tik_tok_jam.Approvals.{CardInput}
use tik_tok_jam.Gateway.Context.{GatewayDeps, Ctx, audit, audit_unknown}
use tik_tok_jam.Gateway.Jail.{jail}
use tik_tok_jam.Gateway.Checks.{
  Tool, scope_of, resolve_workspace, egress_gate, tag_self_read, Resolved,
}
use tik_tok_jam.Gateway.Cards.{CardRequest}
use tik_tok_jam.Gateway.Tools.{
  read_file, write_file, send, raise_card, ToolCall, Reply, deny, run_tool, tag_read, read_resolved,
  write_resolved, do_workspace_read, do_workspace_write, do_crm_read, do_crm_write, do_webhook_send,
  handle_call, workspace_read, workspace_write, crm_read, crm_write, webhook_send,
}
use tik_tok_jam.Gateway.Tools
use tik_tok_jam.Gateway.Flow.{scope_of_keeps, egress_gate_keeps}
use tik_tok_jam.Gateway.Confined.{jail_lem}
use tik_tok_jam.History.Steps.{Reach-trans}
use tik_tok_jam.History.Traces.{Traces, Traces-pure, Traces-still, traces_rules}
use tik_tok_jam.History.Handlers.{
  record_event-Traces, create_card_on_deny-Traces, add_taint-Traces, fingerprint-Traces,
}

audit-Traces :
    (ctx : Ctx) (action resource : String) (decision : Decision) (reason : Option String)
    (detail : Fields)
    → Traces (audit ctx action resource decision reason detail)
unfolding audit
audit-Traces ctx action resource decision reason detail = search record_event-Traces

audit_unknown-Traces :
    (action resource : String) (reason : Option String) (detail : Fields)
    → Traces (audit_unknown action resource reason detail)
unfolding audit_unknown
audit_unknown-Traces action resource reason detail = search record_event-Traces

raise_card-Traces : (card : Option CardInput) → Traces (raise_card card)
raise_card-Traces none = Traces-pure false
raise_card-Traces (some input) = search (traces_rules, create_card_on_deny-Traces)

deny-Traces :
    (ctx : Ctx) (tool : Tool) (resource action reason message : String) (card : Option CardInput)
    → Traces (deny ctx tool resource action reason message card)
unfolding deny
deny-Traces ctx tool resource action reason message card =
    search (traces_rules, audit-Traces, raise_card-Traces) depth 20

answer-Traces :
    (ctx : Ctx) (tool : Tool) (request : CardRequest) (r : Result Reply)
    → Traces (Tools.answer ctx tool request r)
answer-Traces ctx tool request (ok reply) = search (traces_rules, audit-Traces)
answer-Traces ctx tool request (err (denied status reason message)) =
    search (traces_rules, deny-Traces)
answer-Traces ctx tool request (err (http_error status message)) =
    search (traces_rules, audit-Traces)
answer-Traces ctx tool request (err run_cancelled) = search (traces_rules, audit-Traces)
answer-Traces ctx tool request (err (failure message)) = search (traces_rules, audit-Traces)

run_tool-Traces :
    (ctx : Ctx) (tool : Tool) (request : CardRequest) (body : Action Reply)
    → Traces body
    → Traces (run_tool ctx tool request body)
unfolding run_tool
run_tool-Traces ctx tool request body h = record {
  at = λ w. Reach-trans (h.at w) ((answer-Traces ctx tool request (body w).0).at (body w).1);
}

scope_of-Traces : (deps : GatewayDeps) (ctx : Ctx) (tool : Tool) → Traces (scope_of deps ctx tool)
scope_of-Traces deps ctx tool =
    Traces-still (scope_of deps ctx tool) (λ w. ap (λ v. v.db) (scope_of_keeps deps ctx tool w))

egress_gate-Traces :
    (deps : GatewayDeps) (ctx : Ctx) (dest : Egress) (payload resource : String) (outbound : Bool)
    → Traces (egress_gate deps ctx dest payload resource outbound)
egress_gate-Traces deps ctx dest payload resource outbound =
    Traces-still (egress_gate deps ctx dest payload resource outbound)
      (λ w. ap (λ v. v.db) (egress_gate_keeps deps ctx dest payload resource outbound w))

jail-Traces : (root agent_id rel : String) → Traces (jail root agent_id rel)
jail-Traces root agent_id rel =
    Traces-still (jail root agent_id rel) (λ w. ap (λ v. v.db) (jail_lem root agent_id rel w).0)

resolve_workspace-Traces :
    (deps : GatewayDeps) (ctx : Ctx) (ref : String) (action : GrantAction)
    → Traces (resolve_workspace deps ctx ref action)
unfolding resolve_workspace
resolve_workspace-Traces deps ctx ref action = search traces_rules depth 20 fits 4000

read_file-Traces : (path : String) → Traces (read_file path)
read_file-Traces path = Traces-still (read_file path) (λ w. ground arith)

write_file-Traces : (path body : String) → Traces (write_file path body)
write_file-Traces path body = Traces-still (write_file path body) (λ w. refl)

send-Traces : (effect : Effect) → Traces (send effect)
send-Traces effect = Traces-still (send effect) (λ w. refl)

tag_self_read-Traces :
    (deps : GatewayDeps) (ctx : Ctx) (origin content : String) (level : SecurityLevel)
    → Traces (tag_self_read deps ctx origin content level)
unfolding tag_self_read
tag_self_read-Traces deps ctx origin content SecurityLevel.secret = search fingerprint-Traces
tag_self_read-Traces deps ctx origin content SecurityLevel.public = Traces-pure tt
tag_self_read-Traces deps ctx origin content SecurityLevel.internal = Traces-pure tt
tag_self_read-Traces deps ctx origin content SecurityLevel.confidential = Traces-pure tt

tag_read-Traces :
    (deps : GatewayDeps) (ctx : Ctx) (target : Agent) (grant : Option PolicyGrant)
    (content : String)
    → Traces (tag_read deps ctx target grant content)
unfolding tag_read
tag_read-Traces deps ctx target none content = search tag_self_read-Traces
tag_read-Traces deps ctx target (some grant) content =
    search (traces_rules, add_taint-Traces, fingerprint-Traces)

read_resolved-Traces :
    (deps : GatewayDeps) (ctx : Ctx) (rel : String) (r : Resolved)
    → Traces (read_resolved deps ctx rel r)
unfolding read_resolved
read_resolved-Traces deps ctx rel r =
    search (traces_rules, jail-Traces, read_file-Traces, tag_read-Traces) depth 20

write_resolved-Traces :
    (deps : GatewayDeps) (rel body : String) (r : Resolved)
    → Traces (write_resolved deps rel body r)
unfolding write_resolved
write_resolved-Traces deps rel body r =
    search (traces_rules, jail-Traces, write_file-Traces) depth 20

lift-Traces : {A : Type 0} (r : Result A) → Traces (Tools.lift r)
lift-Traces r = Traces-still (Tools.lift r) (λ w. refl)

-- A tool call changes the store by mutations only, whatever it is asked for, and whatever the tenant's
-- records and the webhook sink answer.
pub handle_call-Traces :
    (deps : GatewayDeps) (ctx : Ctx) (call : ToolCall) → Traces (handle_call deps ctx call)
unfolding handle_call do_workspace_read do_workspace_write do_crm_read do_crm_write do_webhook_send
handle_call-Traces deps ctx (workspace_read agent rel) =
    search
      (
        traces_rules, run_tool-Traces, scope_of-Traces, resolve_workspace-Traces,
        read_resolved-Traces,
      )
      depth 20 fits 4000
handle_call-Traces deps ctx (workspace_write agent rel body) =
    search
      (
        traces_rules, run_tool-Traces, scope_of-Traces, resolve_workspace-Traces,
        egress_gate-Traces, write_resolved-Traces,
      )
      depth 20 fits 4000
handle_call-Traces deps ctx (crm_read customer) =
    search
      (
        traces_rules, run_tool-Traces, scope_of-Traces, lift-Traces, add_taint-Traces,
        fingerprint-Traces,
      )
      depth 20 fits 4000
handle_call-Traces deps ctx (crm_write customer note) =
    search
      (traces_rules, run_tool-Traces, scope_of-Traces, egress_gate-Traces, send-Traces, lift-Traces)
      depth 20 fits 4000
handle_call-Traces deps ctx (webhook_send url body) =
    search
      (traces_rules, run_tool-Traces, scope_of-Traces, egress_gate-Traces, send-Traces, lift-Traces)
      depth 20 fits 4000
