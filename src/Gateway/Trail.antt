-- ===== src/Gateway/Trail.antt =====
-- apps/server/src/gateway.ts: the audit trail of tool calls.
use tik_tok_jam.Base.{String, ◌≡◌, refl, ap, inl, inr, Option, some, arith}
use tik_tok_jam.Types.Enums.{Egress, GrantAction, RunEventKind, Decision}
use tik_tok_jam.Types.Records.{Database, RunEvent}
use tik_tok_jam.Action.{World, Action, Result, ok, err}
use tik_tok_jam.Action.Cases.{Result-cases}
use tik_tok_jam.Audit.{push_event, event_row}
use tik_tok_jam.Gateway.Context.{GatewayDeps, Ctx}
use tik_tok_jam.Gateway.Checks.{Tool, tool_text, scope_of, egress_gate, resolve_workspace, Resolved}
use tik_tok_jam.Gateway.Cards.{CardRequest}
use tik_tok_jam.Gateway.Pipeline.{run_tool-events, run_tool-reply, reply_of, audit_input, outcome}
use tik_tok_jam.Gateway.Tools.{
  Reply, refused, failed, text, written, rows, noted, posted, ToolCall, workspace_read,
  workspace_write, crm_read, crm_write, webhook_send, handle_call, do_webhook_send, do_crm_write,
  do_crm_read, do_workspace_read, do_workspace_write, read_resolved, write_resolved, is_agent,
  run_tool,
}
use tik_tok_jam.Gateway.Bodies.{
  do_crm_read-events, do_crm_write-events, do_webhook_send-events, do_workspace_read-events,
  do_workspace_write-events,
}

abbrev pub tool_of : ToolCall → Tool
tool_of (workspace_read agent rel) = Tool.workspace_read
tool_of (workspace_write agent rel body) = Tool.workspace_write
tool_of (crm_read customer) = Tool.crm_read
tool_of (crm_write customer note) = Tool.crm_write
tool_of (webhook_send url body) = Tool.webhook_send

-- Whether the caller got what was asked for.
abbrev pub decision_of : Reply → Decision
decision_of (text content) = Decision.allow
decision_of (written path bytes) = Decision.allow
decision_of (rows serialized) = Decision.allow
decision_of (noted id customer) = Decision.allow
decision_of (posted status) = Decision.allow
decision_of (refused reason message asked) = Decision.deny
decision_of (failed message) = Decision.deny

-- One row in the trail for one call, and what it says.
abbrev pub Recorded : Ctx → Tool → Reply → World → World → Type 0
Recorded ctx tool reply w w' =
    (row : RunEvent) × (w'.db.run_events ≡ (push_event row w.db).run_events)
    × (row.kind ≡ RunEventKind.gateway)
    × (row.run_id ≡ some ctx.run)
    × (row.agent_id ≡ ctx.sub)
    × (row.owner_id ≡ ctx.own)
    × (row.action ≡ tool_text tool)
    × (row.decision ≡ some (decision_of reply))

-- The body answers what it means as a success.
abbrev Succeeds : Result Reply → Type 0
Succeeds (ok reply) = decision_of reply ≡ Decision.allow
Succeeds (err e) = Unit

decided :
    (ctx : Ctx) (request : CardRequest) (d : Database) (r : Result Reply)
    → Succeeds r
    → outcome r ≡ decision_of (reply_of ctx request d r)
decided ctx request d r h = ground arith

run_tool-Recorded :
    (ctx : Ctx) (tool : Tool) (request : CardRequest) (body : Action Reply) (w : World)
    → (body w).1.db.run_events ≡ w.db.run_events
    → Succeeds (body w).0
    → (reply : Reply) × ((run_tool ctx tool request body w).0 ≡ ok reply)
      × Recorded ctx tool reply w (run_tool ctx tool request body w).1
unfolding push_event
run_tool-Recorded ctx tool request body w same good = (
  reply_of ctx request (body w).1.db (body w).0,
  run_tool-reply ctx tool request body w,
  (
    event_row (audit_input ctx tool request (body w).0) ((body w).1.uuids 0) ((body w).1.clock 0),
    rw run_tool-events (rw same refl),
    refl,
    refl,
    refl,
    refl,
    refl,
    ap some (decided ctx request (body w).1.db (body w).0 good),
  ),
)

Succeeds-of :
    (r : Result Reply)
    → ((reply : Reply) → r ≡ ok reply → decision_of reply ≡ Decision.allow)
    → Succeeds r
Succeeds-of (ok reply) h = h reply refl
Succeeds-of (err e) h = tt

module _ (deps : GatewayDeps) (ctx : Ctx) (w : World) (reply : Reply) where
  read_resolved-allow :
      (rel : String) (r : Resolved) (v : World)
      → (read_resolved deps ctx rel r v).0 ≡ ok reply
      → decision_of reply ≡ Decision.allow
  unfolding read_resolved
  read_resolved-allow rel r v h = ground arith

  write_resolved-allow :
      (rel body : String) (r : Resolved) (v : World)
      → (write_resolved deps rel body r v).0 ≡ ok reply
      → decision_of reply ≡ Decision.allow
  unfolding write_resolved
  write_resolved-allow rel body r v h = ground arith

  do_crm_read-allow :
      (customer : Option String)
      → (do_crm_read deps ctx customer w).0 ≡ ok reply
      → decision_of reply ≡ Decision.allow
  unfolding do_crm_read
  do_crm_read-allow customer h = ground arith

  do_crm_write-allow :
      (customer note : String)
      → (do_crm_write deps ctx customer note w).0 ≡ ok reply
      → decision_of reply ≡ Decision.allow
  unfolding do_crm_write
  do_crm_write-allow customer note h = ground arith

  do_webhook_send-allow :
      (url body : String)
      → (do_webhook_send deps ctx url body w).0 ≡ ok reply
      → decision_of reply ≡ Decision.allow
  unfolding do_webhook_send
  do_webhook_send-allow url body h = ground arith

  do_workspace_read-allow :
      (agent rel : String)
      → (do_workspace_read deps ctx agent rel w).0 ≡ ok reply
      → decision_of reply ≡ Decision.allow
  unfolding do_workspace_read
  do_workspace_read-allow agent rel h =
      let v = (scope_of deps ctx Tool.workspace_read w).1 in
      let v' = (resolve_workspace deps ctx agent GrantAction.read v).1 in
      elim (Result-cases (resolve_workspace deps ctx agent GrantAction.read v).0) [
        | inl (r, found) ↦ ground (arith, read_resolved-allow rel r v')
        | inr (e, stopped) ↦ ground arith
      ]

  do_workspace_write-allow :
      (agent rel body : String) (dest : Egress) (resource : String)
      → (do_workspace_write deps ctx agent rel body dest resource w).0 ≡ ok reply
      → decision_of reply ≡ Decision.allow
  unfolding do_workspace_write
  do_workspace_write-allow agent rel body dest resource h =
      let v = (scope_of deps ctx Tool.workspace_write w).1 in
      let v' = (resolve_workspace deps ctx agent GrantAction.write v).1 in
      let v'' = (egress_gate deps ctx dest body resource (is_agent dest) v').1 in
      elim (Result-cases (resolve_workspace deps ctx agent GrantAction.write v).0) [
        | inl (r, found) ↦ ground (arith, write_resolved-allow rel body r v'')
        | inr (e, stopped) ↦ ground arith
      ]

module _ (deps : GatewayDeps) (ctx : Ctx) where
  -- Every tool call is answered, and leaves one row in the audit trail, which names the run, the agent,
  -- the owner and the tool, and says "allow" exactly for a call that got its result.
  pub handle_call-Recorded :
      (call : ToolCall) (w : World)
      → (reply : Reply) × ((handle_call deps ctx call w).0 ≡ ok reply)
        × Recorded ctx (tool_of call) reply w (handle_call deps ctx call w).1
  unfolding handle_call
  handle_call-Recorded (workspace_read agent rel) w =
      run_tool-Recorded ctx Tool.workspace_read _ _ w
        (do_workspace_read-events deps ctx agent rel w)
        (Succeeds-of _ (λ reply. do_workspace_read-allow deps ctx w reply agent rel))
  handle_call-Recorded (workspace_write agent rel body) w =
      run_tool-Recorded ctx Tool.workspace_write _ _ w
        (do_workspace_write-events deps ctx agent rel body _ _ w)
        (Succeeds-of _ (λ reply. do_workspace_write-allow deps ctx w reply agent rel body _ _))
  handle_call-Recorded (crm_read customer) w =
      run_tool-Recorded ctx Tool.crm_read _ _ w (do_crm_read-events deps ctx customer w)
        (Succeeds-of _ (λ reply. do_crm_read-allow deps ctx w reply customer))
  handle_call-Recorded (crm_write customer note) w =
      run_tool-Recorded ctx Tool.crm_write _ _ w (do_crm_write-events deps ctx customer note w)
        (Succeeds-of _ (λ reply. do_crm_write-allow deps ctx w reply customer note))
  handle_call-Recorded (webhook_send url body) w =
      run_tool-Recorded ctx Tool.webhook_send _ _ w (do_webhook_send-events deps ctx url body w)
        (Succeeds-of _ (λ reply. do_webhook_send-allow deps ctx w reply url body))
