-- ===== src/Gateway/Pipeline.antt =====
-- apps/server/src/gateway.ts: what the pipeline round a tool's body leaves alone, and the one audit row that it writes.
use tik_tok_jam.Base.{
  ◌≡◌, refl, String, Bool, true, false, Option, none, some, arith, if◌then◌else◌,
}
use tik_tok_jam.Types.Enums.{RunEventKind, Decision}
use tik_tok_jam.Types.Records.{Database, Fields, field, str, obj, done}
use tik_tok_jam.Action.{World, Action, Result, ok, err, denied}
use tik_tok_jam.Audit.{record_event, push_event, event_row, EventInput}
use tik_tok_jam.Approvals.{create_card_on_deny, card_in, CardInput}
use tik_tok_jam.Gateway.Context.{Ctx, audit}
use tik_tok_jam.Gateway.Checks.{Tool, tool_text}
use tik_tok_jam.Gateway.Cards.{CardRequest, card_for}
use tik_tok_jam.Gateway.Tools.{
  Reply, text, rows, refused, failed, deny, run_tool, answer, is_askable, exception_text,
}

abbrev asked : Option CardInput → Bool
asked none = false
asked (some card) = true

-- What the caller is told.
abbrev pub reply_of : Ctx → CardRequest → Database → Result Reply → Reply
reply_of ctx request d (ok reply) = reply
reply_of ctx request d (err (denied status reason message)) =
    refused reason message (asked (if is_askable reason then card_for ctx request d else none))
reply_of ctx request d (err e) = failed (exception_text e)

abbrev pub outcome : Result Reply → Decision
outcome (ok reply) = Decision.allow
outcome (err e) = Decision.deny

abbrev reason_of : Result Reply → Option String
reason_of (ok reply) = none
reason_of (err (denied status reason message)) = some reason
reason_of (err e) = some "error"

abbrev detail_of : CardRequest → Result Reply → Fields
detail_of request (ok reply) = field "action" (str request.action) done
detail_of request (err (denied status reason message)) = field "action" (str request.action) done
detail_of request (err e) =
    field "action" (str request.action) (field "error" (str (exception_text e)) done)

abbrev pub audit_input : Ctx → Tool → CardRequest → Result Reply → EventInput
audit_input ctx tool request r = record {
  run_id = some ctx.run;
  agent_id = ctx.sub;
  owner_id = ctx.own;
  kind = RunEventKind.gateway;
  action = tool_text tool;
  resource = request.resource;
  decision = some (outcome r);
  reason = reason_of r;
  detail = obj (detail_of request r);
}

by_result :
    (ctx : Ctx) (tool : Tool) (request : CardRequest) (r : Result Reply) (w : World)
    → (answer ctx tool request r w).0 ≡ ok (reply_of ctx request w.db r)
unfolding deny audit record_event create_card_on_deny
by_result ctx tool request (ok reply) w = refl
by_result ctx tool request (err (denied status reason message)) w = ground (arith)
by_result ctx tool request (err e) w = refl

module _ (ctx : Ctx) (tool : Tool) (request : CardRequest) (body : Action Reply) (w : World) where
  pub run_tool-sent : (run_tool ctx tool request body w).1.sent ≡ (body w).1.sent
  unfolding run_tool deny audit record_event create_card_on_deny
  run_tool-sent = ground arith

  pub run_tool-files : (run_tool ctx tool request body w).1.files ≡ (body w).1.files
  unfolding run_tool deny audit record_event create_card_on_deny
  run_tool-files = ground arith

  pub run_tool-tokens :
      (run_tool ctx tool request body w).1.db.run_tokens ≡ (body w).1.db.run_tokens
  unfolding run_tool deny audit record_event create_card_on_deny push_event card_in
  run_tool-tokens = ground arith

  pub run_tool-grants :
      (run_tool ctx tool request body w).1.db.policy_grants ≡ (body w).1.db.policy_grants
  unfolding run_tool deny audit record_event create_card_on_deny push_event card_in
  run_tool-grants = ground arith

  -- Rows that are answered were answered by the body.
  pub run_tool-rows :
      (content : String)
      → (run_tool ctx tool request body w).0 ≡ ok (rows content)
      → (body w).0 ≡ ok (rows content)
  unfolding run_tool deny audit record_event create_card_on_deny
  run_tool-rows content h = ground arith

  -- A text that is answered was answered by the body.
  pub run_tool-text :
      (content : String)
      → (run_tool ctx tool request body w).0 ≡ ok (text content)
      → (body w).0 ≡ ok (text content)
  unfolding run_tool deny audit record_event create_card_on_deny
  run_tool-text content h = ground arith

  -- The reply on every branch: no exception leaves the pipeline.
  pub run_tool-reply :
      (run_tool ctx tool request body w).0 ≡ ok (reply_of ctx request (body w).1.db (body w).0)
  unfolding run_tool deny audit record_event create_card_on_deny
  run_tool-reply = by_result ctx tool request (body w).0 (body w).1

  -- The one row that a call writes.
  pub run_tool-events :
      (run_tool ctx tool request body w).1.db.run_events
      ≡ (push_event
          (event_row
            (audit_input ctx tool request (body w).0)
            ((body w).1.uuids 0)
            ((body w).1.clock 0))
          (body w).1.db).run_events
  unfolding run_tool deny audit record_event create_card_on_deny card_in
  run_tool-events = ground arith
