-- ===== src/Gateway/Tools.antt =====
-- apps/server/src/gateway.ts: the five tools, and the request that calls one.

use Prim.Native.String.{◌++◌, len}
use tik_tok_jam.Base.{
  ℕ, String, Bool, true, false, ◌||◌, Option, none, some, [], ◌∷◌, ◌==◌, push, if◌then◌else◌,
  Eq-String, Eq-Option,
}
use tik_tok_jam.Types.Enums.{Egress, Resource, GrantAction, Trust, Decision}
use tik_tok_jam.Types.Records.{Agent, PolicyGrant, Label, Fields, field, done, str}
use tik_tok_jam.Action.{
  Action, Result, ok, err, Exception, http_error, denied, run_cancelled, failure, Effect, crm_note,
  webhook, pure, require, read_db, now, ◌>>=◌, ◌>>◌,
}
use tik_tok_jam.Grants.{GrantQuery, find_live_grant, own_crm_label}
use tik_tok_jam.Classify.{ClassifyContext, classify}
use tik_tok_jam.Ifc.{add_taint, fingerprint}
use tik_tok_jam.Approvals.{CardInput, create_card_on_deny}
use tik_tok_jam.Gateway.Context.{GatewayDeps, Ctx, authenticate, audit, audit_unknown}
use tik_tok_jam.Gateway.Jail.{jail}
use tik_tok_jam.Gateway.Checks.{
  Tool, tool_scope, tool_text, agent_by_ref, scope_of, Resolved, resolve_workspace, egress_gate,
  label_for, tag_self_read,
}
use tik_tok_jam.Gateway.Cards.{CardRequest, card_for}

pub data ToolCall : Type 0 where
  workspace_read : String → String → ToolCall
  workspace_write : String → String → String → ToolCall
  crm_read : Option String → ToolCall
  crm_write : String → String → ToolCall
  webhook_send : String → String → ToolCall

-- What a tool answers: the value that is sent as JSON, or an error.
pub data Reply : Type 0 where
  text : String → Reply
  written : String → ℕ → Reply
  rows : String → Reply
  noted : String → String → Reply
  posted : ℕ → Reply
  refused : String → String → Bool → Reply
  failed : String → Reply

abbrev pub exception_text : Exception → String
exception_text (http_error status message) = "HttpError: " ++ message
exception_text (denied status reason message) = "Error: " ++ message
exception_text run_cancelled = "RunCancelledError: Run cancelled"
exception_text (failure message) = "Error: " ++ message

-- The denials that a human may lift.
abbrev pub is_askable : String → Bool
is_askable reason =
    reason == "scope" || reason == "no-grant" || reason == "ifc" || reason == "integrity"

abbrev pub action_field : String → Fields
action_field action = field "action" (str action) done

abbrev pub raise_card : Option CardInput → Action Bool
raise_card none = pure false
raise_card (some card) = do create_card_on_deny card; pure true

-- `deny`: audit, then the card.
unfoldable pub deny :
    Ctx → Tool → String → String → String → String → Option CardInput → Action Reply
deny ctx tool resource action reason message card = do
  audit ctx (tool_text tool) resource Decision.deny (some reason) (action_field action)
  asked ← raise_card card
  pure (refused reason message asked)

abbrev pub answer : Ctx → Tool → CardRequest → Result Reply → Action Reply
answer ctx tool request (ok reply) = do
  audit ctx (tool_text tool) request.resource Decision.allow none (action_field request.action)
  pure reply
answer ctx tool request (err (denied status reason message)) = do
  card ← read_db (λ d. if is_askable reason then card_for ctx request d else none)
  deny ctx tool request.resource request.action reason message card
answer ctx tool request (err e) = do
  audit ctx (tool_text tool) request.resource Decision.deny (some "error")
      (field "action" (str request.action) (field "error" (str (exception_text e)) done))
  pure (failed (exception_text e))

-- `run`: the tool's body, and one audit row whatever it does.
unfoldable pub run_tool : Ctx → Tool → CardRequest → Action Reply → Action Reply
run_tool ctx tool request body w = let (r, w') = body w in answer ctx tool request r w'

abbrev pub read_file : String → Action String
read_file path w = elim (w.files path) [
  | none ↦ (err (failure ("ENOENT: no such file or directory, open '" ++ path ++ "'")), w)
  | some content ↦ (ok content, w)
]

-- `mkdir` of the file's folder and `writeFile`, where neither fails: folders are not kept, and a write to
-- the path of a folder, which throws, has no case here.
abbrev pub write_file : String → String → Action (Unit {0})
write_file path body w =
    (ok tt, record w { files = λ p. if p == path then some body else w.files p })

abbrev pub send : Effect → Action (Unit {0})
send effect w = (ok tt, record w { sent = push w.sent effect })

abbrev pub lift : {A : Type 0} → Result A → Action A
lift r w = (r, w)

abbrev trust_of : Bool → Trust
trust_of true = Trust.trusted
trust_of false = Trust.untrusted

-- The label of what is read under a grant.
abbrev pub borrowed_label : PolicyGrant → Agent → String → Label
borrowed_label grant target content =
    label_for grant.id target grant.egress (classify ClassifyContext.granted_workspace content)
      (trust_of grant.trust_content)

unfoldable pub tag_read :
    GatewayDeps → Ctx → Agent → Option PolicyGrant → String → Action (Unit {0})
tag_read deps ctx target (some grant) content = do
  add_taint ctx.jti (borrowed_label grant target content)
  fingerprint deps.digest ctx.run (borrowed_label grant target content) content
tag_read deps ctx target none content =
    tag_self_read deps ctx (target.owner_id ++ "/" ++ target.name) content
      (classify ClassifyContext.own_workspace content)

-- The read, once the target is known.
unfoldable pub read_resolved : GatewayDeps → Ctx → String → Resolved → Action Reply
read_resolved deps ctx rel resolved = do
  full ← jail deps.workspace_root resolved.target.id rel
  content ← read_file full
  tag_read deps ctx resolved.target resolved.grant content
  pure (text content)

unfoldable pub do_workspace_read : GatewayDeps → Ctx → String → String → Action Reply
do_workspace_read deps ctx agent rel = do
  scope_of deps ctx Tool.workspace_read
  resolved ← resolve_workspace deps ctx agent GrantAction.read
  read_resolved deps ctx rel resolved

abbrev pub write_dest : Ctx → Option Agent → Egress
write_dest ctx none = Egress.internal
write_dest ctx (some target) = if target.id == ctx.sub then Egress.internal else Egress.agent

abbrev pub is_agent : Egress → Bool
is_agent Egress.internal = false
is_agent Egress.agent = true
is_agent Egress.external = false

unfoldable pub write_resolved : GatewayDeps → String → String → Resolved → Action Reply
write_resolved deps rel body resolved = do
  full ← jail deps.workspace_root resolved.target.id rel
  write_file full body
  pure (written rel (len body))

unfoldable pub do_workspace_write :
    GatewayDeps → Ctx → String → String → String → Egress → String → Action Reply
do_workspace_write deps ctx agent rel body dest resource = do
  scope_of deps ctx Tool.workspace_write
  resolved ← resolve_workspace deps ctx agent GrantAction.write
  egress_gate deps ctx dest body resource (is_agent dest)
  write_resolved deps rel body resolved

abbrev pub crm_query : Ctx → GrantQuery
crm_query ctx = record {
  from_owner = ctx.owner_id;
  from_agent = none;
  to_agent = ctx.sub;
  resource = Resource.crm;
  action = GrantAction.read;
}

abbrev pub crm_label : Ctx → Option PolicyGrant → String → Label
crm_label ctx none content = record {
  grant_id = own_crm_label;
  origin = ctx.owner_id ++ "/crm";
  egress = Egress.internal ∷ [];
  level = classify ClassifyContext.crm content;
  trust = Trust.trusted;
}
crm_label ctx (some standing) content = record {
  grant_id = standing.id;
  origin = ctx.owner_id ++ "/crm";
  egress = standing.egress;
  level = classify ClassifyContext.crm content;
  trust = Trust.trusted;
}

-- `customer ? … : …`, where the empty text is false
abbrev pub truthy : Option String → Option String
truthy none = none
truthy (some s) = if s == "" then none else some s

unfoldable pub do_crm_read : GatewayDeps → Ctx → Option String → Action Reply
do_crm_read deps ctx customer = do
  scope_of deps ctx Tool.crm_read
  crm ← require deps.with_owner (failure "CRM resource unavailable")
  serialized ← lift (crm.select ctx.owner_id ctx.sub (truthy customer))
  at ← now
  standing ← read_db (find_live_grant (crm_query ctx) at)
  add_taint ctx.jti (crm_label ctx standing serialized)
  fingerprint deps.digest ctx.run (crm_label ctx standing serialized) serialized
  pure (rows serialized)

unfoldable pub do_crm_write : GatewayDeps → Ctx → String → String → Action Reply
do_crm_write deps ctx customer note = do
  scope_of deps ctx Tool.crm_write
  egress_gate deps ctx Egress.internal note (ctx.owner_id ++ "/crm") true
  crm ← require deps.with_owner (failure "CRM resource unavailable")
  send (crm_note ctx.owner_id customer note)
  id ← lift (crm.upsert ctx.owner_id ctx.sub customer note)
  pure (noted id customer)

unfoldable pub do_webhook_send : GatewayDeps → Ctx → String → String → Action Reply
do_webhook_send deps ctx url body = do
  scope_of deps ctx Tool.webhook_send
  egress_gate deps ctx Egress.external body url true
  sink ← require deps.webhook_sink (failure "Webhook sink unavailable")
  send (webhook url body)
  status ← lift (sink url body)
  pure (posted status)

abbrev pub name_of : Option Agent → String → String
name_of none ref = ref
name_of (some target) ref = target.name

abbrev pub request_of :
    Tool → String → String → Option Agent → Option GrantAction → Option Egress → Bool → CardRequest
request_of tool resource action target grant_action dest outbound = record {
  scope = tool_scope tool;
  resource = resource;
  action = action;
  target = target;
  grant_action = grant_action;
  dest = dest;
  outbound = outbound;
}

-- The handlers that `registerTool` is given.
unfoldable pub handle_call : GatewayDeps → Ctx → ToolCall → Action Reply
handle_call deps ctx (workspace_read agent rel) = do
  target ← read_db (agent_by_ref agent)
  run_tool ctx Tool.workspace_read
      (request_of Tool.workspace_read (name_of target agent ++ "/workspace") "read" target
        (some GrantAction.read) none true)
      (do_workspace_read deps ctx agent rel)
handle_call deps ctx (workspace_write agent rel body) = do
  target ← read_db (agent_by_ref agent)
  let dest = write_dest ctx target
  let resource = name_of target agent ++ "/workspace"
  run_tool ctx Tool.workspace_write
      (request_of Tool.workspace_write resource "write" target (some GrantAction.write) (some dest)
        (is_agent dest))
      (do_workspace_write deps ctx agent rel body dest resource)
handle_call deps ctx (crm_read customer) =
    run_tool ctx Tool.crm_read
      (request_of Tool.crm_read (ctx.owner_id ++ "/crm") "read" none none none true)
      (do_crm_read deps ctx customer)
handle_call deps ctx (crm_write customer note) =
    run_tool ctx Tool.crm_write
      (request_of Tool.crm_write (ctx.owner_id ++ "/crm") "write" none none (some Egress.internal)
        true)
      (do_crm_write deps ctx customer note)
handle_call deps ctx (webhook_send url body) =
    run_tool ctx Tool.webhook_send
      (request_of Tool.webhook_send url "send" none none (some Egress.external) true)
      (do_webhook_send deps ctx url body)

pub data HttpReply : Type 0 where
  tool_reply : Reply → HttpReply
  unauthorized : ℕ → String → HttpReply

abbrev pub reject : ℕ → String → String → Action HttpReply
reject status reason message = do
  audit_unknown "mcp" "/mcp" (some reason) done
  pure (unauthorized status message)

-- `POST /mcp` with one tool call.
unfoldable pub post_mcp : GatewayDeps → Option String → ToolCall → Action HttpReply
post_mcp deps header call w =
    let (r, w') = authenticate deps header w in
    elim r [
      | ok ctx ↦ (do reply ← handle_call deps ctx call; pure (tool_reply reply)) w'
      | err (denied status reason message) ↦ reject status reason message w'
      | err _ ↦ reject 401 "bad-token" "Invalid agent token" w'
    ]
