-- ===== src/Gateway/Checks.antt =====
-- apps/server/src/gateway.ts: the guards that a tool call passes before it does anything.
use Prim.Native.String.{◌++◌}
use tik_tok_jam.Base.{
  String, Bool, false, not, ◌&&◌, ◌||◌, Option, none, some, List, [], ◌∷◌, ◌==◌, find, includes,
  if◌then◌else◌, Eq-String,
}
use tik_tok_jam.Types.Enums.{
  Scope, Egress, Resource, GrantAction, SecurityLevel, Trust, scope_text, egress_text, action_text,
}
use tik_tok_jam.Types.Equality.{Eq-Scope}
use tik_tok_jam.Types.Records.{Database, Agent, PolicyGrant, RunToken, Label}
use tik_tok_jam.Text.{same_ignoring_case, take_text}
use tik_tok_jam.Action.{
  Action, denied, err, pure, throw, throw_if, require, read_db, now, ◌>>=◌, ◌>>◌,
}
use tik_tok_jam.Grants.{GrantQuery, find_live_grant, token_of, or_else}
use tik_tok_jam.Ifc.{check_egress, check_integrity, fingerprint}
use tik_tok_jam.Ifc.Screen.{match_origin}
use tik_tok_jam.Gateway.Context.{GatewayDeps, Ctx}

pub data Tool : Type 0 where
  workspace_read workspace_write crm_read crm_write webhook_send : Tool

-- `TOOL_SCOPE`
abbrev pub tool_scope : Tool → Scope
tool_scope Tool.workspace_read = Scope.workspace_read
tool_scope Tool.workspace_write = Scope.workspace_write
tool_scope Tool.crm_read = Scope.crm_read
tool_scope Tool.crm_write = Scope.crm_write
tool_scope Tool.webhook_send = Scope.webhook_send

abbrev pub tool_text : Tool → String
tool_text Tool.workspace_read = "workspace_read"
tool_text Tool.workspace_write = "workspace_write"
tool_text Tool.crm_read = "crm_read"
tool_text Tool.crm_write = "crm_write"
tool_text Tool.webhook_send = "webhook_send"

abbrev refers_to : String → Agent → Bool
refers_to ref a = a.id == ref || same_ignoring_case a.name ref

-- Over the agents of every tenant.
unfoldable pub agent_by_ref : String → Database → Option Agent
agent_by_ref ref d = find (refers_to ref) d.agents

unfoldable pub scope_of : GatewayDeps → Ctx → Tool → Action Scope
scope_of deps ctx tool = do
  throw_if (deps.enforce && not (includes ctx.token.scp (tool_scope tool)))
      (denied 403 "scope" ("Missing scope " ++ scope_text (tool_scope tool)))
  pure (tool_scope tool)

pub record Resolved : Type 0 where
  pub target : Agent
  pub grant : Option PolicyGrant

abbrev pub workspace_query : Agent → Ctx → GrantAction → GrantQuery
workspace_query target ctx action = record {
  from_owner = target.owner_id;
  from_agent = some target.id;
  to_agent = ctx.sub;
  resource = Resource.workspace;
  action = action;
}

abbrev borrowed : Agent → Ctx → GrantAction → Action Resolved
borrowed target ctx action = do
  at ← now
  found ← read_db (find_live_grant (workspace_query target ctx action) at)
  grant ← require found (
      denied 403 "no-grant"
        ("No live grant to " ++ action_text action ++ " " ++ target.name ++ "'s workspace"))
  pure (record { target = target; grant = some grant })

abbrev pub own_or_borrowed : GatewayDeps → Ctx → String → GrantAction → Agent → Action Resolved
own_or_borrowed deps ctx ref action target =
    if target.id == ctx.sub
    then pure (record { target = target; grant = none })
    else if not (target.owner_id == ctx.owner_id)
    then throw (denied 403 "cross-tenant" ("Agent " ++ ref ++ " belongs to another tenant"))
    else if not deps.enforce
    then pure (record { target = target; grant = none })
    else borrowed target ctx action

unfoldable pub resolve_workspace : GatewayDeps → Ctx → String → GrantAction → Action Resolved
resolve_workspace deps ctx ref action = do
  found ← read_db (agent_by_ref ref)
  target ← require found (denied 403 "unknown-agent" ("No such agent " ++ ref))
  own_or_borrowed deps ctx ref action target

-- `JSON.stringify` of a list of destinations
abbrev egress_list : List Egress → String
egress_list [] = ""
egress_list (e ∷ []) = "\"" ++ egress_text e ++ "\""
egress_list (e ∷ f ∷ more) = "\"" ++ egress_text e ++ "\"," ++ egress_list (f ∷ more)

abbrev pub ifc_message : Label → Label → Egress → String → String
ifc_message origin blocking destination resource =
    "content originating from "
    ++ origin.origin
    ++ " (grant "
    ++ take_text 8 origin.grant_id
    ++ ", egress ["
    ++ egress_list blocking.egress
    ++ "]) cannot go to "
    ++ egress_text destination
    ++ " destination "
    ++ resource

abbrev pub integrity_message : Label → Egress → String → String
integrity_message untrusted destination resource =
    "this run has read untrusted content from "
    ++ untrusted.origin
    ++ ", so it cannot trigger a "
    ++ egress_text destination
    ++ " action on "
    ++ resource
    ++ " without a human"

abbrev pub taints_of : Option RunToken → List Label
taints_of none = []
taints_of (some token) = token.taints

abbrev pub approved : Option RunToken → String → Bool
approved none resource = false
approved (some token) resource = includes token.egress_allow resource

abbrev integrity_gate : List Label → Egress → String → Bool → Action (Unit {0})
integrity_gate taints destination resource outbound =
    elim (if outbound then check_integrity taints else none) [
      | none ↦ pure tt
      | some untrusted ↦
          throw (denied 403 "integrity" (integrity_message untrusted destination resource))
    ]

abbrev flow_gate :
    GatewayDeps → Ctx → List Label → Egress → String → String → Bool → Action (Unit {0})
flow_gate deps ctx taints destination payload resource outbound =
    elim (check_egress taints destination) [
      | none ↦ integrity_gate taints destination resource outbound
      | some blocking ↦ λ w.
          let origin = or_else (match_origin deps.digest w.index ctx.run payload) blocking in
          (err (denied 403 "ifc" (ifc_message origin blocking destination resource)), w)
    ]

unfoldable pub egress_gate : GatewayDeps → Ctx → Egress → String → String → Bool → Action (Unit {0})
egress_gate deps ctx destination payload resource outbound =
    if not deps.enforce then pure tt else do
      fresh ← read_db (token_of ctx.jti)
      if approved fresh resource
          then pure tt
          else flow_gate deps ctx (taints_of fresh) destination payload resource outbound

abbrev pub label_for : String → Agent → List Egress → SecurityLevel → Trust → Label
label_for grant_id target egress level trust = record {
  grant_id = grant_id;
  origin = target.owner_id ++ "/" ++ target.name;
  egress = egress;
  level = level;
  trust = trust;
}

abbrev pub self_label : String → SecurityLevel → Label
self_label origin level = record {
  grant_id = "self";
  origin = origin;
  egress = Egress.internal ∷ Egress.agent ∷ Egress.external ∷ [];
  level = level;
  trust = Trust.trusted;
}

unfoldable pub tag_self_read :
    GatewayDeps → Ctx → String → String → SecurityLevel → Action (Unit {0})
tag_self_read deps ctx origin content SecurityLevel.secret =
    fingerprint deps.digest ctx.run (self_label origin SecurityLevel.secret) content
tag_self_read deps ctx origin content level = pure tt
