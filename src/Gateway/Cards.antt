-- ===== src/Gateway/Cards.antt =====
-- apps/server/src/gateway.ts: the access request cards that a denied call raises.
use Prim.Native.String.{◌++◌}
use tik_tok_jam.Base.{
  String, Bool, true, false, not, ◌&&◌, ◌||◌, Option, none, some, List, [], ◌∷◌, ◌==◌, ltb, length,
  find, includes, if◌then◌else◌, Eq-String,
}
use tik_tok_jam.Types.Enums.{
  Scope, Egress, Resource, GrantAction, ApprovalSource, ApprovalKind, ApprovalRisk, scope_text,
  egress_text, action_text,
}
use tik_tok_jam.Types.Equality.{Eq-Scope}
use tik_tok_jam.Types.Records.{
  Database, Agent, AgentRun, RunToken, Label, ApprovalEvidence, GrantRequest,
}
use tik_tok_jam.Text.{codes, take_text}
use tik_tok_jam.Grants.{token_of, is_null}
use tik_tok_jam.Ifc.{check_egress, check_integrity}
use tik_tok_jam.Approvals.{CardInput}
use tik_tok_jam.Gateway.Context.{Ctx}
use tik_tok_jam.Gateway.Checks.{taints_of}

pub record Assessment : Type 0 where
  pub risk : ApprovalRisk
  pub evidence : ApprovalEvidence

abbrev pub estimated_of : Option RunToken → List Scope
estimated_of none = []
estimated_of (some token) = token.estimated

abbrev pub withheld_of : Option RunToken → List Scope
withheld_of none = []
withheld_of (some token) = token.withheld

abbrev pub is_outward : Option Egress → Bool
is_outward none = false
is_outward (some Egress.internal) = false
is_outward (some Egress.agent) = true
is_outward (some Egress.external) = true

abbrev is_external : Option Egress → Bool
is_external none = false
is_external (some Egress.internal) = false
is_external (some Egress.agent) = false
is_external (some Egress.external) = true

-- `prompt.length > 300 ? prompt.slice(0, 300) + "…" : prompt`
unfoldable pub shorten : String → String
shorten prompt = if ltb 300 (length (codes prompt)) then take_text 300 prompt ++ "…" else prompt

abbrev asked_by : Option AgentRun → Option String
asked_by none = none
asked_by (some run) = some (shorten run.prompt)

abbrev origin_of : Option Label → Option String
origin_of none = none
origin_of (some label) = some label.origin

abbrev pub is_outside_task : List Scope → Scope → Bool
is_outside_task [] scope = false
is_outside_task (s ∷ estimated) scope = not (includes (s ∷ estimated) scope)

abbrev pub risk_of : Bool → Bool → Option Egress → ApprovalRisk
risk_of outside untrusted dest =
    if outside && untrusted && is_outward dest
    then ApprovalRisk.critical
    else if outside || untrusted || is_external dest
    then ApprovalRisk.elevated
    else ApprovalRisk.routine

abbrev classified_by : List Label → Option Egress → Option Label
classified_by taints none = none
classified_by taints (some dest) = check_egress taints dest

abbrev attempt : String → String → Option Egress → String
attempt action resource none = action ++ " on " ++ resource
attempt action resource (some dest) =
    action ++ " on " ++ resource ++ " (" ++ egress_text dest ++ ")"

unfoldable pub assess : Ctx → Scope → String → String → Option Egress → Database → Assessment
assess ctx scope action resource dest d =
    let token = token_of ctx.jti d in
    let untrusted = check_integrity (taints_of token) in
    let outside = is_outside_task (estimated_of token) scope in
    record {
      risk = risk_of outside (not (is_null untrusted)) dest;
      evidence = record {
        user_asked = asked_by (find (λ r. r.id == ctx.run) d.runs);
        attempting = attempt action resource dest;
        outside_task_scope = outside;
        untrusted_origin = origin_of untrusted;
        classified_origin = origin_of (classified_by (taints_of token) dest);
      };
    }

-- The fields that the three cards share.
abbrev live_card :
    Ctx
    → ApprovalKind
    → String
    → String
    → Option Scope
    → Option GrantRequest
    → String
    → Assessment
    → CardInput
live_card ctx kind resource action scope grant reason assessment = record {
  source = ApprovalSource.live_deny;
  kind = kind;
  agent_id = ctx.sub;
  owner_id = ctx.owner_id;
  run_id = some ctx.run;
  jti = some ctx.jti;
  resource = resource;
  action = action;
  scope = scope;
  grant = grant;
  reason = reason;
  risk = assessment.risk;
  evidence = assessment.evidence;
}

unfoldable pub scope_card : Ctx → Scope → String → String → Database → CardInput
scope_card ctx scope resource action d =
    live_card ctx ApprovalKind.scope resource action (some scope) none
      (if includes (withheld_of (token_of ctx.jti d)) scope
        then "tool "
          ++ action
          ++ " on "
          ++ resource
          ++ " denied: "
          ++ scope_text scope
          ++ " was withheld from this run — the task did not look like it needed it"
        else "tool " ++ action ++ " on " ++ resource ++ " denied: missing " ++ scope_text scope)
      (assess ctx scope action resource none d)

unfoldable pub grant_card : Ctx → Agent → GrantAction → Scope → Database → CardInput
grant_card ctx target action scope d =
    live_card ctx ApprovalKind.grant (target.name ++ "/workspace") (action_text action) none
      (some (record {
        from_owner = target.owner_id;
        from_agent = some target.id;
        to_agent = ctx.sub;
        resource = Resource.workspace;
        actions = action ∷ [];
        egress = Egress.internal ∷ [];
      }))
      "no grant" (assess ctx scope (action_text action) (target.name ++ "/workspace") none d)

abbrev grant_id_of : Option Label → String
grant_id_of none = ""
grant_id_of (some label) = label.grant_id

-- `grant:<id>` for content that may not go there, `integrity:<id>` for content not believed.
abbrev pub flow_reason : List Label → Egress → String
flow_reason taints dest = elim (check_egress taints dest) [
  | some blocking ↦ "grant:" ++ blocking.grant_id
  | none ↦ "integrity:" ++ grant_id_of (check_integrity taints)
]

unfoldable pub declassify_card : Ctx → Egress → String → Scope → String → Database → CardInput
declassify_card ctx dest resource scope action d =
    live_card ctx ApprovalKind.declassify resource (egress_text dest) none none
      (flow_reason (taints_of (token_of ctx.jti d)) dest)
      (assess ctx scope action resource (some dest) d)

-- The arguments of `cardFor`. `dest` and `outbound` are those of the tool's egress check.
pub record CardRequest : Type 0 where
  pub scope : Scope
  pub resource : String
  pub action : String
  pub target : Option Agent
  pub grant_action : Option GrantAction
  pub dest : Option Egress
  pub outbound : Bool

abbrev pub flow_blocked : List Label → Egress → Bool → Bool
flow_blocked taints dest outbound =
    not (is_null (check_egress taints dest)) || (outbound && not (is_null (check_integrity taints)))

abbrev workspace_card :
    Ctx → Scope → Option Agent → Option GrantAction → Database → Option CardInput
workspace_card ctx scope none grant_action d = none
workspace_card ctx scope (some target) none d = none
workspace_card ctx scope (some target) (some action) d =
    if target.id == ctx.sub then none else some (grant_card ctx target action scope d)

abbrev flow_card : Ctx → CardRequest → Option Egress → Database → Option CardInput
flow_card ctx request none d =
    workspace_card ctx request.scope request.target request.grant_action d
flow_card ctx request (some dest) d =
    if flow_blocked (taints_of (token_of ctx.jti d)) dest request.outbound
    then some (declassify_card ctx dest request.resource request.scope request.action d)
    else workspace_card ctx request.scope request.target request.grant_action d

unfoldable pub card_for : Ctx → CardRequest → Database → Option CardInput
card_for ctx request d =
    if not (includes ctx.token.scp request.scope)
    then some (scope_card ctx request.scope request.resource request.action d)
    else flow_card ctx request request.dest d
