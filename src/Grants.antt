-- ===== src/Grants.antt =====
-- apps/server/src/grants.ts: whose data an agent may touch, and where the data may go.
pub mod Live
pub mod Revocation
use Prim.Native.String.{◌++◌}
use tik_tok_jam.Base.{
  ℕ, String, Bool, true, false, not, ◌&&◌, ◌||◌, Option, none, some, List, [], ◌∷◌, map, ◌==◌, ltb,
  find, filter, includes, push, modify_first, modify_all, if◌then◌else◌, Eq-String, Eq-Option,
}
use tik_tok_jam.Types.Enums.{
  Egress, Resource, GrantAction, RunEventKind, Decision, action_text, resource_text, egress_text,
}
use tik_tok_jam.Types.Equality.{Eq-Resource, Eq-GrantAction}
use tik_tok_jam.Types.Records.{
  Database, PolicyGrant, RunToken, Label, Agent, Value, null, num, str, arr, obj, Items, nil, cons,
  done, field,
}
use tik_tok_jam.Action.{
  Action, Result, ok, err, http_error, pure, throw_if, require, read_db, mutate, update, now,
  random_uuid, ◌>>=◌, ◌>>◌,
}
use tik_tok_jam.Audit.{record_event}

pub record GrantInput : Type 0 where
  pub from_agent : Option String
  pub to_agent : String
  pub resource : Resource
  pub actions : List GrantAction
  pub egress : Option (List Egress)
  pub trust_content : Option Bool
  pub expires_at : Option ℕ

-- `x ?? d`
abbrev pub or_else {ℓ} : {A : Type ℓ} → Option A → A → A
or_else none d = d
or_else (some x) d = x

abbrev pub is_null {ℓ} : {A : Type ℓ} → Option A → Bool
is_null none = true
is_null (some x) = false

abbrev pub own_crm_label : String
own_crm_label = "self:crm"

abbrev pub is_live : PolicyGrant → ℕ → Bool
is_live grant at =
    is_null grant.revoked_at && elim grant.expires_at [ none ↦ true | some expiry ↦ ltb at expiry ]

abbrev pub agent_of : String → Database → Option Agent
agent_of id d = find (λ a. a.id == id) d.agents

abbrev pub token_of : String → Database → Option RunToken
token_of jti d = find (λ t. t.jti == jti) d.run_tokens

abbrev pub grant_of : String → Database → Option PolicyGrant
grant_of id d = find (λ g. g.id == id) d.policy_grants

-- The source agent must exist and be the caller's; there is none for the owner's CRM.
abbrev pub check_source : Option String → String → Action (Unit {0})
check_source none by_owner = pure tt
check_source (some from_agent) by_owner = do
  found ← read_db (agent_of from_agent)
  from ← require found (http_error 404 "Source agent not found")
  throw_if (not (from.owner_id == by_owner)) (http_error 400 "Grants are intra-tenant only")

abbrev pub new_grant : GrantInput → String → String → ℕ → PolicyGrant
new_grant input by_owner id at = record {
  id = id;
  from_owner = by_owner;
  from_agent = input.from_agent;
  to_agent = input.to_agent;
  resource = input.resource;
  actions = input.actions;
  egress = or_else input.egress (Egress.internal ∷ []);
  trust_content = or_else input.trust_content false;
  created_at = at;
  expires_at = input.expires_at;
  revoked_at = none;
}

abbrev join_actions : List GrantAction → String
join_actions [] = ""
join_actions (a ∷ []) = action_text a
join_actions (a ∷ b ∷ more) = action_text a ++ "+" ++ join_actions (b ∷ more)

abbrev egress_items : List Egress → Items
egress_items [] = nil
egress_items (e ∷ es) = cons (str (egress_text e)) (egress_items es)

abbrev nullable_num : Option ℕ → Value
nullable_num none = null
nullable_num (some n) = num n

-- `(grant.fromAgent ?? byOwner) + "/" + grant.resource`
abbrev grant_resource : PolicyGrant → String → String
grant_resource grant by_owner =
    or_else grant.from_agent by_owner ++ "/" ++ resource_text grant.resource

abbrev pub push_grant : PolicyGrant → Database → Database
push_grant grant d = record d { policy_grants = push d.policy_grants grant }

unfoldable pub create_grant : GrantInput → String → Action PolicyGrant
create_grant input by_owner = do
  recipient ← read_db (agent_of input.to_agent)
  to ← require recipient (http_error 404 "Agent not found")
  throw_if (not (to.owner_id == by_owner)) (http_error 403 "Agent belongs to another tenant")
  check_source input.from_agent by_owner
  id ← random_uuid
  at ← now
  let grant = new_grant input by_owner id at
  update (push_grant grant)
  record_event (record {
    run_id = none;
    agent_id = grant.to_agent;
    owner_id = by_owner;
    kind = RunEventKind.grant;
    action = "grant:" ++ join_actions grant.actions;
    resource = grant_resource grant by_owner;
    decision = some Decision.allow;
    reason = none;
    detail = obj (
        field "grantId" (str grant.id) (
          field "egress" (arr (egress_items grant.egress))
            (field "expiresAt" (nullable_num grant.expires_at) done)));
  })
  pure grant

-- `if (grant.revokedAt === null) grant.revokedAt = at`
abbrev pub mark_revoked : ℕ → PolicyGrant → PolicyGrant
mark_revoked at grant = record grant { revoked_at = some (or_else grant.revoked_at at) }

abbrev pub clear_egress : Label → Label
clear_egress taint = record taint { egress = [] }

-- The taints that a grant left on a token lose all egress.
abbrev pub narrow_taints : String → RunToken → RunToken
narrow_taints grant_id token = record token {
  taints = modify_all (λ t. t.grant_id == grant_id) clear_egress token.taints;
}

unfoldable pub revoke_in : String → String → ℕ → Database → Result (PolicyGrant × Database)
revoke_in grant_id by_owner at d = elim (grant_of grant_id d) [
  | none ↦ err (http_error 404 "Grant not found")
  | some grant ↦
      if not (grant.from_owner == by_owner)
      then err (http_error 403 "Grant belongs to another tenant")
      else ok (
        mark_revoked at grant,
        record d {
          policy_grants = modify_first (λ g. g.id == grant_id) (mark_revoked at) d.policy_grants;
          run_tokens = map (narrow_taints grant_id) d.run_tokens;
        },
      )
]

unfoldable pub revoke_grant : String → String → Action PolicyGrant
revoke_grant grant_id by_owner = do
  at ← now
  revoked ← mutate (revoke_in grant_id by_owner at)
  record_event (record {
    run_id = none;
    agent_id = revoked.to_agent;
    owner_id = by_owner;
    kind = RunEventKind.grant;
    action = "revoke";
    resource = grant_resource revoked by_owner;
    decision = some Decision.deny;
    reason = some "revoked-by-operator";
    detail = obj (field "grantId" (str grant_id) done);
  })
  pure revoked

pub record GrantQuery : Type 0 where
  pub from_owner : String
  pub from_agent : Option String
  pub to_agent : String
  pub resource : Resource
  pub action : GrantAction

abbrev pub answers : GrantQuery → ℕ → PolicyGrant → Bool
answers query at g =
    is_live g at
    && g.from_owner == query.from_owner
    && g.from_agent == query.from_agent
    && g.to_agent == query.to_agent
    && g.resource == query.resource
    && includes g.actions query.action

unfoldable pub find_live_grant : GrantQuery → ℕ → Database → Option PolicyGrant
find_live_grant query at d = find (answers query at) d.policy_grants

unfoldable pub list_grants : String → Database → List PolicyGrant
list_grants agent_id d =
    filter (λ g. g.to_agent == agent_id || g.from_agent == some agent_id) d.policy_grants
