-- ===== src/Approvals/Effects.antt =====
-- apps/server/src/approvals.ts: what an answer changes.
use tik_tok_jam.Base.{
  ℕ, ◌+◌, String, Bool, true, false, not, ◌&&◌, Option, none, some, List, [], ◌∷◌, ◌==◌, filter,
  includes, push, modify_first, modify_all, unique, if◌then◌else◌, Eq-String, Eq-Option,
}
use tik_tok_jam.Types.Enums.{Scope, Egress, Resource, GrantAction, Trust, ApprovalKind}
use tik_tok_jam.Types.Equality.{Eq-Scope, Eq-Egress, Eq-ApprovalKind}
use tik_tok_jam.Types.Records.{
  Database, ApprovalRequest, GrantRequest, PolicyGrant, RunToken, Agent,
}
use tik_tok_jam.Text.{after_colon, strip_prefix}
use tik_tok_jam.Action.{Action, pure, read_db, update, now, ◌>>=◌, ◌>>◌}
use tik_tok_jam.Grants.{GrantInput, create_grant, own_crm_label, or_else, is_null}
use tik_tok_jam.Approvals.{card_token, modify_token}

abbrev pub add_once : List Scope → Scope → List Scope
add_once xs scope = if includes xs scope then xs else push xs scope

abbrev pub widen_scp : Scope → RunToken → RunToken
widen_scp scope token = record token { scp = add_once token.scp scope }

-- `Date.now() + 10 * 60_000`
abbrev pub ten_minutes : ℕ
ten_minutes = 600000

abbrev pub keep_for_run : Scope → ℕ → Agent → Agent
keep_for_run scope expires_at agent = record agent {
  temp_scopes =
      push (filter (λ t. not (t.scope == scope)) agent.temp_scopes)
        (record { scope = scope; expires_at = expires_at });
}

abbrev pub keep_always : Scope → Agent → Agent
keep_always scope agent = record agent {
  permissions = record agent.permissions { tools = add_once agent.permissions.tools scope };
}

abbrev expiry_of : Option RunToken → Option ℕ
expiry_of none = none
expiry_of (some token) = some token.expires_at

-- The body of `mutate` for a card of kind scope.
unfoldable pub allow_scope : ApprovalRequest → Scope → Bool → ℕ → Database → Database
allow_scope card scope for_run at d =
    let expires_at = or_else (expiry_of (card_token card d)) (at + ten_minutes) in
    let widened = modify_token card (widen_scp scope) d in
    record widened {
      agents =
          modify_first (λ a. a.id == card.agent_id)
            (λ a. if for_run then keep_for_run scope expires_at a else keep_always scope a)
            d.agents;
    }

-- The input of `createGrant` for a card of kind grant.
abbrev pub grant_input : GrantRequest → Option Bool → Option ℕ → GrantInput
grant_input request trust_content expires_at = record {
  from_agent = request.from_agent;
  to_agent = request.to_agent;
  resource = request.resource;
  actions = request.actions;
  egress = some request.egress;
  trust_content = some (or_else trust_content false);
  expires_at = expires_at;
}

abbrev pub crm_grant_input : ApprovalRequest → Egress → GrantInput
crm_grant_input card dest = record {
  from_agent = none;
  to_agent = card.agent_id;
  resource = Resource.crm;
  actions = GrantAction.read ∷ [];
  egress = some (unique (Egress.internal ∷ dest ∷ []));
  trust_content = none;
  expires_at = none;
}

abbrev pub approve_destination : String → RunToken → RunToken
approve_destination resource token = record token {
  egress_allow =
      if includes token.egress_allow resource
      then token.egress_allow
      else push token.egress_allow resource;
}

abbrev pub add_egress : List Egress → Egress → List Egress
add_egress xs dest = if includes xs dest then xs else push xs dest

abbrev pub names_grant : Option String → String → Bool
names_grant grant_id id = some id == grant_id

abbrev pub believe_taints : Option String → RunToken → RunToken
believe_taints grant_id token = record token {
  taints =
      modify_all (λ t. names_grant grant_id t.grant_id) (λ t. record t { trust = Trust.trusted })
        token.taints;
}

abbrev pub widen_taints : Option String → Egress → RunToken → RunToken
widen_taints grant_id dest token = record token {
  taints =
      modify_all (λ t. names_grant grant_id t.grant_id)
        (λ t. record t { egress = add_egress t.egress dest }) token.taints;
}

abbrev pub modify_grant : Option String → (PolicyGrant → PolicyGrant) → Database → Database
modify_grant grant_id f d = record d {
  policy_grants = modify_first (λ g. names_grant grant_id g.id) f d.policy_grants;
}

-- `card.reason.startsWith("integrity:")`
abbrev pub is_integrity : ApprovalRequest → Bool
is_integrity card = not (is_null (strip_prefix "integrity:" card.reason))

-- The body of the second `mutate` for a card of kind declassify.
unfoldable pub allow_flow : ApprovalRequest → Egress → Bool → Database → Database
allow_flow card dest for_run d =
    let grant_id = after_colon card.reason in
    if for_run
    then modify_token card (approve_destination card.resource) d
    else if is_integrity card
    then modify_grant grant_id (λ g. record g { trust_content = true })
        (modify_token card (believe_taints grant_id) d)
    else modify_grant grant_id (λ g. record g { egress = add_egress g.egress dest })
        (modify_token card (widen_taints grant_id dest) d)

-- `card.action as Egress`: the gateway writes a declassify card's destination there.
abbrev pub egress_of : String → Option Egress
egress_of text =
    if text == "internal"
    then some Egress.internal
    else if text == "agent"
    then some Egress.agent
    else if text == "external"
    then some Egress.external
    else none

abbrev pub apply_scope : ApprovalRequest → Option Scope → Bool → Action (Unit {0})
apply_scope card none for_run = pure tt
apply_scope card (some scope) for_run = do at ← now; update (allow_scope card scope for_run at)

abbrev pub apply_grant :
    ApprovalRequest → Option GrantRequest → Bool → Option Bool → String → Action (Unit {0})
apply_grant card none for_run trust_content by_owner = pure tt
apply_grant card (some request) for_run trust_content by_owner = do
  token ← read_db (card_token card)
  create_grant (grant_input request trust_content (if for_run then expiry_of token else none))
      by_owner
  pure tt

-- The owner's own CRM has no grant to widen, so "always" writes one.
abbrev pub apply_crm_grant : ApprovalRequest → Egress → Bool → String → Action (Unit {0})
apply_crm_grant card dest for_run by_owner =
    if not for_run && not (is_integrity card) && after_colon card.reason == some own_crm_label
    then (do create_grant (crm_grant_input card dest) by_owner; pure tt)
    else pure tt

abbrev pub apply_flow : ApprovalRequest → Option Egress → Bool → String → Action (Unit {0})
apply_flow card none for_run by_owner = pure tt
apply_flow card (some dest) for_run by_owner = do
  apply_crm_grant card dest for_run by_owner
  update (allow_flow card dest for_run)

-- What an answer other than "deny" does, before the card is closed.
unfoldable pub apply_decision :
    ApprovalRequest → ApprovalKind → Bool → Option Bool → String → Action (Unit {0})
apply_decision card ApprovalKind.scope for_run trust_content by_owner =
    apply_scope card card.scope for_run
apply_decision card ApprovalKind.grant for_run trust_content by_owner =
    apply_grant card card.grant for_run trust_content by_owner
apply_decision card ApprovalKind.declassify for_run trust_content by_owner =
    apply_flow card (egress_of card.action) for_run by_owner
