-- ===== src/Approvals.antt =====
-- apps/server/src/approvals.ts: the cards that a human answers.
pub mod Cards
pub mod Answers
pub mod Effects
use tik_tok_jam.Base.{
  ℕ, ◌+◌, String, Bool, true, false, not, ◌&&◌, Option, none, some, List, [], ◌∷◌, ◌==◌, find,
  filter, includes, push, modify_first, modify_all, unique, if◌then◌else◌, leb, sort_by, Eq-String,
  Eq-Option,
}
use tik_tok_jam.Types.Enums.{
  Scope, Egress, Resource, GrantAction, Trust, ApprovalSource, ApprovalKind, ApprovalDecision,
  ApprovalStatus, ApprovalRisk, RunEventKind, Decision, decision_text, source_text, kind_text,
}
use tik_tok_jam.Types.Equality.{Eq-Scope, Eq-Egress, Eq-ApprovalKind, is_pending}
use tik_tok_jam.Types.Records.{
  Database, ApprovalRequest, ApprovalEvidence, GrantRequest, PolicyGrant, RunToken, Agent, str, obj,
  field, done,
}
use tik_tok_jam.Text.{after_colon, strip_prefix}
use tik_tok_jam.Action.{
  Action, Result, ok, err, http_error, failure, pure, throw_if, require, read_db, update, mutate,
  now, random_uuid, ◌>>=◌, ◌>>◌,
}
use tik_tok_jam.Audit.{record_event}
use tik_tok_jam.Grants.{GrantInput, create_grant, own_crm_label, or_else, is_null}

pub record CardInput : Type 0 where
  pub source : ApprovalSource
  pub kind : ApprovalKind
  pub agent_id : String
  pub owner_id : String
  pub run_id : Option String
  pub jti : Option String
  pub resource : String
  pub action : String
  pub scope : Option Scope
  pub grant : Option GrantRequest
  pub reason : String
  pub risk : ApprovalRisk
  pub evidence : ApprovalEvidence

abbrev pub new_card : CardInput → String → ℕ → ApprovalRequest
new_card input id at = record {
  id = id;
  source = input.source;
  kind = input.kind;
  agent_id = input.agent_id;
  owner_id = input.owner_id;
  run_id = input.run_id;
  jti = input.jti;
  resource = input.resource;
  action = input.action;
  scope = input.scope;
  grant = input.grant;
  reason = input.reason;
  risk = input.risk;
  evidence = input.evidence;
  status = ApprovalStatus.pending;
  created_at = at;
  decided_at = none;
  decided_by = none;
}

-- A pending card for the same agent, kind, resource and action.
abbrev pub is_duplicate : CardInput → ApprovalRequest → Bool
is_duplicate input c =
    is_pending c.status
    && c.agent_id == input.agent_id
    && c.kind == input.kind
    && c.resource == input.resource
    && c.action == input.action

unfoldable pub card_in : CardInput → String → ℕ → Database → ApprovalRequest × Database
card_in input id at d = elim (find (is_duplicate input) d.approvals) [
  | some existing ↦ (existing, d)
  | none ↦ (new_card input id at, record d { approvals = push d.approvals (new_card input id at) })
]

-- The id and the time are read whether or not they are used.
unfoldable pub create_card_on_deny : CardInput → Action ApprovalRequest
create_card_on_deny input = do id ← random_uuid; at ← now; mutate (λ d. ok (card_in input id at d))

abbrev pub card_of : String → Database → Option ApprovalRequest
card_of id d = find (λ c. c.id == id) d.approvals

-- The token that a card names, if it names one.
abbrev pub card_token : ApprovalRequest → Database → Option RunToken
card_token card d = find (λ t. some t.jti == card.jti) d.run_tokens

abbrev pub modify_token : ApprovalRequest → (RunToken → RunToken) → Database → Database
modify_token card f d = record d {
  run_tokens = modify_first (λ t. some t.jti == card.jti) f d.run_tokens;
}

unfoldable pub list_approvals : String → Database → List ApprovalRequest
list_approvals owner_id d =
    sort_by (λ a b. leb b.created_at a.created_at)
      (filter (λ c. c.owner_id == owner_id) d.approvals)
