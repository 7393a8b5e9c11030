-- ===== src/Service/Requests.antt =====
-- apps/server/src/agent-service.ts: grants asked for in prose, the guard before an approval is
-- decided, and the timelines.
use Prim.Native.Nat.{◌-◌}
use Prim.Native.String.{◌++◌}
use tik_tok_jam.Base.{
  ℕ, String, Bool, true, false, not, ◌&&◌, Option, none, some, List, [], ◌∷◌, ◌==◌, leb, find, any,
  filter, includes, sort_by, length, drop, Eq-String, Eq-Option,
}
use tik_tok_jam.Types.Enums.{
  Egress, Resource, GrantAction, ApprovalSource, ApprovalKind, ApprovalDecision, ApprovalRisk,
  RunEventKind, Decision, action_text, source_text,
}
use tik_tok_jam.Types.Equality.{Eq-ApprovalKind, Eq-RunEventKind}
use tik_tok_jam.Types.Records.{
  Database, Agent, ApprovalRequest, RunEvent, str, num, bool, obj, field, done,
}
use tik_tok_jam.Text.{codes, same_ignoring_case, trim}
use tik_tok_jam.Action.{Action, http_error, pure, throw_if, require, read_db, ◌>>=◌, ◌>>◌}
use tik_tok_jam.Audit.{record_event}
use tik_tok_jam.Grants.{is_null}
use tik_tok_jam.Approvals.Answers
use tik_tok_jam.Approvals.{CardInput, card_of, create_card_on_deny}
use tik_tok_jam.Gateway.Cards.{shorten}
use tik_tok_jam.Service.Ownership.{get_agent, get_run}

-- nl-grant.ts: what a sentence asks for. The parser is injected into the service.
pub record GrantIntent : Type 0 where
  pub to_agent : String
  pub from_agent : String
  pub action : GrantAction

-- Only the caller's own agents have names here.
unfoldable pub by_name : String → String → Database → Option Agent
by_name caller_id written d =
    find (λ a. same_ignoring_case a.name (trim written))
      (filter (λ a. a.owner_id == caller_id) d.agents)

abbrev pub intent_card : Agent → Agent → GrantAction → String → String → CardInput
intent_card to from action caller_id text = record {
  source = ApprovalSource.nl_intent;
  kind = ApprovalKind.grant;
  agent_id = to.id;
  owner_id = caller_id;
  run_id = none;
  jti = none;
  resource = from.name ++ "/workspace";
  action = action_text action;
  scope = none;
  grant = some (record {
    from_owner = caller_id;
    from_agent = some from.id;
    to_agent = to.id;
    resource = Resource.workspace;
    actions = action ∷ [];
    egress = Egress.internal ∷ [];
  });
  reason = "requested in natural language";
  risk = ApprovalRisk.routine;
  evidence = record {
    user_asked = some (shorten text);
    attempting = action_text action ++ " on " ++ from.name ++ "/workspace";
    outside_task_scope = false;
    untrusted_origin = none;
    classified_origin = none;
  };
}

unfoldable pub parse_grant_request :
    (String → Option GrantIntent) → String → String → Action (ApprovalRequest × Bool)
parse_grant_request intent_parser text caller_id = do
  intent ← require (intent_parser text) (http_error 422 "Could not read a grant out of that")
  recipient ← read_db (by_name caller_id intent.to_agent)
  to ← require recipient (http_error 404 ("You have no agent named " ++ intent.to_agent))
  source ← read_db (by_name caller_id intent.from_agent)
  from ← require source (http_error 404 ("You have no agent named " ++ intent.from_agent))
  before ← read_db (λ d. d.approvals)
  card ← create_card_on_deny (intent_card to from intent.action caller_id text)
  let created = not (any (λ c. c.id == card.id) before)
  record_event (record {
    run_id = none;
    agent_id = to.id;
    owner_id = caller_id;
    kind = RunEventKind.approval;
    action = card.action;
    resource = card.resource;
    decision = some Decision.pending;
    reason = some "nl_intent";
    detail = obj (
        field "cardId" (str card.id) (
          field "source" (str (source_text card.source)) (
            field "created" (bool created) (field "textLength" (num (length (codes text))) done))));
  })
  pure (card, created)

abbrev is_allow_run : ApprovalDecision → Bool
is_allow_run ApprovalDecision.allow_run = true
is_allow_run ApprovalDecision.allow_always = false
is_allow_run ApprovalDecision.deny = false

-- "Allow for this run" on a grant card that no run raised.
abbrev pub lacks_run : Option ApprovalRequest → ApprovalDecision → String → Bool
lacks_run none decision by_owner = false
lacks_run (some card) decision by_owner =
    card.owner_id == by_owner
    && is_allow_run decision
    && card.kind == ApprovalKind.grant
    && is_null card.jti

unfoldable pub decide_approval :
    String → ApprovalDecision → String → Option Bool → Action ApprovalRequest
decide_approval approval_id decision by_owner trust_content = do
  card ← read_db (card_of approval_id)
  throw_if (lacks_run card decision by_owner)
      (http_error 409 "No run to scope this to. Use Always allow, then revoke when you are done")
  Answers.decide_approval approval_id decision by_owner trust_content

pub data EventFilter : Type 0 where
  policy everything : EventFilter

-- `POLICY_EVENT_KINDS`
abbrev pub policy_event_kinds : List RunEventKind
policy_event_kinds = RunEventKind.gateway ∷ RunEventKind.approval ∷ RunEventKind.grant ∷ []

abbrev pub passes : EventFilter → RunEventKind → Bool
passes EventFilter.everything kind = true
passes EventFilter.policy kind = includes policy_event_kinds kind

unfoldable pub select_events : (RunEvent → Bool) → EventFilter → Database → List RunEvent
select_events matches events d =
    sort_by (λ a b. leb a.at b.at) (filter (λ e. matches e && passes events e.kind) d.run_events)

unfoldable pub get_run_events : String → EventFilter → Action (List RunEvent)
get_run_events run_id events = do
  get_run run_id
  read_db (select_events (λ e. e.run_id == some run_id) events)

unfoldable pub get_agent_events : String → EventFilter → ℕ → Action (List RunEvent)
get_agent_events agent_id events limit = do
  get_agent agent_id
  rows ← read_db (select_events (λ e. e.agent_id == agent_id) events)
  pure (drop (length rows - limit) rows)
