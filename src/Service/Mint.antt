-- ===== src/Service/Mint.antt =====
-- apps/server/src/agent-service.ts: `sendMessage`, which starts a run and mints its token.
pub mod Narrowing
use Prim.Native.String.{◌++◌}
use mathlib.Core.List.{◌++◌ as append}
use tik_tok_jam.Base.{
  ℕ, ◌+◌, String, Bool, false, not, ◌||◌, Option, none, some, List, [], ◌∷◌, ◌==◌, leb, filter,
  includes, push, at_last, sort_by, unique, modify_first, if◌then◌else◌, Eq-String, Eq-Option,
}
use tik_tok_jam.Types.Enums.{
  AgentStatus, RunStatus, MessageRole, Scope, scopes, scope_text, ApprovalSource, ApprovalKind,
  ApprovalRisk,
}
use tik_tok_jam.Types.Equality.{Eq-AgentStatus, Eq-Scope}
use tik_tok_jam.Types.Records.{Database, Agent, AgentRun, Message, RunToken, Label}
use tik_tok_jam.Action.{
  Action, Result, ok, err, http_error, pure, throw_if, mutate, now, random_uuid, for_each, ◌>>=◌,
  ◌>>◌,
}
use tik_tok_jam.Store.{effective_scopes, live_temp_scopes}
use tik_tok_jam.Grants.{agent_of, is_null}
use tik_tok_jam.Approvals.{CardInput, create_card_on_deny}
use tik_tok_jam.Gateway.Cards.{shorten}

-- What the service is configured with. The estimator is injected; it may throw.
pub record MintDeps : Type 0 where
  pub ark_configured : Bool
  pub estimator_enabled : Bool
  pub estimate_task_scopes : String → Result (List Scope)
  pub codex_timeout_ms : ℕ

abbrev answered : Result (List Scope) → List Scope
answered (ok estimated) = filter (λ s. includes scopes s) estimated
answered (err e) = []

-- `estimateScopes`: no opinion where the estimator is off or throws.
unfoldable pub estimate_scopes : MintDeps → String → List Scope
estimate_scopes deps prompt =
    if not deps.estimator_enabled then [] else answered (deps.estimate_task_scopes prompt)

-- `scp`: the standing scopes, narrowed to the estimate where there is one.
unfoldable pub mint_scp : List Scope → List Scope → List Scope → List Scope
mint_scp [] standing live = standing
mint_scp (e ∷ estimated) standing live =
    unique (append (filter (λ s. includes (e ∷ estimated) s) standing) live)

unfoldable pub previous_token : String → Database → Option RunToken
previous_token agent_id d = at_last (
    sort_by (λ s t. leb s.issued_at t.issued_at)
      (filter (λ t. t.agent_id == agent_id) d.run_tokens))

abbrev pub same_conversation : RunToken → Agent → Bool
same_conversation token agent = is_null token.thread_id || token.thread_id == agent.codex_thread_id

abbrev pub carried_taints : Option RunToken → Agent → List Label
carried_taints none agent = []
carried_taints (some token) agent = if same_conversation token agent then token.taints else []

abbrev pub withheld_from : List Scope → List Scope → List Scope
withheld_from standing scp = filter (λ s. not (includes scp s)) standing

-- `token`, for the run `run_id` of `agent` that starts at `at`.
unfoldable pub mint_token : Agent → List Scope → ℕ → ℕ → String → String → Database → RunToken
mint_token agent estimated timeout_ms at jti run_id d =
    let standing = effective_scopes agent at in
    let scp = mint_scp estimated standing (live_temp_scopes agent at) in
    record {
      jti = jti;
      run_id = run_id;
      agent_id = agent.id;
      owner_id = agent.owner_id;
      scp = scp;
      taints = carried_taints (previous_token agent.id d) agent;
      egress_allow = [];
      estimated = estimated;
      withheld = withheld_from standing scp;
      thread_id = agent.codex_thread_id;
      issued_at = at;
      expires_at = at + timeout_ms + 60000;
      revoked_at = none;
    }

abbrev pub new_run : String → String → String → ℕ → AgentRun
new_run id agent_id prompt at = record {
  id = id;
  agent_id = agent_id;
  status = RunStatus.queued;
  prompt = prompt;
  output = none;
  error = none;
  usage = none;
  started_at = none;
  completed_at = none;
  created_at = at;
}

abbrev pub new_message : String → String → String → MessageRole → String → ℕ → Message
new_message id agent_id run_id role content at = record {
  id = id;
  agent_id = agent_id;
  run_id = run_id;
  role = role;
  content = content;
  created_at = at;
}

pub record Started : Type 0 where
  pub agent : Agent
  pub token : RunToken
  pub missing : List Scope

abbrev pub mark_busy : ℕ → Agent → Agent
mark_busy at agent = record agent { status = AgentStatus.busy; last_error = none; updated_at = at }

-- The body of `mutate`: the run, its message and its token are written in one step.
unfoldable pub start_in :
    AgentRun → Message → List Scope → ℕ → String → Database → Result (Started × Database)
start_in run message estimated timeout_ms jti d = elim (agent_of run.agent_id d) [
  | none ↦ err (http_error 404 "Agent not found")
  | some agent ↦
      if agent.status == AgentStatus.stopped
      then err (http_error 409 "Start the Agent before sending a message")
      else if agent.status == AgentStatus.busy
      then err (http_error 409 "This Agent is already running")
      else ok (
        record {
          agent = agent;
          token = mint_token agent estimated timeout_ms run.created_at jti run.id d;
          missing =
              filter (λ s. not (includes (effective_scopes agent run.created_at) s)) estimated;
        },
        record d {
          runs = push d.runs run;
          messages = push d.messages message;
          run_tokens =
              push d.run_tokens (mint_token agent estimated timeout_ms run.created_at jti run.id d);
          agents = modify_first (λ a. a.id == run.agent_id) (mark_busy run.created_at) d.agents;
        },
      )
]

-- The card of `requestMissingScopes`.
abbrev pub missing_card : Agent → AgentRun → RunToken → Scope → CardInput
missing_card agent run token scope = record {
  source = ApprovalSource.nl_intent;
  kind = ApprovalKind.scope;
  agent_id = agent.id;
  owner_id = agent.owner_id;
  run_id = some run.id;
  jti = some token.jti;
  resource = agent.name;
  action = "run:" ++ scope_text scope;
  scope = some scope;
  grant = none;
  reason =
      "this task looks like it needs " ++ scope_text scope ++ ", which this agent doesn't have";
  risk = ApprovalRisk.routine;
  evidence = record {
    user_asked = some (shorten run.prompt);
    attempting = "use " ++ scope_text scope ++ " for this task";
    outside_task_scope = false;
    untrusted_origin = none;
    classified_origin = none;
  };
}

unfoldable pub request_missing_scopes : Agent → AgentRun → RunToken → List Scope → Action (Unit {0})
request_missing_scopes agent run token missing =
    for_each (λ scope. do create_card_on_deny (missing_card agent run token scope); pure tt) missing

pub record Sent : Type 0 where
  pub run : AgentRun
  pub message : Message
  pub agent : Agent
  pub token : RunToken

-- `sendMessage`, up to the start of `executeRun`, which is given the agent, the run and the token.
unfoldable pub send_message : MintDeps → String → String → Action Sent
send_message deps agent_id prompt = do
  throw_if (not deps.ark_configured)
      (http_error 503 "Ark is not configured. Set ARK_API_KEY and ARK_MODEL, then restart.")
  at ← now
  run_id ← random_uuid
  message_id ← random_uuid
  let run = new_run run_id agent_id prompt at
  let message = new_message message_id agent_id run_id MessageRole.user prompt at
  let estimated = estimate_scopes deps prompt
  jti ← random_uuid
  started ← mutate (start_in run message estimated deps.codex_timeout_ms jti)
  request_missing_scopes started.agent run started.token started.missing
  pure (record { run = run; message = message; agent = started.agent; token = started.token })
