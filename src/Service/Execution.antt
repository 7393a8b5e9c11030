-- ===== src/Service/Execution.antt =====
-- apps/server/src/agent-service.ts: `executeRun` and `initialize`. The runner is an action of its own:
-- whatever happens to the world while Codex works, the gateway's calls included, is in it.
pub mod Closing
pub mod Recovery
use tik_tok_jam.Base.{
  ℕ, ◌+◌, ◌-◌, String, Bool, true, false, ◌||◌, Option, none, some, List, ◌==◌, push, unique,
  modify_first, modify_all, if◌then◌else◌, Eq-String,
}
use Prim.Native.Nat.{◌/◌}
use mathlib.Core.List.{◌++◌}
use tik_tok_jam.Types.Enums.{
  AgentStatus, RunStatus, MessageRole, Scope, SecurityLevel, RunEventKind, Decision, level_text,
}
use tik_tok_jam.Types.Equality.{Eq-AgentStatus, Eq-RunStatus, Eq-Scope}
use tik_tok_jam.Types.Records.{
  Database, Agent, AgentPermissions, AgentRun, RunToken, RunUsage, Label, Value, null, str, obj,
  field, done,
}
use tik_tok_jam.Action.{
  Action, Result, ok, err, Exception, http_error, denied, run_cancelled, failure, pure, throw_if,
  update, now, random_uuid, ◌>>=◌, ◌>>◌,
}
use tik_tok_jam.Audit.{record_event}
use tik_tok_jam.Grants.{agent_of, is_null}
use tik_tok_jam.Ifc.Screen.{ScreenResult, Verdict, screen_output}
use tik_tok_jam.Service.Ownership.{run_of}
use tik_tok_jam.Service.Agents.{modify_agent, revoke_token}
use tik_tok_jam.Service.Mint.{new_message}

pub record AgentTokenClaims : Type 0 where
  pub sub : String
  pub own : String
  pub run : String
  pub jti : String
  pub scp : List Scope
  pub expires_in_seconds : ℕ

pub record RunnerRequest : Type 0 where
  pub agent_id : String
  pub workspace_path : String
  pub prompt : String
  pub thread_id : Option String
  pub token : String
  pub permissions : AgentPermissions

pub record RunnerResult : Type 0 where
  pub output : String
  pub thread_id : Option String
  pub usage : Option RunUsage

-- Codex, the signer of tokens and the digest, which the service is given.
pub record Runtime : Type 0 where
  pub sign_agent : AgentTokenClaims → Result String
  pub run : RunnerRequest → Action RunnerResult
  pub digest : List ℕ → String
  pub show_number : ℕ → String

abbrev pub modify_run : String → (AgentRun → AgentRun) → Database → Database
modify_run id f d = record d { runs = modify_first (λ r. r.id == id) f d.runs }

abbrev mark_running : ℕ → AgentRun → AgentRun
mark_running at run = record run { status = RunStatus.running; started_at = some at }

unfoldable pub begin_in : String → ℕ → Database → Database
begin_in run_id at d = modify_run run_id (mark_running at) d

-- The seconds to the token's expiry, rounded up; 0 where it has passed.
abbrev pub claims_of : RunToken → ℕ → AgentTokenClaims
claims_of token at = record {
  sub = token.agent_id;
  own = token.owner_id;
  run = token.run_id;
  jti = token.jti;
  scp = token.scp;
  expires_in_seconds = (token.expires_at - at + 999) / 1000;
}

abbrev pub runner_request : Agent → AgentRun → RunToken → String → RunnerRequest
runner_request agent run token signed = record {
  agent_id = agent.id;
  workspace_path = agent.workspace_path;
  prompt = run.prompt;
  thread_id = agent.codex_thread_id;
  token = signed;
  permissions = record agent.permissions { tools = unique (token.scp ++ token.withheld) };
}

abbrev pub lift : {A : Type 0} → Result A → Action A
lift r w = (r, w)

-- The part of `try` up to the runner's answer.
unfoldable pub attempt : Runtime → Bool → Agent → AgentRun → RunToken → Action RunnerResult
attempt runtime cancelled agent run token = do
  throw_if cancelled run_cancelled
  at ← now
  signed ← lift (runtime.sign_agent (claims_of token at))
  runtime.run (runner_request agent run token signed)

abbrev mark_completed : String → Option RunUsage → ℕ → AgentRun → AgentRun
mark_completed output usage at run = record run {
  status = RunStatus.completed;
  output = some output;
  usage = usage;
  completed_at = some at;
}

abbrev pub mark_ready : Option String → ℕ → Agent → Agent
mark_ready thread_id at agent = record agent {
  status = AgentStatus.ready;
  codex_thread_id = thread_id;
  last_error = none;
  updated_at = at;
}

-- The thread that the run created, where its token was minted before there was one.
abbrev pub backfill : Option String → RunToken → RunToken
backfill thread_id token = record token {
  thread_id = elim token.thread_id [ none ↦ thread_id | some t ↦ some t ];
}

abbrev pub modify_jti : String → (RunToken → RunToken) → Database → Database
modify_jti jti f d = record d { run_tokens = modify_first (λ t. t.jti == jti) f d.run_tokens }

unfoldable pub complete_in :
    String → String → String → RunnerResult → String → String → ℕ → Database → Database
complete_in run_id agent_id jti result output message_id at d =
    if is_null (run_of run_id d) || is_null (agent_of agent_id d) then d else record d {
      runs = modify_first (λ r. r.id == run_id) (mark_completed output result.usage at) d.runs;
      messages =
          push d.messages (new_message message_id agent_id run_id MessageRole.assistant output at);
      agents = modify_first (λ a. a.id == agent_id) (mark_ready result.thread_id at) d.agents;
      run_tokens = modify_first (λ t. t.jti == jti) (backfill result.thread_id) d.run_tokens;
    }

abbrev origin_value : Option Label → Value
origin_value none = null
origin_value (some label) = str label.origin

abbrev pub record_screen : Agent → AgentRun → ScreenResult → String → Action (Unit {0})
record_screen agent run screened reason = do
  record_event (record {
    run_id = some run.id;
    agent_id = agent.id;
    owner_id = agent.owner_id;
    kind = RunEventKind.gateway;
    action = "output";
    resource = "chat";
    decision = some Decision.deny;
    reason = some reason;
    detail = obj (
        field "level" (str (level_text screened.level))
          (field "origin" (origin_value screened.origin) done));
  })
  pure tt

abbrev pub report_screen : Agent → AgentRun → ScreenResult → Verdict → Action (Unit {0})
report_screen agent run screened Verdict.allow = pure tt
report_screen agent run screened Verdict.redact = record_screen agent run screened "redact"
report_screen agent run screened Verdict.block = record_screen agent run screened "block"

-- `closeRunToken`
unfoldable pub close_in : String → ℕ → Database → Database
close_in jti at d = modify_jti jti (revoke_token at) d

unfoldable pub close_run_token : String → Action (Unit {0})
close_run_token jti = do at ← now; update (close_in jti at)

unfoldable pub finish : Runtime → Agent → AgentRun → RunToken → RunnerResult → Action (Unit {0})
finish runtime agent run token result w =
    let screened =
      screen_output runtime.digest runtime.show_number w.index run.id result.output
        SecurityLevel.confidential in
    (do
      at ← now
      report_screen agent run screened screened.verdict
      message_id ← random_uuid
      update (complete_in run.id agent.id token.jti result screened.output message_id at)
      close_run_token token.jti)
      w

abbrev pub message_of : Exception → String
message_of (http_error status message) = message
message_of (denied status reason message) = message
message_of run_cancelled = "Run cancelled"
message_of (failure message) = message

abbrev pub is_cancel : Exception → Bool
is_cancel run_cancelled = true
is_cancel (http_error status message) = false
is_cancel (denied status reason message) = false
is_cancel (failure message) = false

abbrev mark_failed : Bool → String → ℕ → AgentRun → AgentRun
mark_failed cancelled message at run = record run {
  status = if cancelled then RunStatus.cancelled else RunStatus.failed;
  error = some message;
  completed_at = some at;
}

abbrev mark_agent_failed : Bool → String → ℕ → Agent → Agent
mark_agent_failed cancelled message at agent = record agent {
  status =
      if agent.status == AgentStatus.stopped
      then agent.status
      else if cancelled
      then AgentStatus.ready
      else AgentStatus.error;
  last_error = if cancelled then none else some message;
  updated_at = at;
}

unfoldable pub fail_in : String → String → Bool → String → ℕ → Database → Database
fail_in run_id agent_id cancelled message at d =
    modify_agent agent_id (mark_agent_failed cancelled message at)
      (modify_run run_id (mark_failed cancelled message at) d)

unfoldable pub fail : Agent → AgentRun → RunToken → Exception → Action (Unit {0})
fail agent run token e = do
  at ← now
  update (fail_in run.id agent.id (is_cancel e) (message_of e) at)
  close_run_token token.jti

abbrev pub conclude :
    Runtime → Agent → AgentRun → RunToken → Result RunnerResult → Action (Unit {0})
conclude runtime agent run token (ok result) = finish runtime agent run token result
conclude runtime agent run token (err e) = fail agent run token e

-- `cancelled`: whether a cancellation was asked for before the runner was called.
unfoldable pub execute_run : Runtime → Bool → Agent → AgentRun → RunToken → Action (Unit {0})
execute_run runtime cancelled agent run token = do
  at ← now
  update (begin_in run.id at)
  λ w.
      let (r, w') = attempt runtime cancelled agent run token w in
      conclude runtime agent run token r w'

abbrev pub is_active : RunStatus → Bool
is_active status = status == RunStatus.queued || status == RunStatus.running

abbrev pub interrupt : ℕ → AgentRun → AgentRun
interrupt at run = record run {
  status = RunStatus.cancelled;
  error = some "Server restarted while this run was active";
  completed_at = some at;
}

abbrev pub release : ℕ → Agent → Agent
release at agent = record agent { status = AgentStatus.ready; updated_at = at }

-- The body of `mutate` in `initialize`, after the store is loaded.
unfoldable pub recover_in : ℕ → Database → Database
recover_in at d = record d {
  runs = modify_all (λ r. is_active r.status) (interrupt at) d.runs;
  agents = modify_all (λ a. a.status == AgentStatus.busy) (release at) d.agents;
}
