-- ===== src/History/Runs.antt =====
-- apps/server/src/agent-service.ts: the service's handlers as sequences of mutations, and the kill
-- switch over time.
use tik_tok_jam.Base.{
  ℕ, String, ◌≡◌, refl, Bool, false, some, List, arith, Option-cases, inl, inr, ◌==◌, Eq-String,
}
use tik_tok_jam.Types.Enums.{Scope, SecurityLevel}
use tik_tok_jam.Types.Records.{Agent, AgentRun, RunToken, Message, Database, ApprovalRequest}
use tik_tok_jam.Action.{
  World, Result, ok, err, Exception, mutate, update, now, random_uuid, ◌>>=◌, ◌>>◌,
}
use tik_tok_jam.Grants.{token_of, is_null}
use tik_tok_jam.Ifc.Screen.{ScreenResult, Verdict, screen_output}
use tik_tok_jam.Service.Agents.{kill_in, kill_agent, void_pending_cards, void_card}
use tik_tok_jam.Service.Agents.Killing.{Dead, find-All, kill_agent_lem}
use tik_tok_jam.Service.Mint.{MintDeps, start_in, send_message, request_missing_scopes}
use tik_tok_jam.Service.Execution
use tik_tok_jam.Service.Execution.{
  Runtime, RunnerRequest, RunnerResult, begin_in, complete_in, fail_in, close_run_token, finish,
  fail, conclude, attempt, report_screen, execute_run,
}
use tik_tok_jam.History.Steps.{Reach, Reach-trans, kill, start, begin, complete, give_up, close}
use tik_tok_jam.History.Traces.{
  Traces, Traces-still, Traces-pure, Traces-bind, Traces-then, Traces-now, Traces-update,
  Traces-mutate, Traces-for_each, traces_rules,
}
use tik_tok_jam.History.Handlers.{
  record_event-Traces, create_card_on_deny-Traces, decide_approval-Traces,
}
use tik_tok_jam.History.Forever.{token_of-Reach}

void_card-Traces : (caller_id : String) (card : ApprovalRequest) → Traces (void_card caller_id card)
void_card-Traces caller_id card = search (traces_rules, decide_approval-Traces)

void_pending_cards-Traces :
    (agent_id caller_id : String) → Traces (void_pending_cards agent_id caller_id)
unfolding void_pending_cards
void_pending_cards-Traces agent_id caller_id =
    search (traces_rules, Traces-for_each, void_card-Traces) depth 20

kill_in-Traces : (id : String) (at : ℕ) → Traces (mutate (kill_in id at))
kill_in-Traces id at = Traces-mutate (kill_in id at) (λ d k d' e. kill id at k e)

pub kill_agent-Traces : (agent_id caller_id : String) → Traces (kill_agent agent_id caller_id)
unfolding kill_agent
kill_agent-Traces agent_id caller_id =
    search (traces_rules, kill_in-Traces, void_pending_cards-Traces, record_event-Traces) depth 20
      fits 4000

start_in-Traces :
    (run : AgentRun) (message : Message) (estimated : List Scope) (timeout : ℕ) (jti : String)
    → Traces (mutate (start_in run message estimated timeout jti))
start_in-Traces run message estimated timeout jti =
    Traces-mutate (start_in run message estimated timeout jti)
      (λ d s d' e. start run message estimated timeout jti s e)

request_missing_scopes-Traces :
    (agent : Agent) (run : AgentRun) (token : RunToken) (missing : List Scope)
    → Traces (request_missing_scopes agent run token missing)
unfolding request_missing_scopes
request_missing_scopes-Traces agent run token missing =
    search (traces_rules, Traces-for_each, create_card_on_deny-Traces) depth 20

pub send_message-Traces :
    (deps : MintDeps) (agent_id prompt : String) → Traces (send_message deps agent_id prompt)
unfolding send_message
send_message-Traces deps agent_id prompt =
    search (traces_rules, start_in-Traces, request_missing_scopes-Traces) depth 30 fits 6000

close_run_token-Traces : (jti : String) → Traces (close_run_token jti)
unfolding close_run_token
close_run_token-Traces jti =
    Traces-bind Traces-now (λ at. Traces-update (Execution.close_in jti at) (λ d. close jti at))

report_screen-Traces :
    (agent : Agent) (run : AgentRun) (s : ScreenResult) (v : Verdict)
    → Traces (report_screen agent run s v)
report_screen-Traces agent run s Verdict.allow = Traces-pure tt
report_screen-Traces agent run s Verdict.redact = search (traces_rules, record_event-Traces)
report_screen-Traces agent run s Verdict.block = search (traces_rules, record_event-Traces)

complete_in-Traces :
    (run_id agent_id jti : String) (result : RunnerResult) (output message_id : String) (at : ℕ)
    → Traces (update (complete_in run_id agent_id jti result output message_id at))
complete_in-Traces run_id agent_id jti result output message_id at =
    Traces-update (complete_in run_id agent_id jti result output message_id at)
      (λ d. complete run_id agent_id jti result output message_id at)

ended-Traces :
    (agent : Agent) (run : AgentRun) (token : RunToken) (result : RunnerResult) (s : ScreenResult)
    → Traces (do
      at ← now
      report_screen agent run s s.verdict
      message_id ← random_uuid
      update (complete_in run.id agent.id token.jti result s.output message_id at)
      close_run_token token.jti)
ended-Traces agent run token result s =
    search (traces_rules, report_screen-Traces, complete_in-Traces, close_run_token-Traces) depth 30
      fits 6000

finish-Traces :
    (runtime : Runtime) (agent : Agent) (run : AgentRun) (token : RunToken) (result : RunnerResult)
    → Traces (finish runtime agent run token result)
unfolding finish
finish-Traces runtime agent run token result = record {
  at = λ w.
      let s =
        screen_output runtime.digest runtime.show_number w.index run.id result.output
          SecurityLevel.confidential in
      (ended-Traces agent run token result s).at w;
}

fail_in-Traces :
    (run_id agent_id : String) (cancelled : Bool) (message : String) (at : ℕ)
    → Traces (update (fail_in run_id agent_id cancelled message at))
fail_in-Traces run_id agent_id cancelled message at =
    Traces-update (fail_in run_id agent_id cancelled message at)
      (λ d. give_up run_id agent_id cancelled message at)

fail-Traces :
    (agent : Agent) (run : AgentRun) (token : RunToken) (e : Exception)
    → Traces (fail agent run token e)
unfolding fail
fail-Traces agent run token e =
    search (traces_rules, fail_in-Traces, close_run_token-Traces) depth 20

conclude-Traces :
    (runtime : Runtime) (agent : Agent) (run : AgentRun) (token : RunToken)
    (r : Result RunnerResult)
    → Traces (conclude runtime agent run token r)
conclude-Traces runtime agent run token (ok result) = finish-Traces runtime agent run token result
conclude-Traces runtime agent run token (err e) = fail-Traces agent run token e

begin_in-Traces : (run_id : String) (at : ℕ) → Traces (update (begin_in run_id at))
begin_in-Traces run_id at = Traces-update (begin_in run_id at) (λ d. begin run_id at)

lift-Traces : {A : Type 0} (r : Result A) → Traces (Execution.lift r)
lift-Traces r = Traces-still (Execution.lift r) (λ w. refl)

module _ (runtime : Runtime) (runs : (request : RunnerRequest) → Traces (runtime.run request)) where
  attempt-Traces :
      (cancelled : Bool) (agent : Agent) (run : AgentRun) (token : RunToken)
      → Traces (attempt runtime cancelled agent run token)
  unfolding attempt
  attempt-Traces cancelled agent run token = search (traces_rules, lift-Traces, runs) depth 20

  settled-Traces :
      (cancelled : Bool) (agent : Agent) (run : AgentRun) (token : RunToken)
      → Traces (λ w.
        conclude runtime agent run token
          (attempt runtime cancelled agent run token w).0
          (attempt runtime cancelled agent run token w).1)
  settled-Traces cancelled agent run token = record {
    at = λ w. Reach-trans ((attempt-Traces cancelled agent run token).at w) (
        (conclude-Traces runtime agent run token (attempt runtime cancelled agent run token w).0).at
          (attempt runtime cancelled agent run token w).1);
  }

  -- A run changes the store by mutations only, where what its runner does to it, by the gateway, is so.
  pub execute_run-Traces :
      (cancelled : Bool) (agent : Agent) (run : AgentRun) (token : RunToken)
      → Traces (execute_run runtime cancelled agent run token)
  unfolding execute_run
  execute_run-Traces cancelled agent run token =
      Traces-bind Traces-now
        (λ at. Traces-then (begin_in-Traces run.id at) (settled-Traces cancelled agent run token))

still_revoked :
    (t t' : RunToken)
    → ((at : ℕ) → t.revoked_at ≡ some at → t'.revoked_at ≡ some at)
    → is_null t.revoked_at ≡ false
    → is_null t'.revoked_at ≡ false
still_revoked t t' kept dead = elim (Option-cases t.revoked_at) [
  | inl none_yet ↦ absurd (ground (arith, none_yet))
  | inr (at, e) ↦ let still = kept at e in ground (arith, still)
]

-- Each token that an agent held when it was killed stays revoked, whatever any handlers do afterwards.
pub kill_agent-Reach :
    {d : Database} (agent_id caller_id jti : String) (w : World) (killed : Agent) (t : RunToken)
    → (kill_agent agent_id caller_id w).0 ≡ ok killed
    → token_of jti (kill_agent agent_id caller_id w).1.db ≡ some t
    → t.agent_id ≡ agent_id
    → Reach (kill_agent agent_id caller_id w).1.db d
    → (t' : RunToken) × (token_of jti d ≡ some t') × (is_null t'.revoked_at ≡ false)
kill_agent-Reach agent_id caller_id jti w killed t done found theirs r =
    let dead =
      find-All (Dead agent_id) (λ u. u.jti == jti) (kill_agent agent_id caller_id w).1.db.run_tokens
        t (kill_agent_lem agent_id caller_id w killed done).0 found theirs in
    let (t', later, kept) = token_of-Reach jti t r found in
    (t', later, still_revoked t t' kept.6 dead)
