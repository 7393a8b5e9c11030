-- ===== src/Tests/Handlers.antt =====
-- Examples of the service, the decisions, the claims and the proxy.
use mathlib.Core.Option
use tik_tok_jam.Base.{
  String, ◌≡◌, ◌≢◌, refl, ap, true, false, Option, none, some, [], ◌∷◌, ◌==◌, All, find, arith,
  Eq-String, if◌then◌else◌,
}
use tik_tok_jam.Types.Enums.{
  RunStatus, AgentStatus, ApprovalSource, ApprovalKind, ApprovalRisk, ApprovalDecision, Scope,
}
use tik_tok_jam.Types.Equality.{Eq-AgentStatus}
use tik_tok_jam.Types.Records.{Agent, AgentRun, Database, Fields, field, done, str, arr, nil}
use tik_tok_jam.Action.{World, ok, err, failure}
use tik_tok_jam.Audit.{record_event}
use tik_tok_jam.Approvals.{CardInput, card_in, is_duplicate}
use tik_tok_jam.Approvals.Answers.{decide_approval}
use tik_tok_jam.Approvals.Cards.{card_in_idempotent, deny_changes_nothing}
use tik_tok_jam.Auth.{Principal, PrincipalType, verify_token, human_claims, agent_claims}
use tik_tok_jam.Auth.Principals.{verify_token_apart}
use tik_tok_jam.LlmProxy.{LlmProxyDeps, ProxyReply, post_responses}
use tik_tok_jam.LlmProxy.Live.{Forwarded, post_responses-Forwarded}
use tik_tok_jam.Gateway.Tools.{handle_call, workspace_read, workspace_write, text}
use tik_tok_jam.Gateway.Checks.{agent_by_ref}
use tik_tok_jam.Text.{same_ignoring_case}
use tik_tok_jam.Gateway.Isolated.{handle_call_isolated}
use tik_tok_jam.Service.Execution.{Runtime, execute_run, recover_in, is_active, interrupt}
use tik_tok_jam.Service.Execution.Closing.{Closed, execute_run-Ends}
use tik_tok_jam.Service.Execution.Recovery.{recover_in_lem}
use tik_tok_jam.Tests.Scene.{agent_named, reader, token, database, deps, ctx, world}

abbrev pub run : AgentRun
run = record {
  id = "r1";
  agent_id = "a2";
  status = RunStatus.running;
  prompt = "summarise";
  output = none;
  error = none;
  usage = none;
  started_at = some 2;
  completed_at = none;
  created_at = 1;
}

abbrev pub failing_runtime : Runtime
failing_runtime = record {
  sign_agent = λ claims. ok "signed";
  run = λ request w. (err (failure "no container"), w);
  digest = λ codes. "hash";
  show_number = λ n. "n";
}

execute_run-Ends_example :
    Closed "j1" (execute_run failing_runtime false reader run token world).1
    × ((execute_run failing_runtime false reader run token world).0 ≡ ok tt)
execute_run-Ends_example = execute_run-Ends failing_runtime false reader run token world

abbrev cut_off : Database
cut_off = record database { runs = run ∷ [] }

recover_in_lem_example :
    All (λ r. is_active r.status ≡ false) (recover_in 9 cut_off).runs
    × All (λ a. (a.status == AgentStatus.busy) ≡ false) (recover_in 9 cut_off).agents
    × ((id : String)
        → find (λ r. r.id == id) (recover_in 9 cut_off).runs
          ≡ Option.map
              (λ r. if is_active r.status then interrupt 9 r else r)
              (find (λ r. r.id == id) cut_off.runs))
recover_in_lem_example = recover_in_lem 9 cut_off

abbrev human_payload : Fields
human_payload = field "typ" (str "human") (field "sub" (str "user-jean") done)

abbrev human_verify : String → Option Fields
human_verify raw = some human_payload

human_verifies :
    verify_token human_verify "raw" PrincipalType.human ≡ some (Principal.human "user-jean")
unfolding verify_token human_claims
human_verifies = refl

verify_token_apart_example :
    (verify_token human_verify "raw" PrincipalType.agent ≡ none)
    × ((payload : Fields) × (human_verify "raw" ≡ some payload))
    × ((user_id : String) × (Principal.human "user-jean" ≡ Principal.human user_id))
verify_token_apart_example =
    verify_token_apart human_verify "raw" (Principal.human "user-jean") human_verifies

abbrev agent_payload : Fields
agent_payload = field "typ" (str "agent") (
    field "sub" (str "a2") (
      field "own" (str "user-jean")
        (field "run" (str "r1") (field "jti" (str "j1") (field "scp" (arr nil) done)))))

abbrev proxy : LlmProxyDeps
proxy = record {
  jwt_verify = λ raw. some agent_payload;
  ark_api_key = "key";
  fetch = λ body. some 200;
}

forwarded_now :
    (post_responses proxy (some "Bearer good") "{}" world).0 ≡ ok (ProxyReply.forwarded 200)
unfolding post_responses verify_token agent_claims record_event
forwarded_now = refl

post_responses-Forwarded_example :
    Forwarded proxy (some "Bearer good") world
    × (proxy.fetch "{}" ≡ some 200)
    × ((proxy.ark_api_key == "") ≡ false)
post_responses-Forwarded_example =
    post_responses-Forwarded proxy (some "Bearer good") "{}" world 200 forwarded_now

abbrev request : CardInput
request = record {
  source = ApprovalSource.live_deny;
  kind = ApprovalKind.scope;
  agent_id = "a2";
  owner_id = "user-jean";
  run_id = some "r1";
  jti = some "j1";
  resource = "user-jean/crm";
  action = "read";
  scope = some Scope.crm_read;
  grant = none;
  reason = "missing crm:read";
  risk = ApprovalRisk.routine;
  evidence = record {
    user_asked = none;
    attempting = "read on user-jean/crm";
    outside_task_scope = false;
    untrusted_origin = none;
    classified_origin = none;
  };
}

card_in_idempotent_example :
    (card_in request "c2" 4 (card_in request "c1" 3 database).1 ≡ card_in request "c1" 3 database)
    × (is_duplicate request (card_in request "c1" 3 database).0 ≡ true)
card_in_idempotent_example = card_in_idempotent request "c1" "c2" 3 4 database

abbrev asked_world : World
asked_world = record world { db = (card_in request "c1" 3 database).1 }

abbrev denied_world : World
denied_world = (decide_approval "c1" ApprovalDecision.deny "user-jean" none asked_world).1

deny_changes_nothing_example :
    (denied_world.db.agents ≡ asked_world.db.agents)
    × (denied_world.db.run_tokens ≡ asked_world.db.run_tokens)
    × (denied_world.db.policy_grants ≡ asked_world.db.policy_grants)
deny_changes_nothing_example = deny_changes_nothing "c1" "user-jean" none asked_world

-- Another tenant's agent.
abbrev stranger : Agent
stranger = record (agent_named "a9" "stranger" []) { owner_id = "user-alex" }

abbrev shared_world : World
shared_world = record world { db = record database { agents = stranger ∷ reader ∷ [] } }

named_stranger : agent_by_ref "Stranger" shared_world.db ≡ some stranger
unfolding agent_by_ref same_ignoring_case
named_stranger = refl

handle_call_isolated_example :
    ((rel content : String)
      → (handle_call deps ctx (workspace_read "Stranger" rel) shared_world).0 ≢ ok (text content))
    × ((rel body : String)
        → (handle_call deps ctx (workspace_write "Stranger" rel body) shared_world).1.files
          ≡ shared_world.files)
handle_call_isolated_example =
    handle_call_isolated deps ctx stranger shared_world "Stranger" named_stranger
      (λ h. absurd (ground (arith, ap (λ s. s == "a9") h)))
      (λ h. absurd (ground (arith, ap (λ s. s == "user-alex") h)))
