-- ===== src/Tests/Runners.antt =====
-- Examples of the runners.
use Prim.Native.String.{◌++◌}
use mathlib.Core.List
use tik_tok_jam.Base.{
  ℕ, Eq-ℕ, String, ◌≡◌, refl, true, Option, none, some, List, [], ◌∷◌, find, ◌==◌, Eq-String, arith,
  if◌then◌else◌,
}
use tik_tok_jam.Types.Equality.{Eq-Scope}
use tik_tok_jam.Types.Records.{Value, str, obj, field, done, null}
use tik_tok_jam.Action.{ok, err, failure, run_cancelled}
use tik_tok_jam.Store.{default_permissions}
use tik_tok_jam.Text.{trim}
use tik_tok_jam.Config.{AppConfig, Env, SandboxMode, RuntimeProvider, NodeEnv, app_config}
use tik_tok_jam.Codex.{CodexRequest, child_environment}
use tik_tok_jam.Codex.Container.{engine_environment}
use tik_tok_jam.Codex.Events.{Progress}
use tik_tok_jam.Codex.Output.{Chunk, Stream, fresh, split_lines, consume_all, consume, parse_lines}
use tik_tok_jam.Codex.Chunks.{heard, read_whole, consume_all-split_lines}
use tik_tok_jam.Codex.Ceiling.{Ceiling, Hides, with_key, child_environment-with_key}
use tik_tok_jam.Codex.Outcome.{
  RunnerDeps, Active, Exit, codex_wording, conclude_process, last_line, start_process,
  cancel_process, settle_process, new_active, receive_chunk, time_out_process,
}
use tik_tok_jam.Codex.Processes.{
  Unique, Reachable-Unique, empty, after, start, cancel, chunk, time_out,
}
use tik_tok_jam.Codex.Endings.{Completed, conclude_process-Completed}
use tik_tok_jam.Codex.Cancelling.{at_once, then_also, cancel_process-settle_process}
use tik_tok_jam.Grants.{is_null}
use tik_tok_jam.Service.Execution.{RunnerResult}

-- A parser that knows two lines.
abbrev json : String → Option Value
json line =
    if line == "message"
    then some (
        obj (
          field "type" (str "item.completed") (
            field "item"
              (obj (field "type" (str "agent_message") (field "text" (str " done ") done))) done)))
    else if line == "null"
    then some null
    else none

-- The text of four bytes.
abbrev letters : List ℕ → String
letters [] = ""
letters (b ∷ bs) =
    (if b == 10 then "\n" else if b == 13 then "\r" else if b == 1 then "messa" else "ge")
    ++ letters bs

abbrev runner : RunnerDeps
runner = record {
  json_parse = json;
  decode = letters;
  show_number = λ n. "n";
  timeout_ms = 1000;
  max_bytes = 100;
  wording = codex_wording;
}

abbrev nothing : Progress
nothing = record {
  parsed = record { messages = []; thread_id = none; usage = none; errors = [] };
  traced = [];
}

-- A line whose end comes in two pieces, with standard error between them.
abbrev chunks : List Chunk
chunks =
    record { stream = Stream.stdout; bytes = 1 ∷ [] }
    ∷ record { stream = Stream.stderr; bytes = 1 ∷ 2 ∷ [] }
    ∷ record { stream = Stream.stdout; bytes = 2 ∷ 13 ∷ [] }
    ∷ record { stream = Stream.stdout; bytes = 10 ∷ 2 ∷ [] }
    ∷ []

consume_all-split_lines_example :
    heard (consume_all json letters 100 chunks (fresh nothing))
    ≡ read_whole json letters (split_lines "message\r\nge") nothing
consume_all-split_lines_example =
    consume_all-split_lines json letters 100 chunks nothing (omega arith)

abbrev request : CodexRequest
request = record {
  agent_id = "a2";
  workspace_path = "/ws/a2";
  prompt = "summarise";
  thread_id = none;
  token = some "signed";
  permissions = some default_permissions;
}

abbrev env : Env
env = record {
  host = "127.0.0.1";
  port = 3000;
  log_level = "info";
  app_data_dir = ".data";
  agent_workspace_root = "workspaces";
  codex_home = "codex-home";
  codex_bin = "codex";
  codex_sandbox_mode = SandboxMode.workspace_write;
  codex_timeout_ms = 600000;
  codex_max_output_bytes = 2097152;
  runtime_provider = RuntimeProvider.local_process;
  container_engine = "docker";
  container_runtime_image = "image";
  container_cpu_limit = 2;
  container_memory_limit = "2g";
  container_pids_limit = 256;
  container_user = none;
  runtime_instance_id = "default";
  jwt_secret = "dev-only-insecure-jwt-secret";
  gateway_url = none;
  database_url_admin = none;
  database_url_agent = none;
  permission_estimator_enabled = true;
  llm_proxy_enabled = true;
  seed_users = "";
  ark_api_key = some "key";
  ark_model = some "model";
  ark_base_url = "https://ark/";
  node_env = NodeEnv.development;
}

abbrev config : AppConfig
config = app_config (record { cwd = []; user = none }) env

-- A server's environment with a key for the model's endpoint, or with another value of it.
abbrev server_env : String → String → Option String
server_env key name = if name == "ARK_API_KEY" then some key else some "value"

child_environment-with_key_example :
    (child_environment config (server_env "old") (some "signed")
      ≡ child_environment (with_key config "new") (server_env "new") (some "signed"))
    × (engine_environment config (server_env "old") (some "signed")
        ≡ engine_environment (with_key config "new") (server_env "new") (some "signed"))
    × Hides "ARK_API_KEY" (child_environment config (server_env "old") (some "signed"))
    × Hides "ARK_API_KEY" (engine_environment config (server_env "old") (some "signed"))
child_environment-with_key_example =
    child_environment-with_key config (server_env "old") (server_env "new") (some "signed") "new"
      refl (λ name other. rw other refl)

-- Two processes, of which one is cancelled and ends.
abbrev first : Active
first = new_active runner "a1" none

abbrev second : Active
second = new_active runner "a2" none

one_started : start_process runner "a1" none [] ≡ ok (first ∷ [])
unfolding start_process
one_started = refl

two_started : start_process runner "a2" none (first ∷ []) ≡ ok (first ∷ second ∷ [])
unfolding start_process
two_started = refl

Reachable-Unique_example : Unique (cancel_process runner "a1" (first ∷ second ∷ [])).1
Reachable-Unique_example = Reachable-Unique runner (
    after (after (after empty (start "a1" none one_started)) (start "a2" none two_started))
      (cancel "a1"))

abbrev finished : Active
finished = record first {
  reading = record (fresh nothing) {
    progress = record nothing {
      parsed = record nothing.parsed { messages = "hello" ∷ " done " ∷ [] };
    };
  };
}

abbrev done_result : RunnerResult
done_result = record { output = "done"; thread_id = none; usage = none }

answered : conclude_process runner (Exit.close (some 0)) finished ≡ ok done_result
unfolding conclude_process trim
answered = refl

conclude_process-Completed_example : Completed runner (Exit.close (some 0)) finished done_result
conclude_process-Completed_example =
    conclude_process-Completed runner (Exit.close (some 0)) finished done_result answered

-- The first is cancelled, then prints, and then the second is timed out.
abbrev flagged : Active
flagged = record first { cancelled = true }

abbrev printed : Active
printed = record flagged { reading = record (fresh nothing) { stdout = "ge"; total_bytes = 1 } }

abbrev late : Chunk
late = record { stream = Stream.stdout; bytes = 2 ∷ [] }

cancelled_first : cancel_process runner "a1" (first ∷ second ∷ []) ≡ (true, flagged ∷ second ∷ [])
unfolding cancel_process
cancelled_first = refl

arrived :
    receive_chunk runner "a1" late (cancel_process runner "a1" (first ∷ second ∷ [])).1
    ≡ some (printed ∷ second ∷ [])
unfolding receive_chunk consume split_lines parse_lines cancel_process
arrived = refl

cancel_process-settle_process_example :
    let later = time_out_process runner "a2" (printed ∷ second ∷ []) in
    let ended = settle_process runner "a1" (Exit.close none) later in
    ((cancel_process runner "a1" (first ∷ second ∷ [])).0 ≡ true)
    × (find (λ b. b.agent_id == "a1") ended.1 ≡ none)
    × ((b : Active) × (find (λ b. b.agent_id == "a1") later ≡ some b)
        × (ended.0
            ≡ some (
                if is_null (last_line runner b.reading)
                then err (failure "Cannot read properties of null (reading 'type')")
                else err run_cancelled)))
cancel_process-settle_process_example =
    cancel_process-settle_process runner (first ∷ second ∷ [])
      (time_out_process runner "a2" (printed ∷ second ∷ [])) "a1" none first refl
      (then_also (then_also at_once (chunk "a1" late arrived) tt) (time_out "a2") tt)
