-- ===== src/Tests/Requests.antt =====
-- Examples of the routes.
use tik_tok_jam.Base.{refl, Bool, true, none, some, [], Eq-String}
use tik_tok_jam.Types.Records.{null}
use tik_tok_jam.Action.{ok, pure}
use tik_tok_jam.Routes.{Route, Request, Api, Check}
use tik_tok_jam.Routes.Handlers.{serve}
use tik_tok_jam.Routes.Owned.{Refused, serve-Refused}
use tik_tok_jam.Tests.Scene.{world}

abbrev api : Api
api = record {
  is_uuid = λ id. true;
  mint = record {
    ark_configured = true;
    estimator_enabled = true;
    estimate_task_scopes = λ prompt. ok [];
    codex_timeout_ms = 600000;
  };
  workspace_root = "/ws";
  stamp = λ at. "now";
  cancel_execution = λ id. pure tt;
  parse_intent = λ text. none;
  system_info = pure null;
  read_folder = λ path. pure none;
  bytes = record { size_of = λ s. 0; has_zero = λ s. Bool.false; first_text = λ s. s };
  constant = λ name. null;
}

-- Alex asks to kill Jean's agent.
abbrev kill_request : Request
kill_request = record {
  route = Route.kill;
  method = "POST";
  id = some "a2";
  caller = some "user-alex";
}

serve-Refused_example : Refused "user-alex" world (serve api kill_request world)
serve-Refused_example =
    serve-Refused api kill_request Check.of_agent "a2" "user-jean" "user-alex" world refl refl refl
      refl refl refl
