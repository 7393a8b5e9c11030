-- ===== src/Codex/Outcome.antt =====
-- apps/server/src/codex-runner.ts and container-codex-runner.ts: how a run of Codex ends, and the runner's
-- table of the processes that are active. Signals and timers that end a process are not modelled: what
-- they lead to is its exit.
use Prim.Native.String.{◌++◌}
use tik_tok_jam.Base.{
  ℕ, String, Bool, true, false, not, Option, none, some, List, [], push, at_last, any, filter, find,
  modify_first, ◌==◌, nat_eq, if◌then◌else◌, Eq-String,
}
use tik_tok_jam.Types.Records.{Value}
use tik_tok_jam.Text.{trim}
use tik_tok_jam.Grants.{or_else}
use tik_tok_jam.Action.{Result, ok, err, failure, run_cancelled}
use tik_tok_jam.Service.Execution.{RunnerResult}
use tik_tok_jam.Codex.Events.{ParsedEvents, Progress, parse_codex_event_line}
use tik_tok_jam.Codex.Output.{Reading, Chunk, fresh, consume}

-- What the two runners' messages differ in.
pub record Wording : Type 0 where
  pub already_active : String
  pub timed_out : String
  pub exited : String

-- The environment of a runner: `JSON.parse`, `chunk.toString("utf8")`, the text of a number, and the two bounds of the configuration.
pub record RunnerDeps : Type 0 where
  pub json_parse : String → Option Value
  pub decode : List ℕ → String
  pub show_number : ℕ → String
  pub timeout_ms : ℕ
  pub max_bytes : ℕ
  pub wording : Wording

abbrev pub codex_wording : Wording
codex_wording = record {
  already_active = "Agent already has an active Codex process";
  timed_out = "Codex timed out after ";
  exited = "Codex exited with code ";
}

abbrev pub container_wording : String → Wording
container_wording engine = record {
  already_active = "Agent already has an active Runtime container";
  timed_out = "Runtime timed out after ";
  exited = engine ++ " Runtime exited with code ";
}

pub record Active : Type 0 where
  pub agent_id : String
  pub cancelled : Bool
  pub timed_out : Bool
  pub reading : Reading

-- How a process ends: it could not be started, or it closed with a code, which is missing behind a signal.
pub data Exit : Type 0 where
  error : String → Exit
  close : Option ℕ → Exit

module _ (deps : RunnerDeps) where
  abbrev pub output_of : ParsedEvents → Option String → Result RunnerResult
  output_of parsed none = err (failure "Codex completed without an agent message")
  output_of parsed (some message) =
      if trim message == ""
      then err (failure "Codex completed without an agent message")
      else ok (record { output = trim message; thread_id = parsed.thread_id; usage = parsed.usage })

  abbrev pub judged : Active → ℕ → ParsedEvents → Result RunnerResult
  judged active code parsed =
      if active.cancelled
      then err run_cancelled
      else if active.timed_out
      then err (failure (deps.wording.timed_out ++ deps.show_number deps.timeout_ms ++ " ms"))
      else if active.reading.output_exceeded
      then err (failure "Codex output exceeded CODEX_MAX_OUTPUT_BYTES")
      else if not (nat_eq code 0)
      then err (
          failure (
            deps.wording.exited
            ++ deps.show_number code
            ++ ": "
            ++ or_else (at_last parsed.errors) (trim active.reading.stderr)))
      else output_of parsed (at_last parsed.messages)

  -- `if (stdout.trim()) parseCodexEventLine(stdout.trim(), ...)`
  abbrev pub last_line : Reading → Option Progress
  last_line r =
      if trim r.stdout == ""
      then some r.progress
      else parse_codex_event_line deps.json_parse (trim r.stdout) r.progress

  -- The part of `try` behind the exit.
  unfoldable pub conclude_process : Exit → Active → Result RunnerResult
  conclude_process (Exit.error message) active = err (failure message)
  conclude_process (Exit.close code) active = elim (last_line active.reading) [
    | none ↦ err (failure "Cannot read properties of null (reading 'type')")
    | some p ↦ judged active (or_else code 1) p.parsed
  ]

  abbrev pub new_active : String → Option String → Active
  new_active agent_id thread_id = record {
    agent_id = agent_id;
    cancelled = false;
    timed_out = false;
    reading = fresh (record {
      parsed = record { messages = []; thread_id = thread_id; usage = none; errors = [] };
      traced = [];
    });
  }

  unfoldable pub start_process : String → Option String → List Active → Result (List Active)
  start_process agent_id thread_id actives =
      if any (λ a. a.agent_id == agent_id) actives
      then err (failure deps.wording.already_active)
      else ok (push actives (new_active agent_id thread_id))

  abbrev pub modify_active : String → (Active → Active) → List Active → List Active
  modify_active agent_id f actives = modify_first (λ a. a.agent_id == agent_id) f actives

  -- `cancel`: whether there was a process, which is then flagged and ended.
  unfoldable pub cancel_process : String → List Active → Bool × List Active
  cancel_process agent_id actives = (
    any (λ a. a.agent_id == agent_id) actives,
    modify_active agent_id (λ a. record a { cancelled = true }) actives,
  )

  unfoldable pub time_out_process : String → List Active → List Active
  time_out_process agent_id actives =
      modify_active agent_id (λ a. record a { timed_out = true }) actives

  abbrev pub store_reading : String → List Active → Option Reading → Option (List Active)
  store_reading agent_id actives none = none
  store_reading agent_id actives (some r) =
      some (modify_active agent_id (λ a. record a { reading = r }) actives)

  abbrev pub read_chunk : String → Chunk → List Active → Option Active → Option (List Active)
  read_chunk agent_id chunk actives none = some actives
  read_chunk agent_id chunk actives (some a) =
      store_reading agent_id actives
        (consume deps.json_parse deps.decode deps.max_bytes chunk a.reading)

  -- A chunk of a process's output; none where a line throws.
  unfoldable pub receive_chunk : String → Chunk → List Active → Option (List Active)
  receive_chunk agent_id chunk actives =
      read_chunk agent_id chunk actives (find (λ a. a.agent_id == agent_id) actives)

  abbrev pub concluded : Exit → Option Active → Option (Result RunnerResult)
  concluded exit none = none
  concluded exit (some a) = some (conclude_process exit a)

  -- The end of a process: what its run answers, and `finally`.
  unfoldable pub settle_process :
      String → Exit → List Active → Option (Result RunnerResult) × List Active
  unfolding conclude_process
  settle_process agent_id exit actives = (
    concluded exit (find (λ a. a.agent_id == agent_id) actives),
    filter (λ a. not (a.agent_id == agent_id)) actives,
  )
