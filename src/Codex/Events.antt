-- ===== src/Codex/Events.antt =====
-- apps/server/src/codex-runner.ts: `traceItem` and `parseCodexEventLine`. `JSON.parse` is a parameter
-- that gives none where it throws; the numbers that it gives here are natural. A line that is `null`
-- makes `event.type` throw, which gives none.
use Prim.Native.String.{◌++◌}
use tik_tok_jam.Base.{
  ℕ, String, Bool, true, false, not, ◌&&◌, Option, none, some, List, [], ◌∷◌, map, push, filter,
  ◌==◌, if◌then◌else◌, Eq-String,
}
use tik_tok_jam.Types.Enums.{RunEventKind}
use tik_tok_jam.Types.Records.{
  Value, null, bool, num, str, arr, obj, Items, nil, cons, done, field, RunUsage,
}
use tik_tok_jam.Grants.{or_else, is_null}
use tik_tok_jam.Auth.{value_at, is_literal}

pub record ParsedEvents : Type 0 where
  pub messages : List String
  pub thread_id : Option String
  pub usage : Option RunUsage
  pub errors : List String

pub record CodexTraceEvent : Type 0 where
  pub kind : RunEventKind
  pub action : String
  pub resource : String
  pub detail : Value

-- `value.key`, where undefined is none
abbrev pub prop : String → Value → Option Value
prop key null = none
prop key (bool b) = none
prop key (num n) = none
prop key (str s) = none
prop key (arr xs) = none
prop key (obj fs) = value_at key fs

-- `typeof value === "string"`
abbrev pub as_text : Option Value → Option String
as_text none = none
as_text (some null) = none
as_text (some (bool b)) = none
as_text (some (num n)) = none
as_text (some (str s)) = some s
as_text (some (arr xs)) = none
as_text (some (obj fs)) = none

-- `typeof value === "number"`
abbrev pub as_number : Option Value → Option ℕ
as_number none = none
as_number (some null) = none
as_number (some (bool b)) = none
as_number (some (num n)) = some n
as_number (some (str s)) = none
as_number (some (arr xs)) = none
as_number (some (obj fs)) = none

-- `value && typeof value === "object"`
abbrev pub as_object : Option Value → Option Value
as_object none = none
as_object (some null) = none
as_object (some (bool b)) = none
as_object (some (num n)) = none
as_object (some (str s)) = none
as_object (some (arr xs)) = some (arr xs)
as_object (some (obj fs)) = some (obj fs)

abbrev pub text_prop : String → Value → Option String
text_prop key v = as_text (prop key v)

abbrev text_or_null : Option String → Value
text_or_null none = null
text_or_null (some s) = str s

abbrev number_or_null : Option ℕ → Value
number_or_null none = null
number_or_null (some n) = num n

-- `item.error !== undefined && item.error !== null`
abbrev is_there : Option Value → Bool
is_there none = false
is_there (some null) = false
is_there (some (bool b)) = true
is_there (some (num n)) = true
is_there (some (str s)) = true
is_there (some (arr xs)) = true
is_there (some (obj fs)) = true

pub record FileChange : Type 0 where
  pub path : String
  pub kind : Option String

abbrev pub change_of : Value → FileChange
change_of change = elim (as_object (some change)) [
  | none ↦ record { path = ""; kind = none }
  | some value ↦ record {
    path = or_else (text_prop "path" value) "";
    kind = text_prop "kind" value;
  }
]

abbrev changes_in : Items → List FileChange
changes_in nil = []
changes_in (cons v vs) = change_of v ∷ changes_in vs

abbrev pub changes_of : Option Value → List FileChange
changes_of none = []
changes_of (some null) = []
changes_of (some (bool b)) = []
changes_of (some (num n)) = []
changes_of (some (str s)) = []
changes_of (some (arr xs)) = changes_in xs
changes_of (some (obj fs)) = []

abbrev show_changes : List FileChange → Items
show_changes [] = nil
show_changes (c ∷ cs) =
    cons (obj (field "path" (str c.path) (field "kind" (text_or_null c.kind) done)))
      (show_changes cs)

abbrev join_names : List String → String
join_names [] = ""
join_names (x ∷ []) = x
join_names (x ∷ y ∷ more) = x ++ ", " ++ join_names (y ∷ more)

abbrev paths_text : List FileChange → String
paths_text changes = join_names (filter (λ p. not (p == "")) (map (λ c. c.path) changes))

abbrev command_event : Value → CodexTraceEvent
command_event item = record {
  kind = RunEventKind.command;
  action = "execute";
  resource = or_else (text_prop "command" item) "command";
  detail = obj (
      field "command" (str (or_else (text_prop "command" item) "")) (
        field "status" (text_or_null (text_prop "status" item))
          (field "exitCode" (number_or_null (as_number (prop "exit_code" item))) done)));
}

abbrev file_event : Value → List FileChange → CodexTraceEvent
file_event item changes = record {
  kind = RunEventKind.file_change;
  action = "change";
  resource = if paths_text changes == "" then "workspace" else paths_text changes;
  detail = obj (
      field "changes" (arr (show_changes changes))
        (field "status" (text_or_null (text_prop "status" item)) done));
}

abbrev call_event : Value → String → String → CodexTraceEvent
call_event item server tool = record {
  kind = RunEventKind.mcp_call;
  action = tool;
  resource = server;
  detail = obj (
      field "server" (str server) (
        field "tool" (str tool) (
          field "status" (text_or_null (text_prop "status" item))
            (field "hasError" (bool (is_there (prop "error" item))) done))));
}

unfoldable pub trace_item : Value → Option CodexTraceEvent
trace_item item =
    if is_literal "command_execution" (prop "type" item)
    then some (command_event item)
    else if is_literal "file_change" (prop "type" item)
    then some (file_event item (changes_of (prop "changes" item)))
    else if is_literal "mcp_tool_call" (prop "type" item)
    then some (
        call_event item (or_else (text_prop "server" item) "unknown")
          (or_else (text_prop "tool" item) "unknown"))
    else none

-- What a run has read of the stream, and the events that it has handed to `onEvent`.
pub record Progress : Type 0 where
  pub parsed : ParsedEvents
  pub traced : List CodexTraceEvent

abbrev set_thread : Value → ParsedEvents → ParsedEvents
set_thread event p =
    if is_literal "thread.started" (prop "type" event)
      && not (is_null (text_prop "thread_id" event))
    then record p { thread_id = text_prop "thread_id" event }
    else p

abbrev add_message : Value → ParsedEvents → ParsedEvents
add_message item p = elim (text_prop "text" item) [
  | none ↦ p
  | some text ↦
      if is_literal "agent_message" (prop "type" item)
      then record p { messages = push p.messages text }
      else p
]

abbrev emit : Option CodexTraceEvent → List CodexTraceEvent → List CodexTraceEvent
emit none traced = traced
emit (some event) traced = push traced event

abbrev finish_item : Option Value → Progress → Progress
finish_item none s = s
finish_item (some item) s = record {
  parsed = add_message item s.parsed;
  traced = emit (trace_item item) s.traced;
}

abbrev set_usage : Option Value → ParsedEvents → ParsedEvents
set_usage none p = p
set_usage (some usage) p = record p {
  usage = some (record {
    input_tokens = as_number (prop "input_tokens" usage);
    cached_input_tokens = as_number (prop "cached_input_tokens" usage);
    output_tokens = as_number (prop "output_tokens" usage);
  });
}

abbrev error_message : Value → String
error_message event =
    or_else (text_prop "message" event)
      (or_else (text_prop "error" event) "Codex reported an unknown error")

abbrev with_parsed : (ParsedEvents → ParsedEvents) → Progress → Progress
with_parsed f s = record s { parsed = f s.parsed }

-- The part behind `JSON.parse`, for an event that is not null.
abbrev pub apply_event : Value → Progress → Progress
apply_event event s =
    let type = prop "type" event in
    let s1 = with_parsed (set_thread event) s in
    let s2 =
      if is_literal "item.completed" type
      then finish_item (as_object (prop "item" event)) s1
      else s1 in
    let s3 =
      if is_literal "turn.completed" type
      then with_parsed (set_usage (as_object (prop "usage" event))) s2
      else s2 in
    if is_literal "error" type
    then with_parsed (λ p. record p { errors = push p.errors (error_message event) }) s3
    else s3

abbrev is_json_null : Value → Bool
is_json_null null = true
is_json_null (bool b) = false
is_json_null (num n) = false
is_json_null (str s) = false
is_json_null (arr xs) = false
is_json_null (obj fs) = false

abbrev pub read_event : Option Value → Progress → Option Progress
read_event none s = some s
read_event (some event) s = if is_json_null event then none else some (apply_event event s)

unfoldable pub parse_codex_event_line :
    (String → Option Value) → String → Progress → Option Progress
unfolding trace_item
parse_codex_event_line json_parse line s = read_event (json_parse line) s
