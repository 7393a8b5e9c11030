-- ===== src/Audit.antt =====
-- apps/server/src/audit.ts, with the redactor of redact.ts that index.ts installs.
pub mod Bounds
use Prim.Native.Nat.{◌-◌}
use tik_tok_jam.Base.{ℕ, String, Option, if◌then◌else◌, ltb, length, drop, push}
use tik_tok_jam.Types.Enums.{RunEventKind, Decision}
use tik_tok_jam.Types.Records.{
  Database, RunEvent, Value, null, bool, num, str, arr, obj, Items, nil, cons, Fields, done, field,
}
use tik_tok_jam.Secrets.{redact_string}
use tik_tok_jam.Action.{Action, pure, update, now, random_uuid, ◌>>=◌, ◌>>◌}

-- `redact`: every string inside a value, the keys of objects left as they are.
unfoldable mutual
  unfolding redact_string

  pub redact : Value → Value
  redact null = null
  redact (bool b) = bool b
  redact (num n) = num n
  redact (str s) = str (redact_string s)
  redact (arr xs) = arr (redact_items xs)
  redact (obj fs) = obj (redact_fields fs)

  pub redact_items : Items → Items
  redact_items nil = nil
  redact_items (cons x xs) = cons (redact x) (redact_items xs)

  pub redact_fields : Fields → Fields
  redact_fields done = done
  redact_fields (field k v fs) = field k (redact v) (redact_fields fs)

pub record EventInput : Type 0 where
  pub run_id : Option String
  pub agent_id : String
  pub owner_id : String
  pub kind : RunEventKind
  pub action : String
  pub resource : String
  pub decision : Option Decision
  pub reason : Option String
  pub detail : Value

abbrev pub max_run_events : ℕ
max_run_events = 5000

-- The oldest rows go when there are too many.
unfoldable pub push_event : RunEvent → Database → Database
push_event row d =
    let events = push d.run_events row in
    record d {
      run_events =
          if ltb max_run_events (length events)
          then drop (length events - max_run_events) events
          else events;
    }

abbrev pub event_row : EventInput → String → ℕ → RunEvent
event_row event id at = record {
  id = id;
  run_id = event.run_id;
  agent_id = event.agent_id;
  owner_id = event.owner_id;
  at = at;
  kind = event.kind;
  action = event.action;
  resource = event.resource;
  decision = event.decision;
  reason = event.reason;
  detail = redact event.detail;
}

unfoldable pub record_event : EventInput → Action RunEvent
record_event event = do
  id ← random_uuid
  at ← now
  let row = event_row event id at
  update (push_event row)
  pure row
