-- ===== src/Codex/Output.antt =====
-- apps/server/src/codex-runner.ts: `consume`, which reads a process's output chunk by chunk. A chunk is
-- its bytes, and `decode` is `chunk.toString("utf8")`, which the code calls on each chunk by itself.
use Prim.Native.Char.{Char, code}
use Prim.Native.String.{◌++◌}
use tik_tok_jam.Base.{
  ℕ, ◌+◌, ◌-◌, String, Bool, true, false, ◌&&◌, Option, none, some, List, [], ◌∷◌, length, ltb,
  nat_eq, if◌then◌else◌,
}
use tik_tok_jam.Types.Records.{Value}
use tik_tok_jam.Config.{text_length, units}
use tik_tok_jam.Codex.Events.{Progress, parse_codex_event_line}

-- `text.split(/\r?\n/)` as its parts but the last, and the last.
pub record Split : Type 0 where
  pub lines : List String
  pub rest : String

abbrev pub starts_line : String → Bool
starts_line String.[] = false
starts_line (String.◌∷◌ c s) = nat_eq (code c) 10

-- One character before a text that is split.
abbrev pub prepend_char : Char → Split → Split
prepend_char c s = elim s.lines [
  | [] ↦ record { lines = []; rest = String.◌∷◌ c s.rest }
  | l ∷ ls ↦ record { lines = String.◌∷◌ c l ∷ ls; rest = s.rest }
]

unfoldable pub split_lines : String → Split
split_lines String.[] = record { lines = []; rest = "" }
split_lines (String.◌∷◌ c s) =
    let below = split_lines s in
    if nat_eq (code c) 10
    then record { lines = "" ∷ below.lines; rest = below.rest }
    else if nat_eq (code c) 13 && starts_line s
    then below
    else prepend_char c below

pub data Stream : Type 0 where
  stdout stderr : Stream

pub record Chunk : Type 0 where
  pub stream : Stream
  pub bytes : List ℕ

pub record Reading : Type 0 where
  pub progress : Progress
  pub stdout : String
  pub stderr : String
  pub total_bytes : ℕ
  pub output_exceeded : Bool

-- `text.slice(n)`, for n at most the text's length, but a character of two units that the cut divides
-- goes as a whole.
unfoldable pub drop_units : ℕ → String → String
drop_units n String.[] = ""
drop_units n (String.◌∷◌ c s) =
    let rest = drop_units (n - units (code c)) s in if nat_eq n 0 then String.◌∷◌ c s else rest

-- `if (stderr.length > 16_384) stderr = stderr.slice(-16_384)`
abbrev pub keep_last : String → String
keep_last s = if ltb 16384 (text_length s) then drop_units (text_length s - 16384) s else s

abbrev pub fresh : Progress → Reading
fresh p = record {
  progress = p;
  stdout = "";
  stderr = "";
  total_bytes = 0;
  output_exceeded = false;
}

abbrev pub counted : Chunk → Reading → Reading
counted chunk r = record r { total_bytes = r.total_bytes + length chunk.bytes }

module _ (json_parse : String → Option Value) where
  unfoldable pub parse_lines : List String → Progress → Option Progress
  parse_lines [] s = some s
  parse_lines (l ∷ ls) s = elim (parse_codex_event_line json_parse l s) [
    | none ↦ none
    | some t ↦ parse_lines ls t
  ]

  abbrev take_stdout : Split → Reading → Option Reading
  take_stdout split r = elim (parse_lines split.lines r.progress) [
    | none ↦ none
    | some p ↦ some (record r { progress = p; stdout = split.rest })
  ]

  abbrev pub take_text_of : Stream → String → Reading → Option Reading
  take_text_of Stream.stdout text r = take_stdout (split_lines (r.stdout ++ text)) r
  take_text_of Stream.stderr text r = some (record r { stderr = keep_last (r.stderr ++ text) })

  module _ (decode : List ℕ → String) where
    -- `max_bytes` is `codexMaxOutputBytes`. A line that throws gives none.
    unfoldable pub consume : ℕ → Chunk → Reading → Option Reading
    consume max_bytes chunk r =
        if ltb max_bytes (r.total_bytes + length chunk.bytes)
        then some (record (counted chunk r) { output_exceeded = true })
        else take_text_of chunk.stream (decode chunk.bytes) (counted chunk r)

    unfoldable pub consume_all : ℕ → List Chunk → Reading → Option Reading
    consume_all max_bytes [] r = some r
    consume_all max_bytes (c ∷ cs) r = elim (consume max_bytes c r) [
      | none ↦ none
      | some t ↦ consume_all max_bytes cs t
    ]
