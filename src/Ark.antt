-- ===== src/Ark.antt =====
-- The two places that ask the model itself (apps/server/src: nl-grant.ts and scope-estimator.ts): what
-- they take of its answer. The call of `fetch`, with `response.json()`, is a parameter that gives none
-- where it fails or the status is not one of success, and so is `JSON.parse`.
pub mod Estimator
pub mod Intent
pub mod Least
pub mod Phrases
pub mod Quiet
use tik_tok_jam.Base.{String, Option, none, some, ◌==◌, if◌then◌else◌, Eq-String}
use tik_tok_jam.Types.Records.{Value, null, bool, num, str, arr, obj, Items, nil, cons}
use tik_tok_jam.Codex.Events.{prop, as_text}

-- `value?.[0]`
abbrev pub first_item : Option Value → Option Value
first_item none = none
first_item (some null) = none
first_item (some (bool b)) = none
first_item (some (num n)) = none
first_item (some (str s)) = none
first_item (some (arr nil)) = none
first_item (some (arr (cons v vs))) = some v
first_item (some (obj fs)) = none

-- `value?.key`
abbrev pub prop_of : String → Option Value → Option Value
prop_of key none = none
prop_of key (some v) = prop key v

-- `a ?? b`
abbrev pub unless_null : Option Value → Option Value → Option Value
unless_null none other = other
unless_null (some null) other = other
unless_null (some (bool b)) other = some (bool b)
unless_null (some (num n)) other = some (num n)
unless_null (some (str s)) other = some (str s)
unless_null (some (arr xs)) other = some (arr xs)
unless_null (some (obj fs)) other = some (obj fs)

abbrev non_empty : Option String → Option String
non_empty none = none
non_empty (some s) = if s == "" then none else some s

-- The text of an answer, as the code's cast of it has it, and none where it is missing or empty.
unfoldable pub answer_text : Value → Option String
answer_text body = non_empty (
    as_text (
      unless_null (prop "output_text" body)
        (prop_of "text" (first_item (prop_of "content" (first_item (prop "output" body)))))))

abbrev parsed : (String → Option Value) → Option String → Option Value
parsed json_parse none = none
parsed json_parse (some raw) = json_parse raw

-- From the body of a response to the value that its text stands for.
abbrev pub answered_value : (String → Option Value) → Option Value → Option Value
answered_value json_parse none = none
answered_value json_parse (some body) = parsed json_parse (answer_text body)
