-- ===== src/Ark/Intent.antt =====
-- apps/server/src/nl-grant.ts: from a sentence to a grant's intent. A run of `[\w.-]` in the grammar is
-- taken whole, since what must follow it is not of that class.
use Prim.Native.Char.{code}
use tik_tok_jam.Base.{
  ℕ, String, Bool, true, false, not, ◌&&◌, ◌||◌, Option, none, some, leb, ◌==◌, nat_eq,
  if◌then◌else◌, Eq-String,
}
use tik_tok_jam.Types.Enums.{GrantAction}
use tik_tok_jam.Types.Records.{Value, null, bool, num, str, arr, obj, nil, cons}
use tik_tok_jam.Text.{trim, is_space, to_lower}
use tik_tok_jam.Auth.{is_literal}
use tik_tok_jam.Config.{AppConfig, is_ark_configured, text_length}
use tik_tok_jam.Service.Requests.{GrantIntent}
use tik_tok_jam.Codex.Events.{as_text}
use tik_tok_jam.Ark.{prop_of, answered_value}
use tik_tok_jam.Ark.Estimator.{is_word}

-- What a part of the pattern matched, and the text behind it.
pub record Matched : Type 0 where
  pub text : String
  pub rest : String

-- `[\w.-]`
abbrev pub is_name : ℕ → Bool
is_name c = is_word c || nat_eq c b'.' || nat_eq c b'-'

-- `[\w.-]*`
unfoldable pub take_name : String → Matched
take_name String.[] = record { text = ""; rest = "" }
take_name (String.◌∷◌ c s) =
    let below = take_name s in
    if is_name (code c)
    then record { text = String.◌∷◌ c below.text; rest = below.rest }
    else record { text = ""; rest = String.◌∷◌ c s }

abbrev pub some_text : Matched → Option Matched
some_text m = if m.text == "" then none else some m

-- `\s*`
unfoldable pub skip_spaces : String → String
skip_spaces String.[] = ""
skip_spaces (String.◌∷◌ c s) =
    let rest = skip_spaces s in if is_space (code c) then rest else String.◌∷◌ c s

-- `\s+`
abbrev pub spaces : String → Option String
spaces String.[] = none
spaces (String.◌∷◌ c s) = if is_space (code c) then some (skip_spaces s) else none

-- A literal under the flag `i`, which the pattern has in lower case
unfoldable pub literal : String → String → Option String
literal String.[] s = some s
literal (String.◌∷◌ p ps) String.[] = none
literal (String.◌∷◌ p ps) (String.◌∷◌ c s) =
    let rest = literal ps s in if nat_eq (code p) (to_lower (code c)) then rest else none

abbrev then_literal : String → Option String → Option String
then_literal word none = none
then_literal word (some s) = literal word s

abbrev pub then_spaces : Option String → Option String
then_spaces none = none
then_spaces (some s) = spaces s

abbrev pub then_name : Option String → Option Matched
then_name none = none
then_name (some s) = some_text (take_name s)

abbrev or_option {ℓ} : {A : Type ℓ} → Option A → Option A → Option A
or_option none other = other
or_option (some a) other = some a

-- `(?:'s|’s)?`
abbrev pub skip_possessive : String → String
skip_possessive s = elim (or_option (literal "'s" s) (literal "’s" s)) [
  | none ↦ s
  | some rest ↦ rest
]

-- `(?:notes?|workspace|files?)`
abbrev pub names_files : Option String → Bool
names_files none = false
names_files (some s) =
    elim (or_option (literal "note" s) (or_option (literal "workspace" s) (literal "file" s))) [
      | none ↦ false
      | some rest ↦ true
    ]

abbrev pub sharer : GrantAction → String → Option Matched → Option GrantIntent
sharer action to_agent none = none
sharer action to_agent (some from) =
    if names_files (spaces (skip_possessive from.rest))
    then some (record { to_agent = to_agent; from_agent = from.text; action = action })
    else none

abbrev pub reader : Option Matched → Option GrantIntent
reader none = none
reader (some to) = elim (then_literal "read" (spaces to.rest)) [
  | some rest ↦ sharer GrantAction.read to.text (then_name (spaces rest))
  | none ↦ elim (then_literal "write" (spaces to.rest)) [
    | some rest ↦ sharer GrantAction.write to.text (then_name (spaces rest))
    | none ↦ none
  ]
]

-- The pattern at one place, behind its `\b`
unfoldable pub match_here : String → Option GrantIntent
unfolding take_name skip_spaces literal
match_here s = reader (then_name (then_spaces (literal "let" s)))

-- The first place where it matches.
unfoldable pub match_from : Bool → String → Option GrantIntent
match_from in_word String.[] = none
match_from in_word (String.◌∷◌ c s) =
    let later = match_from (is_word (code c)) s in
    if in_word then later else or_option (match_here (String.◌∷◌ c s)) later

unfoldable pub parse_with_grammar : String → Option GrantIntent
unfolding match_from match_here
parse_with_grammar text = match_from false text

-- `z.string().trim().min(1).max(64)`
abbrev pub is_short : String → Bool
is_short s = not (trim s == "") && leb (text_length (trim s)) 64

abbrev pub checked_intent : GrantIntent → Option GrantIntent
checked_intent intent =
    if is_short intent.to_agent && is_short intent.from_agent
    then some (record {
      to_agent = trim intent.to_agent;
      from_agent = trim intent.from_agent;
      action = intent.action;
    })
    else none

abbrev checked : Option GrantIntent → Option GrantIntent
checked none = none
checked (some intent) = checked_intent intent

-- `z.tuple([z.enum(["read", "write"])])`
abbrev one_action : Option Value → Option GrantAction
one_action none = none
one_action (some null) = none
one_action (some (bool b)) = none
one_action (some (num n)) = none
one_action (some (str s)) = none
one_action (some (arr nil)) = none
one_action (some (arr (cons v nil))) =
    if is_literal "read" (some v)
    then some GrantAction.read
    else if is_literal "write" (some v)
    then some GrantAction.write
    else none
one_action (some (arr (cons v (cons w more)))) = none
one_action (some (obj fs)) = none

abbrev intent_of : Option String → Option String → Option GrantAction → Option GrantIntent
intent_of (some to) (some from) (some action) =
    checked_intent (record { to_agent = to; from_agent = from; action = action })
intent_of none from action = none
intent_of (some to) none action = none
intent_of (some to) (some from) none = none

-- `intentSchema.safeParse`
unfoldable pub read_intent : Option Value → Option GrantIntent
read_intent v =
    if is_literal "workspace" (prop_of "resource" v)
    then intent_of (as_text (prop_of "toAgent" v)) (as_text (prop_of "fromAgent" v))
        (one_action (prop_of "actions" v))
    else none

unfoldable pub parse_with_ark :
    (String → Option Value) → (String → Option Value) → String → Option GrantIntent
unfolding read_intent
parse_with_ark json_parse fetch text = read_intent (answered_value json_parse (fetch text))

unfoldable pub parse_grant_intent :
    AppConfig → (String → Option Value) → (String → Option Value) → String → Option GrantIntent
unfolding parse_with_ark parse_with_grammar
parse_grant_intent config json_parse fetch text =
    if is_ark_configured config
    then or_option (parse_with_ark json_parse fetch text) (checked (parse_with_grammar text))
    else checked (parse_with_grammar text)
