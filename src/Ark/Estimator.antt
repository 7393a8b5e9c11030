-- ===== src/Ark/Estimator.antt =====
-- apps/server/src/scope-estimator.ts: the keyword grammar and the estimator. A text is its units of
-- UTF-16, as a regular expression without the flag `u` reads it; a word of `\b(...)\b` is a whole run of
-- word characters, and the flag `i` is about ASCII letters.
use Prim.Native.Char.{code}
use Prim.Native.Nat.{◌/◌, ◌%◌}
use tik_tok_jam.Base.{
  ℕ, zero, suc, ◌+◌, ◌-◌, String, Bool, true, false, not, ◌&&◌, ◌||◌, Option, none, some, List, [],
  ◌∷◌, filter, any, leb, nat_eq, length, unique, if◌then◌else◌,
}
use tik_tok_jam.Types.Enums.{Scope}
use tik_tok_jam.Types.Equality.{Eq-Scope}
use tik_tok_jam.Types.Records.{Value}
use tik_tok_jam.Text.{codes, codes_same, is_alphanumeric, to_lower}
use tik_tok_jam.Auth.{scope_list}
use tik_tok_jam.Config.{AppConfig, is_ark_configured}
use tik_tok_jam.Ark.{prop_of, answered_value}

abbrev units_of : ℕ → List ℕ
units_of c =
    if leb 0x10000 c
    then (0xd800 + (c - 0x10000) / 1024) ∷ (0xdc00 + (c - 0x10000) % 1024) ∷ []
    else c ∷ []

unfoldable pub utf16 : String → List ℕ
utf16 String.[] = []
utf16 (String.◌∷◌ c s) = elim (units_of (code c)) [
  | [] ↦ utf16 s
  | a ∷ [] ↦ a ∷ utf16 s
  | a ∷ b ∷ more ↦ a ∷ b ∷ utf16 s
]

-- `\w`
abbrev pub is_word : ℕ → Bool
is_word c = is_alphanumeric c || nat_eq c b'_'

-- The word that a text begins with, in lower case, and the text behind it.
unfoldable pub head_word : List ℕ → List ℕ
head_word [] = []
head_word (c ∷ cs) = if is_word c then to_lower c ∷ head_word cs else []

unfoldable pub drop_word : List ℕ → List ℕ
drop_word [] = []
drop_word (c ∷ cs) = let rest = drop_word cs in if is_word c then rest else c ∷ cs

abbrev one_of : List String → List ℕ → Bool
one_of words word = any (λ w. codes_same (codes w) word) words

-- `/\b(words)\b/i` behind a character that is, or is not, of a word.
unfoldable pub has_word : List String → Bool → List ℕ → Bool
unfolding head_word codes_same
has_word words in_word [] = false
has_word words in_word (c ∷ cs) =
    (not in_word && one_of words (head_word (c ∷ cs))) || has_word words (is_word c) cs

-- `[^.]{0,n}\b(words)\b`
unfoldable pub has_word_within : List String → ℕ → Bool → List ℕ → Bool
unfolding head_word codes_same
has_word_within words n in_word [] = false
has_word_within words zero in_word (c ∷ cs) = not in_word && one_of words (head_word (c ∷ cs))
has_word_within words (suc n) in_word (c ∷ cs) =
    (not in_word && one_of words (head_word (c ∷ cs)))
    || (not (nat_eq c b'.') && has_word_within words n (is_word c) cs)

-- `/\b(first)\b[^.]{0,24}\b(second)\b/i`
unfoldable pub has_words : List String → List String → Bool → List ℕ → Bool
unfolding head_word codes_same drop_word has_word_within
has_words first second in_word [] = false
has_words first second in_word (c ∷ cs) =
    (not in_word
      && one_of first (head_word (c ∷ cs))
      && has_word_within second 24 true (drop_word (c ∷ cs)))
    || has_words first second (is_word c) cs

abbrev read_words : List String
read_words =
    "read" ∷ "open" ∷ "summarise" ∷ "summarize" ∷ "review" ∷ "inspect" ∷ "file" ∷ "files" ∷ "note"
    ∷ "notes" ∷ "document" ∷ "workspace" ∷ []

abbrev write_words : List String
write_words = "write" ∷ "save" ∷ "create" ∷ "edit" ∷ "update" ∷ "draft" ∷ "append" ∷ "rewrite" ∷ []

abbrev crm_words : List String
crm_words =
    "crm" ∷ "customer" ∷ "customers" ∷ "client" ∷ "clients" ∷ "account" ∷ "accounts" ∷ "record"
    ∷ "records" ∷ "lead" ∷ "leads" ∷ []

abbrev log_words : List String
log_words = "log" ∷ "record" ∷ "note" ∷ "update" ∷ "add" ∷ []

abbrev party_words : List String
party_words = "crm" ∷ "customer" ∷ "customers" ∷ "client" ∷ "clients" ∷ []

abbrev send_words : List String
send_words = "send" ∷ "post" ∷ "webhook" ∷ "notify" ∷ "publish" ∷ "ping" ∷ "forward" ∷ []

-- The pattern of a scope's rule.
unfoldable pub rule : Scope → List ℕ → Bool
unfolding has_word has_words
rule Scope.workspace_read text = has_word read_words false text
rule Scope.workspace_write text = has_word write_words false text
rule Scope.crm_read text = has_word crm_words false text
rule Scope.crm_write text = has_words log_words party_words false text
rule Scope.webhook_send text = has_word send_words false text

-- The order of `RULES`
abbrev pub ruled_scopes : List Scope
ruled_scopes =
    Scope.workspace_read ∷ Scope.workspace_write ∷ Scope.crm_read ∷ Scope.crm_write
    ∷ Scope.webhook_send ∷ []

abbrev pub or_read : List Scope → List Scope
or_read [] = Scope.workspace_read ∷ []
or_read (h ∷ hits) = unique (h ∷ hits)

unfoldable pub keyword_scopes : String → List Scope
unfolding rule utf16 unique
keyword_scopes prompt = or_read (filter (λ scope. rule scope (utf16 prompt)) ruled_scopes)

-- `z.array(z.enum(SCOPES)).max(SCOPES.length)`
abbrev at_most_all : Option (List Scope) → Option (List Scope)
at_most_all none = none
at_most_all (some estimated) = if leb (length estimated) 5 then some estimated else none

unfoldable pub estimate_with_ark :
    (String → Option Value) → (String → Option Value) → String → Option (List Scope)
estimate_with_ark json_parse fetch prompt =
    at_most_all (scope_list (prop_of "scopes" (answered_value json_parse (fetch prompt))))

abbrev pub ark_or_keywords : Option (List Scope) → String → List Scope
ark_or_keywords none prompt = keyword_scopes prompt
ark_or_keywords (some []) prompt = keyword_scopes prompt
ark_or_keywords (some (s ∷ more)) prompt = s ∷ more

unfoldable pub make_scope_estimator :
    AppConfig → (String → Option Value) → (String → Option Value) → String → List Scope
unfolding estimate_with_ark
make_scope_estimator config json_parse fetch prompt =
    if is_ark_configured config
    then ark_or_keywords (estimate_with_ark json_parse fetch prompt) prompt
    else keyword_scopes prompt
