-- ===== src/Secrets.antt =====
-- The four shapes of a secret that audit.ts, redact.ts and classify.ts each list. A pattern is the
-- length of its match at the place where a text begins, 0 where it does not match. None of the four
-- can match by giving characters back, so the greedy length is the one that a regular expression finds.
use Prim.Native.Char.{code}
use Prim.Native.String.{◌++◌}
use tik_tok_jam.Base.{
  ℕ, zero, suc, ◌+◌, ◌-◌, String, Bool, true, not, ◌&&◌, ◌||◌, Option, none, some, List, [], ◌∷◌,
  leb, ltb, length, nat_eq, if◌then◌else◌,
}
use tik_tok_jam.Text.{codes, take_text, is_space, is_upper, is_alphanumeric, strip_prefix, to_lower}

-- What stands before the place, and the text from there.
abbrev pub Pattern : Type 0
Pattern = Option ℕ → String → ℕ

-- How many characters at the front are of a class.
abbrev span : (ℕ → Bool) → String → ℕ
span inside String.[] = 0
span inside (String.◌∷◌ c s) = let rest = span inside s in if inside (code c) then suc rest else 0

abbrev drop_text : ℕ → String → String
drop_text zero s = s
drop_text (suc n) String.[] = String.[]
drop_text (suc n) (String.◌∷◌ c s) = drop_text n s

-- `\b` in front of a word character
abbrev word_starts : Option ℕ → Bool
word_starts none = true
word_starts (some c) = not (is_alphanumeric c || nat_eq c b'_')

abbrev in_token : ℕ → Bool
in_token c = is_alphanumeric c || nat_eq c b'.' || nat_eq c b'_' || nat_eq c b'-'

abbrev sum_if : Bool → ℕ → ℕ
sum_if b n = if b then n else 0

-- /Bearer\s+[A-Za-z0-9._-]+/
pub bearer : Pattern
bearer before s = elim (strip_prefix "Bearer" s) [
  | none ↦ 0
  | some rest ↦
      let gap = span is_space rest in
      let token = span in_token (drop_text gap rest) in
      sum_if (leb 1 gap && leb 1 token) (6 + gap + token)
]

-- /\beyJ[A-Za-z0-9._-]{20,}/
pub jwt : Pattern
jwt before s = elim (strip_prefix "eyJ" s) [
  | none ↦ 0
  | some rest ↦
      let token = span in_token rest in sum_if (word_starts before && leb 20 token) (3 + token)
]

abbrev strip_ignoring_case : String → String → Option String
strip_ignoring_case String.[] s = some s
strip_ignoring_case (String.◌∷◌ p ps) String.[] = none
strip_ignoring_case (String.◌∷◌ p ps) (String.◌∷◌ c s) =
    let rest = strip_ignoring_case ps s in
    if nat_eq (to_lower (code p)) (to_lower (code c)) then rest else none

-- /\bep-[a-z0-9-]+/i
pub endpoint : Pattern
endpoint before s = elim (strip_ignoring_case "ep-" s) [
  | none ↦ 0
  | some rest ↦
      let name = span (λ c. is_alphanumeric c || nat_eq c b'-') rest in
      sum_if (word_starts before && leb 1 name) (3 + name)
]

-- /ARK_[A-Z_]*=\S+/
pub ark_setting : Pattern
ark_setting before s = elim (strip_prefix "ARK_" s) [
  | none ↦ 0
  | some rest ↦
      let name = span (λ c. is_upper c || nat_eq c b'_') rest in
      elim (strip_prefix "=" (drop_text name rest)) [
        | none ↦ 0
        | some tail ↦
            let setting = span (λ c. not (is_space c)) tail in
            sum_if (leb 1 setting) (5 + name + setting)
      ]
]

unfoldable pub secret_patterns : List Pattern
unfolding bearer jwt endpoint ark_setting
secret_patterns = bearer ∷ jwt ∷ endpoint ∷ ark_setting ∷ []

-- `pattern.test(text)`
unfoldable pub test_from : Pattern → Option ℕ → String → Bool
test_from p before String.[] = leb 1 (p before String.[])
test_from p before (String.◌∷◌ c s) =
    leb 1 (p before (String.◌∷◌ c s)) || test_from p (some (code c)) s

-- `text.replace(pattern, "[redacted]")` with the flag g: the new text, and how many matches it had.
-- `skip` characters still belong to the match before.
unfoldable pub replace_from : Pattern → ℕ → Option ℕ → String → String × ℕ
replace_from p skip before String.[] = (String.[], 0)
replace_from p (suc skip) before (String.◌∷◌ c s) = replace_from p skip (some (code c)) s
replace_from p zero before (String.◌∷◌ c s) =
    let n = p before (String.◌∷◌ c s) in
    let (rest, hits) = replace_from p (n - 1) (some (code c)) s in
    if leb 1 n then ("[redacted]" ++ rest, suc hits) else (String.◌∷◌ c rest, hits)

-- The replacement for each pattern in turn.
unfoldable pub scrub : List Pattern → String → String × ℕ
unfolding replace_from
scrub [] s = (s, 0)
scrub (p ∷ ps) s =
    let (once, hits) = replace_from p 0 none s in
    let (all_done, more) = scrub ps once in (all_done, hits + more)

-- redact.ts: `MAX_STRING_LENGTH`
abbrev pub max_string_length : ℕ
max_string_length = 2048

-- redact.ts: `redactString`, which redacts before it truncates.
unfoldable pub redact_string : String → String
unfolding scrub secret_patterns take_text
redact_string s =
    let out = (scrub secret_patterns s).0 in
    if ltb max_string_length (length (codes out))
    then take_text max_string_length out ++ "…"
    else out
