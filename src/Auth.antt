-- ===== src/Auth.antt =====
-- apps/server/src/auth.ts: principals, the login exchange and the gate of the `/api/` routes. The
-- check of a token's signature and expiry, by jose, is a parameter that answers its payload. The
-- schemas of zod are written out as the tests that they make.
pub mod Principals
use Prim.Native.Char.{code}
use tik_tok_jam.Base.{
  String, Bool, false, not, ◌&&◌, Option, none, some, List, [], ◌∷◌, ◌==◌, nat_eq, find, filter,
  includes, map, at_last, if◌then◌else◌, Eq-String,
}
use tik_tok_jam.Types.Enums.{Scope, scopes, scope_text}
use tik_tok_jam.Types.Records.{
  Value, null, bool, num, str, arr, obj, Items, nil, cons, Fields, done, field,
}
use tik_tok_jam.Text.{trim, strip_prefix, after_colon}
use tik_tok_jam.Grants.{or_else, is_null}

pub record AgentPrincipal : Type 0 where
  pub agent_id : String
  pub owner_id : String
  pub run_id : String
  pub jti : String
  pub scp : List Scope

pub data PrincipalType : Type 0 where
  human agent : PrincipalType

pub data Principal : Type 0 where
  human : String → Principal
  agent : AgentPrincipal → Principal

-- The value at a key of a payload.
abbrev pub value_at : String → Fields → Option Value
value_at key done = none
value_at key (field k v fs) = if k == key then some v else value_at key fs

-- `z.string().min(1)`
abbrev pub text_value : Option Value → Option String
text_value none = none
text_value (some null) = none
text_value (some (bool b)) = none
text_value (some (num n)) = none
text_value (some (str s)) = if s == "" then none else some s
text_value (some (arr xs)) = none
text_value (some (obj fs)) = none

-- `z.literal(text)`
abbrev pub is_literal : String → Option Value → Bool
is_literal literal none = false
is_literal literal (some null) = false
is_literal literal (some (bool b)) = false
is_literal literal (some (num n)) = false
is_literal literal (some (str s)) = s == literal
is_literal literal (some (arr xs)) = false
is_literal literal (some (obj fs)) = false

-- `z.enum(SCOPES)`
abbrev pub scope_value : Value → Option Scope
scope_value null = none
scope_value (bool b) = none
scope_value (num n) = none
scope_value (str s) = find (λ scope. scope_text scope == s) scopes
scope_value (arr xs) = none
scope_value (obj fs) = none

abbrev pub prepend {ℓ} : {A : Type ℓ} → Option A → Option (List A) → Option (List A)
prepend none xs = none
prepend (some x) none = none
prepend (some x) (some xs) = some (x ∷ xs)

abbrev pub scope_items : Items → Option (List Scope)
scope_items nil = some []
scope_items (cons v vs) = prepend (scope_value v) (scope_items vs)

-- `z.array(z.enum(SCOPES))`
abbrev pub scope_list : Option Value → Option (List Scope)
scope_list none = none
scope_list (some null) = none
scope_list (some (bool b)) = none
scope_list (some (num n)) = none
scope_list (some (str s)) = none
scope_list (some (arr xs)) = scope_items xs
scope_list (some (obj fs)) = none

infixl 5 ◌>>=◌
abbrev ◌>>=◌ {ℓ κ} : {A : Type ℓ} {B : Type κ} → Option A → (A → Option B) → Option B
none >>= f = none
some a >>= f = f a

unfoldable pub human_claims : Fields → Option Principal
human_claims payload =
    if is_literal "human" (value_at "typ" payload)
    then (do sub ← text_value (value_at "sub" payload); some (Principal.human sub))
    else none

unfoldable pub agent_claims : Fields → Option Principal
agent_claims payload =
    if is_literal "agent" (value_at "typ" payload)
    then (do
      sub ← text_value (value_at "sub" payload)
      own ← text_value (value_at "own" payload)
      run ← text_value (value_at "run" payload)
      jti ← text_value (value_at "jti" payload)
      scp ← scope_list (value_at "scp" payload)
      some (
          Principal.agent
            (record { agent_id = sub; owner_id = own; run_id = run; jti = jti; scp = scp })))
    else none

abbrev claims_for : PrincipalType → Fields → Option Principal
claims_for PrincipalType.human payload = human_claims payload
claims_for PrincipalType.agent payload = agent_claims payload

-- `jwt_verify` answers the payload of a token that it accepts.
unfoldable pub verify_token : (String → Option Fields) → String → PrincipalType → Option Principal
verify_token jwt_verify raw typ = do payload ← jwt_verify raw; claims_for typ payload

abbrev pub open_paths : List String
open_paths = "/api/health" ∷ "/api/auth" ∷ "/api/auth/login" ∷ []

-- The url up to the first question mark.
unfoldable pub pathname_of : String → String
pathname_of String.[] = String.[]
pathname_of (String.◌∷◌ c url) =
    let rest = pathname_of url in if nat_eq (code c) b'?' then String.[] else String.◌∷◌ c rest

unfoldable pub requires_human_token : String → Bool
requires_human_token url =
    let pathname = pathname_of url in
    not (is_null (strip_prefix "/api/" pathname)) && not (includes open_paths pathname)

abbrev pub bearer_from : Option String → String
bearer_from none = ""
bearer_from (some header) = trim (or_else (strip_prefix "Bearer " header) "")

-- What the `onRequest` hook does: go on, with the principal of a gated route, or answer 401.
pub data Gate : Type 0 where
  ungated : Gate
  admitted : String → Gate
  unauthorized : Gate

abbrev admit : Option Principal → Gate
admit none = Gate.unauthorized
admit (some (Principal.human user_id)) = Gate.admitted user_id
admit (some (Principal.agent principal)) = Gate.unauthorized

unfoldable pub on_request : (String → Option Fields) → String → Option String → Gate
on_request jwt_verify url header =
    if not (requires_human_token url)
    then Gate.ungated
    else admit (verify_token jwt_verify (bearer_from header) PrincipalType.human)

pub record SeedUser : Type 0 where
  pub id : String
  pub name : String

-- `raw.split(",")`
abbrev pub split_commas : String → List String
split_commas String.[] = "" ∷ []
split_commas (String.◌∷◌ c s) = elim (split_commas s) [
  | [] ↦ []
  | part ∷ parts ↦ if nat_eq (code c) b',' then "" ∷ part ∷ parts else String.◌∷◌ c part ∷ parts
]

abbrev before_colon : String → String
before_colon String.[] = String.[]
before_colon (String.◌∷◌ c s) =
    let rest = before_colon s in if nat_eq (code c) b':' then String.[] else String.◌∷◌ c rest

abbrev pub seed_user : String → SeedUser
seed_user entry =
    let id = trim (before_colon entry) in
    let name = trim (or_else (after_colon entry) entry) in
    record { id = id; name = if name == "" then id else name }

unfoldable pub parse_seed_users : String → List SeedUser
parse_seed_users raw =
    filter (λ u. not (u.id == ""))
      (map seed_user (filter (λ e. not (e == "")) (map trim (split_commas raw))))

-- The user that a login names: of two with one id, the map keeps the later.
unfoldable pub login : String → String → Option SeedUser
login seed_users user_id = at_last (filter (λ u. u.id == user_id) (parse_seed_users seed_users))
