-- ===== src/Auth/Principals.antt =====
-- apps/server/src/auth.ts: the two types of principal.
use tik_tok_jam.Base.{
  String, ◌≡◌, refl, true, false, Eq-String, Option, some, none, arith, Option-cases, inl, inr,
  Bool-cases,
}
use tik_tok_jam.Types.Records.{Value, Fields, null, bool, num, str, arr, obj}
use tik_tok_jam.Auth.{
  Principal, PrincipalType, verify_token, human_claims, agent_claims, is_literal, value_at,
  text_value,
}

one_literal : (v : Option Value) → is_literal "human" v ≡ true → is_literal "agent" v ≡ false
one_literal none h = refl
one_literal (some null) h = refl
one_literal (some (bool b)) h = refl
one_literal (some (num n)) h = refl
one_literal (some (str s)) h =
    let is_human : s ≡ "human" = Eq-String.sound s "human" h in rw is_human refl
one_literal (some (arr xs)) h = refl
one_literal (some (obj fs)) h = refl

-- The claims of a human are none of an agent.
claims_apart :
    (payload : Fields) (p : Principal)
    → human_claims payload ≡ some p
    → (agent_claims payload ≡ none) × ((user_id : String) × (p ≡ Principal.human user_id))
unfolding human_claims agent_claims
claims_apart payload p h = elim (Bool-cases (is_literal "human" (value_at "typ" payload))) [
  | inr other ↦ absurd (ground (arith, other))
  | inl human ↦
      let no_agent = one_literal (value_at "typ" payload) human in
      elim (Option-cases (text_value (value_at "sub" payload))) [
        | inl missing ↦ absurd (ground (arith, human, missing))
        | inr (sub, found) ↦ (ground (arith, no_agent), (sub, ground (arith, human, found)))
      ]
]

-- A token that verifies as a human's does not verify as an agent's, whatever its other claims are, and
-- a token that verifies as either was signed.
pub verify_token_apart :
    (jwt_verify : String → Option Fields) (raw : String) (p : Principal)
    → verify_token jwt_verify raw PrincipalType.human ≡ some p
    → (verify_token jwt_verify raw PrincipalType.agent ≡ none)
      × ((payload : Fields) × (jwt_verify raw ≡ some payload))
      × ((user_id : String) × (p ≡ Principal.human user_id))
unfolding verify_token
verify_token_apart jwt_verify raw p h = elim (Option-cases (jwt_verify raw)) [
  | inl bad ↦ absurd (ground (arith, bad))
  | inr (payload, good) ↦
      let (no_agent, is_human) = claims_apart payload p (ground (arith, good)) in
      (ground (arith, good), (payload, good), is_human)
]
