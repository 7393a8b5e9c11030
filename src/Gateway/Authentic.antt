-- ===== src/Gateway/Authentic.antt =====
-- apps/server/src/gateway.ts: whom the gateway lets in.
use tik_tok_jam.Base.{
  ◌<◌, String, ◌≡◌, refl, Option, none, some, arith, Option-cases, Bool-cases, ◌==◌, Eq-String, ◌⊎◌,
  inl, inr,
}
use mathlib.Core.Path.{subst, sym}
use tik_tok_jam.Types.Records.{RunToken}
use tik_tok_jam.Action.{World, ok, err, Exception, denied}
use tik_tok_jam.Grants.{token_of}
use tik_tok_jam.Gateway.Context.{GatewayDeps, AgentClaims, Ctx, ctx_of, bearer_of, authenticate}

-- A caller that is let in: its token verified, and the row of that token is neither revoked nor expired.
pub record Authentic (deps : GatewayDeps) (header : Option String) (w : World) (ctx : Ctx)
    : Type 0 where
  pub claims : AgentClaims
  pub verified : deps.verify_agent_token (bearer_of header) ≡ some claims
  pub row : token_of claims.jti w.db ≡ some ctx.token
  pub bound : ctx ≡ ctx_of claims ctx.token
  pub unrevoked : ctx.token.revoked_at ≡ none
  pub unexpired : w.clock 0 < ctx.token.expires_at

-- The guards behind the lookup of the row.
admitted :
    (claims : AgentClaims) (token : RunToken) (deps : GatewayDeps) (header : Option String)
    (w : World)
    → deps.verify_agent_token (bearer_of header) ≡ some claims
    → token_of claims.jti w.db ≡ some token
    → ((authenticate deps header w).0 ≡ ok (ctx_of claims token))
        × (token.revoked_at ≡ none)
        × (w.clock 0 < token.expires_at)
      ⊎ ((e : Exception) × ((authenticate deps header w).0 ≡ err e))
unfolding authenticate
admitted claims token deps header w good found = ground arith

refused_early :
    (deps : GatewayDeps) (header : Option String) (w : World)
    → deps.verify_agent_token (bearer_of header) ≡ none
    → (e : Exception) × ((authenticate deps header w).0 ≡ err e)
unfolding authenticate
refused_early deps header w bad = elim (Bool-cases (bearer_of header == "")) [
  | inl empty ↦ (denied 401 "no-token" "Authentication required", rw empty)
  | inr some_text ↦ (denied 401 "bad-token" "Invalid agent token", rw (some_text, bad))
]

unknown_row :
    (claims : AgentClaims) (deps : GatewayDeps) (header : Option String) (w : World)
    → deps.verify_agent_token (bearer_of header) ≡ some claims
    → token_of claims.jti w.db ≡ none
    → (e : Exception) × ((authenticate deps header w).0 ≡ err e)
unfolding authenticate
unknown_row claims deps header w good missing = elim (Bool-cases (bearer_of header == "")) [
  | inl empty ↦ (denied 401 "no-token" "Authentication required", rw empty)
  | inr some_text ↦ (denied 403 "unknown-token" "Unknown run token", rw (some_text, good, missing))
]

let_in :
    (claims : AgentClaims) (token : RunToken) (deps : GatewayDeps) (header : Option String)
    (w : World) (ctx : Ctx)
    → deps.verify_agent_token (bearer_of header) ≡ some claims
    → token_of claims.jti w.db ≡ some token
    → ctx ≡ ctx_of claims token
    → token.revoked_at ≡ none
    → w.clock 0 < token.expires_at
    → Authentic deps header w ctx
let_in claims token deps header w ctx good found bound fresh early =
    subst (Authentic deps header w) (sym bound) (record {
      claims = claims;
      verified = good;
      row = found;
      bound = refl;
      unrevoked = fresh;
      unexpired = early;
    })

-- Whoever is let in has a token that verifies, whose claims are those of the context, and whose row in
-- the store is neither revoked nor expired at the time of the call.
pub authenticate_sound :
    (deps : GatewayDeps) (header : Option String) (w : World) (ctx : Ctx)
    → (authenticate deps header w).0 ≡ ok ctx
    → Authentic deps header w ctx
authenticate_sound deps header w ctx on =
    elim (Option-cases (deps.verify_agent_token (bearer_of header))) [
      | inl bad ↦ let (e, stopped) = refused_early deps header w bad in absurd (cc)
      | inr (claims, good) ↦ elim (Option-cases (token_of claims.jti w.db)) [
        | inl missing ↦
            let (e, stopped) = unknown_row claims deps header w good missing in absurd (cc)
        | inr (token, found) ↦ elim (admitted claims token deps header w good found) [
          | inl (passed, fresh, early) ↦
              let bound : ctx ≡ ctx_of claims token = cc in
              let_in claims token deps header w ctx good found bound fresh early
          | inr (e, stopped) ↦ absurd (cc)
        ]
      ]
    ]
