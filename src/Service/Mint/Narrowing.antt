-- ===== src/Service/Mint/Narrowing.antt =====
-- apps/server/src/agent-service.ts: the scopes of a minted token.
use mathlib.Core.List.{◌++◌}
use tik_tok_jam.Base.{
  ℕ, String, ◌≡◌, ◌≢◌, refl, ◌∙◌, true, not, ◌&&◌, ◌||◌, List, [], ◌∷◌, includes, filter, arith,
}
use tik_tok_jam.Base.Sets.{includes-append, includes-filter, includes-unique}
use tik_tok_jam.Types.Enums.{Scope}
use tik_tok_jam.Types.Equality.{Eq-Scope}
use tik_tok_jam.Types.Records.{Agent, Database}
use tik_tok_jam.Store.{effective_scopes, live_temp_scopes}
use tik_tok_jam.Service.Mint.{mint_scp, mint_token}

-- An agent holds a scope at a time exactly when it is one of its tools or a temporary scope that has
-- not expired.
pub includes-effective_scopes :
    (agent : Agent) (at : ℕ) (s : Scope)
    → includes (effective_scopes agent at) s
      ≡ includes agent.permissions.tools s || includes (live_temp_scopes agent at) s
unfolding effective_scopes
includes-effective_scopes agent at s =
    includes-unique (agent.permissions.tools ++ live_temp_scopes agent at) s
    ∙ includes-append agent.permissions.tools (live_temp_scopes agent at) s

-- The estimate narrows what stands, and keeps what a human granted for the time being.
pub includes-mint_scp :
    (e : Scope) (estimated standing live : List Scope) (s : Scope)
    → includes (mint_scp (e ∷ estimated) standing live) s
      ≡ (includes standing s && includes (e ∷ estimated) s) || includes live s
unfolding mint_scp
includes-mint_scp e estimated standing live s = ground (
  arith,
  includes-unique (filter (λ t. includes (e ∷ estimated) t) standing ++ live) s,
  includes-append (filter (λ t. includes (e ∷ estimated) t) standing) live s,
  includes-filter (λ t. includes (e ∷ estimated) t) standing s,
)

-- A minted token holds only scopes that the agent holds at that time; a scope that the agent holds is
-- either on the token or recorded as withheld, and never both; where there is an estimate, a scope on the
-- token is in the estimate or is one that a human granted for the time being; and no approval of a
-- destination is carried over.
pub mint_token_scopes :
    (agent : Agent) (estimated : List Scope) (timeout at : ℕ) (jti run_id : String) (d : Database)
    (s : Scope)
    → ((includes (mint_token agent estimated timeout at jti run_id d).scp s ≡ true)
        → includes (effective_scopes agent at) s ≡ true)
      × (includes (mint_token agent estimated timeout at jti run_id d).withheld s
          ≡ includes (effective_scopes agent at) s
            && not (includes (mint_token agent estimated timeout at jti run_id d).scp s))
      × (estimated ≢ []
          → includes (mint_token agent estimated timeout at jti run_id d).scp s ≡ true
          → (includes estimated s || includes (live_temp_scopes agent at) s) ≡ true)
      × ((mint_token agent estimated timeout at jti run_id d).egress_allow ≡ [])
unfolding mint_token mint_scp
mint_token_scopes agent [] timeout at jti run_id d s = (
  λ h. h,
  includes-filter
      (λ t. not (includes (mint_scp [] (effective_scopes agent at) (live_temp_scopes agent at)) t))
      (effective_scopes agent at) s,
  λ h. absurd (h refl),
  refl,
)
mint_token_scopes agent (e ∷ estimated) timeout at jti run_id d s =
    let minted =
      includes-mint_scp e estimated (effective_scopes agent at) (live_temp_scopes agent at) s in
    let standing = includes-effective_scopes agent at s in
    (
      λ h. ground arith,
      includes-filter
          (λ t. not (
            includes
              (mint_scp (e ∷ estimated) (effective_scopes agent at) (live_temp_scopes agent at)) t))
          (effective_scopes agent at) s,
      λ some_estimate h. ground arith,
      refl,
    )
