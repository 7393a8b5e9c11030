-- ===== src/Ark/Least.antt =====
-- What the keyword grammar lets a run have.
use tik_tok_jam.Base.{
  ℕ, String, ◌≡◌, ◌≢◌, refl, ap, true, ◌||◌, List, [], ◌∷◌, filter, includes, ◌==◌, arith,
  Bool-cases, inl, inr,
}
use tik_tok_jam.Base.Sets.{includes-unique, includes-filter}
use tik_tok_jam.Types.Enums.{Scope}
use tik_tok_jam.Types.Equality.{Eq-Scope}
use tik_tok_jam.Types.Records.{Agent, Database}
use tik_tok_jam.Store.{live_temp_scopes}
use tik_tok_jam.Service.Mint.{mint_token}
use tik_tok_jam.Service.Mint.Narrowing.{mint_token_scopes}
use tik_tok_jam.Ark.Estimator.{keyword_scopes, rule, ruled_scopes, or_read, utf16}

ruled : (s : Scope) → includes ruled_scopes s ≡ true
ruled Scope.workspace_read = refl
ruled Scope.workspace_write = refl
ruled Scope.crm_read = refl
ruled Scope.crm_write = refl
ruled Scope.webhook_send = refl

includes-or_read :
    (hits : List Scope) (s : Scope)
    → includes (or_read hits) s ≡ true
    → (includes hits s || s == Scope.workspace_read) ≡ true
includes-or_read [] Scope.workspace_read h = refl
includes-or_read [] Scope.workspace_write h = h
includes-or_read [] Scope.crm_read h = h
includes-or_read [] Scope.crm_write h = h
includes-or_read [] Scope.webhook_send h = h
includes-or_read (h ∷ hits) s i = let same = includes-unique (h ∷ hits) s in ground (arith, same, i)

or_read-some : (hits : List Scope) → or_read hits ≢ []
or_read-some [] e = absurd (ground (arith, e))
or_read-some (h ∷ hits) e =
    let same = includes-unique (h ∷ hits) h in
    absurd (ground (arith, same, ap (λ xs. includes xs h) e, Eq-Scope.same_self h))

-- The keyword grammar estimates a scope other than reading the workspace only where the scope's own
-- pattern is in the prompt, so that a run's token then has no other one, but for those that a human
-- granted for the time being.
pub mint_token-keyword_scopes :
    (agent : Agent) (prompt : String) (timeout at : ℕ) (jti run_id : String) (d : Database)
    (s : Scope)
    → includes (mint_token agent (keyword_scopes prompt) timeout at jti run_id d).scp s ≡ true
    → (rule s (utf16 prompt) || s == Scope.workspace_read || includes (live_temp_scopes agent at) s)
      ≡ true
unfolding keyword_scopes
mint_token-keyword_scopes agent prompt timeout at jti run_id d s held =
    let hits = filter (λ t. rule t (utf16 prompt)) ruled_scopes in
    let narrowed =
      (mint_token_scopes agent (or_read hits) timeout at jti run_id d s).2 (or_read-some hits)
        held in
    let kept = includes-filter (λ t. rule t (utf16 prompt)) ruled_scopes s in
    elim (Bool-cases (includes (or_read hits) s)) [
      | inl estimated ↦ let why = includes-or_read hits s estimated in ground (arith, why, kept)
      | inr other ↦ ground (arith, narrowed, other)
    ]
