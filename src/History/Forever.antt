-- ===== src/History/Forever.antt =====
-- What no sequence of mutations undoes.
use tik_tok_jam.Base.{ℕ, String, ◌≡◌, ◌∙◌, false, Option, some, ◌==◌, Eq-String, arith}
use tik_tok_jam.Types.Records.{Database, RunToken, PolicyGrant}
use tik_tok_jam.Action.{World, err, denied}
use tik_tok_jam.Grants.{token_of, grant_of, is_live}
use tik_tok_jam.Gateway.Context.{GatewayDeps, AgentClaims, bearer_of, authenticate}
use tik_tok_jam.History.Steps.{Reach, here, next}
use tik_tok_jam.History.Growth.{Grows, Grows-refl, Grows-trans, find-Grows}
use tik_tok_jam.History.Kept.{
  KeepsToken, KeepsGrant, same_token, same_grant, Step-tokens, Step-grants,
}

token_join : (a b c : RunToken) → KeepsToken a b → KeepsToken b c → KeepsToken a c
token_join a b c h k =
    (k.0 ∙ h.0, k.1 ∙ h.1, k.2 ∙ h.2, k.3 ∙ h.3, k.4 ∙ h.4, k.5 ∙ h.5, λ at e. k.6 at (h.6 at e))

grant_join : (a b c : PolicyGrant) → KeepsGrant a b → KeepsGrant b c → KeepsGrant a c
grant_join a b c h k = (
  k.0 ∙ h.0,
  k.1 ∙ h.1,
  k.2 ∙ h.2,
  k.3 ∙ h.3,
  k.4 ∙ h.4,
  k.5 ∙ h.5,
  k.6 ∙ h.6,
  λ at e. k.7 at (h.7 at e),
)

Reach-tokens : {d d' : Database} → Reach d d' → Grows KeepsToken d.run_tokens d'.run_tokens
Reach-tokens {d} here = Grows-refl KeepsToken same_token d.run_tokens
Reach-tokens {d} {d'} (next {t} r st) =
    Grows-trans KeepsToken token_join d.run_tokens t.run_tokens d'.run_tokens (Reach-tokens r)
      (Step-tokens st)

Reach-grants : {d d' : Database} → Reach d d' → Grows KeepsGrant d.policy_grants d'.policy_grants
Reach-grants {d} here = Grows-refl KeepsGrant same_grant d.policy_grants
Reach-grants {d} {d'} (next {t} r st) =
    Grows-trans KeepsGrant grant_join d.policy_grants t.policy_grants d'.policy_grants
      (Reach-grants r) (Step-grants st)

-- Through any sequence of mutations the row of a token stays, with its run, agent, owner and expiry, and
-- once it is revoked it stays revoked with the time of its revocation.
pub token_of-Reach :
    {d d' : Database} (jti : String) (t : RunToken)
    → Reach d d'
    → token_of jti d ≡ some t
    → (t' : RunToken) × (token_of jti d' ≡ some t') × KeepsToken t t'
token_of-Reach {d} {d'} jti t r found =
    find-Grows KeepsToken (λ u. u.jti == jti) (λ x y k. ground (arith, k.0)) d.run_tokens
      d'.run_tokens t (Reach-tokens r) found

-- A grant that was revoked is still there after any sequence of mutations, revoked at the same time and
-- for the same owner, agents and actions, and is live at no time.
pub grant_of-Reach :
    {d d' : Database} (id : String) (g : PolicyGrant) (at now : ℕ)
    → Reach d d'
    → grant_of id d ≡ some g
    → g.revoked_at ≡ some at
    → (g' : PolicyGrant) × (grant_of id d' ≡ some g')
      × (g'.revoked_at ≡ some at)
      × (is_live g' now ≡ false)
      × (g'.from_owner ≡ g.from_owner)
      × (g'.from_agent ≡ g.from_agent)
      × (g'.to_agent ≡ g.to_agent)
      × (g'.actions ≡ g.actions)
grant_of-Reach {d} {d'} id g at now r found gone =
    let (g', later, kept) =
      find-Grows KeepsGrant (λ h. h.id == id) (λ x y k. ground (arith, k.0)) d.policy_grants
        d'.policy_grants g (Reach-grants r) found in
    let still = kept.7 at gone in
    (g', later, still, ground (arith, still), kept.1, kept.2, kept.3, kept.5)

-- A caller whose token's row was revoked, and whose header is checked, is refused as revoked in every
-- store that any sequence of mutations leads to, at any time.
pub authenticate-Reach :
    {d : Database} (deps : GatewayDeps) (header : Option String) (claims : AgentClaims)
    (t : RunToken) (at : ℕ) (w : World)
    → (bearer_of header == "") ≡ false
    → deps.verify_agent_token (bearer_of header) ≡ some claims
    → token_of claims.jti d ≡ some t
    → t.revoked_at ≡ some at
    → Reach d w.db
    → (authenticate deps header w).0 ≡ err (denied 403 "revoked" "Agent token revoked by operator")
unfolding authenticate
authenticate-Reach deps header claims t at w given good found gone r =
    let (t', later, kept) = token_of-Reach claims.jti t r found in
    let still = kept.6 at gone in ground (arith, later, still)
