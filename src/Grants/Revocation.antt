-- ===== src/Grants/Revocation.antt =====
-- apps/server/src/grants.ts: what revocation leaves behind.
use tik_tok_jam.Base.{
  ℕ, String, ◌≡◌, refl, false, some, List, [], ◌∷◌, ◌==◌, arith, Eq-String, modify_all,
  modify_first, All, map,
}
use tik_tok_jam.Base.Find.{find-modify_first}
use tik_tok_jam.Types.Records.{Database, PolicyGrant, RunToken, Label}
use tik_tok_jam.Action.{ok}
use tik_tok_jam.Grants.{
  is_live, or_else, grant_of, revoke_in, mark_revoked, narrow_taints, clear_egress,
}

-- No taint of the grant may flow anywhere.
abbrev pub Sealed : String → Label → Type 0
Sealed grant_id t = t.grant_id ≡ grant_id → t.egress ≡ []

narrowed :
    (grant_id : String) (ts : List Label)
    → All (Sealed grant_id) (modify_all (λ t. t.grant_id == grant_id) clear_egress ts)
narrowed grant_id [] = tt
narrowed grant_id (t ∷ ts) =
    (λ e. ground (arith, Eq-String.same_self grant_id), narrowed grant_id ts)

narrowed-All :
    (grant_id : String) (tokens : List RunToken)
    → All (λ token. All (Sealed grant_id) token.taints) (map (narrow_taints grant_id) tokens)
narrowed-All grant_id [] = tt
narrowed-All grant_id (t ∷ ts) = (narrowed grant_id t.taints, narrowed-All grant_id ts)

-- A revocation that succeeds was asked for by the grant's owner. Afterwards the grant is live at no
-- time, it keeps the time of its first revocation, and no token holds a taint of it that may flow.
pub revoke_in_lem :
    (grant_id by_owner : String) (at : ℕ) (d : Database) (g : PolicyGrant) (d' : Database)
    → revoke_in grant_id by_owner at d ≡ ok (g, d')
    → (g.from_owner ≡ by_owner)
      × (grant_of grant_id d' ≡ some g)
      × ((later : ℕ) → is_live g later ≡ false)
      × ((old : PolicyGrant)
          → grant_of grant_id d ≡ some old
          → g.revoked_at ≡ some (or_else old.revoked_at at))
      × All (λ token. All (Sealed grant_id) token.taints) d'.run_tokens
unfolding revoke_in
revoke_in_lem grant_id by_owner at d g d' h =
    let grants : d'.policy_grants
        ≡ modify_first (λ g. g.id == grant_id) (mark_revoked at) d.policy_grants =
      ground arith in
    let tokens : d'.run_tokens ≡ map (narrow_taints grant_id) d.run_tokens = ground arith in
    (
      Eq-String.sound g.from_owner by_owner (ground arith),
      rw grants (
          ground (
            arith,
            find-modify_first (λ g. g.id == grant_id) (mark_revoked at) (λ g. refl) d.policy_grants,
          )),
      λ later. ground arith,
      λ old e. ground arith,
      rw tokens (narrowed-All grant_id d.run_tokens),
    )
