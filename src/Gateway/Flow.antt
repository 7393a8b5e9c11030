-- ===== src/Gateway/Flow.antt =====
-- apps/server/src/gateway.ts: what the guards leave alone, and what they have established when they let a call pass.
use Prim.Native.String.{◌++◌}
use tik_tok_jam.Base.{
  String, ◌≡◌, refl, ◌⊎◌, inl, inr, Bool, true, Option, none, some, includes, arith, Eq-String,
  Option-cases,
}
use tik_tok_jam.Types.Enums.{Egress, scope_text, GrantAction}
use tik_tok_jam.Types.Equality.{Eq-Scope}
use tik_tok_jam.Types.Records.{RunToken, Agent, PolicyGrant}
use tik_tok_jam.Action.{World, Result, ok, err, denied}
use tik_tok_jam.Grants.{token_of, find_live_grant}
use tik_tok_jam.Ifc.{check_egress, check_integrity}
use tik_tok_jam.Gateway.Context.{GatewayDeps, Ctx}
use tik_tok_jam.Gateway.Checks.{
  Tool, tool_scope, scope_of, Resolved, resolve_workspace, agent_by_ref, own_or_borrowed,
  workspace_query, egress_gate, approved, taints_of,
}

-- A human approved the destination, or every taint permits it and none is unbelieved.
abbrev pub MayFlow : Option RunToken → Egress → String → Bool → Type 0
MayFlow token dest resource outbound =
    (approved token resource ≡ true)
    ⊎ ((check_egress (taints_of token) dest ≡ none)
        × ((outbound ≡ true) → check_integrity (taints_of token) ≡ none))

module _ (ctx : Ctx) where
  -- Whose workspace a call may touch: its own agent's, or one of the same tenant under a live grant.
  abbrev pub Borrows : GrantAction → Agent → Option PolicyGrant → World → Type 0
  Borrows action target grant w =
      ((target.id ≡ ctx.sub) × (grant ≡ none))
      ⊎ ((target.owner_id ≡ ctx.owner_id)
          × ((g : PolicyGrant) × (grant ≡ some g)
              × (find_live_grant (workspace_query target ctx action) (w.clock 0) w.db ≡ some g)))

  abbrev pub Resolves : GrantAction → String → Result Resolved → World → Type 0
  Resolves action ref (err e) w = Unit
  Resolves action ref (ok r) w =
      (agent_by_ref ref w.db ≡ some r.target) × Borrows action r.target r.grant w

module _ (deps : GatewayDeps) (ctx : Ctx) where
  pub egress_gate_keeps :
      (dest : Egress) (payload resource : String) (outbound : Bool) (w : World)
      → (egress_gate deps ctx dest payload resource outbound w).1 ≡ w
  unfolding egress_gate
  egress_gate_keeps dest payload resource outbound w = ground arith

  pub egress_gate_passes :
      (dest : Egress) (payload resource : String) (outbound : Bool) (w : World)
      → deps.enforce ≡ true
      → (egress_gate deps ctx dest payload resource outbound w).0 ≡ ok tt
      → MayFlow (token_of ctx.jti w.db) dest resource outbound
  unfolding egress_gate
  egress_gate_passes dest payload resource outbound w on h = ground arith

  pub scope_of_keeps : (tool : Tool) (w : World) → (scope_of deps ctx tool w).1 ≡ w
  unfolding scope_of
  scope_of_keeps tool w = ground arith

  pub scope_of_lem :
      (tool : Tool) (w : World)
      → deps.enforce ≡ true
      → ((scope_of deps ctx tool w).0 ≡ ok (tool_scope tool))
          × (includes ctx.token.scp (tool_scope tool) ≡ true)
        ⊎ ((scope_of deps ctx tool w).0
            ≡ err (denied 403 "scope" ("Missing scope " ++ scope_text (tool_scope tool))))
  unfolding scope_of
  scope_of_lem tool w on = ground arith

  own_or_borrowed_lem :
      (ref : String) (action : GrantAction) (target : Agent) (w : World)
      → deps.enforce ≡ true
      → agent_by_ref ref w.db ≡ some target
      → Resolves ctx action ref (own_or_borrowed deps ctx ref action target w).0 w
        × ((own_or_borrowed deps ctx ref action target w).1.db ≡ w.db)
        × ((own_or_borrowed deps ctx ref action target w).1.files ≡ w.files)
        × ((own_or_borrowed deps ctx ref action target w).1.sent ≡ w.sent)
  own_or_borrowed_lem ref action target w on found =
      ground
        (arith, Eq-String.sound target.id ctx.sub, Eq-String.sound target.owner_id ctx.owner_id)

  pub resolve_workspace_lem :
      (ref : String) (action : GrantAction) (w : World)
      → deps.enforce ≡ true
      → Resolves ctx action ref (resolve_workspace deps ctx ref action w).0 w
        × ((resolve_workspace deps ctx ref action w).1.db ≡ w.db)
        × ((resolve_workspace deps ctx ref action w).1.files ≡ w.files)
        × ((resolve_workspace deps ctx ref action w).1.sent ≡ w.sent)
  unfolding resolve_workspace
  resolve_workspace_lem ref action w on = elim (Option-cases (agent_by_ref ref w.db)) [
    | inl missing ↦ rw missing (tt, refl, refl, refl)
    | inr (target, found) ↦ rw found (own_or_borrowed_lem ref action target w on found)
  ]
