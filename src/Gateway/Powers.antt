-- ===== src/Gateway/Powers.antt =====
-- apps/server/src/gateway.ts: what a tool call may change of what agents may do.
use Prim.Native.String.{◌++◌}
use tik_tok_jam.Base.{
  ◌≡◌, ap, ◌∙◌, inl, inr, String, true, Option, none, some, List, arith, any, push, if◌then◌else◌,
  modify_first, ◌==◌, Eq-String, Option-cases,
}
use tik_tok_jam.Types.Enums.{Egress, GrantAction}
use tik_tok_jam.Types.Records.{Agent, RunToken, PolicyGrant, Label, Database}
use tik_tok_jam.Action.{World, Action}
use tik_tok_jam.Action.Cases.{Result-cases}
use tik_tok_jam.Audit.{record_event, push_event}
use tik_tok_jam.Approvals.{create_card_on_deny, card_in}
use tik_tok_jam.Ifc.{add_taint, add_taint_in, fingerprint, with_taint, label_key}
use tik_tok_jam.Gateway.Cards.{CardRequest}
use tik_tok_jam.Gateway.Context.{GatewayDeps, Ctx, audit}
use tik_tok_jam.Gateway.Checks.{Tool, resolve_workspace, scope_of, tag_self_read, Resolved}
use tik_tok_jam.Gateway.Jail.{jail}
use tik_tok_jam.Grants.{find_live_grant}
use tik_tok_jam.Gateway.Flow.{egress_gate_keeps, scope_of_keeps}
use tik_tok_jam.Gateway.Confined.{jail_lem}
use tik_tok_jam.Gateway.Tools.{
  do_webhook_send, do_crm_write, do_crm_read, do_workspace_read, do_workspace_write, read_resolved,
  write_resolved, tag_read, is_agent, Reply, run_tool, deny, borrowed_label, crm_label, crm_query,
  truthy, ToolCall, handle_call, workspace_read, workspace_write, crm_read, crm_write, webhook_send,
}

-- The rows that say what agents may do.
pub record Powers : Type 0 where
  pub agents : List Agent
  pub grants : List PolicyGrant
  pub tokens : List RunToken

abbrev pub powers : Database → Powers
powers d = record { agents = d.agents; grants = d.policy_grants; tokens = d.run_tokens }

-- The row of a token with one taint more, unless it has one of the same grant and origin.
abbrev pub one_more : Label → RunToken → RunToken
one_more label t = record t {
  taints =
      if any (λ l. label_key l == label_key label) t.taints then t.taints else push t.taints label;
}

with_taint-one_more : (label : Label) (t : RunToken) → with_taint label t ≡ one_more label t
with_taint-one_more label t = ground arith

modify_first-one_more :
    (jti : String) (label : Label) (ts : List RunToken)
    → modify_first (λ t. t.jti == jti) (with_taint label) ts
      ≡ modify_first (λ t. t.jti == jti) (one_more label) ts
modify_first-one_more jti label ts =
    ap (λ f. modify_first (λ t. t.jti == jti) f ts) (λ i t. with_taint-one_more label t i)

-- One taint more on the row of a token, at most.
abbrev pub tainted : String → Option Label → Powers → Powers
tainted jti none p = p
tainted jti (some label) p = record p {
  tokens = modify_first (λ t. t.jti == jti) (one_more label) p.tokens;
}

-- What the step from one world to the next leaves of the powers.
abbrev pub Tainted : Ctx → World → World → Type 0
Tainted ctx w w' = (label : Option Label) × (powers w'.db ≡ tainted ctx.jti label (powers w.db))

run_tool-powers :
    (ctx : Ctx) (tool : Tool) (request : CardRequest) (body : Action Reply) (w : World)
    → powers (run_tool ctx tool request body w).1.db ≡ powers (body w).1.db
unfolding run_tool deny audit record_event create_card_on_deny push_event card_in
run_tool-powers ctx tool request body w = ground arith

module _ (deps : GatewayDeps) (ctx : Ctx) where
  tag_read-Tainted :
      (target : Agent) (grant : Option PolicyGrant) (content : String) (w : World)
      → Tainted ctx w (tag_read deps ctx target grant content w).1
  unfolding tag_read add_taint add_taint_in fingerprint tag_self_read
  tag_read-Tainted target none content w = (none, ground arith)
  tag_read-Tainted target (some grant) content w =
      let label = borrowed_label grant target content in
      (some label, ground (arith, modify_first-one_more ctx.jti label w.db.run_tokens))

  do_crm_write-powers :
      (customer note : String) (w : World)
      → powers (do_crm_write deps ctx customer note w).1.db ≡ powers w.db
  unfolding do_crm_write
  do_crm_write-powers customer note w = ground (
    arith,
    scope_of_keeps deps ctx Tool.crm_write w,
    egress_gate_keeps deps ctx Egress.internal note (ctx.owner_id ++ "/crm") true w,
  )

  do_webhook_send-powers :
      (url body : String) (w : World)
      → powers (do_webhook_send deps ctx url body w).1.db ≡ powers w.db
  unfolding do_webhook_send
  do_webhook_send-powers url body w = ground (
    arith,
    scope_of_keeps deps ctx Tool.webhook_send w,
    egress_gate_keeps deps ctx Egress.external body url true w,
  )

  resolve_workspace-powers :
      (ref : String) (action : GrantAction) (w : World)
      → powers (resolve_workspace deps ctx ref action w).1.db ≡ powers w.db
  unfolding resolve_workspace
  resolve_workspace-powers ref action w = ground arith

  do_crm_read-Tainted :
      (customer : Option String) (w : World) → Tainted ctx w (do_crm_read deps ctx customer w).1
  unfolding do_crm_read add_taint add_taint_in fingerprint
  do_crm_read-Tainted customer w =
      let kept = scope_of_keeps deps ctx Tool.crm_read w in
      elim (Result-cases (scope_of deps ctx Tool.crm_read w).0) [
        | inr (e, unscoped) ↦ (none, ground (arith, unscoped))
        | inl (u, scoped) ↦ elim (Option-cases deps.with_owner) [
          | inl missing ↦ (none, ground (arith, scoped, missing))
          | inr (crm, there) ↦
              elim (Result-cases (crm.select ctx.owner_id ctx.sub (truthy customer))) [
                | inr (e, stopped) ↦ (none, ground (arith, scoped, there, stopped))
                | inl (content, selected) ↦
                    let label =
                      crm_label ctx (find_live_grant (crm_query ctx) (w.clock 0) w.db) content in
                    let row = modify_first-one_more ctx.jti label w.db.run_tokens in
                    (some label, ground (arith, scoped, there, selected, row))
              ]
        ]
      ]

  read_resolved-Tainted :
      (rel : String) (r : Resolved) (w : World) → Tainted ctx w (read_resolved deps ctx rel r w).1
  unfolding read_resolved
  read_resolved-Tainted rel r w =
      let kept = (jail_lem deps.workspace_root r.target.id rel w).0 in
      elim (Result-cases (jail deps.workspace_root r.target.id rel w).0) [
        | inr (e, refused) ↦ (none, ground (arith, refused))
        | inl (path, found) ↦ elim (Option-cases (w.files path)) [
          | inl missing ↦ (none, ground (arith, found, missing))
          | inr (content, there) ↦
              let (label, after) = tag_read-Tainted r.target r.grant content w in
              (label, ground (arith, found, there, after))
        ]
      ]

  write_resolved-powers :
      (rel body : String) (r : Resolved) (w : World)
      → powers (write_resolved deps rel body r w).1.db ≡ powers w.db
  unfolding write_resolved
  write_resolved-powers rel body r w =
      ground (arith, (jail_lem deps.workspace_root r.target.id rel w).0)

  do_workspace_read-Tainted :
      (agent rel : String) (w : World) → Tainted ctx w (do_workspace_read deps ctx agent rel w).1
  unfolding do_workspace_read
  do_workspace_read-Tainted agent rel w =
      let v = (resolve_workspace deps ctx agent GrantAction.read w).1 in
      let kept = scope_of_keeps deps ctx Tool.workspace_read w in
      let same = resolve_workspace-powers agent GrantAction.read w in
      elim (Result-cases (scope_of deps ctx Tool.workspace_read w).0) [
        | inr (e, unscoped) ↦ (none, ground (arith, unscoped))
        | inl (u, scoped) ↦
            elim (Result-cases (resolve_workspace deps ctx agent GrantAction.read w).0) [
              | inr (e, stopped) ↦ (none, ground (arith, scoped, stopped))
              | inl (r, found) ↦
                  let (label, after) = read_resolved-Tainted rel r v in
                  (label, ground (arith, scoped, found, after))
            ]
      ]

  do_workspace_write-powers :
      (agent rel body : String) (dest : Egress) (resource : String) (w : World)
      → powers (do_workspace_write deps ctx agent rel body dest resource w).1.db ≡ powers w.db
  unfolding do_workspace_write
  do_workspace_write-powers agent rel body dest resource w =
      let v = (resolve_workspace deps ctx agent GrantAction.write w).1 in
      let same = resolve_workspace-powers agent GrantAction.write w in
      elim (Result-cases (resolve_workspace deps ctx agent GrantAction.write w).0) [
        | inl (r, found) ↦ ground (
          arith,
          scope_of_keeps deps ctx Tool.workspace_write w,
          egress_gate_keeps deps ctx dest body resource (is_agent dest) v,
          write_resolved-powers rel body r v,
        )
        | inr (e, stopped) ↦ ground (arith, scope_of_keeps deps ctx Tool.workspace_write w)
      ]

-- Whatever a tool call is asked for and whatever it answers, with enforcement on or off, it changes no
-- agent, no grant and no token but the caller's own, and that only by one taint more: no call gives its
-- agent or any other one a scope, a grant or an approval, or revives a token.
pub handle_call-Tainted :
    (deps : GatewayDeps) (ctx : Ctx) (call : ToolCall) (w : World)
    → Tainted ctx w (handle_call deps ctx call w).1
unfolding handle_call
handle_call-Tainted deps ctx (workspace_read agent rel) w =
    let (label, after) = do_workspace_read-Tainted deps ctx agent rel w in
    (label, run_tool-powers _ _ _ _ w ∙ after)
handle_call-Tainted deps ctx (workspace_write agent rel body) w =
    (none, run_tool-powers _ _ _ _ w ∙ do_workspace_write-powers deps ctx agent rel body _ _ w)
handle_call-Tainted deps ctx (crm_read customer) w =
    let (label, after) = do_crm_read-Tainted deps ctx customer w in
    (label, run_tool-powers _ _ _ _ w ∙ after)
handle_call-Tainted deps ctx (crm_write customer note) w =
    (none, run_tool-powers _ _ _ _ w ∙ do_crm_write-powers deps ctx customer note w)
handle_call-Tainted deps ctx (webhook_send url body) w =
    (none, run_tool-powers _ _ _ _ w ∙ do_webhook_send-powers deps ctx url body w)
