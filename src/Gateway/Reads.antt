-- ===== src/Gateway/Reads.antt =====
-- apps/server/src/gateway.ts: whose files a read answers from, and the taint that it leaves.
use mathlib.Core.Option
use tik_tok_jam.Base.{
  Option-cases, inl, inr, String, ◌≡◌, refl, ap, ◌∙◌, true, Option, none, some, includes, arith,
  Eq-String,
}
use tik_tok_jam.Types.Enums.{Scope, GrantAction}
use tik_tok_jam.Types.Equality.{Eq-Scope}
use tik_tok_jam.Types.Records.{Agent, PolicyGrant, RunToken}
use tik_tok_jam.Action.{World, ok}
use tik_tok_jam.Action.Cases.{Result-cases}
use tik_tok_jam.Grants.{token_of}
use tik_tok_jam.Ifc.{with_taint, add_taint, fingerprint}
use tik_tok_jam.Ifc.Taints.{token_of-add_taint}
use tik_tok_jam.Gateway.Context.{GatewayDeps, Ctx}
use tik_tok_jam.Gateway.Jail.{workspace_of}
use tik_tok_jam.Gateway.Checks.{Tool, Resolved, resolve_workspace, agent_by_ref, tag_self_read}
use tik_tok_jam.Gateway.Flow.{
  Borrows, Resolves, resolve_workspace_lem, scope_of_lem, scope_of_keeps,
}
use tik_tok_jam.Gateway.Confined.{Inside, jail_lem}
use tik_tok_jam.Gateway.Tools.{text, do_workspace_read, read_resolved, tag_read, borrowed_label}

-- The token after a read: one taint more, if the workspace was borrowed and the taint is new.
abbrev pub after_read : Option PolicyGrant → Agent → String → Option RunToken → Option RunToken
after_read none target content token = token
after_read (some grant) target content token =
    Option.map (with_taint (borrowed_label grant target content)) token

-- What a read that answered has done.
pub record Read (deps : GatewayDeps) (ctx : Ctx) (agent : String) (w w' : World) (content : String)
    : Type 0 where
  pub target : Agent
  pub grant : Option PolicyGrant
  pub path : String
  pub scoped : includes ctx.token.scp Scope.workspace_read ≡ true
  pub named : agent_by_ref agent w.db ≡ some target
  pub allowed : Borrows ctx GrantAction.read target grant w
  pub inside : Inside (workspace_of deps.workspace_root target.id) path
  pub stored : w.files path ≡ some content
  pub tainted : token_of ctx.jti w'.db ≡ after_read grant target content (token_of ctx.jti w.db)

tag_read-token :
    (deps : GatewayDeps) (ctx : Ctx) (target : Agent) (grant : Option PolicyGrant)
    (content : String) (w : World)
    → token_of ctx.jti (tag_read deps ctx target grant content w).1.db
      ≡ after_read grant target content (token_of ctx.jti w.db)
unfolding tag_read add_taint fingerprint tag_self_read
tag_read-token deps ctx target none content w = ground arith
tag_read-token deps ctx target (some grant) content w =
    token_of-add_taint ctx.jti (borrowed_label grant target content) w.db

tag_read-ok :
    (deps : GatewayDeps) (ctx : Ctx) (target : Agent) (grant : Option PolicyGrant)
    (content : String) (w : World)
    → (tag_read deps ctx target grant content w).0 ≡ ok tt
unfolding tag_read add_taint fingerprint tag_self_read
tag_read-ok deps ctx target none content w = ground arith
tag_read-ok deps ctx target (some grant) content w = refl

read_resolved_lem :
    (deps : GatewayDeps) (ctx : Ctx) (rel content : String) (r : Resolved) (w : World)
    → (read_resolved deps ctx rel r w).0 ≡ ok (text content)
    → (path : String) × Inside (workspace_of deps.workspace_root r.target.id) path
      × (w.files path ≡ some content)
      × (token_of ctx.jti (read_resolved deps ctx rel r w).1.db
          ≡ after_read r.grant r.target content (token_of ctx.jti w.db))
unfolding read_resolved
read_resolved_lem deps ctx rel content r w h =
    let (keeps, outcome) = jail_lem deps.workspace_root r.target.id rel w in
    elim outcome [
      | inl e ↦ absurd (ground arith)
      | inr (path, e, inside, resolved) ↦ elim (Option-cases (w.files path)) [
        | inl missing ↦ absurd (ground arith)
        | inr (found, there) ↦
            let answers = tag_read-ok deps ctx r.target r.grant found w in
            let same : found ≡ content = ground arith in
            (
              path,
              inside,
              there ∙ ap some same,
              ground (arith, tag_read-token deps ctx r.target r.grant found w),
            )
      ]
    ]

pub do_workspace_read_lem :
    (deps : GatewayDeps) (ctx : Ctx) (agent rel content : String) (w : World)
    → deps.enforce ≡ true
    → (do_workspace_read deps ctx agent rel w).0 ≡ ok (text content)
    → Read deps ctx agent w (do_workspace_read deps ctx agent rel w).1 content
unfolding do_workspace_read
do_workspace_read_lem deps ctx agent rel content w on h =
    let kept = scope_of_keeps deps ctx Tool.workspace_read w in
    let scoped = scope_of_lem deps ctx Tool.workspace_read w on in
    let (resolves, db, files, sent) = resolve_workspace_lem deps ctx agent GrantAction.read w on in
    let w' = (resolve_workspace deps ctx agent GrantAction.read w).1 in
    elim (Result-cases (resolve_workspace deps ctx agent GrantAction.read w).0) [
      | inr (e, stopped) ↦ absurd (ground arith)
      | inl (r, found) ↦
          let went : (read_resolved deps ctx rel r w').0 ≡ ok (text content) = ground arith in
          let (path, inside, stored, tainted) = read_resolved_lem deps ctx rel content r w' went in
          let known : Resolves ctx GrantAction.read agent (ok r) w = rw found at resolves in
          record {
            target = r.target;
            grant = r.grant;
            path = path;
            scoped = ground arith;
            named = known.0;
            allowed = known.1;
            inside = inside;
            stored = ground arith;
            tainted = ground arith;
          }
    ]
