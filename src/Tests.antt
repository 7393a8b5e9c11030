-- ===== src/Tests.antt =====
-- Examples at concrete inputs.
pub mod Handlers
pub mod History
pub mod Prompts
pub mod Requests
pub mod Crm
pub mod Runners
pub mod Scene
pub mod Storage
use tik_tok_jam.Base.{
  ℕ, ◌≤◌, ◌<◌, String, ◌≡◌, ◌≢◌, refl, ◌⊎◌, Bool, true, false, not, ◌&&◌, ◌||◌, Option, none, some,
  List, [], ◌∷◌, length, at_last, includes, All, arith, ap, ◌==◌, Eq-String,
}
use tik_tok_jam.Types.Equality.{Eq-Scope, Eq-Egress}
use mathlib.Core.Logic.{◌↔◌}
use tik_tok_jam.Types.Enums.{
  Sandbox, Scope, Egress, Resource, GrantAction, SecurityLevel, Trust, RunEventKind, Decision,
}
use tik_tok_jam.Types.Records.{FingerprintEntry, Label, RunEvent, PolicyGrant, Database, null}
use tik_tok_jam.Store.{empty_database, live_temp_scopes, effective_scopes}
use tik_tok_jam.Action.{World, ok, err, denied}
use tik_tok_jam.Audit.{push_event, record_event}
use tik_tok_jam.Audit.Bounds.{push_event_bounds}
use tik_tok_jam.Grants.{
  agent_of, or_else, revoke_in, find_live_grant, grant_of, token_of, is_live, mark_revoked,
}
use tik_tok_jam.Grants.Live.{IsLive, Answers, find_live_grant_sound}
use tik_tok_jam.Grants.Revocation.{Sealed, revoke_in_lem}
use tik_tok_jam.Text.{same_ignoring_case}
use tik_tok_jam.Ifc.{shingles, add_taint, fingerprint, check_egress, check_integrity, with_taint}
use tik_tok_jam.Ifc.Taints.{check_egress_iff, check_integrity_iff, check_egress-with_taint}
use tik_tok_jam.Classify.{level_rank, max_level, detect_level}
use tik_tok_jam.Ifc.Screen.{Verdict, entries_of, match_origin, screen_output}
use tik_tok_jam.Ifc.Screen.Copies.{Below, screen_output-Below}
use tik_tok_jam.Gateway.Context.{authenticate, audit}
use tik_tok_jam.Gateway.Jail.{resolve, jail, show_path, workspace_of}
use tik_tok_jam.Gateway.Checks.{scope_of, resolve_workspace, agent_by_ref, workspace_query, Tool}
use tik_tok_jam.Gateway.Tools.{
  borrowed_label, run_tool, do_workspace_read, read_resolved, tag_read, handle_call, workspace_read,
  webhook_send, text, Reply,
}
use tik_tok_jam.Gateway.Confined.{Inside, Outside, jail_lem}
use tik_tok_jam.Gateway.Authentic.{Authentic, authenticate_sound}
use tik_tok_jam.Gateway.Reads.{Read}
use tik_tok_jam.Gateway.Leaks.{handle_call-Read, borrowed_stays}
use tik_tok_jam.Gateway.Outbound.{Sends, handle_call-Sends}
use tik_tok_jam.Gateway.Trail.{Recorded, tool_of, handle_call-Recorded}
use tik_tok_jam.Service.Mint.{mint_token}
use tik_tok_jam.Service.Mint.Narrowing.{mint_token_scopes}
use tik_tok_jam.Service.Agents.{kill_agent, kill_in, void_pending_cards, strip_agent}
use tik_tok_jam.Service.Agents.Killing.{Dead, kill_agent_lem}
use tik_tok_jam.Tests.Scene.{writer, reader, grant, token, database, deps, ctx, world}

abbrev after_plan : World
after_plan = (handle_call deps ctx (workspace_read "writer" "plan.md") world).1

-- The reader reads the writer's plan under the grant.
plan_read :
    (handle_call deps ctx (workspace_read "writer" "plan.md") world).0 ≡ ok (text "the plan")
unfolding handle_call run_tool do_workspace_read scope_of resolve_workspace agent_by_ref
    same_ignoring_case find_live_grant read_resolved jail tag_read add_taint fingerprint audit
    record_event
plan_read = refl

handle_call-Sends_example :
    Sends ctx world (handle_call deps ctx (webhook_send "https://x" "hi") world).1
handle_call-Sends_example = handle_call-Sends deps ctx world refl (webhook_send "https://x" "hi")

handle_call-Read_example : Read deps ctx "writer" world after_plan "the plan"
handle_call-Read_example =
    handle_call-Read deps ctx "writer" "plan.md" "the plan" world refl plan_read

handle_call-Recorded_example :
    (reply : Reply) × ((handle_call deps ctx (webhook_send "https://x" "hi") world).0 ≡ ok reply)
    × Recorded ctx Tool.webhook_send reply world
        (handle_call deps ctx (webhook_send "https://x" "hi") world).1
handle_call-Recorded_example = handle_call-Recorded deps ctx (webhook_send "https://x" "hi") world

-- The reader's token holds the plan's taint, so that a webhook call after the read sends nothing.
named_writer : agent_by_ref "writer" database ≡ some writer
unfolding agent_by_ref same_ignoring_case
named_writer = refl

other_agent : writer.id ≢ ctx.sub
other_agent = λ h. absurd (ground (arith, ap (λ s. s == "a1") h))

live_grant : find_live_grant (workspace_query writer ctx GrantAction.read) 10 database ≡ some grant
unfolding find_live_grant
live_grant = refl

borrowed_stays_example :
    (handle_call deps ctx (webhook_send "https://x" "the plan") after_plan).1.sent ≡ after_plan.sent
borrowed_stays_example =
    borrowed_stays deps ctx "writer" "plan.md" "the plan" "https://x" "the plan" world after_plan
      writer grant token refl plan_read named_writer other_agent live_grant refl refl tt refl refl

let_in_now : (authenticate deps (some "Bearer good") world).0 ≡ ok ctx
unfolding authenticate
let_in_now = refl

authenticate_sound_example : Authentic deps (some "Bearer good") world ctx
authenticate_sound_example = authenticate_sound deps (some "Bearer good") world ctx let_in_now

jail_lem_example :
    ((jail "/ws" "a1" "../a2/x" world).1 ≡ world)
    × (((jail "/ws" "a1" "../a2/x" world).0
            ≡ err (denied 403 "path-escape" "Path escapes the workspace"))
          × Outside (workspace_of "/ws" "a1") (resolve (workspace_of "/ws" "a1") "../a2/x")
        ⊎ ((path : String) × ((jail "/ws" "a1" "../a2/x" world).0 ≡ ok path)
            × Inside (workspace_of "/ws" "a1") path
            × (path ≡ show_path (resolve (workspace_of "/ws" "a1") "../a2/x"))))
jail_lem_example = jail_lem "/ws" "a1" "../a2/x" world

-- The jail refuses the neighbour's file, also where its name continues the root's.
jail_refuses :
    ((jail "/ws" "a1" "../a2/x" world).0
      ≡ err (denied 403 "path-escape" "Path escapes the workspace"))
    × ((jail "/ws" "a1" "../a12" world).0
        ≡ err (denied 403 "path-escape" "Path escapes the workspace"))
    × ((jail "/ws" "a1" "b/../plan.md" world).0 ≡ ok "/ws/a1/plan.md")
unfolding jail
jail_refuses = (refl, refl, refl)

find_live_grant_sound_example :
    IsLive grant 10 × Answers (workspace_query writer ctx GrantAction.read) grant
find_live_grant_sound_example =
    find_live_grant_sound (workspace_query writer ctx GrantAction.read) 10 database grant live_grant

abbrev after_revocation : Database
after_revocation = record database { policy_grants = mark_revoked 20 grant ∷ [] }

revoked_now : revoke_in "g1" "user-jean" 20 database ≡ ok (mark_revoked 20 grant, after_revocation)
unfolding revoke_in
revoked_now = refl

revoke_in_lem_example :
    (grant.from_owner ≡ "user-jean")
    × (grant_of "g1" after_revocation ≡ some (mark_revoked 20 grant))
    × ((later : ℕ) → is_live (mark_revoked 20 grant) later ≡ false)
    × ((old : PolicyGrant)
        → grant_of "g1" database ≡ some old
        → some 20 ≡ some (or_else old.revoked_at 20))
    × All (λ row. All (Sealed "g1") row.taints) after_revocation.run_tokens
revoke_in_lem_example =
    revoke_in_lem "g1" "user-jean" 20 database (mark_revoked 20 grant) after_revocation revoked_now

mint_token_scopes_example :
    ((includes (mint_token reader (Scope.crm_read ∷ []) 5 1 "j" "r" database).scp Scope.crm_read
        ≡ true)
      → includes (effective_scopes reader 1) Scope.crm_read ≡ true)
    × (includes
          (mint_token reader (Scope.crm_read ∷ []) 5 1 "j" "r" database).withheld
          Scope.crm_read
        ≡ includes (effective_scopes reader 1) Scope.crm_read
          && not (
              includes
                (mint_token reader (Scope.crm_read ∷ []) 5 1 "j" "r" database).scp
                Scope.crm_read))
    × (Scope.crm_read ∷ [] ≢ []
        → includes (mint_token reader (Scope.crm_read ∷ []) 5 1 "j" "r" database).scp Scope.crm_read
          ≡ true
        → (includes (Scope.crm_read ∷ []) Scope.crm_read
            || includes (live_temp_scopes reader 1) Scope.crm_read)
          ≡ true)
    × ((mint_token reader (Scope.crm_read ∷ []) 5 1 "j" "r" database).egress_allow ≡ [])
mint_token_scopes_example =
    mint_token_scopes reader (Scope.crm_read ∷ []) 5 1 "j" "r" database Scope.crm_read

killed_now : (kill_agent "a2" "user-jean" world).0 ≡ ok (strip_agent 10 reader)
unfolding kill_agent kill_in void_pending_cards record_event
killed_now = refl

kill_agent_lem_example :
    All (Dead "a2") (kill_agent "a2" "user-jean" world).1.db.run_tokens
    × (agent_of "a2" (kill_agent "a2" "user-jean" world).1.db ≡ some (strip_agent 10 reader))
    × ((strip_agent 10 reader).permissions.tools ≡ [])
    × ((strip_agent 10 reader).temp_scopes ≡ [])
kill_agent_lem_example = kill_agent_lem "a2" "user-jean" world (strip_agent 10 reader) killed_now

abbrev row : RunEvent
row = record {
  id = "e1";
  run_id = none;
  agent_id = "a1";
  owner_id = "user-jean";
  at = 1;
  kind = RunEventKind.gateway;
  action = "kill";
  resource = "agent/a1";
  decision = some Decision.deny;
  reason = none;
  detail = null;
}

push_event_bounds_example :
    (length (push_event row empty_database).run_events ≤ 5000)
    × (at_last (push_event row empty_database).run_events ≡ some row)
push_event_bounds_example = push_event_bounds row empty_database

abbrev inside_only : Label
inside_only = record {
  grant_id = "g1";
  origin = "user-jean/writer";
  egress = Egress.internal ∷ [];
  level = SecurityLevel.confidential;
  trust = Trust.untrusted;
}

check_egress-with_taint_example :
    check_egress (with_taint inside_only token).taints Egress.external ≢ none
check_egress-with_taint_example = check_egress-with_taint inside_only token Egress.external refl tt

check_egress_iff_example :
    (check_egress (inside_only ∷ []) Egress.agent ≡ none)
    ↔ All (λ t. includes t.egress Egress.agent ≡ true) (inside_only ∷ [])
check_egress_iff_example = check_egress_iff (inside_only ∷ []) Egress.agent

abbrev prints : List FingerprintEntry
prints = record { run_id = "r1"; label = inside_only; hashes = "hash" ∷ [] } ∷ []

abbrev spelled : ℕ → String
spelled n = "some"

-- The output copies a confidential read, which the limit allows.
screened_allow :
    (screen_output deps.digest spelled prints "r1" "an ordinary answer"
      SecurityLevel.confidential).verdict
    ≡ Verdict.allow
unfolding screen_output match_origin max_level detect_level shingles
screened_allow = refl

screen_output-Below_example :
    All
      (Below (shingles deps.digest "an ordinary answer") (level_rank SecurityLevel.confidential))
      (entries_of "r1" prints)
screen_output-Below_example =
    screen_output-Below deps.digest spelled prints "r1" "an ordinary answer"
      SecurityLevel.confidential (λ h. absurd (cc (screened_allow, h)))
