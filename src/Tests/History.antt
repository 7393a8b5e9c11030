-- ===== src/Tests/History.antt =====
-- Examples of what stays as it is through all later mutations.
use tik_tok_jam.Base.{◌≡◌, refl, false, some, [], ◌∷◌, Eq-String}
use tik_tok_jam.Types.Enums.{GrantAction}
use tik_tok_jam.Types.Records.{RunToken, PolicyGrant, Database}
use tik_tok_jam.Action.{ok, err, denied}
use tik_tok_jam.Audit.{record_event, push_event}
use tik_tok_jam.Grants.{token_of, grant_of, is_live, is_null}
use tik_tok_jam.Gateway.Context.{authenticate}
use tik_tok_jam.Gateway.Tools.{handle_call, webhook_send}
use tik_tok_jam.Service.Agents.{kill_agent, kill_in, void_pending_cards, strip_agent}
use tik_tok_jam.History.Steps.{Reach}
use tik_tok_jam.History.Forever.{grant_of-Reach, authenticate-Reach}
use tik_tok_jam.History.Calls.{handle_call-Traces}
use tik_tok_jam.History.Runs.{kill_agent-Reach}
use tik_tok_jam.Tests.Scene.{reader, grant, token, database, deps, ctx, claims, world}

abbrev gone : RunToken
gone = record token { revoked_at = some 5 }

abbrev gone_grant : PolicyGrant
gone_grant = record grant { revoked_at = some 5 }

abbrev ended : Database
ended = record database { run_tokens = gone ∷ []; policy_grants = gone_grant ∷ [] }

abbrev later : Database
later = (handle_call deps ctx (webhook_send "https://x" "hi") (record world { db = ended })).1.db

reached : Reach ended later
reached =
    (handle_call-Traces deps ctx (webhook_send "https://x" "hi")).at (record world { db = ended })

grant_of-Reach_example :
    (g' : PolicyGrant) × (grant_of "g1" later ≡ some g')
    × (g'.revoked_at ≡ some 5)
    × (is_live g' 7 ≡ false)
    × (g'.from_owner ≡ "user-jean")
    × (g'.from_agent ≡ some "a1")
    × (g'.to_agent ≡ "a2")
    × (g'.actions ≡ GrantAction.read ∷ [])
grant_of-Reach_example = grant_of-Reach "g1" gone_grant 5 7 reached refl refl

authenticate-Reach_example :
    (authenticate deps (some "Bearer good") (record world { db = later })).0
    ≡ err (denied 403 "revoked" "Agent token revoked by operator")
authenticate-Reach_example =
    authenticate-Reach deps (some "Bearer good") claims gone 5 (record world { db = later }) refl
      refl refl refl reached

kill_succeeds : (kill_agent "a2" "user-jean" world).0 ≡ ok (strip_agent 10 reader)
unfolding kill_agent kill_in void_pending_cards record_event
kill_succeeds = refl

-- The killed agent calls a tool.
abbrev after_kill : Database
after_kill =
    (handle_call deps ctx (webhook_send "https://x" "hi")
      (kill_agent "a2" "user-jean" world).1).1.db

killed_token :
    token_of "j1" (kill_agent "a2" "user-jean" world).1.db
    ≡ some (record token { revoked_at = some 10 })
unfolding kill_agent kill_in void_pending_cards record_event push_event
killed_token = refl

kill_agent-Reach_example :
    (t' : RunToken) × (token_of "j1" after_kill ≡ some t') × (is_null t'.revoked_at ≡ false)
kill_agent-Reach_example =
    kill_agent-Reach "a2" "user-jean" "j1" world (strip_agent 10 reader)
      (record token { revoked_at = some 10 }) kill_succeeds killed_token refl
      ((handle_call-Traces deps ctx (webhook_send "https://x" "hi")).at
        (kill_agent "a2" "user-jean" world).1)
