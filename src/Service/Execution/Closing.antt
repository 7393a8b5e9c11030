-- ===== src/Service/Execution/Closing.antt =====
-- apps/server/src/agent-service.ts: the token of a run at its end.
use mathlib.Core.Option
use mathlib.Core.Path.{subst, sym}
use tik_tok_jam.Base.{ℕ, suc, String, ◌≡◌, refl, Bool, false, some, ◌==◌, arith, Eq-String}
use tik_tok_jam.Base.Find.{find-modify_first}
use tik_tok_jam.Types.Enums.{SecurityLevel}
use tik_tok_jam.Types.Records.{Agent, AgentRun, RunToken, Database}
use tik_tok_jam.Action.{World, Action, Result, Exception, ok, err, update, random_uuid, ◌>>◌, ◌>>=◌}
use tik_tok_jam.Ifc.Screen.{ScreenResult, Verdict, screen_output}
use tik_tok_jam.Grants.{token_of, is_null}
use tik_tok_jam.Audit.{record_event}
use tik_tok_jam.Service.Agents.{revoke_token}
use tik_tok_jam.Service.Execution.{
  begin_in, complete_in, fail_in, is_cancel, message_of, Runtime, RunnerResult, close_in,
  close_run_token, finish, fail, report_screen, conclude, attempt, execute_run,
}

-- The token is revoked.
abbrev pub Closed : String → World → Type 0
Closed jti w = (t : RunToken) → token_of jti w.db ≡ some t → is_null t.revoked_at ≡ false

token_of-close_in :
    (jti : String) (at : ℕ) (d : Database)
    → token_of jti (close_in jti at d) ≡ Option.map (revoke_token at) (token_of jti d)
unfolding close_in
token_of-close_in jti at d =
    find-modify_first (λ t. t.jti == jti) (revoke_token at) (λ t. refl) d.run_tokens

close_run_token-Closed : (jti : String) (w : World) → Closed jti (close_run_token jti w).1
unfolding close_run_token
close_run_token-Closed jti w t h = ground (arith, token_of-close_in jti (w.clock 0) w.db)

close_run_token-ok : (jti : String) (w : World) → (close_run_token jti w).0 ≡ ok tt
unfolding close_run_token
close_run_token-ok jti w = refl

report_screen-ok :
    (agent : Agent) (run : AgentRun) (s : ScreenResult) (v : Verdict) (w : World)
    → (report_screen agent run s v w).0 ≡ ok tt
unfolding record_event
report_screen-ok agent run s Verdict.allow w = refl
report_screen-ok agent run s Verdict.redact w = refl
report_screen-ok agent run s Verdict.block w = refl

-- The action comes to its end and leaves the token closed.
abbrev pub Ends : String → Action (Unit {0}) → Type 0
Ends jti k = (w : World) → Closed jti (k w).1 × ((k w).0 ≡ ok tt)

close_run_token-Ends : (jti : String) → Ends jti (close_run_token jti)
close_run_token-Ends jti w = (close_run_token-Closed jti w, close_run_token-ok jti w)

update-Ends : (jti : String) (f : Database → Database) → Ends jti (update f >> close_run_token jti)
update-Ends jti f w = close_run_token-Ends jti (record w { db = f w.db })

then-Ends :
    (jti : String) (m k : Action (Unit {0}))
    → ((w : World) → (m w).0 ≡ ok tt)
    → Ends jti k
    → Ends jti (m >> k)
then-Ends jti m k h g w =
    let same : (m >> k) w ≡ k (m w).1 = ground (arith, h w) in
    subst (λ x. Closed jti x.1 × (x.0 ≡ ok tt)) (sym same) (g (m w).1)

finish-Ends :
    (runtime : Runtime) (agent : Agent) (run : AgentRun) (token : RunToken) (result : RunnerResult)
    → Ends token.jti (finish runtime agent run token result)
unfolding finish
finish-Ends runtime agent run token result w =
    let s =
      screen_output runtime.digest runtime.show_number w.index run.id result.output
        SecurityLevel.confidential in
    let complete : String → Database → Database =
      λ id. complete_in run.id agent.id token.jti result s.output id (w.clock 0) in
    then-Ends token.jti (report_screen agent run s s.verdict)
      (random_uuid >>= λ id. update (complete id) >> close_run_token token.jti)
      (report_screen-ok agent run s s.verdict)
      (λ v.
        update-Ends token.jti (complete (v.uuids 0)) (record v { uuids = λ n. v.uuids (suc n) }))
      (record w { clock = λ n. w.clock (suc n) })

fail-Ends :
    (agent : Agent) (run : AgentRun) (token : RunToken) (e : Exception)
    → Ends token.jti (fail agent run token e)
unfolding fail
fail-Ends agent run token e w =
    update-Ends token.jti (fail_in run.id agent.id (is_cancel e) (message_of e) (w.clock 0))
      (record w { clock = λ n. w.clock (suc n) })

conclude-Ends :
    (runtime : Runtime) (agent : Agent) (run : AgentRun) (token : RunToken)
    (r : Result RunnerResult)
    → Ends token.jti (conclude runtime agent run token r)
conclude-Ends runtime agent run token (ok result) = finish-Ends runtime agent run token result
conclude-Ends runtime agent run token (err e) = fail-Ends agent run token e

-- For every runner that answers or throws, whatever it does to the store and whether the run was
-- cancelled, the run ends without an error, and the row of its token, where there is one, is revoked.
pub execute_run-Ends :
    (runtime : Runtime) (cancelled : Bool) (agent : Agent) (run : AgentRun) (token : RunToken)
    (w : World)
    → Closed token.jti (execute_run runtime cancelled agent run token w).1
      × ((execute_run runtime cancelled agent run token w).0 ≡ ok tt)
unfolding execute_run
execute_run-Ends runtime cancelled agent run token w =
    let v : World = record w {
      db = begin_in run.id (w.clock 0) w.db;
      clock = λ n. w.clock (suc n);
    } in
    conclude-Ends runtime agent run token (attempt runtime cancelled agent run token v).0
      (attempt runtime cancelled agent run token v).1
