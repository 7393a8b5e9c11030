-- ===== src/History/Steps.antt =====
-- The mutations of the store, each with the body that the source hands to `store.mutate`
-- (apps/server/src: audit.ts, grants.ts, ifc.ts, approvals.ts, agent-service.ts), less the reset of the
-- demonstration's data in seed.ts, which empties the tokens and the grants. The order in which
-- handlers that run at the same time reach the store is that of the steps.
use tik_tok_jam.Base.{ℕ, String, Bool, ◌≡◌, List, push, filter, not, ◌==◌, Eq-String}
use tik_tok_jam.Types.Enums.{Scope, Egress, AgentStatus, ApprovalDecision}
use tik_tok_jam.Types.Records.{
  Database, Agent, AgentRun, Message, PolicyGrant, RunEvent, ApprovalRequest, Label,
  FingerprintEntry,
}
use tik_tok_jam.Action.{ok}
use tik_tok_jam.Audit.{push_event}
use tik_tok_jam.Grants.{push_grant, revoke_in}
use tik_tok_jam.Ifc.{add_taint_in}
use tik_tok_jam.Approvals.{CardInput, card_in}
use tik_tok_jam.Approvals.Effects.{allow_scope, allow_flow}
use tik_tok_jam.Approvals.Answers
use tik_tok_jam.Service.Agents.{
  UpdateAgentInput, push_agent, edit_in, delete_in, status_in, Killed, kill_in,
}
use tik_tok_jam.Service.Mint.{Started, start_in}
use tik_tok_jam.Service.Execution
use tik_tok_jam.Service.Execution.{RunnerResult, begin_in, complete_in, fail_in, recover_in}

pub data Step (d : Database) : Database → Type 0 where
  record_row : (row : RunEvent) → Step d (push_event row d)
  write_grant : (g : PolicyGrant) → Step d (push_grant g d)
  revoke :
      {d' : Database} (id by_owner : String) (at : ℕ) (g : PolicyGrant)
      → revoke_in id by_owner at d ≡ ok (g, d')
      → Step d d'
  taint : (jti : String) (label : Label) → Step d (add_taint_in jti label d)
  print :
      (entry : FingerprintEntry) → Step d (record d { fingerprints = push d.fingerprints entry })
  forget :
      (run_id : String)
      → Step d (record d { fingerprints = filter (λ f. not (f.run_id == run_id)) d.fingerprints })
  ask : (input : CardInput) (id : String) (at : ℕ) → Step d (card_in input id at d).1
  widen :
      (card : ApprovalRequest) (scope : Scope) (for_run : Bool) (at : ℕ)
      → Step d (allow_scope card scope for_run at d)
  release :
      (card : ApprovalRequest) (dest : Egress) (for_run : Bool)
      → Step d (allow_flow card dest for_run d)
  answer :
      {d' : Database} (id : String) (decision : ApprovalDecision) (at : ℕ) (by_owner : String)
      (card : ApprovalRequest)
      → Answers.close_in id decision at by_owner d ≡ ok (card, d')
      → Step d d'
  add_agent : (agent : Agent) → Step d (push_agent agent d)
  edit :
      {d' : Database} (id : String) (input : UpdateAgentInput) (at : ℕ) (agent : Agent)
      → edit_in id input at d ≡ ok (agent, d')
      → Step d d'
  switch :
      {d' : Database} (id : String) (status : AgentStatus) (at : ℕ) (agent : Agent)
      → status_in id status at d ≡ ok (agent, d')
      → Step d d'
  remove : (id : String) → Step d (delete_in id d)
  kill :
      {d' : Database} (id : String) (at : ℕ) (k : Killed) → kill_in id at d ≡ ok (k, d') → Step d d'
  start :
      {d' : Database} (run : AgentRun) (message : Message) (estimated : List Scope) (timeout : ℕ)
      (jti : String) (s : Started)
      → start_in run message estimated timeout jti d ≡ ok (s, d')
      → Step d d'
  begin : (run_id : String) (at : ℕ) → Step d (begin_in run_id at d)
  complete :
      (run_id agent_id jti : String) (result : RunnerResult) (output message_id : String) (at : ℕ)
      → Step d (complete_in run_id agent_id jti result output message_id at d)
  give_up :
      (run_id agent_id : String) (cancelled : Bool) (message : String) (at : ℕ)
      → Step d (fail_in run_id agent_id cancelled message at d)
  close : (jti : String) (at : ℕ) → Step d (Execution.close_in jti at d)
  recover : (at : ℕ) → Step d (recover_in at d)

-- Any number of mutations, by any handlers in any order.
pub data Reach (s : Database) : Database → Type 0 where
  here : Reach s s
  next : {t u : Database} → Reach s t → Step t u → Reach s u

pub Reach-trans : {s t u : Database} → Reach s t → Reach t u → Reach s u
Reach-trans r here = r
Reach-trans r (next q st) = next (Reach-trans r q) st
