-- ===== src/Service/Execution/Recovery.antt =====
-- apps/server/src/agent-service.ts: what `initialize` makes of the runs that a restart cut off.
use mathlib.Core.Option
use tik_tok_jam.Base.{
  ℕ, String, ◌≡◌, refl, false, List, [], ◌∷◌, ◌==◌, All, find, modify_all, arith, Eq-String,
  if◌then◌else◌,
}
use tik_tok_jam.Base.Find.{find-modify_all}
use tik_tok_jam.Types.Enums.{AgentStatus}
use tik_tok_jam.Types.Equality.{Eq-AgentStatus, Eq-RunStatus}
use tik_tok_jam.Types.Records.{Agent, AgentRun, Database}
use tik_tok_jam.Service.Execution.{is_active, interrupt, release, recover_in}

settled :
    (at : ℕ) (rs : List AgentRun)
    → All (λ r. is_active r.status ≡ false) (modify_all (λ r. is_active r.status) (interrupt at) rs)
settled at [] = tt
settled at (r ∷ rs) = (ground arith, settled at rs)

free :
    (at : ℕ) (xs : List Agent)
    → All
        (λ a. (a.status == AgentStatus.busy) ≡ false)
        (modify_all (λ a. a.status == AgentStatus.busy) (release at) xs)
free at [] = tt
free at (a ∷ xs) = (ground arith, free at xs)

-- After a restart no run is queued or running and no agent is busy; a run that had ended is as it was,
-- and one that was active is cancelled with the time of the restart.
pub recover_in_lem :
    (at : ℕ) (d : Database)
    → All (λ r. is_active r.status ≡ false) (recover_in at d).runs
      × All (λ a. (a.status == AgentStatus.busy) ≡ false) (recover_in at d).agents
      × ((id : String)
          → find (λ r. r.id == id) (recover_in at d).runs
            ≡ Option.map
                (λ r. if is_active r.status then interrupt at r else r)
                (find (λ r. r.id == id) d.runs))
unfolding recover_in
recover_in_lem at d = (
  settled at d.runs,
  free at d.agents,
  λ id.
      find-modify_all (λ r. r.id == id) (λ r. is_active r.status) (interrupt at) (λ r. refl) d.runs,
)
