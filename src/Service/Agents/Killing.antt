-- ===== src/Service/Agents/Killing.antt =====
-- apps/server/src/agent-service.ts: what the kill switch leaves.
use tik_tok_jam.Base.{
  Bool-cases, ℕ, suc, String, ◌≡◌, refl, sym, ap, ◌∙◌, inl, inr, Bool, false, none, some, List, [],
  ◌∷◌, ◌==◌, All, modify_all, modify_first, find, arith, Eq-String,
}
use mathlib.Core.Path.{subst}
use tik_tok_jam.Base.Find.{find-modify_first}
use tik_tok_jam.Types.Enums.{ApprovalDecision}
use tik_tok_jam.Types.Records.{Agent, Database, RunToken, ApprovalRequest}
use tik_tok_jam.Action.{World, Action, ok, for_each}
use tik_tok_jam.Action.Cases.{Result-cases}
use tik_tok_jam.Audit.{record_event, push_event}
use tik_tok_jam.Grants.{agent_of, is_null}
use tik_tok_jam.Approvals.Answers.{decide_approval, close_in}
use tik_tok_jam.Service.Agents.{
  kill_in, kill_agent, Killed, revoke_token, strip_agent, void_pending_cards, void_card, pending_of,
}

-- Every token of the agent is revoked.
abbrev pub Dead : String → RunToken → Type 0
Dead agent_id t = t.agent_id ≡ agent_id → is_null t.revoked_at ≡ false

revoked-All :
    (agent_id : String) (at : ℕ) (ts : List RunToken)
    → All (Dead agent_id) (modify_all (λ t. t.agent_id == agent_id) (revoke_token at) ts)
revoked-All agent_id at [] = tt
revoked-All agent_id at (t ∷ ts) =
    (λ e. ground (arith, Eq-String.same_self agent_id), revoked-All agent_id at ts)

pub find-All :
    (P : RunToken → Type 0) (p : RunToken → Bool) (ts : List RunToken) (t : RunToken)
    → All P ts
    → find p ts ≡ some t
    → P t
find-All P p [] t h e = absurd (ground arith)
find-All P p (x ∷ ts) t h e = elim (Bool-cases (p x)) [
  | inl here ↦ subst P (ground arith) h.0
  | inr later ↦ find-All P p ts t h.1 (ground arith)
]

-- The agents and the tokens of the world after the kill are those of the kill's own step: to void the
-- cards and to record the event changes none.
abbrev Kept : World → World → Type 0
Kept w w' = (w'.db.run_tokens ≡ w.db.run_tokens) × (w'.db.agents ≡ w.db.agents)

deny-Kept :
    (card_id by_owner : String) (w : World)
    → Kept w (decide_approval card_id ApprovalDecision.deny by_owner none w).1
unfolding decide_approval close_in record_event push_event
deny-Kept card_id by_owner w = (ground arith, ground arith)

for_each-Kept :
    (f : ApprovalRequest → Action (Unit {0}))
    → ((c : ApprovalRequest) (v : World) → Kept v (f c v).1)
    → (cards : List ApprovalRequest) (w : World) → Kept w (for_each f cards w).1
for_each-Kept f keep [] w = (refl, refl)
for_each-Kept f keep (c ∷ cards) w =
    let more = for_each-Kept f keep cards (f c w).1 in
    (ground (arith, (keep c w).0, more.0), ground (arith, (keep c w).1, more.1))

void_card-Kept :
    (caller_id : String) (c : ApprovalRequest) (v : World) → Kept v (void_card caller_id c v).1
void_card-Kept caller_id c v =
    let denied = deny-Kept c.id caller_id v in (ground (arith, denied.0), ground (arith, denied.1))

void_pending_cards-Kept :
    (agent_id caller_id : String) (w : World) → Kept w (void_pending_cards agent_id caller_id w).1
unfolding void_pending_cards
void_pending_cards-Kept agent_id caller_id w =
    let voided =
      for_each-Kept (void_card caller_id) (void_card-Kept caller_id) (pending_of agent_id w.db) w in
    (ground (arith, voided.0), ground (arith, voided.1))

kill_in_lem :
    (agent_id : String) (at : ℕ) (d d' : Database) (k : Killed)
    → kill_in agent_id at d ≡ ok (k, d')
    → (agent_of agent_id d' ≡ some k.agent)
      × (k.agent.permissions.tools ≡ [])
      × (k.agent.temp_scopes ≡ [])
      × All (Dead agent_id) d'.run_tokens
unfolding kill_in
kill_in_lem agent_id at d d' k h =
    let tokens : d'.run_tokens
        ≡ modify_all (λ t. t.agent_id == agent_id) (revoke_token at) d.run_tokens =
      ground arith in
    let agents : d'.agents ≡ modify_first (λ a. a.id == agent_id) (strip_agent at) d.agents =
      ground arith in
    (
      rw agents (
          ground (
            arith,
            find-modify_first (λ a. a.id == agent_id) (strip_agent at) (λ a. refl) d.agents,
          )),
      ground arith,
      ground arith,
      rw tokens (revoked-All agent_id at d.run_tokens),
    )

-- A kill that succeeds leaves in the store every token of the agent revoked, and the agent itself, which
-- it also answers, without tools and without temporary scopes.
pub kill_agent_lem :
    (agent_id caller_id : String) (w : World) (killed : Agent)
    → (kill_agent agent_id caller_id w).0 ≡ ok killed
    → All (Dead agent_id) (kill_agent agent_id caller_id w).1.db.run_tokens
      × (agent_of agent_id (kill_agent agent_id caller_id w).1.db ≡ some killed)
      × (killed.permissions.tools ≡ [])
      × (killed.temp_scopes ≡ [])
unfolding kill_agent record_event push_event
kill_agent_lem agent_id caller_id w killed h =
    elim (Result-cases (kill_in agent_id (w.clock 0) w.db)) [
      | inr (e, missing) ↦ absurd (ground (arith, missing))
      | inl ((k, d'), found) ↦
          let v : World = record w { db = d'; clock = λ n. w.clock (suc n) } in
          let (agent, tools, scopes, dead) = kill_in_lem agent_id (w.clock 0) w.db d' k found in
          let kept = void_pending_cards-Kept agent_id caller_id v in
          elim (Result-cases (void_pending_cards agent_id caller_id v).0) [
            | inr (e, stuck) ↦ absurd (ground (arith, found, stuck))
            | inl (n, voided) ↦
                let answer : killed ≡ k.agent = ground (arith, found, voided) in
                let tokens : (kill_agent agent_id caller_id w).1.db.run_tokens ≡ d'.run_tokens =
                  ground (arith, found, voided, kept.0) in
                let agents : (kill_agent agent_id caller_id w).1.db.agents ≡ d'.agents =
                  ground (arith, found, voided, kept.1) in
                (
                  rw tokens dead,
                  ap (find (λ a. a.id == agent_id)) agents ∙ agent ∙ ap some (sym answer),
                  rw answer tools,
                  rw answer scopes,
                )
          ]
    ]
