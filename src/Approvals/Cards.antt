-- ===== src/Approvals/Cards.antt =====
-- apps/server/src/approvals.ts: a request that is made again, and a refusal.
use tik_tok_jam.Base.{
  ℕ, String, ◌≡◌, Bool, true, Option, some, find, arith, Option-cases, inl, inr, Eq-String,
}
use tik_tok_jam.Base.Find.{find-push, find_passes}
use tik_tok_jam.Types.Enums.{ApprovalDecision}
use tik_tok_jam.Types.Equality.{Eq-ApprovalKind}
use tik_tok_jam.Types.Records.{Database, ApprovalRequest}
use tik_tok_jam.Action.{World}
use tik_tok_jam.Audit.{record_event, push_event}
use tik_tok_jam.Approvals.{CardInput, card_in, is_duplicate, new_card}
use tik_tok_jam.Approvals.Answers.{decide_approval, close_in}

card_in_found :
    (input : CardInput) (id : String) (at : ℕ) (d : Database)
    → find (is_duplicate input) (card_in input id at d).1.approvals ≡ some (card_in input id at d).0
unfolding card_in
card_in_found input id at d = elim (Option-cases (find (is_duplicate input) d.approvals)) [
  | inr (existing, found) ↦ ground (arith, found)
  | inl missing ↦
      let same : is_duplicate input (new_card input id at) ≡ true = ground (
        arith,
        Eq-String.same_self input.agent_id,
        Eq-String.same_self input.resource,
        Eq-String.same_self input.action,
        Eq-ApprovalKind.same_self input.kind,
      ) in
      ground (
        arith,
        missing,
        find-push (is_duplicate input) d.approvals (new_card input id at) missing same,
      )
]

card_in_repeats :
    (input : CardInput) (id : String) (at : ℕ) (d : Database) (c : ApprovalRequest)
    → find (is_duplicate input) d.approvals ≡ some c
    → card_in input id at d ≡ (c, d)
unfolding card_in
card_in_repeats input id at d c found = ground (arith, found)

-- A request that raised a card answers that same pending card when it is made again, and adds none.
pub card_in_idempotent :
    (input : CardInput) (id again : String) (at later : ℕ) (d : Database)
    → (card_in input again later (card_in input id at d).1 ≡ card_in input id at d)
      × (is_duplicate input (card_in input id at d).0 ≡ true)
unfolding card_in
card_in_idempotent input id again at later d =
    let found = card_in_found input id at d in
    (
      card_in_repeats input again later _ _ found,
      find_passes (is_duplicate input) (card_in input id at d).1.approvals _ found,
    )

-- A refusal changes no agent, no token and no grant, whoever decides and whatever the card.
pub deny_changes_nothing :
    (card_id by_owner : String) (trust : Option Bool) (w : World)
    → let d = (decide_approval card_id ApprovalDecision.deny by_owner trust w).1.db in
      (d.agents ≡ w.db.agents)
      × (d.run_tokens ≡ w.db.run_tokens)
      × (d.policy_grants ≡ w.db.policy_grants)
unfolding decide_approval close_in record_event push_event
deny_changes_nothing card_id by_owner trust w = ground arith
