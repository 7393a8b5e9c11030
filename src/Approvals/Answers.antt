-- ===== src/Approvals/Answers.antt =====
-- apps/server/src/approvals.ts: `decideApproval`.
use tik_tok_jam.Base.{
  ℕ, String, Bool, true, false, not, Option, none, some, ◌==◌, modify_first, Eq-String, Eq-Option,
}
use tik_tok_jam.Types.Enums.{
  ApprovalDecision, ApprovalStatus, RunEventKind, Decision, decision_text, source_text, kind_text,
}
use tik_tok_jam.Types.Equality.{Eq-Scope, Eq-Egress, Eq-ApprovalKind, is_pending}
use tik_tok_jam.Types.Records.{Database, ApprovalRequest, str, obj, field, done}
use tik_tok_jam.Action.{
  Action, Result, ok, err, http_error, failure, pure, throw_if, require, read_db, mutate, now,
  ◌>>=◌, ◌>>◌,
}
use tik_tok_jam.Audit.{record_event}
use tik_tok_jam.Approvals.{card_of}
use tik_tok_jam.Approvals.Effects.{apply_decision}

abbrev pub close_card : ApprovalDecision → ℕ → String → ApprovalRequest → ApprovalRequest
close_card decision at by_owner card = record card {
  status = ApprovalStatus.decided decision;
  decided_at = some at;
  decided_by = some by_owner;
}

unfoldable pub close_in :
    String → ApprovalDecision → ℕ → String → Database → Result (ApprovalRequest × Database)
close_in card_id decision at by_owner d = elim (card_of card_id d) [
  | none ↦ err (failure "Cannot set properties of undefined")
  | some card ↦ ok (
    close_card decision at by_owner card,
    record d {
      approvals = modify_first (λ c. c.id == card_id) (close_card decision at by_owner) d.approvals;
    },
  )
]

abbrev pub effect_of : ApprovalDecision → ApprovalRequest → Option Bool → String → Action (Unit {0})
effect_of ApprovalDecision.deny card trust_content by_owner = pure tt
effect_of ApprovalDecision.allow_run card trust_content by_owner =
    apply_decision card card.kind true trust_content by_owner
effect_of ApprovalDecision.allow_always card trust_content by_owner =
    apply_decision card card.kind false trust_content by_owner

abbrev outcome_of : ApprovalDecision → Decision
outcome_of ApprovalDecision.deny = Decision.deny
outcome_of ApprovalDecision.allow_run = Decision.allow
outcome_of ApprovalDecision.allow_always = Decision.allow

unfoldable pub decide_approval :
    String → ApprovalDecision → String → Option Bool → Action ApprovalRequest
decide_approval card_id decision by_owner trust_content = do
  found ← read_db (card_of card_id)
  card ← require found (http_error 404 "Approval not found")
  throw_if (not (card.owner_id == by_owner)) (http_error 403 "Approval belongs to another tenant")
  throw_if (not (is_pending card.status)) (http_error 409 "Approval already decided")
  effect_of decision card trust_content by_owner
  at ← now
  closed ← mutate (close_in card_id decision at by_owner)
  record_event (record {
    run_id = card.run_id;
    agent_id = card.agent_id;
    owner_id = by_owner;
    kind = RunEventKind.approval;
    action = card.action;
    resource = card.resource;
    decision = some (outcome_of decision);
    reason = some (decision_text decision);
    detail = obj (
        field "cardId" (str card_id) (
          field "kind" (str (kind_text card.kind)) (
            field "source" (str (source_text card.source))
              (field "decidedBy" (str by_owner) done))));
  })
  pure closed
