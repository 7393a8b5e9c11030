-- ===== src/History/Handlers.antt =====
-- apps/server/src: audit.ts, grants.ts, ifc.ts and approvals.ts as sequences of mutations.
use mathlib.Core.Path.{subst}
use tik_tok_jam.Base.{ℕ, List, String, ◌≡◌, Bool, true, false, Option, none, some, arith, Eq-String}
use tik_tok_jam.Types.Enums.{ApprovalDecision, ApprovalKind, Egress, Scope}
use tik_tok_jam.Types.Records.{Label, ApprovalRequest, Database, GrantRequest}
use tik_tok_jam.Action.{ok, mutate}
use tik_tok_jam.Audit.{EventInput, record_event}
use tik_tok_jam.Grants.{GrantInput, create_grant, check_source, revoke_grant, revoke_in}
use tik_tok_jam.Ifc.{add_taint, add_taint_in, fingerprint, entry_for}
use tik_tok_jam.Approvals.{CardInput, card_in, create_card_on_deny}
use tik_tok_jam.Approvals.Effects.{
  apply_decision, apply_scope, apply_grant, apply_crm_grant, apply_flow, allow_scope, allow_flow,
  egress_of,
}
use tik_tok_jam.Approvals.Answers.{decide_approval, effect_of}
use tik_tok_jam.Approvals.Answers
use tik_tok_jam.History.Steps.{
  Step, here, next, record_row, write_grant, revoke, taint, print, ask, widen, release, answer,
}
use tik_tok_jam.History.Traces.{
  Traces, Traces-pure, Traces-bind, Traces-then, Traces-now, Traces-random_uuid, Traces-update,
  Traces-mutate, traces_rules,
}

pub record_event-Traces : (event : EventInput) → Traces (record_event event)
unfolding record_event
record_event-Traces event = search (traces_rules, Traces-update, record_row)

check_source-Traces :
    (source : Option String) (by_owner : String) → Traces (check_source source by_owner)
check_source-Traces none by_owner = Traces-pure tt
check_source-Traces (some from_agent) by_owner = search traces_rules

pub create_grant-Traces :
    (input : GrantInput) (by_owner : String) → Traces (create_grant input by_owner)
unfolding create_grant
create_grant-Traces input by_owner =
    search (traces_rules, Traces-update, write_grant, record_event-Traces, check_source-Traces)
      depth 20 fits 4000

revoke_in-Traces : (id by_owner : String) (at : ℕ) → Traces (mutate (revoke_in id by_owner at))
revoke_in-Traces id by_owner at =
    Traces-mutate (revoke_in id by_owner at) (λ d g d' e. revoke id by_owner at g e)

pub revoke_grant-Traces : (id by_owner : String) → Traces (revoke_grant id by_owner)
unfolding revoke_grant
revoke_grant-Traces id by_owner =
    search (traces_rules, revoke_in-Traces, record_event-Traces) depth 20 fits 4000

stored :
    (d : Database) (c : ApprovalRequest) (d' : Database) (made : ApprovalRequest × Database)
    → ok made ≡ ok (c, d')
    → made.1 ≡ d'
stored d c d' made e = ground arith

pub create_card_on_deny-Traces : (input : CardInput) → Traces (create_card_on_deny input)
unfolding create_card_on_deny
create_card_on_deny-Traces input = Traces-bind Traces-random_uuid (λ id.
    Traces-bind Traces-now (λ at.
      Traces-mutate (λ d. ok (card_in input id at d))
        (λ d c d' e. subst (Step d) (stored d c d' (card_in input id at d) e) (ask input id at))))

pub add_taint-Traces : (jti : String) (label : Label) → Traces (add_taint jti label)
unfolding add_taint
add_taint-Traces jti label = Traces-update (add_taint_in jti label) (λ d. taint jti label)

pub fingerprint-Traces :
    (digest : List ℕ → String) (run_id : String) (label : Label) (content : String)
    → Traces (fingerprint digest run_id label content)
unfolding fingerprint
fingerprint-Traces digest run_id label content = record {
  at = λ w. next here (print (entry_for digest run_id label content));
}

close_in-Traces :
    (id : String) (decision : ApprovalDecision) (at : ℕ) (by_owner : String)
    → Traces (mutate (Answers.close_in id decision at by_owner))
close_in-Traces id decision at by_owner =
    Traces-mutate (Answers.close_in id decision at by_owner)
      (λ d c d' e. answer id decision at by_owner c e)

widen-Traces :
    (card : ApprovalRequest) (scope : Option Scope) (for_run : Bool)
    → Traces (apply_scope card scope for_run)
widen-Traces card none for_run = Traces-pure tt
widen-Traces card (some scope) for_run =
    Traces-bind Traces-now
      (λ at. Traces-update (allow_scope card scope for_run at) (λ d. widen card scope for_run at))

grant-Traces :
    (card : ApprovalRequest) (request : Option GrantRequest) (for_run : Bool) (trust : Option Bool)
    (by_owner : String)
    → Traces (apply_grant card request for_run trust by_owner)
grant-Traces card none for_run trust by_owner = Traces-pure tt
grant-Traces card (some request) for_run trust by_owner = search (traces_rules, create_grant-Traces)

crm_grant-Traces :
    (card : ApprovalRequest) (dest : Egress) (for_run : Bool) (by_owner : String)
    → Traces (apply_crm_grant card dest for_run by_owner)
crm_grant-Traces card dest for_run by_owner = search (traces_rules, create_grant-Traces)

flow-Traces :
    (card : ApprovalRequest) (dest : Option Egress) (for_run : Bool) (by_owner : String)
    → Traces (apply_flow card dest for_run by_owner)
flow-Traces card none for_run by_owner = Traces-pure tt
flow-Traces card (some dest) for_run by_owner =
    Traces-then (crm_grant-Traces card dest for_run by_owner)
      (Traces-update (allow_flow card dest for_run) (λ d. release card dest for_run))

apply_decision-Traces :
    (card : ApprovalRequest) (kind : ApprovalKind) (for_run : Bool) (trust : Option Bool)
    (by_owner : String)
    → Traces (apply_decision card kind for_run trust by_owner)
unfolding apply_decision
apply_decision-Traces card ApprovalKind.scope for_run trust by_owner =
    widen-Traces card card.scope for_run
apply_decision-Traces card ApprovalKind.grant for_run trust by_owner =
    grant-Traces card card.grant for_run trust by_owner
apply_decision-Traces card ApprovalKind.declassify for_run trust by_owner =
    flow-Traces card (egress_of card.action) for_run by_owner

effect_of-Traces :
    (decision : ApprovalDecision) (card : ApprovalRequest) (trust : Option Bool) (by_owner : String)
    → Traces (effect_of decision card trust by_owner)
effect_of-Traces ApprovalDecision.deny card trust by_owner = Traces-pure tt
effect_of-Traces ApprovalDecision.allow_run card trust by_owner =
    apply_decision-Traces card card.kind true trust by_owner
effect_of-Traces ApprovalDecision.allow_always card trust by_owner =
    apply_decision-Traces card card.kind false trust by_owner

-- A decision on a card is a sequence of mutations, on every branch.
pub decide_approval-Traces :
    (card_id : String) (decision : ApprovalDecision) (by_owner : String) (trust : Option Bool)
    → Traces (decide_approval card_id decision by_owner trust)
unfolding decide_approval
decide_approval-Traces card_id decision by_owner trust =
    search (traces_rules, effect_of-Traces, close_in-Traces, record_event-Traces) depth 20 fits 4000
