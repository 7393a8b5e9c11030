-- ===== src/History/Kept.antt =====
-- What a mutation leaves of a token's row and of a grant.
use mathlib.Core.Path.{subst, sym}
use tik_tok_jam.Base.{
  ℕ, String, Bool, true, false, ◌≡◌, refl, some, List, push, map, modify_first, modify_all, ◌==◌,
  Eq-String, Eq-Option, arith, Bool-cases, inl, inr, any, ◌||◌,
}
use tik_tok_jam.Text.{after_colon}
use tik_tok_jam.Types.Records.{
  Database, RunToken, PolicyGrant, ApprovalRequest, Label, AgentRun, Message,
}
use tik_tok_jam.Types.Enums.{Egress, Scope}
use tik_tok_jam.Action.{ok}
use tik_tok_jam.Audit.{push_event}
use tik_tok_jam.Grants.{is_null, agent_of, revoke_in, mark_revoked, narrow_taints}
use tik_tok_jam.Ifc.{add_taint_in, with_taint, label_key}
use tik_tok_jam.Approvals.{card_in}
use tik_tok_jam.Approvals.Effects.{
  allow_scope, allow_flow, approve_destination, believe_taints, widen_taints, names_grant,
  add_egress, is_integrity, widen_scp,
}
use tik_tok_jam.Approvals.Answers
use tik_tok_jam.Service.Ownership.{run_of}
use tik_tok_jam.Service.Agents.{Killed, edit_in, delete_in, status_in, kill_in, revoke_token}
use tik_tok_jam.Service.Mint.{Started, start_in}
use tik_tok_jam.Service.Execution
use tik_tok_jam.Service.Execution.{
  RunnerResult, begin_in, complete_in, fail_in, recover_in, backfill,
}
use tik_tok_jam.History.Steps.{
  Step, record_row, write_grant, revoke, taint, print, forget, ask, widen, release, answer,
  add_agent, edit, switch, remove, kill, start, begin, complete, give_up, close, recover,
}
use tik_tok_jam.History.Growth.{
  Grows, Grows-refl, Grows-push, Grows-modify_first, Grows-modify_all, Grows-map,
}

-- Whose token it is and until when does not change, and a revocation stays with its time.
abbrev pub KeepsToken : RunToken → RunToken → Type 0
KeepsToken a b =
    (b.jti ≡ a.jti)
    × (b.run_id ≡ a.run_id)
    × (b.agent_id ≡ a.agent_id)
    × (b.owner_id ≡ a.owner_id)
    × (b.issued_at ≡ a.issued_at)
    × (b.expires_at ≡ a.expires_at)
    × ((at : ℕ) → a.revoked_at ≡ some at → b.revoked_at ≡ some at)

-- What a grant permits to whom does not change, and a revocation stays with its time. Where its data
-- may flow and whether they are believed may change.
abbrev pub KeepsGrant : PolicyGrant → PolicyGrant → Type 0
KeepsGrant a b =
    (b.id ≡ a.id)
    × (b.from_owner ≡ a.from_owner)
    × (b.from_agent ≡ a.from_agent)
    × (b.to_agent ≡ a.to_agent)
    × (b.resource ≡ a.resource)
    × (b.actions ≡ a.actions)
    × (b.expires_at ≡ a.expires_at)
    × ((at : ℕ) → a.revoked_at ≡ some at → b.revoked_at ≡ some at)

pub same_token : (t : RunToken) → KeepsToken t t
same_token t = (refl, refl, refl, refl, refl, refl, λ at e. e)

pub same_grant : (g : PolicyGrant) → KeepsGrant g g
same_grant g = (refl, refl, refl, refl, refl, refl, refl, λ at e. e)

revoked_token : (at : ℕ) (t : RunToken) → KeepsToken t (revoke_token at t)
revoked_token at t = (refl, refl, refl, refl, refl, refl, λ at' e. ground arith)

revoked_grant : (at : ℕ) (g : PolicyGrant) → KeepsGrant g (mark_revoked at g)
revoked_grant at g = (refl, refl, refl, refl, refl, refl, refl, λ at' e. ground arith)

tainted : (l : Label) (t : RunToken) → KeepsToken t (with_taint l t)
tainted l t = elim (Bool-cases (any (λ u. label_key u == label_key l) t.taints)) [
  | inl old ↦ rw old (same_token t)
  | inr new ↦ rw new (same_token t)
]

module _ (f : RunToken → RunToken) (keeps : (t : RunToken) → KeepsToken t (f t)) where
  written : (p : RunToken → Bool) (ts : List RunToken) → Grows KeepsToken ts (modify_first p f ts)
  written = Grows-modify_first KeepsToken same_token f keeps

module _ (f : PolicyGrant → PolicyGrant) (keeps : (g : PolicyGrant) → KeepsGrant g (f g)) where
  rewritten :
      (p : PolicyGrant → Bool) (gs : List PolicyGrant) → Grows KeepsGrant gs (modify_first p f gs)
  rewritten = Grows-modify_first KeepsGrant same_grant f keeps

unchanged : {ts us : List RunToken} → us ≡ ts → Grows KeepsToken ts us
unchanged {ts} e = subst (Grows KeepsToken ts) (sym e) (Grows-refl KeepsToken same_token ts)

unwritten : {gs hs : List PolicyGrant} → hs ≡ gs → Grows KeepsGrant gs hs
unwritten {gs} e = subst (Grows KeepsGrant gs) (sym e) (Grows-refl KeepsGrant same_grant gs)

revoke-tokens :
    (id by_owner : String) (at : ℕ) (g : PolicyGrant) (d d' : Database)
    → revoke_in id by_owner at d ≡ ok (g, d')
    → (d'.run_tokens ≡ map (narrow_taints id) d.run_tokens)
      × (d'.policy_grants ≡ modify_first (λ h. h.id == id) (mark_revoked at) d.policy_grants)
unfolding revoke_in
revoke-tokens id by_owner at g d d' h = ground arith

flow-tokens :
    (card : ApprovalRequest) (dest : Egress) (for_run : Bool) (d : Database)
    → Grows KeepsToken d.run_tokens (allow_flow card dest for_run d).run_tokens
unfolding allow_flow
flow-tokens card dest true d =
    written (approve_destination card.resource) (λ t. same_token t) (λ t. some t.jti == card.jti)
      d.run_tokens
flow-tokens card dest false d = elim (Bool-cases (is_integrity card)) [
  | inl integrity ↦ rw integrity (
      written (believe_taints (after_colon card.reason)) (λ t. same_token t)
        (λ t. some t.jti == card.jti) d.run_tokens)
  | inr other ↦ rw other (
      written (widen_taints (after_colon card.reason) dest) (λ t. same_token t)
        (λ t. some t.jti == card.jti) d.run_tokens)
]

flow-grants :
    (card : ApprovalRequest) (dest : Egress) (for_run : Bool) (d : Database)
    → Grows KeepsGrant d.policy_grants (allow_flow card dest for_run d).policy_grants
unfolding allow_flow
flow-grants card dest true d = unwritten refl
flow-grants card dest false d = elim (Bool-cases (is_integrity card)) [
  | inl integrity ↦ rw integrity (
      rewritten (λ g. record g { trust_content = true }) (λ g. same_grant g)
        (λ g. names_grant (after_colon card.reason) g.id) d.policy_grants)
  | inr other ↦ rw other (
      rewritten (λ g. record g { egress = add_egress g.egress dest }) (λ g. same_grant g)
        (λ g. names_grant (after_colon card.reason) g.id) d.policy_grants)
]

start-tokens :
    (run : AgentRun) (message : Message) (estimated : List Scope) (timeout : ℕ) (jti : String)
    (s : Started) (d d' : Database)
    → start_in run message estimated timeout jti d ≡ ok (s, d')
    → (d'.run_tokens ≡ push d.run_tokens s.token) × (d'.policy_grants ≡ d.policy_grants)
unfolding start_in
start-tokens run message estimated timeout jti s d d' h = ground arith

kill-tokens :
    (id : String) (at : ℕ) (k : Killed) (d d' : Database)
    → kill_in id at d ≡ ok (k, d')
    → (d'.run_tokens ≡ modify_all (λ t. t.agent_id == id) (revoke_token at) d.run_tokens)
      × (d'.policy_grants ≡ d.policy_grants)
unfolding kill_in
kill-tokens id at k d d' h = ground arith

complete-tokens :
    (run_id agent_id jti : String) (result : RunnerResult) (output message_id : String) (at : ℕ)
    (d : Database)
    → Grows KeepsToken d.run_tokens
        (complete_in run_id agent_id jti result output message_id at d).run_tokens
unfolding complete_in
complete-tokens run_id agent_id jti result output message_id at d =
    elim (Bool-cases (is_null (run_of run_id d) || is_null (agent_of agent_id d))) [
      | inl gone ↦ rw gone (unchanged refl)
      | inr there ↦
          rw there (
            written (backfill result.thread_id) (λ t. same_token t) (λ t. t.jti == jti)
              d.run_tokens)
    ]

-- No mutation takes a token's row away, hands it to another run, agent or owner, moves its expiry or
-- undoes its revocation.
pub Step-tokens : {d d' : Database} → Step d d' → Grows KeepsToken d.run_tokens d'.run_tokens
unfolding push_event add_taint_in card_in allow_scope Answers.close_in edit_in delete_in status_in
    begin_in fail_in Execution.close_in recover_in
Step-tokens (record_row row) = unchanged (ground arith)
Step-tokens (write_grant g) = unchanged refl
Step-tokens {d} (revoke id by_owner at g h) =
    rw (revoke-tokens id by_owner at g d _ h).0
      (Grows-map KeepsToken same_token (narrow_taints id) (λ t. same_token t) d.run_tokens)
Step-tokens {d} (taint jti label) =
    written (with_taint label) (tainted label) (λ t. t.jti == jti) d.run_tokens
Step-tokens (print entry) = unchanged refl
Step-tokens (forget run_id) = unchanged refl
Step-tokens (ask input id at) = unchanged (ground arith)
Step-tokens {d} (widen card scope for_run at) =
    written (widen_scp scope) (λ t. same_token t) (λ t. some t.jti == card.jti) d.run_tokens
Step-tokens {d} (release card dest for_run) = flow-tokens card dest for_run d
Step-tokens (answer id decision at by_owner card h) = unchanged (ground arith)
Step-tokens (add_agent agent) = unchanged refl
Step-tokens (edit id input at agent h) = unchanged (ground arith)
Step-tokens (switch id status at agent h) = unchanged (ground arith)
Step-tokens (remove id) = unchanged refl
Step-tokens {d} (kill id at k h) = rw (kill-tokens id at k d _ h).0 (
    Grows-modify_all KeepsToken same_token (revoke_token at) (revoked_token at)
      (λ t. t.agent_id == id) d.run_tokens)
Step-tokens {d} (start run message estimated timeout jti s h) =
    rw (start-tokens run message estimated timeout jti s d _ h).0
      (Grows-push KeepsToken same_token d.run_tokens s.token)
Step-tokens (begin run_id at) = unchanged refl
Step-tokens {d} (complete run_id agent_id jti result output message_id at) =
    complete-tokens run_id agent_id jti result output message_id at d
Step-tokens (give_up run_id agent_id cancelled message at) = unchanged refl
Step-tokens {d} (close jti at) =
    written (revoke_token at) (revoked_token at) (λ t. t.jti == jti) d.run_tokens
Step-tokens (recover at) = unchanged refl

-- No mutation takes a grant away, changes what it permits to whom or its expiry, or undoes its
-- revocation.
pub Step-grants : {d d' : Database} → Step d d' → Grows KeepsGrant d.policy_grants d'.policy_grants
unfolding push_event add_taint_in card_in allow_scope Answers.close_in edit_in delete_in status_in
    begin_in complete_in fail_in Execution.close_in recover_in
Step-grants (record_row row) = unwritten (ground arith)
Step-grants {d} (write_grant g) = Grows-push KeepsGrant same_grant d.policy_grants g
Step-grants {d} (revoke id by_owner at g h) =
    rw (revoke-tokens id by_owner at g d _ h).1
      (rewritten (mark_revoked at) (revoked_grant at) (λ k. k.id == id) d.policy_grants)
Step-grants (taint jti label) = unwritten refl
Step-grants (print entry) = unwritten refl
Step-grants (forget run_id) = unwritten refl
Step-grants (ask input id at) = unwritten (ground arith)
Step-grants (widen card scope for_run at) = unwritten refl
Step-grants {d} (release card dest for_run) = flow-grants card dest for_run d
Step-grants (answer id decision at by_owner card h) = unwritten (ground arith)
Step-grants (add_agent agent) = unwritten refl
Step-grants (edit id input at agent h) = unwritten (ground arith)
Step-grants (switch id status at agent h) = unwritten (ground arith)
Step-grants (remove id) = unwritten refl
Step-grants {d} (kill id at k h) = unwritten (kill-tokens id at k d _ h).1
Step-grants {d} (start run message estimated timeout jti s h) =
    unwritten (start-tokens run message estimated timeout jti s d _ h).1
Step-grants (begin run_id at) = unwritten refl
Step-grants (complete run_id agent_id jti result output message_id at) = unwritten (ground arith)
Step-grants (give_up run_id agent_id cancelled message at) = unwritten refl
Step-grants (close jti at) = unwritten refl
Step-grants (recover at) = unwritten refl
