-- ===== src/Routes/Owned.antt =====
-- What the gate in front of the routes keeps out.
use tik_tok_jam.Base.{
  ℕ, String, ◌≡◌, refl, ap, true, false, not, Option, none, some, ◌==◌, Eq-String, arith,
  Option-cases, inl, inr,
}
use Prim.Native.String.{◌++◌}
use mathlib.Core.Path.{subst, sym}
use mathlib.Core.Option
use tik_tok_jam.Types.Enums.{Decision}
use tik_tok_jam.Types.Records.{Database, Agent, AgentRun, RunEvent}
use tik_tok_jam.Action.{World, Action, Result, ok, err, http_error, pure, require, ◌>>=◌}
use tik_tok_jam.Audit.{record_event, push_event}
use tik_tok_jam.Grants.{agent_of, grant_of, is_null}
use tik_tok_jam.Approvals.{card_of}
use tik_tok_jam.Config.{has_part}
use tik_tok_jam.Service.Ownership.{
  run_of, get_agent, get_run, gate, deny_cross_tenant, log_cross_tenant, assert_agent_ownership,
  assert_run_ownership, assert_grant_ownership, assert_approval_ownership,
}
use tik_tok_jam.Routes.{
  Route, route_url, Request, Api, Check, check_of, run_check, pre_handler, caller_of,
}
use tik_tok_jam.Routes.Handlers.{serve, handler}

-- A route names an id in its path exactly where a check of ownership stands before it.
pub check_of-route_url :
    (r : Route) → not (is_null (check_of (route_url r))) ≡ has_part (route_url r) "/:id"
check_of-route_url Route.health = refl
check_of-route_url Route.probe = refl
check_of-route_url Route.system = refl
check_of-route_url Route.index_agents = refl
check_of-route_url Route.index_approvals = refl
check_of-route_url (Route.new_agent body) = refl
check_of-route_url Route.show_agent = refl
check_of-route_url Route.remove_agent = refl
check_of-route_url Route.start = refl
check_of-route_url Route.stop = refl
check_of-route_url Route.kill = refl
check_of-route_url Route.messages = refl
check_of-route_url Route.runs = refl
check_of-route_url Route.show_run = refl
check_of-route_url Route.grants = refl
check_of-route_url Route.files = refl
check_of-route_url Route.revoke = refl
check_of-route_url (Route.change_agent body) = refl
check_of-route_url (Route.post_message text) = refl
check_of-route_url (Route.show_content relative) = refl
check_of-route_url (Route.new_grant body) = refl
check_of-route_url (Route.parse_grant text) = refl
check_of-route_url (Route.decide decision trust) = refl
check_of-route_url (Route.run_events filter) = refl
check_of-route_url (Route.agent_events filter limit) = refl

abbrev agent_owner : Database → Option AgentRun → Option String
agent_owner d none = none
agent_owner d (some run) = Option.map (λ a. a.owner_id) (agent_of run.agent_id d)

-- Whose the row is that a check reads.
abbrev pub owner_of : Check → String → Database → Option String
owner_of Check.of_agent id d = Option.map (λ a. a.owner_id) (agent_of id d)
owner_of Check.of_run id d = agent_owner d (run_of id d)
owner_of Check.of_grant id d = Option.map (λ g. g.from_owner) (grant_of id d)
owner_of Check.of_approval id d = Option.map (λ c. c.owner_id) (card_of id d)

-- The call was refused, and nothing but a row of the trail that says so was written.
abbrev pub Refused : {A : Type 0} → String → World → Result A × World → Type 0
Refused caller w r =
    (r.0 ≡ err (http_error 403 "That resource belongs to another tenant"))
    × ((row : RunEvent) × (r.1.db ≡ push_event row w.db)
        × (row.owner_id ≡ caller)
        × (row.decision ≡ some Decision.deny))
    × (r.1.files ≡ w.files)
    × (r.1.sent ≡ w.sent)
    × (r.1.index ≡ w.index)

foreign_gate :
    {A : Type 0} (row : A) (owner agent_id caller action resource : String) (w : World)
    → (owner == caller) ≡ false
    → Refused caller w (gate row owner agent_id caller action resource w)
unfolding gate deny_cross_tenant log_cross_tenant record_event
foreign_gate row owner agent_id caller action resource w differs =
    rw differs (refl, (_, refl, refl, refl), refl, refl, refl)

Refused-bind :
    {A B : Type 0} (m : Action A) (f : A → Action B) (caller : String) (w : World)
    → Refused caller w (m w)
    → Refused caller w ((m >>= f) w)
Refused-bind m f caller w h =
    let same : (m >>= f) w
        ≡ (err (http_error 403 "That resource belongs to another tenant"), (m w).1) =
      ground (arith, h.0) in
    rw same (refl, h.1, h.2, h.3, h.4)

found-bind :
    {A B : Type 0} (m : Action A) (f : A → Action B) (a : A) (caller : String) (w : World)
    → m w ≡ (ok a, w)
    → Refused caller w (f a w)
    → Refused caller w ((m >>= f) w)
found-bind m f a caller w e h =
    subst (Refused caller w) (sym (ap (λ p. elim p.0 [ ok b ↦ f b p.1 | err x ↦ (err x, p.1) ]) e))
      h

required :
    {A : Type 0} (o : Option A) (a : A) (w : World) (status : ℕ) (message : String)
    → o ≡ some a
    → require o (http_error status message) w ≡ (ok a, w)
required o a w status message e = ground (arith, e)

got_agent :
    (id : String) (a : Agent) (w : World) → agent_of id w.db ≡ some a → get_agent id w ≡ (ok a, w)
unfolding get_agent
got_agent id a w e = ground (arith, e)

got_run :
    (id : String) (r : AgentRun) (w : World) → run_of id w.db ≡ some r → get_run id w ≡ (ok r, w)
unfolding get_run
got_run id r w e = ground (arith, e)

run_check-Refused :
    (c : Check) (id owner caller action : String) (w : World)
    → owner_of c id w.db ≡ some owner
    → (owner == caller) ≡ false
    → Refused caller w (run_check c id caller action w)
unfolding run_check assert_agent_ownership assert_run_ownership assert_grant_ownership
    assert_approval_ownership
run_check-Refused Check.of_agent id owner caller action w owned differs =
    elim (Option-cases (agent_of id w.db)) [
      | inl missing ↦ absurd (ground (arith, missing, owned))
      | inr (a, there) ↦
          Refused-bind (assert_agent_ownership id caller action) (λ x. pure tt) caller w
            (found-bind (get_agent id)
              (λ a. gate a a.owner_id a.id caller action ("agent/" ++ a.id)) a caller w
              (got_agent id a w there)
              (foreign_gate a a.owner_id a.id caller action ("agent/" ++ a.id) w
                (ground (arith, there, owned, differs))))
    ]
run_check-Refused Check.of_run id owner caller action w owned differs =
    elim (Option-cases (run_of id w.db)) [
      | inl missing ↦ absurd (ground (arith, missing, owned))
      | inr (r, there) ↦ elim (Option-cases (agent_of r.agent_id w.db)) [
        | inl missing ↦ absurd (ground (arith, there, missing, owned))
        | inr (a, known) ↦
            Refused-bind (assert_run_ownership id caller action) (λ x. pure tt) caller w
              (found-bind (get_run id)
                (λ r.
                  get_agent r.agent_id
                  >>= (λ a. gate r a.owner_id a.id caller action ("run/" ++ r.id)))
                r caller w (got_run id r w there)
                (found-bind (get_agent r.agent_id)
                  (λ a. gate r a.owner_id a.id caller action ("run/" ++ r.id)) a caller w
                  (got_agent r.agent_id a w known)
                  (foreign_gate r a.owner_id a.id caller action ("run/" ++ r.id) w
                    (ground (arith, there, known, owned, differs)))))
      ]
    ]
run_check-Refused Check.of_grant id owner caller action w owned differs =
    elim (Option-cases (grant_of id w.db)) [
      | inl missing ↦ absurd (ground (arith, missing, owned))
      | inr (g, there) ↦
          Refused-bind (assert_grant_ownership id caller action) (λ x. pure tt) caller w
            (found-bind (require (grant_of id w.db) (http_error 404 "Grant not found"))
              (λ g. gate g g.from_owner g.to_agent caller action ("grant/" ++ g.id)) g caller w
              (required (grant_of id w.db) g w 404 "Grant not found" there)
              (foreign_gate g g.from_owner g.to_agent caller action ("grant/" ++ g.id) w
                (ground (arith, there, owned, differs))))
    ]
run_check-Refused Check.of_approval id owner caller action w owned differs =
    elim (Option-cases (card_of id w.db)) [
      | inl missing ↦ absurd (ground (arith, missing, owned))
      | inr (c, there) ↦
          Refused-bind (assert_approval_ownership id caller action) (λ x. pure tt) caller w
            (found-bind (require (card_of id w.db) (http_error 404 "Approval not found"))
              (λ c. gate c c.owner_id c.agent_id caller action ("approval/" ++ c.id)) c caller w
              (required (card_of id w.db) c w 404 "Approval not found" there)
              (foreign_gate c c.owner_id c.agent_id caller action ("approval/" ++ c.id) w
                (ground (arith, there, owned, differs))))
    ]

-- A request of a verified human for an agent, a run, a grant or an approval of another tenant, with a
-- well-formed id and by any route that has a check of ownership before it, is answered with 403 and
-- does nothing but write the row of the trail that records the refusal.
pub serve-Refused :
    (api : Api) (request : Request) (c : Check) (id owner caller : String) (w : World)
    → check_of (route_url request.route) ≡ some c
    → request.id ≡ some id
    → api.is_uuid id ≡ true
    → request.caller ≡ some caller
    → owner_of c id w.db ≡ some owner
    → (owner == caller) ≡ false
    → Refused caller w (serve api request w)
unfolding serve pre_handler caller_of
serve-Refused api request c id owner caller w guarded named uuid known owned differs =
    let refused = run_check-Refused c id owner caller ("api:" ++ request.method) w owned differs in
    let checked : pre_handler api request w ≡ run_check c id caller ("api:" ++ request.method) w =
      ground (arith, guarded, named, uuid, known) in
    Refused-bind (pre_handler api request) (λ x. handler api request request.route) caller w
      (subst (Refused caller w) (sym checked) refused)
