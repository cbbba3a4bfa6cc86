-- ===== src/Events/Changes.antt =====
-- What the event service does to the rows of an event, and that it does nothing when it raises.
use society_agent.Prelude.{
  ℕ, String, ◌≡◌, ap, ◌∙◌, true, ◌||◌, Option, some, List, [], ◌∷◌, ◌++◌, arith,
}
use society_agent.Validation.{RawId, absent, malformed, uuid, validate_uuid}
use society_agent.Db.{Event, EventState, Tables, closed}
use society_agent.Db.Errors.{ok}
use society_agent.Db.Session.{Session, require, ◌>>=◌}
use society_agent.Db.Atomic.{Quiet, Atomic, quiet_rules, atomic_rules}
use society_agent.Db.Steps.{
  bind_elim, lift_elim, lift-ok, guard_elim, flush_elim, modify-ok, finish-ok, or_rollback-ok,
}
use society_agent.Db.Query.{find_event, find_workflow}
use society_agent.Workflow.Rules.{Action, close_event}
use society_agent.Workflow.Engine.{check_action}
use society_agent.Workflow.Permit.{ensure_permitted-Quiet, ensure_permitted-ok}
use society_agent.Events.Service.{
  Found, require_event_and_workflow, set_workflow_state, Transition, advance, CloseInput,
  resolve_close_reason, validate_member, close, EventInput, new_event, new_workflow, create,
}

require_event_and_workflow-Quiet : (e : ℕ) → Quiet (require_event_and_workflow e)
unfolding require_event_and_workflow
require_event_and_workflow-Quiet e = search quiet_rules depth 12

-- A transition that is refused, or whose commit fails, leaves every committed table as it was.
pub advance-Atomic : (tr : Transition) (e m : RawId) (r : Option String) → Atomic (advance tr e m r)
unfolding advance
advance-Atomic tr e m r =
    search (atomic_rules, require_event_and_workflow-Quiet, ensure_permitted-Quiet) depth 14

pub close-Atomic : (i : CloseInput) → Atomic (close i)
unfolding close
close-Atomic i =
    search (atomic_rules, require_event_and_workflow-Quiet, ensure_permitted-Quiet) depth 14

pub create-Atomic : (i : EventInput) → Atomic (create i)
unfolding create
create-Atomic i = search atomic_rules depth 14

require_event_and_workflow-ok :
    (e : ℕ) (s : Session) {found : Found} {s' : Session}
    → require_event_and_workflow e s ≡ (ok found, s')
    → (s' ≡ s)
      × (find_event e s.current ≡ some found.event)
      × (find_workflow e s.current ≡ some found.workflow)
unfolding require_event_and_workflow require ◌>>=◌
require_event_and_workflow-ok e s h = ground arith

-- The rows of event `e` were moved to a state by an action that the workflow let through.
pub record Moved (e : ℕ) (action : Action) (performer : Option ℕ) (reason : Option String)
    (state : EventState) (next_states : List String) (t t' : Tables) : Type 0 where
  pub found : Found
  pub event : find_event e t ≡ some found.event
  pub workflow : find_workflow e t ≡ some found.workflow
  pub permitted :
      ((check_action t e action performer reason).allowed
        || (check_action t e action performer reason).requires_override)
      ≡ true
  pub written :
      t' ≡ record (set_workflow_state e found state next_states t) { audit_logs = t'.audit_logs }

pub advance-ok :
    (tr : Transition) (e m : ℕ) (r : Option String) (s : Session) {u : Unit {0}} {s' : Session}
    → advance tr (uuid e) (uuid m) r s ≡ (ok u, s')
    → Moved e tr.action (some m) r tr.state tr.next_states s.current s'.durable
unfolding advance validate_uuid
advance-ok tr e m r s {s'} h =
    bind_elim _ _ s (lift-ok m _ s (lift-ok e _ s h)) λ found t required h3.
      bind_elim _ _ t h3 λ u t1 logged h4.
        let (same, event, workflow) = require_event_and_workflow-ok e s required in
        let (audits, permitted) = ensure_permitted-ok _ _ _ _ _ _ _ t logged in
        let (_, current, durable) = finish-ok _ _ t1 h4 in
        let plain : s'.durable
            ≡ record (set_workflow_state e found tr.state tr.next_states t1.current) {
              audit_logs = s'.durable.audit_logs;
            } =
          ground arith in
        let before : t1.current ≡ record s.current { audit_logs = t1.current.audit_logs } =
          ground arith in
        record {
          found = found;
          event = event;
          workflow = workflow;
          permitted = rw same at permitted;
          written = unfold set_workflow_state in (rw before at plain);
        }

-- A transition that returned had two well-formed identifiers.
pub advance-ids :
    (tr : Transition) (raw_event raw_member : RawId) (r : Option String) (s : Session)
    {u : Unit {0}} {s' : Session}
    → advance tr raw_event raw_member r s ≡ (ok u, s')
    → (e : ℕ) × (m : ℕ) × (raw_event ≡ uuid e) × (raw_member ≡ uuid m)
unfolding advance
advance-ids tr raw_event raw_member r s h = lift_elim _ _ s h λ e valid h1.
    lift_elim _ _ s h1 λ m known h2.
      (e, m, unfold validate_uuid in ground arith, unfold validate_uuid in ground arith)

validate_member-some : (raw : RawId) {m : ℕ} → validate_member raw ≡ ok (some m) → raw ≡ uuid m
unfolding validate_member validate_uuid
validate_member-some absent h = cc
validate_member-some malformed h = cc
validate_member-some (uuid n) h = ground arith

-- A run of `close` that returned.
pub record Closed (i : CloseInput) (t t' : Tables) : Type 0 where
  pub event_id : ℕ
  pub performer : Option ℕ
  pub close_reason : String
  pub identified : i.event_id ≡ uuid event_id
  pub resolved : resolve_close_reason i.reason i.override_reason ≡ ok close_reason
  pub member : (m : ℕ) → performer ≡ some m → i.performed_by ≡ uuid m
  pub moved : Moved event_id close_event performer (some close_reason) closed [] t t'

pub close-ok :
    (i : CloseInput) (s : Session) {u : Unit {0}} {s' : Session}
    → close i s ≡ (ok u, s')
    → Closed i s.current s'.durable
unfolding close
close-ok i s {u} {s'} h = lift_elim _ _ s h λ e valid h1. lift_elim _ _ s h1 λ p member h2.
    lift_elim _ _ s h2 λ close_reason resolved h3. guard_elim _ _ _ s h3 λ known h4.
      bind_elim _ _ s h4 λ found t required h5. bind_elim _ _ t h5 λ u t1 logged h6.
        let (same, event, workflow) = require_event_and_workflow-ok e s required in
        let (audits, permitted) = ensure_permitted-ok _ _ _ _ _ _ _ t logged in
        let (_, current, durable) = finish-ok _ _ t1 (or_rollback-ok _ t1 h6) in
        let plain : s'.durable ≡ record (set_workflow_state e found closed [] t1.current) {
          audit_logs = s'.durable.audit_logs;
        } =
          ground arith in
        let before : t1.current ≡ record s.current { audit_logs = t1.current.audit_logs } =
          ground arith in
        record {
          event_id = e;
          performer = p;
          close_reason = close_reason;
          identified = unfold validate_uuid in ground arith;
          resolved = resolved;
          member = λ m who. validate_member-some i.performed_by (member ∙ ap ok who);
          moved = record {
            found = found;
            event = event;
            workflow = workflow;
            permitted = rw same at permitted;
            written = unfold set_workflow_state in (rw before at plain);
          };
        }

pub create-ok :
    (i : EventInput) (s : Session) {event : Event} {s' : Session}
    → create i s ≡ (ok event, s')
    → (p : ℕ) × (i.created_by ≡ uuid p)
      × (event ≡ new_event i p)
      × (s'.durable ≡ record s.current {
        events = s.current.events ++ new_event i p ∷ [];
        workflow_states = s.current.workflow_states ++ new_workflow i.new_id ∷ [];
        audit_logs = s'.durable.audit_logs;
      })
unfolding create
create-ok i s h = lift_elim _ _ s h λ p valid h1.
    flush_elim _ _ (modify-ok _ _ s h1) λ t seen kept h2.
      let (returned, current, durable) = finish-ok _ _ t h2 in
      (p, unfold validate_uuid in ground arith, returned, ground arith)
