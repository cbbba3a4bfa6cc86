-- ===== src/Events/Lifecycle.antt =====
-- The life of an event: which moves the workflow lets through, and that the event row and the
-- workflow row keep telling the same state.
use society_agent.Prelude.{
  ℕ, String, ◌≡◌, refl, ◌⊎◌, inl, inr, true, false, Option, none, some, List, arith,
  find_first-save_self, find_first-save_ne, find_first_sound, Bool-cases, ◌==◌,
}
use society_agent.Validation.{uuid}
use society_agent.Db.{
  Event, EventState, WorkflowState, Tables, draft, active, locked, event_day, closed,
}
use society_agent.Db.Errors.{ok}
use society_agent.Db.Session.{Session}
use society_agent.Db.Query.{find_event, find_workflow, find_member}
use society_agent.Workflow.Rules.{Action, allows, close_event}
use society_agent.Workflow.Engine.{check_action, is_missing, may_override}
use society_agent.Workflow.Decisions.{check_action-allowed, override_guards}
use society_agent.Events.Service.{
  is_event, is_workflow_of, set_workflow_state, Transition, activation, locking, starting, advance,
  CloseInput, close,
}
use society_agent.Events.Changes.{Moved, Closed, advance-ok, close-ok}

-- The order of the states.
abbrev pub successor : EventState → Option EventState
successor draft = some active
successor active = some locked
successor locked = some event_day
successor event_day = some closed
successor _ = none

module _ {e : ℕ} {a : Action} {p : Option ℕ} {r : Option String} {st : EventState}
    {ns : List String} {t t' : Tables} (m : Moved e a p r st ns t t') where
  pub moved_event : find_event e t' ≡ some (record m.found.event { status = st })
  unfolding find_event set_workflow_state
  moved_event = rw m.written (
      find_first-save_self (is_event e) _ t.events (find_first_sound (is_event e) t.events m.event))

  pub moved_workflow :
      find_workflow e t'
      ≡ some (record m.found.workflow { current_state = st; allowed_next_states = ns })
  unfolding find_workflow set_workflow_state
  moved_workflow = rw m.written (
      find_first-save_self (is_workflow_of e) _ t.workflow_states
        (find_first_sound (is_workflow_of e) t.workflow_states m.workflow))

  pub event_other : (e' : ℕ) → (e == e') ≡ false → find_event e' t' ≡ find_event e' t
  unfolding find_event set_workflow_state
  event_other e' ne =
      let key : is_event e m.found.event ≡ true = find_first_sound (is_event e) t.events m.event in
      rw m.written (
        find_first-save_ne (is_event e) (is_event e') _ t.events (ground arith)
          (λ row k. ground arith))

  pub workflow_other : (e' : ℕ) → (e == e') ≡ false → find_workflow e' t' ≡ find_workflow e' t
  unfolding find_workflow set_workflow_state
  workflow_other e' ne =
      let key : is_workflow_of e m.found.workflow ≡ true =
        find_first_sound (is_workflow_of e) t.workflow_states m.workflow in
      rw m.written (
        find_first-save_ne (is_workflow_of e) (is_workflow_of e') _ t.workflow_states (ground arith)
          (λ row k. ground arith))

  -- Either the state lists the action, or an office holder forces it and gives a reason.
  moved_by :
      (allows m.found.workflow.current_state a ≡ true)
      ⊎ ((id : ℕ) × (p ≡ some id)
          × (may_override (find_member id t) ≡ true)
          × (is_missing r ≡ false))
  moved_by = elim (Bool-cases (check_action t e a p r).allowed) [
    | inl allowed ↦
        let (w, found, listed) = (check_action-allowed t e a p r).0 allowed in
        inl (ground (arith, m.workflow))
    | inr denied ↦
        let (w, id, found, listed, who, may, why) =
          (override_guards t e a p r).0 (ground (arith, m.permitted)) in
        inr (id, who, may, why)
  ]

-- Each action is listed in exactly one state, the one before the state that it leads to.
activation_from :
    (st : EventState) → allows st activation.action ≡ true → successor st ≡ some active
unfolding allows
activation_from st h = ground arith

locking_from : (st : EventState) → allows st locking.action ≡ true → successor st ≡ some locked
unfolding allows
locking_from st h = ground arith

starting_from : (st : EventState) → allows st starting.action ≡ true → successor st ≡ some event_day
unfolding allows
starting_from st h = ground arith

closing_from : (st : EventState) → allows st close_event ≡ true → successor st ≡ some closed
unfolding allows
closing_from st h = ground arith

pub data IsTransition : Transition → Type 0 where
  activating : IsTransition activation
  locking_passes : IsTransition locking
  starting_day : IsTransition starting

IsTransition-successor :
    {tr : Transition}
    → IsTransition tr
    → (st : EventState) → allows st tr.action ≡ true
    → successor st ≡ some tr.state
IsTransition-successor activating = activation_from
IsTransition-successor locking_passes = locking_from
IsTransition-successor starting_day = starting_from

-- The event's workflow row stood at `before`, and both rows stand at the state after it.
pub record Advanced (e : ℕ) (state : EventState) (t t' : Tables) : Type 0 where
  pub before : WorkflowState
  pub event : Event
  pub workflow : WorkflowState
  pub found : find_workflow e t ≡ some before
  pub next : successor before.current_state ≡ some state
  pub event_row : find_event e t' ≡ some event
  pub workflow_row : find_workflow e t' ≡ some workflow
  pub event_state : event.status ≡ state
  pub workflow_state : workflow.current_state ≡ state
  pub others :
      (e' : ℕ)
      → (e == e') ≡ false
      → (find_event e' t' ≡ find_event e' t) × (find_workflow e' t' ≡ find_workflow e' t)

Moved-Advanced :
    {e : ℕ} {a : Action} {p : Option ℕ} {r : Option String} {st : EventState} {ns : List String}
    {t t' : Tables} (m : Moved e a p r st ns t t')
    → successor m.found.workflow.current_state ≡ some st
    → Advanced e st t t'
Moved-Advanced m from = record {
  before = m.found.workflow;
  event = _;
  workflow = _;
  found = m.workflow;
  next = from;
  event_row = moved_event m;
  workflow_row = moved_workflow m;
  event_state = refl;
  workflow_state = refl;
  others = λ e' ne. (event_other m e' ne, workflow_other m e' ne);
}

-- Without an override reason an event is activated only from draft, locked only from active and
-- started only from locked; both of its rows then tell the new state, and no other event's rows
-- change.
pub advance-lifecycle :
    (tr : Transition) (e m : ℕ) (s : Session) {u : Unit {0}} {s' : Session}
    → IsTransition tr
    → advance tr (uuid e) (uuid m) none s ≡ (ok u, s')
    → Advanced e tr.state s.current s'.durable
advance-lifecycle tr e m s {u} {s'} known h =
    let moved : Moved e tr.action (some m) none tr.state tr.next_states s.current s'.durable =
      advance-ok tr e m none s h in
    elim (moved_by moved) [
      | inl listed ↦ Moved-Advanced moved (IsTransition-successor known _ listed)
      | inr (id, who, may, why) ↦ absurd (ground arith)
    ]

-- An event that is closed by someone who may not override, or by no member at all, was in its
-- event day; both of its rows then tell that it is closed, and no other event's rows change.
pub close-lifecycle :
    (i : CloseInput) (s : Session) {u : Unit {0}} {s' : Session}
    → ((m : ℕ) → i.performed_by ≡ uuid m → may_override (find_member m s.current) ≡ false)
    → close i s ≡ (ok u, s')
    → (e : ℕ) × (i.event_id ≡ uuid e) × Advanced e closed s.current s'.durable
close-lifecycle i s {u} {s'} powerless h =
    let c : Closed i s.current s'.durable = close-ok i s h in
    elim (moved_by c.moved) [
      | inl listed ↦ (c.event_id, c.identified, Moved-Advanced c.moved (closing_from _ listed))
      | inr (id, who, may, why) ↦ absurd (ground (arith, powerless id (c.member id who)))
    ]
