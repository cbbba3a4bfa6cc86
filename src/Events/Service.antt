-- ===== src/Events/Service.antt =====
-- app/modules/events/service.py
use Prim.Native.String
use society_agent.Prelude.{
  ℕ, String, Bool, not, ◌&&◌, Option, none, some, List, [], ◌∷◌, ◌++◌, save, is_some, get_or, ◌==◌,
  if◌then◌else◌,
}
use society_agent.Prelude.Int.{ℤ}
use society_agent.Text.{strip}
use society_agent.Validation.{RawId, absent, validate_uuid}
use society_agent.Db.{
  Event, EventState, WorkflowState, Tables, AuditLog, draft, active, locked, event_day, closed,
}
use society_agent.Db.Errors.{
  Result, ok, err, workflow_not_found, close_reason_required, close_performer_required,
}
use society_agent.Db.Session.{
  Exec, pure, lift, query, guard, require, modify, flush, finish, or_rollback, ◌>>=◌, ◌>>◌,
}
use society_agent.Db.Query.{find_event, find_workflow, add_audit}
use society_agent.Workflow.Rules.{
  Action, action_text, activate_event, lock_passes, start_event, close_event,
}
use society_agent.Workflow.Engine.{is_missing}
use society_agent.Workflow.Permit.{is_truthy, ensure_permitted}

abbrev pub is_event : ℕ → Event → Bool
is_event e row = row.id == e

abbrev pub is_workflow_of : ℕ → WorkflowState → Bool
is_workflow_of e row = row.event_id == e

-- What `_require_event_and_workflow` returns.
pub record Found : Type 0 where
  pub event : Event
  pub workflow : WorkflowState

unfoldable pub require_event_and_workflow : ℕ → Exec Found
require_event_and_workflow event_id = do
  event ← require (← query (find_event event_id)) workflow_not_found
  workflow ← require (← query (find_workflow event_id)) workflow_not_found
  pure (record { event = event; workflow = workflow })

-- `_set_workflow_state`, on the two rows of the event.
unfoldable pub set_workflow_state : ℕ → Found → EventState → List String → Tables → Tables
set_workflow_state event_id found state next_states t = record t {
  events = save (is_event event_id) (record found.event { status = state }) t.events;
  workflow_states =
      save (is_workflow_of event_id)
        (record found.workflow { current_state = state; allowed_next_states = next_states })
        t.workflow_states;
}

-- What tells `activate_event`, `lock_passes` and `start_event_day` apart.
pub record Transition : Type 0 where
  pub action : Action
  pub state : EventState
  pub next_states : List String
  pub usual_reason : String

abbrev pub activation : Transition
activation = record {
  action = activate_event;
  state = active;
  next_states = "LOCKED" ∷ [];
  usual_reason = "Normal transition";
}

abbrev pub locking : Transition
locking = record {
  action = lock_passes;
  state = locked;
  next_states = "EVENT_DAY" ∷ [];
  usual_reason = "Deadline reached";
}

abbrev pub starting : Transition
starting = record {
  action = start_event;
  state = event_day;
  next_states = "CLOSE_EVENT" ∷ [];
  usual_reason = "Event day started";
}

transition_audit : Transition → Event → ℕ → ℕ → Option String → AuditLog
transition_audit tr event event_id performed_by override_reason = record {
  society_id = event.society_id;
  entity_type = "event";
  entity_id = event_id;
  action = action_text tr.action;
  reason = if is_truthy override_reason then get_or override_reason "" else tr.usual_reason;
  performed_by = some performed_by;
  source = none;
  performed_at = none;
}

-- `activate_event`, `lock_passes` and `start_event_day`
unfoldable pub advance : Transition → RawId → RawId → Option String → Exec (Unit {0})
unfolding transition_audit
advance tr raw_event raw_member override_reason = do
  event_id ← lift (validate_uuid raw_event "event_id")
  performed_by ← lift (validate_uuid raw_member "member_id")
  found ← require_event_and_workflow event_id
  ensure_permitted found.event.society_id event_id "event" event_id tr.action (some performed_by)
      override_reason
  finish
      (λ t.
        add_audit (transition_audit tr found.event event_id performed_by override_reason)
          (set_workflow_state event_id found tr.state tr.next_states t))
      tt

-- The keyword arguments of `close_event`.
pub record CloseInput : Type 0 where
  pub event_id : RawId
  pub performed_by : RawId
  pub reason : Option String
  pub source : Option String
  pub action : String
  pub override_reason : Option String

-- `reason if reason is not None else override_reason`
abbrev first_given : Option String → Option String → Option String
first_given none second = second
first_given (some r) second = some r

-- `_resolve_close_reason`
unfoldable pub resolve_close_reason : Option String → Option String → Result String
resolve_close_reason reason override_reason =
    let resolved = first_given reason override_reason in
    if is_missing resolved then err close_reason_required else ok (strip (get_or resolved ""))

-- `performed_by` may be `None` here.
unfoldable pub validate_member : RawId → Result (Option ℕ)
validate_member absent = ok none
validate_member raw = elim (validate_uuid raw "member_id") [ ok p ↦ ok (some p) | err e ↦ err e ]

close_audit : CloseInput → Event → ℕ → Option ℕ → String → AuditLog
close_audit i event event_id performed_by close_reason = record {
  society_id = event.society_id;
  entity_type = "event";
  entity_id = event_id;
  action = i.action;
  reason =
      if is_missing i.source
      then close_reason
      else String.◌++◌ close_reason (String.◌++◌ " | source=" (strip (get_or i.source "")));
  performed_by = performed_by;
  source = none;
  performed_at = none;
}

-- `close_event`
unfoldable pub close : CloseInput → Exec (Unit {0})
unfolding validate_member close_audit
close i = do
  event_id ← lift (validate_uuid i.event_id "event_id")
  performed_by ← lift (validate_member i.performed_by)
  close_reason ← lift (resolve_close_reason i.reason i.override_reason)
  guard (not (not (is_some performed_by) && is_missing i.source)) close_performer_required
  found ← require_event_and_workflow event_id
  ensure_permitted found.event.society_id event_id "event" event_id close_event performed_by
      (some close_reason)
  or_rollback (
      finish
        (λ t.
          add_audit (close_audit i found.event event_id performed_by close_reason)
            (set_workflow_state event_id found closed [] t))
        tt)

-- The keyword arguments of `create_event`, and the UUID that the database draws for the row.
pub record EventInput : Type 0 where
  pub society_id : ℕ
  pub name : String
  pub event_date : ℕ
  pub food_types : List String
  pub created_by : RawId
  pub charge_per_adult : Option ℤ
  pub charge_per_child : Option ℤ
  pub payment_deadline : Option ℕ
  pub new_id : ℕ

abbrev pub new_event : EventInput → ℕ → Event
new_event i created_by = record {
  id = i.new_id;
  society_id = i.society_id;
  name = i.name;
  event_date = i.event_date;
  charge_per_adult = i.charge_per_adult;
  charge_per_child = i.charge_per_child;
  food_types = i.food_types;
  payment_deadline = i.payment_deadline;
  status = draft;
  created_by = some created_by;
}

abbrev pub new_workflow : ℕ → WorkflowState
new_workflow event_id = record {
  event_id = event_id;
  current_state = draft;
  allowed_next_states = "ACTIVE" ∷ [];
}

creation_audit : EventInput → ℕ → AuditLog
creation_audit i created_by = record {
  society_id = i.society_id;
  entity_type = "event";
  entity_id = i.new_id;
  action = "CREATE_EVENT";
  reason = "Initial event creation";
  performed_by = some created_by;
  source = none;
  performed_at = none;
}

-- `create_event`
unfoldable pub create : EventInput → Exec Event
unfolding creation_audit
create i = do
  created_by ← lift (validate_uuid i.created_by "member_id")
  modify (λ t. record t { events = t.events ++ new_event i created_by ∷ [] })
  flush
  finish
      (λ t.
        add_audit (creation_audit i created_by)
          (record t { workflow_states = t.workflow_states ++ new_workflow i.new_id ∷ [] }))
      (new_event i created_by)
