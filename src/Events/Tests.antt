-- ===== src/Events/Tests.antt =====
-- Runs of the event service, and its theorems at those runs.
use society_agent.Prelude.{◌≡◌, refl, ap, arith, none, some, [], ◌∷◌, ℕ}
use society_agent.Validation.{uuid, absent, validate_uuid}
use society_agent.Fixtures.{tables_in, session_of}
use society_agent.Runs.{running}
use society_agent.Db.{Tables, AuditLog, draft, active, event_day, closed}
use society_agent.Db.Errors.{Result, ok}
use society_agent.Db.Session.{Session, or_rollback}
use society_agent.Events.Service.{
  require_event_and_workflow, set_workflow_state, activation, advance, CloseInput,
  resolve_close_reason, close,
}
use society_agent.Events.Lifecycle.{Advanced, activating, advance-lifecycle, close-lifecycle}
use society_agent.Events.Consistency.{IsConsistent, here, next, advances, Reach-IsConsistent}

abbrev activation_audit : AuditLog
activation_audit = record {
  society_id = 1;
  entity_type = "event";
  entity_id = 10;
  action = "ACTIVATE_EVENT";
  reason = "Normal transition";
  performed_by = some 31;
  source = none;
  performed_at = none;
}

abbrev activated : Tables
activated = record (tables_in active) {
  workflow_states =
      record { event_id = 10; current_state = active; allowed_next_states = "LOCKED" ∷ [] } ∷ [];
  audit_logs = activation_audit ∷ [];
}

-- A plain committee member may activate a draft.
activation_run :
    advance activation (uuid 10) (uuid 31) none (session_of (tables_in draft))
    ≡ (ok tt, session_of activated)
unfolding running advance require_event_and_workflow set_workflow_state validate_uuid
activation_run = refl

abbrev close_input : CloseInput
close_input = record {
  event_id = uuid 10;
  performed_by = absent;
  reason = some " done ";
  source = some "scheduler";
  action = "CLOSE_EVENT";
  override_reason = none;
}

abbrev closing_audit : AuditLog
closing_audit = record {
  society_id = 1;
  entity_type = "event";
  entity_id = 10;
  action = "CLOSE_EVENT";
  reason = "done | source=scheduler";
  performed_by = none;
  source = none;
  performed_at = none;
}

abbrev closed_tables : Tables
closed_tables = record (tables_in closed) { audit_logs = closing_audit ∷ [] }

close_run : close close_input (session_of (tables_in event_day)) ≡ (ok tt, session_of closed_tables)
unfolding running close require_event_and_workflow set_workflow_state validate_uuid
    resolve_close_reason or_rollback
close_run = refl

advance-lifecycle_example : Advanced 10 active (tables_in draft) activated
advance-lifecycle_example =
    advance-lifecycle activation 10 31 (session_of (tables_in draft)) activating activation_run

close-lifecycle_example :
    (e : ℕ) × (uuid 10 ≡ uuid e) × Advanced e closed (tables_in event_day) closed_tables
close-lifecycle_example =
    close-lifecycle close_input (session_of (tables_in event_day)) (λ m h. absurd (ground arith))
      close_run

draft-IsConsistent : IsConsistent (tables_in draft)
unfolding running
draft-IsConsistent e event w found row = ground arith

Reach-IsConsistent_example : IsConsistent activated
Reach-IsConsistent_example =
    Reach-IsConsistent
      (next here (
        advances activation (uuid 10) (uuid 31) none (session_of (tables_in draft)) refl refl
          (ap (λ (r : Result (Unit {0}) × Session). r.1.durable) activation_run)))
      draft-IsConsistent
