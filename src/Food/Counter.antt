-- ===== src/Food/Counter.antt =====
-- app/modules/events/food_collection_service.py: opening the counter, and closing it when its time is
-- over. Times are seconds; one call takes place at one time.
use Prim.Native.String
use society_agent.Prelude.{
  ℕ, ◌+◌, ◌*◌, String, Bool, true, false, ◌&&◌, Option, none, some, find_first, save, ltb, ◌==◌,
  if◌then◌else◌,
}
use society_agent.Db.{Event, EventFoodCounter, Tables, AuditLog}
use society_agent.Db.Errors.{counter_closed, service_ended}
use society_agent.Db.Session.{Exec, pure, raise, query, require, finish, ◌>>=◌, ◌>>◌}
use society_agent.Db.Query.{add_audit}
use society_agent.Workflow.Rules.{Action}
use society_agent.Food.Entry.{require_event_roles, ensure_workflow_action_allowed}

-- The keyword arguments of `open_food_counter`, and the time at which it runs.
pub record CounterInput : Type 0 where
  pub event_id : ℕ
  pub performed_by : Option ℕ
  pub auto_close_minutes : ℕ
  pub override_reason : Option String
  pub now : ℕ

abbrev pub is_counter_of : ℕ → EventFoodCounter → Bool
is_counter_of e row = row.event_id == e

unfoldable pub find_counter : ℕ → Tables → Option EventFoodCounter
find_counter e t = find_first (is_counter_of e) t.food_counters

abbrev pub opened_counter : CounterInput → EventFoodCounter
opened_counter i = record {
  event_id = i.event_id;
  is_open = true;
  opened_at = some i.now;
  closes_at = some (i.now + 60 * i.auto_close_minutes);
  closed_at = none;
  opened_by = i.performed_by;
  closed_by = none;
  updated_at = i.now;
}

abbrev pub counter_audit : ℕ → ℕ → String → String → Option ℕ → ℕ → AuditLog
counter_audit society_id event_id action reason performed_by now = record {
  society_id = society_id;
  entity_type = "food_collection";
  entity_id = event_id;
  action = action;
  reason = reason;
  source = none;
  performed_by = performed_by;
  performed_at = some now;
}

module _ (text_of : ℕ → String) where
  -- `FoodCollectionService.open_food_counter`
  unfoldable pub open_food_counter : CounterInput → Exec EventFoodCounter
  open_food_counter i = do
    event ← require_event_roles i.event_id i.performed_by
    ensure_workflow_action_allowed event i.event_id Action.open_food_counter i.performed_by
        i.override_reason
    finish
        (λ t.
          add_audit
            (counter_audit event.society_id i.event_id "OPEN_FOOD_COUNTER"
              (String.◌++◌ "Auto-close in " (String.◌++◌ (text_of i.auto_close_minutes) " minutes"))
              i.performed_by i.now)
            (record t {
              food_counters = save (is_counter_of i.event_id) (opened_counter i) t.food_counters;
            }))
        (opened_counter i)

-- `counter.closes_at and utc_now() > counter.closes_at`
abbrev pub is_past : Option ℕ → ℕ → Bool
is_past none now = false
is_past (some end) now = ltb end now

abbrev pub closed_counter : EventFoodCounter → Option ℕ → ℕ → EventFoodCounter
closed_counter c performed_by now = record c {
  is_open = false;
  closed_at = some now;
  closed_by = performed_by;
  updated_at = now;
}

-- `_close_counter_if_expired`
unfoldable pub close_counter_if_expired : Event → EventFoodCounter → Option ℕ → ℕ → Exec Bool
close_counter_if_expired event c performed_by now =
    if c.is_open && is_past c.closes_at now
    then finish
        (λ t.
          add_audit
            (counter_audit event.society_id event.id "AUTO_CLOSE_FOOD_COUNTER"
              "Counter auto-closed after configured duration" performed_by now)
            (record t {
              food_counters =
                  save (is_counter_of c.event_id) (closed_counter c performed_by now)
                    t.food_counters;
            }))
        true
    else pure false

-- `if not counter or not counter.is_open`
abbrev pub open_one : Option EventFoodCounter → Option EventFoodCounter
open_one none = none
open_one (some c) = if c.is_open then some c else none

-- The counter of the event must be open, and is closed when its time is over.
unfoldable pub require_open_counter : Event → ℕ → Option ℕ → ℕ → Exec (Unit {0})
require_open_counter event event_id performed_by now = do
  c ← require (open_one (← query (find_counter event_id))) counter_closed
  expired ← close_counter_if_expired event c performed_by now
  if expired then raise service_ended else pure tt
