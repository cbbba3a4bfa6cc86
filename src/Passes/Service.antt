-- ===== src/Passes/Service.antt =====
-- app/modules/events/food_pass_service.py
use Prim.Native.String
use society_agent.Prelude.{
  ℕ, String, true, false, not, ◌||◌, Option, none, some, save, is_some, get_or, ◌==◌, if◌then◌else◌,
}
use society_agent.Prelude.Int.{ℤ, 0ℤ, ◌+ℤ◌, ◌*ℤ◌, leb_ℤ, ltb_ℤ}
use society_agent.Db.{
  Event, EventFoodPass, Payment, PaymentStatus, AuditLog, pending, partial, paid, refunded,
}
use society_agent.Db.Errors.{
  invalid_event_or_flat, society_mismatch, override_performer_required, no_food_count,
}
use society_agent.Db.Session.{Exec, query, guard, require, pure, finish, ◌>>=◌, ◌>>◌}
use society_agent.Db.Query.{
  find_event, find_flat, find_pass, find_payment, is_pass_of, is_payment_of, add_audit,
}
use society_agent.Workflow.Rules.{add_pass}
use society_agent.Workflow.Permit.{is_truthy, permit, log_override}

-- The keyword arguments of `add_or_update_pass`, and the time at which it runs.
pub record PassInput : Type 0 where
  pub event_id : ℕ
  pub flat_id : ℕ
  pub veg_count : ℤ
  pub jain_count : ℤ
  pub kids_count : ℤ
  pub charge_per_adult : ℤ
  pub charge_per_child : ℤ
  pub performed_by : Option ℕ
  pub override_reason : Option String
  pub now : ℕ

abbrev pub total_persons : PassInput → ℤ
total_persons i = i.veg_count +ℤ i.jain_count +ℤ i.kids_count

abbrev pub total_amount : PassInput → ℤ
total_amount i =
    (i.veg_count +ℤ i.jain_count) *ℤ i.charge_per_adult +ℤ i.kids_count *ℤ i.charge_per_child

-- The event and the flat, of one society.
unfoldable pub require_event_of_flat : ℕ → ℕ → Exec Event
require_event_of_flat event_id flat_id = do
  event ← require (← query (find_event event_id)) invalid_event_or_flat
  flat ← require (← query (find_flat flat_id)) invalid_event_or_flat
  guard (flat.society_id == event.society_id) society_mismatch
  pure event

abbrev pub blank_pass : ℕ → ℕ → EventFoodPass
blank_pass e f = record {
  event_id = e;
  flat_id = f;
  veg_count = 0ℤ;
  jain_count = 0ℤ;
  kids_count = 0ℤ;
  total_amount = 0ℤ;
  is_participating = false;
  is_locked = false;
  updated_at = 0;
}

-- The pass of the flat, new or old, with the counts asked for.
abbrev pub booked_pass : PassInput → Option EventFoodPass → EventFoodPass
booked_pass i found = record (get_or found (blank_pass i.event_id i.flat_id)) {
  veg_count = i.veg_count;
  jain_count = i.jain_count;
  kids_count = i.kids_count;
  total_amount = total_amount i;
  is_participating = true;
  updated_at = i.now;
}

abbrev pub status_for : ℤ → ℤ → PaymentStatus
status_for paid_amount expected =
    if leb_ℤ expected paid_amount then paid else if ltb_ℤ 0ℤ paid_amount then partial else pending

abbrev pub new_payment : ℕ → ℕ → ℤ → Payment
new_payment e f expected = record {
  event_id = e;
  flat_id = f;
  expected_amount = expected;
  paid_amount = 0ℤ;
  status = pending;
  payment_mode = none;
  paid_at = none;
}

-- The payment row after the booking: a new one is pending, an old one is judged again.
abbrev pub expect : ℕ → ℕ → ℤ → Option Payment → Payment
expect e f expected none = new_payment e f expected
expect e f expected (some p) = record p {
  expected_amount = expected;
  status = status_for p.paid_amount expected;
}

pass_audit : Event → PassInput → Option EventFoodPass → AuditLog
pass_audit event i found = record {
  society_id = event.society_id;
  entity_type = "food_pass";
  entity_id = i.flat_id;
  action = if is_some found then "UPDATE_PASS" else "ADD_PASS";
  reason =
      if is_truthy i.override_reason
      then String.◌++◌ "OVERRIDE: " (get_or i.override_reason "")
      else "Normal pass entry";
  performed_by = i.performed_by;
  source = none;
  performed_at = none;
}

unfoldable pub write_pass : Event → PassInput → Exec EventFoodPass
unfolding pass_audit
write_pass event i = do
  guard (ltb_ℤ 0ℤ (total_persons i)) no_food_count
  found ← query (find_pass i.event_id i.flat_id)
  old ← query (find_payment i.event_id i.flat_id)
  finish
      (λ t. add_audit (pass_audit event i found) (record t {
        food_passes = save (is_pass_of i.event_id i.flat_id) (booked_pass i found) t.food_passes;
        payments =
            save (is_payment_of i.event_id i.flat_id)
              (expect i.event_id i.flat_id (total_amount i) old) t.payments;
      }))
      (booked_pass i found)

-- `FoodPassService.add_or_update_pass`
unfoldable pub add_or_update_pass : PassInput → Exec EventFoodPass
add_or_update_pass i = do
  event ← require_event_of_flat i.event_id i.flat_id
  is_override ← permit i.event_id add_pass i.performed_by i.override_reason
  guard (not is_override || is_some i.performed_by) override_performer_required
  log_override is_override event.society_id "food_pass" i.flat_id "ADD_PASS" i.override_reason
      i.performed_by
  write_pass event i

-- The keyword arguments of `mark_not_participating`, and the time at which it runs.
pub record OptOut : Type 0 where
  pub event_id : ℕ
  pub flat_id : ℕ
  pub performed_by : Option ℕ
  pub override_reason : Option String
  pub now : ℕ

-- An old row gets a new time, a new one the database's.
abbrev pub emptied_pass : OptOut → Option EventFoodPass → EventFoodPass
emptied_pass i found = record (get_or found (blank_pass i.event_id i.flat_id)) {
  veg_count = 0ℤ;
  jain_count = 0ℤ;
  kids_count = 0ℤ;
  total_amount = 0ℤ;
  is_participating = false;
  updated_at = i.now;
}

abbrev pub released : ℕ → ℕ → Option Payment → Payment
released e f none = new_payment e f 0ℤ
released e f (some p) = record p {
  expected_amount = 0ℤ;
  status = if ltb_ℤ 0ℤ p.paid_amount then refunded else pending;
}

opt_out_audit : Event → OptOut → AuditLog
opt_out_audit event i = record {
  society_id = event.society_id;
  entity_type = "food_pass";
  entity_id = i.flat_id;
  action = "MARK_NOT_PARTICIPATING";
  reason =
      if is_truthy i.override_reason
      then String.◌++◌ "OVERRIDE: " (
          String.◌++◌ (get_or i.override_reason "")
            " | Payment expected amount reset to 0 due to opt-out")
      else "Flat opted out | Payment expected amount reset to 0 due to opt-out";
  performed_by = i.performed_by;
  source = none;
  performed_at = none;
}

unfoldable pub write_opt_out : Event → OptOut → Exec EventFoodPass
unfolding opt_out_audit
write_opt_out event i = do
  found ← query (find_pass i.event_id i.flat_id)
  old ← query (find_payment i.event_id i.flat_id)
  finish
      (λ t. add_audit (opt_out_audit event i) (record t {
        food_passes = save (is_pass_of i.event_id i.flat_id) (emptied_pass i found) t.food_passes;
        payments =
            save (is_payment_of i.event_id i.flat_id) (released i.event_id i.flat_id old)
              t.payments;
      }))
      (emptied_pass i found)

-- `FoodPassService.mark_not_participating`
unfoldable pub mark_not_participating : OptOut → Exec EventFoodPass
mark_not_participating i = do
  event ← require_event_of_flat i.event_id i.flat_id
  is_override ← permit i.event_id add_pass i.performed_by i.override_reason
  log_override is_override event.society_id "food_pass" i.flat_id "REMOVE_PASS" i.override_reason
      i.performed_by
  write_opt_out event i
