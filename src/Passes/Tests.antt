-- ===== src/Passes/Tests.antt =====
-- Runs of the food pass service, and its theorems at those runs.
use society_agent.Prelude.{◌≡◌, refl, false, none, some, [], ◌∷◌}
use society_agent.Prelude.Int.{pos}
use society_agent.Db.{Payment, PaymentStatus, EventFoodPass, Tables, AuditLog, active, pending}
use society_agent.Db.Errors.{ok}
use society_agent.Fixtures.{tables_in, session_of, food_pass}
use society_agent.Runs.{running}
use society_agent.Payments.Tests.{paid_row, paid_audit, paid_tables}
use society_agent.Passes.Service.{
  PassInput, OptOut, require_event_of_flat, write_pass, add_or_update_pass, write_opt_out,
  mark_not_participating,
}
use society_agent.Passes.Booked.{
  Booked, OptedOut, add_or_update_pass-books, mark_not_participating-releases,
}

-- Two vegetarian meals, by the treasurer.
abbrev pub pass_input : PassInput
pass_input = record {
  event_id = 10;
  flat_id = 20;
  veg_count = pos 2;
  jain_count = pos 0;
  kids_count = pos 0;
  charge_per_adult = pos 300;
  charge_per_child = pos 150;
  performed_by = some 30;
  override_reason = none;
  now = 0;
}

abbrev pub unbooked : Tables
unbooked = record (tables_in active) { food_passes = [] }

abbrev pub owed_row : Payment
owed_row = record {
  event_id = 10;
  flat_id = 20;
  expected_amount = pos 600;
  paid_amount = pos 0;
  status = pending;
  payment_mode = none;
  paid_at = none;
}

abbrev pub pass_log : AuditLog
pass_log = record {
  society_id = 1;
  entity_type = "food_pass";
  entity_id = 20;
  action = "ADD_PASS";
  reason = "Normal pass entry";
  performed_by = some 30;
  source = none;
  performed_at = none;
}

abbrev pub booked_tables : Tables
booked_tables = record unbooked {
  food_passes = food_pass ∷ [];
  payments = owed_row ∷ [];
  audit_logs = pass_log ∷ [];
}

pub add_or_update_pass_run :
    add_or_update_pass pass_input (session_of unbooked) ≡ (ok food_pass, session_of booked_tables)
unfolding running add_or_update_pass require_event_of_flat write_pass
add_or_update_pass_run = refl

add_or_update_pass-books_example : Booked pass_input unbooked food_pass booked_tables
add_or_update_pass-books_example =
    add_or_update_pass-books pass_input (session_of unbooked) add_or_update_pass_run

abbrev opt_out : OptOut
opt_out = record {
  event_id = 10;
  flat_id = 20;
  performed_by = some 30;
  override_reason = none;
  now = 9;
}

abbrev empty_pass : EventFoodPass
empty_pass = record food_pass {
  veg_count = pos 0;
  total_amount = pos 0;
  is_participating = false;
  updated_at = 9;
}

abbrev opt_out_log : AuditLog
opt_out_log = record pass_log {
  action = "MARK_NOT_PARTICIPATING";
  reason = "Flat opted out | Payment expected amount reset to 0 due to opt-out";
}

-- A flat that had paid opts out: its payment row is marked refunded.
abbrev left_tables : Tables
left_tables = record paid_tables {
  food_passes = empty_pass ∷ [];
  payments = record paid_row { expected_amount = pos 0; status = PaymentStatus.refunded } ∷ [];
  audit_logs = paid_audit ∷ opt_out_log ∷ [];
}

mark_not_participating_run :
    mark_not_participating opt_out (session_of paid_tables)
    ≡ (ok empty_pass, session_of left_tables)
unfolding running mark_not_participating require_event_of_flat write_opt_out
mark_not_participating_run = refl

mark_not_participating-releases_example : OptedOut opt_out paid_tables empty_pass left_tables
mark_not_participating-releases_example =
    mark_not_participating-releases opt_out (session_of paid_tables) mark_not_participating_run
