-- ===== src/Contributions/Tests.antt =====
-- Runs of the contribution services, and their theorems at those runs.
use society_agent.Prelude.{◌≡◌, refl, ℕ, false, none, some, [], ◌∷◌, ◌==◌}
use society_agent.Prelude.Int.{ℤ, pos, ◌+ℤ◌, ◌≤ℤ◌}
use society_agent.Db.{EventContribution, ContributionRefund, RefundStatus, Tables, AuditLog, active}
use society_agent.Db.Errors.{ok}
use society_agent.Fixtures.{tables_in, session_of}
use society_agent.Runs.{running}
use society_agent.Contributions.Service.{
  ContributionInput, next_code, new_contribution, write_contribution, add_contribution,
}
use society_agent.Contributions.Refund.{
  ContributionRefundInput, find_contribution, money_of, repaid_total, write_repayment,
  process_contribution_refund,
}
use society_agent.Contributions.Effects.{process_contribution_refund-repays}
use society_agent.Contributions.Codes.{IsNumbered, contributions_to, add_contribution-codes}

abbrev pub contribution_input : ContributionInput
contribution_input = record {
  event_id = 10;
  contribution_type = "sponsor";
  source_name = "Bakery";
  amount = some (pos 5000);
  in_kind_details = none;
  flat_id = none;
  notes = none;
  performed_by = some 30;
  override_reason = none;
  new_id = 40;
}

abbrev pub contribution : EventContribution
contribution = record {
  id = 40;
  event_id = 10;
  contribution_code = 1;
  contribution_type = "sponsor";
  source_name = "Bakery";
  flat_id = none;
  amount = some (pos 5000);
  in_kind_details = none;
  notes = none;
}

abbrev contribution_log : AuditLog
contribution_log = record {
  society_id = 1;
  entity_type = "event_contribution";
  entity_id = 40;
  action = "ADD_CONTRIBUTION";
  reason = "Via WhatsApp";
  performed_by = some 30;
  source = none;
  performed_at = none;
}

abbrev pub given_tables : Tables
given_tables = record (tables_in active) {
  contributions = contribution ∷ [];
  audit_logs = contribution_log ∷ [];
}

pub add_contribution_run :
    add_contribution contribution_input (session_of (tables_in active))
    ≡ (ok 1, session_of given_tables)
unfolding running add_contribution write_contribution next_code
add_contribution_run = refl

empty-IsNumbered : IsNumbered (tables_in active)
unfolding running contributions_to
empty-IsNumbered e = tt

add_contribution-codes_example :
    (find_contribution 10 1 given_tables ≡ some (new_contribution contribution_input 1))
    × ((e k : ℕ) (c : EventContribution)
        → find_contribution e k (tables_in active) ≡ some c
        → find_contribution e k given_tables ≡ some c)
add_contribution-codes_example =
    add_contribution-codes contribution_input (session_of (tables_in active)) empty-IsNumbered
      add_contribution_run

abbrev pub repayment_input : ContributionRefundInput
repayment_input = record {
  event_id = 10;
  contribution_code = 1;
  amount = pos 2000;
  reason = "stall moved";
  performed_by = some 30;
  override_reason = none;
  new_id = 50;
}

abbrev pub repayment : ContributionRefund
repayment = record {
  id = 50;
  contribution_id = 40;
  amount = pos 2000;
  reason = "stall moved";
  status = RefundStatus.refunded;
}

abbrev pub repaid_tables : Tables
repaid_tables = record given_tables {
  contribution_refunds = repayment ∷ [];
  audit_logs =
      contribution_log
      ∷ record {
        society_id = 1;
        entity_type = "contribution_refund";
        entity_id = 50;
        action = "REFUND_CONTRIBUTION";
        reason = "stall moved";
        performed_by = some 30;
        source = none;
        performed_at = none;
      }
      ∷ [];
}

pub process_contribution_refund_run :
    process_contribution_refund repayment_input (session_of given_tables)
    ≡ (ok repayment, session_of repaid_tables)
unfolding running process_contribution_refund find_contribution money_of repaid_total
    write_repayment
process_contribution_refund_run = refl

process_contribution_refund-repays_example :
    (c : EventContribution) × (amount : ℤ) × (find_contribution 10 1 given_tables ≡ some c)
    × (money_of c ≡ some amount)
    × (repaid_total c.id repaid_tables ≡ repaid_total c.id given_tables +ℤ pos 2000)
    × (repaid_total c.id repaid_tables ≤ℤ amount)
    × ((id : ℕ)
        → (c.id == id) ≡ false
        → repaid_total id repaid_tables ≡ repaid_total id given_tables)
process_contribution_refund-repays_example =
    process_contribution_refund-repays repayment_input (session_of given_tables)
      process_contribution_refund_run
