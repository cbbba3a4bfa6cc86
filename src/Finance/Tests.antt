-- ===== src/Finance/Tests.antt =====
-- A history: a flat books, pays and gets a part back, and a sponsor gives.
use society_agent.Prelude.{◌≡◌, refl, ap, arith, [], ◌∷◌}
use society_agent.Db.{PaymentStatus, Tables}
use society_agent.Db.Errors.{Result}
use society_agent.Db.Session.{Session}
use society_agent.Fixtures.{session_of}
use society_agent.Runs.{running}
use society_agent.Payments.Record.{
  record_payment, validate_identifiers, authorize, approval_request_required, find_participating,
  credit, write_payment,
}
use society_agent.Payments.Refund.{
  refunded_total, write_refund, refund_once, refund_attempts, process_refund,
}
use society_agent.Payments.Effects.{paid_of}
use society_agent.Payments.Tests.{
  payment_input, paid_row, paid_audit, refund_input, refund_row, refund_log,
}
use society_agent.Passes.Tests.{
  pass_input, unbooked, booked_tables, pass_log, add_or_update_pass_run,
}
use society_agent.Contributions.Codes.{contributions_to}
use society_agent.Finance.History.{here, next, books, pays, refunds}
use society_agent.Finance.Invariants.{IsSound, Reach-IsSound}

abbrev settled_tables : Tables
settled_tables = record booked_tables {
  payments = paid_row ∷ [];
  audit_logs = pass_log ∷ paid_audit ∷ [];
}

abbrev closed_tables : Tables
closed_tables = record settled_tables {
  payments = record paid_row { status = PaymentStatus.refunded } ∷ [];
  refunds = refund_row ∷ [];
  audit_logs = pass_log ∷ paid_audit ∷ refund_log ∷ [];
}

pays_run : (record_payment payment_input (session_of booked_tables)).1.durable ≡ settled_tables
unfolding running record_payment validate_identifiers authorize approval_request_required
    find_participating credit write_payment
pays_run = refl

refunds_run : (process_refund refund_input (session_of settled_tables)).1.durable ≡ closed_tables
unfolding running process_refund validate_identifiers authorize approval_request_required
    refund_attempts refund_once write_refund refunded_total
refunds_run = refl

unbooked-IsSound : IsSound unbooked
unfolding running refunded_total paid_of contributions_to
unbooked-IsSound = record {
  solvent = λ e f. omega arith;
  billed = λ e f pass found part. absurd (ground arith);
  numbered = λ e. tt;
}

Reach-IsSound_example : IsSound closed_tables
Reach-IsSound_example =
    Reach-IsSound
      (next
        (next
          (next here (
            books pass_input (record {
              session = session_of unbooked;
              clean = refl;
              before = refl;
              after = ap (λ (r : Result _ × Session). r.1.durable) add_or_update_pass_run;
            })))
          (pays payment_input (record {
            session = session_of booked_tables;
            clean = refl;
            before = refl;
            after = pays_run;
          })))
        (refunds refund_input (record {
          session = session_of settled_tables;
          clean = refl;
          before = refl;
          after = refunds_run;
        })))
      unbooked-IsSound
