-- ===== src/Payments/Recorded.antt =====
-- What `record_payment` does to the tables, and that it does nothing when it raises.
use society_agent.Prelude.{
  ℕ, String, ◌≡◌, false, Option, some, inl, inr, arith, Option-cases, get_or, save,
}
use society_agent.Prelude.Int.{0ℤ, leb_ℤ}
use society_agent.Validation.{RawId, uuid}
use society_agent.Db.{Event, Flat, Payment, EventFoodPass}
use society_agent.Db.Errors.{ok, pass_not_found}
use society_agent.Db.Session.{Session}
use society_agent.Db.Session.{require, commit, ◌>>=◌}
use society_agent.Db.Query.{find_event, find_flat, find_payment, is_payment_of}
use society_agent.Security.Access.{require_committee_action}
use society_agent.Db.Steps.{bind_elim, require_elim, query-ok, guard_elim, finish-ok}
use society_agent.Db.Atomic.{Quiet, Atomic, quiet_rules, atomic_rules}
use society_agent.Workflow.Permit.{ensure_permitted-Quiet, ensure_permitted-ok}
use society_agent.Payments.Record.{
  PaymentInput, Identifiers, validate_identifiers, authorize, write_payment, record_payment,
  find_participating, credit, fresh_payment,
}

pub validate_identifiers-Quiet :
    (e f p : RawId) (r : Option RawId) → Quiet (validate_identifiers e f p r)
unfolding validate_identifiers
validate_identifiers-Quiet e f p r = search quiet_rules depth 12

pub authorize-Quiet : (right : String) (e f p : ℕ) → Quiet (authorize right e f p)
unfolding authorize
authorize-Quiet right e f p = search quiet_rules depth 14

write_payment-Atomic :
    (event : Event) (ids : Identifiers) (i : PaymentInput) → Atomic (write_payment event ids i)
unfolding write_payment
write_payment-Atomic event ids i = search atomic_rules depth 14

-- A payment that is refused, for whatever reason, or whose commit fails, leaves every committed
-- table as it was.
pub record_payment-Atomic : (i : PaymentInput) → Atomic (record_payment i)
unfolding record_payment
record_payment-Atomic i =
    search
      (
        atomic_rules, validate_identifiers-Quiet, authorize-Quiet, ensure_permitted-Quiet,
        write_payment-Atomic,
      )
      depth 14

pub authorize-ok :
    (right : String) (e f p : ℕ) (s : Session) {event : Event} {s' : Session}
    → authorize right e f p s ≡ (ok event, s')
    → (flat : Flat) × (s' ≡ s)
      × (find_event e s.current ≡ some event)
      × (find_flat f s.current ≡ some flat)
      × (flat.society_id ≡ event.society_id)
      × (require_committee_action event.society_id (some p) right s.current ≡ ok tt)
unfolding authorize require ◌>>=◌
authorize-ok right e f p s h = elim (Option-cases (find_flat f s.current)) [
  | inl missing ↦ absurd (ground arith)
  | inr (flat, found) ↦ (flat, ground arith, ground arith, ground arith, ground arith, ground arith)
]

write_payment-ok :
    (event : Event) (ids : Identifiers) (i : PaymentInput) (s : Session) {pay : Payment}
    {s' : Session}
    → write_payment event ids i s ≡ (ok pay, s')
    → (pass : EventFoodPass) × (find_participating ids.event_id ids.flat_id s.current ≡ some pass)
      × (pay
          ≡ credit i.amount i.payment_mode i.now pass.total_amount (
              get_or
                (find_payment ids.event_id ids.flat_id s.current)
                (fresh_payment ids.event_id ids.flat_id pass.total_amount)))
      × (s'.current ≡ record s.current {
        payments = save (is_payment_of ids.event_id ids.flat_id) pay s.current.payments;
        audit_logs = s'.current.audit_logs;
      })
      × (s'.durable ≡ s'.current)
unfolding write_payment require commit ◌>>=◌
write_payment-ok event ids i s h =
    require_elim (find_participating ids.event_id ids.flat_id s.current) pass_not_found _ s h
      λ pass found h'.
        let (same, seen, kept) = finish-ok _ _ s h' in
        (pass, found, same, ground arith, ground arith)

pub validate_identifiers-ok :
    (e f p : RawId) (r : Option RawId) (s : Session) {ids : Identifiers} {s' : Session}
    → validate_identifiers e f p r s ≡ (ok ids, s')
    → (s' ≡ s) × (e ≡ uuid ids.event_id) × (f ≡ uuid ids.flat_id) × (p ≡ uuid ids.performed_by)
unfolding validate_identifiers ◌>>=◌
validate_identifiers-ok e f p r s h = ground arith

-- A run of `record_payment` that returned: what it found, and what it left.
pub record Recorded (i : PaymentInput) (s : Session) (pay : Payment) (s' : Session) : Type 0 where
  pub ids : Identifiers
  pub event : Event
  pub pass : EventFoodPass
  pub event_id : i.event_id ≡ uuid ids.event_id
  pub flat_id : i.flat_id ≡ uuid ids.flat_id
  pub performer : i.performed_by ≡ uuid ids.performed_by
  pub positive : leb_ℤ i.amount 0ℤ ≡ false
  pub event_found : find_event ids.event_id s.current ≡ some event
  pub permitted :
      require_committee_action event.society_id (some ids.performed_by) "PAY" s.current ≡ ok tt
  pub pass_found : find_participating ids.event_id ids.flat_id s.current ≡ some pass
  pub payment :
      pay
      ≡ credit i.amount i.payment_mode i.now pass.total_amount (
          get_or
            (find_payment ids.event_id ids.flat_id s.current)
            (fresh_payment ids.event_id ids.flat_id pass.total_amount))
  pub written : s'.current ≡ record s.current {
    payments = save (is_payment_of ids.event_id ids.flat_id) pay s.current.payments;
    audit_logs = s'.current.audit_logs;
  }
  pub committed : s'.durable ≡ s'.current

pub record_payment-ok :
    (i : PaymentInput) (s : Session) {pay : Payment} {s' : Session}
    → record_payment i s ≡ (ok pay, s')
    → Recorded i s pay s'
unfolding record_payment
record_payment-ok i s h = bind_elim _ _ s h λ ids t checked h1. guard_elim _ _ _ t h1 λ positive h2.
    guard_elim _ _ _ t (query-ok _ _ t h2) λ approved h3.
      bind_elim _ _ t h3 λ event t1 authorized h4. bind_elim _ _ t1 h4 λ u t2 logged h5.
        let (same, eid, fid, pid) = validate_identifiers-ok _ _ _ _ s checked in
        let (flat, same1, found, _, _, right) = authorize-ok _ _ _ _ t authorized in
        let (audits, _) = ensure_permitted-ok _ _ _ _ _ _ _ t1 logged in
        let (pass, pass_found, payment, written, committed) = write_payment-ok event ids i t2 h5 in
        let before : t2.current ≡ record s.current { audit_logs = t2.current.audit_logs } =
          ground arith in
        record {
          ids = ids;
          event = event;
          pass = pass;
          event_id = eid;
          flat_id = fid;
          performer = pid;
          positive = ground arith;
          event_found = ground arith;
          permitted = ground arith;
          pass_found = unfold find_participating in (rw before at pass_found);
          payment = unfold find_payment in (rw before at payment);
          written = rw before at written;
          committed = committed;
        }
