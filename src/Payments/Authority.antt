-- ===== src/Payments/Authority.antt =====
-- Who records payments.
use society_agent.Prelude.{true, ℕ, ◌≡◌, ◌⊎◌, some, arith}
use society_agent.Validation.{uuid}
use society_agent.Db.{Event, CommitteeMember, Payment}
use society_agent.Db.Errors.{ok}
use society_agent.Db.Session.{Session}
use society_agent.Db.Query.{find_event}
use society_agent.Security.Access.{find_active_member, normal_role}
use society_agent.Security.Guarantees.{
  find_active_member_sound, require_committee_action-granted, money_roles,
}
use society_agent.Payments.Record.{PaymentInput, record_payment}
use society_agent.Payments.Recorded.{Recorded, record_payment-ok}

-- A payment that is recorded was recorded by a member of the committee of the event's society, found
-- by the given id, whose row is active and whose role is chairman or treasurer.
pub record_payment-role :
    (i : PaymentInput) (e p : ℕ) (s : Session) {pay : Payment} {s' : Session}
    → i.event_id ≡ uuid e
    → i.performed_by ≡ uuid p
    → record_payment i s ≡ (ok pay, s')
    → (event : Event) × (m : CommitteeMember) × (find_event e s.current ≡ some event)
      × (find_active_member event.society_id p s.current ≡ some m)
      × ((m.id ≡ p) × (m.society_id ≡ event.society_id) × (m.is_active ≡ true))
      × ((normal_role m ≡ "chairman") ⊎ (normal_role m ≡ "treasurer"))
record_payment-role i e p s {pay} {s'} eid pid h =
    let r : Recorded i s pay s' = record_payment-ok i s h in
    let same_event : r.ids.event_id ≡ e = ground (arith, r.event_id) in
    let (id, m, given, found, _, allowed) =
      (require_committee_action-granted r.event.society_id (some r.ids.performed_by) "PAY"
          s.current).0
        r.permitted in
    let same_member : id ≡ p = ground (arith, given, r.performer) in
    (
      r.event,
      m,
      rw same_event at r.event_found,
      rw same_member at found,
      find_active_member_sound r.event.society_id p s.current (rw same_member at found),
      (money_roles (normal_role m)).0.0 allowed,
    )
