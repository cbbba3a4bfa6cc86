-- ===== src/Passes/Written.antt =====
-- What the food pass services leave in the tables when they return.
use society_agent.Prelude.{◌≡◌, inl, inr, arith, Option-cases}
use society_agent.Prelude.Int.{0ℤ, ltb_ℤ}
use society_agent.Prelude.{ℕ, true, some, save}
use society_agent.Db.{Event, Flat, EventFoodPass, Payment, Tables}
use society_agent.Db.Errors.{ok}
use society_agent.Db.Session.{Session, require, ◌>>=◌}
use society_agent.Db.Query.{
  find_event, find_flat, find_pass, find_payment, is_pass_of, is_payment_of,
}
use society_agent.Db.Atomic.{Quiet, Atomic, quiet_rules, atomic_rules}
use society_agent.Db.Steps.{bind_elim, guard_elim, query-ok, finish-ok}
use society_agent.Workflow.Permit.{permit-Quiet, log_override-Quiet, log_override-ok, permit-ok}
use society_agent.Passes.Service.{
  PassInput, OptOut, require_event_of_flat, booked_pass, expect, total_amount, total_persons,
  write_pass, add_or_update_pass, emptied_pass, released, write_opt_out, mark_not_participating,
}

pub require_event_of_flat-Quiet : (e f : ℕ) → Quiet (require_event_of_flat e f)
unfolding require_event_of_flat
require_event_of_flat-Quiet e f = search quiet_rules depth 14

write_pass-Atomic : (event : Event) (i : PassInput) → Atomic (write_pass event i)
unfolding write_pass
write_pass-Atomic event i = search atomic_rules depth 14

write_opt_out-Atomic : (event : Event) (i : OptOut) → Atomic (write_opt_out event i)
unfolding write_opt_out
write_opt_out-Atomic event i = search atomic_rules depth 14

-- A booking that raises leaves every committed table as it was.
pub add_or_update_pass-Atomic : (i : PassInput) → Atomic (add_or_update_pass i)
unfolding add_or_update_pass
add_or_update_pass-Atomic i =
    search
      (
        atomic_rules, require_event_of_flat-Quiet, permit-Quiet, log_override-Quiet,
        write_pass-Atomic,
      )
      depth 14

-- An opt-out that raises leaves every committed table as it was.
pub mark_not_participating-Atomic : (i : OptOut) → Atomic (mark_not_participating i)
unfolding mark_not_participating
mark_not_participating-Atomic i =
    search
      (
        atomic_rules, require_event_of_flat-Quiet, permit-Quiet, log_override-Quiet,
        write_opt_out-Atomic,
      )
      depth 14

pub require_event_of_flat-ok :
    (e f : ℕ) (s : Session) {event : Event} {s' : Session}
    → require_event_of_flat e f s ≡ (ok event, s')
    → (flat : Flat) × (s' ≡ s)
      × (find_event e s.current ≡ some event)
      × (find_flat f s.current ≡ some flat)
      × (flat.society_id ≡ event.society_id)
unfolding require_event_of_flat require ◌>>=◌
require_event_of_flat-ok e f s h = elim (Option-cases (find_flat f s.current)) [
  | inl missing ↦ absurd (ground arith)
  | inr (flat, found) ↦ (flat, ground arith, ground arith, ground arith, ground arith)
]

-- The tables after the pass and the payment of a flat were written, and committed.
pub record Written (e f : ℕ) (pass : EventFoodPass) (pay : Payment) (t : Tables) (s' : Session)
    : Type 0 where
  pub written : s'.current ≡ record t {
    food_passes = save (is_pass_of e f) pass t.food_passes;
    payments = save (is_payment_of e f) pay t.payments;
    audit_logs = s'.current.audit_logs;
  }
  pub committed : s'.durable ≡ s'.current

write_pass-ok :
    (event : Event) (i : PassInput) (s : Session) {pass : EventFoodPass} {s' : Session}
    → write_pass event i s ≡ (ok pass, s')
    → (ltb_ℤ 0ℤ (total_persons i) ≡ true)
      × (pass ≡ booked_pass i (find_pass i.event_id i.flat_id s.current))
      × Written i.event_id i.flat_id pass
          (expect i.event_id i.flat_id
            (total_amount i)
            (find_payment i.event_id i.flat_id s.current))
          s.current
          s'
unfolding write_pass
write_pass-ok event i s h = guard_elim _ _ _ s h λ some_person h1.
    let (same, seen, kept) = finish-ok _ _ s (query-ok _ _ s (query-ok _ _ s h1)) in
    (some_person, same, record { written = ground arith; committed = ground arith })

write_opt_out-ok :
    (event : Event) (i : OptOut) (s : Session) {pass : EventFoodPass} {s' : Session}
    → write_opt_out event i s ≡ (ok pass, s')
    → (pass ≡ emptied_pass i (find_pass i.event_id i.flat_id s.current))
      × Written i.event_id i.flat_id pass
          (released i.event_id i.flat_id (find_payment i.event_id i.flat_id s.current))
          s.current
          s'
unfolding write_opt_out
write_opt_out-ok event i s h =
    let (same, seen, kept) = finish-ok _ _ s (query-ok _ _ s (query-ok _ _ s h)) in
    (same, record { written = ground arith; committed = ground arith })

-- The audit rows of an override change nothing that the rest of the service reads.
module _ (e f : ℕ) (t u : Tables) (before : u ≡ record t { audit_logs = u.audit_logs }) where
  same_rows : (find_pass e f u ≡ find_pass e f t) × (find_payment e f u ≡ find_payment e f t)
  unfolding find_pass find_payment
  same_rows = ground (arith, before)

  Written-before :
      {pass : EventFoodPass} {pay : Payment} {s' : Session}
      → Written e f pass pay u s'
      → Written e f pass pay t s'
  Written-before w = record { written = ground (arith, before, w.written); committed = w.committed }

pub add_or_update_pass-ok :
    (i : PassInput) (s : Session) {pass : EventFoodPass} {s' : Session}
    → add_or_update_pass i s ≡ (ok pass, s')
    → (ltb_ℤ 0ℤ (total_persons i) ≡ true)
      × (pass ≡ booked_pass i (find_pass i.event_id i.flat_id s.current))
      × Written i.event_id i.flat_id pass
          (expect i.event_id i.flat_id
            (total_amount i)
            (find_payment i.event_id i.flat_id s.current))
          s.current
          s'
unfolding add_or_update_pass
add_or_update_pass-ok i s h = bind_elim _ _ s h λ event t found h1.
    bind_elim _ _ t h1 λ over t1 permitted h2. guard_elim _ _ _ t1 h2 λ performer h3.
      bind_elim _ _ t1 h3 λ u t2 logged h4.
        let (flat, same1, _, _, _) = require_event_of_flat-ok _ _ s found in
        let (same2, _, _) = permit-ok _ _ _ _ t permitted in
        let (_, audits, _) = log_override-ok _ _ _ _ _ _ _ t1 logged in
        let before : t2.current ≡ record s.current { audit_logs = t2.current.audit_logs } =
          ground (arith, audits, same1, same2) in
        let (pass_same, pay_same) = same_rows i.event_id i.flat_id s.current t2.current before in
        let (persons, row, written) = write_pass-ok event i t2 h4 in
        (
          persons,
          rw pass_same at row,
          Written-before i.event_id i.flat_id s.current t2.current before (rw pay_same at written),
        )

pub mark_not_participating-ok :
    (i : OptOut) (s : Session) {pass : EventFoodPass} {s' : Session}
    → mark_not_participating i s ≡ (ok pass, s')
    → (pass ≡ emptied_pass i (find_pass i.event_id i.flat_id s.current))
      × Written i.event_id i.flat_id pass
          (released i.event_id i.flat_id (find_payment i.event_id i.flat_id s.current))
          s.current
          s'
unfolding mark_not_participating
mark_not_participating-ok i s h = bind_elim _ _ s h λ event t found h1.
    bind_elim _ _ t h1 λ over t1 permitted h2. bind_elim _ _ t1 h2 λ u t2 logged h3.
      let (flat, same1, _, _, _) = require_event_of_flat-ok _ _ s found in
      let (same2, _, _) = permit-ok _ _ _ _ t permitted in
      let (_, audits, _) = log_override-ok _ _ _ _ _ _ _ t1 logged in
      let before : t2.current ≡ record s.current { audit_logs = t2.current.audit_logs } =
        ground (arith, audits, same1, same2) in
      let (pass_same, pay_same) = same_rows i.event_id i.flat_id s.current t2.current before in
      let (row, written) = write_opt_out-ok event i t2 h3 in
      (
        rw pass_same at row,
        Written-before i.event_id i.flat_id s.current t2.current before (rw pay_same at written),
      )
