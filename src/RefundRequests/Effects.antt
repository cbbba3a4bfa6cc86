-- ===== src/RefundRequests/Effects.antt =====
-- What an approval of a refund request and a rejection leave in the tables.
use mathlib.Core.Path.{subst}
use society_agent.Prelude.{
  sym, ◌∙◌, ℕ, String, ◌≡◌, ap, Option, some, arith, find_first, find_first_sound,
  find_first-save_self, save, ◌==◌, refl, true, false,
}
use society_agent.Prelude.Int.{ℤ}
use society_agent.Validation.{RawId, uuid, validate_uuid}
use society_agent.Db.{Refund, RefundRequest, RequestStatus, Tables}
use society_agent.Db.Errors.{ok, err, no_request, request_not_pending}
use society_agent.Db.Session.{Session, require, ◌>>=◌}
use society_agent.Db.Query.{find_payment}
use society_agent.Db.Ran.{IsClean}
use society_agent.Db.Steps.{
  bind_elim, lift_elim, require_elim, guard_elim, query-ok, finish-ok, or_rollback-ok,
}
use society_agent.Payments.Effects.{paid_of}
use society_agent.Payments.Refund.{refunded_total}
use society_agent.Payments.Committed.{process_refund-IsClean}
use society_agent.Payments.Solvency.{Debited, process_refund-debits}
use society_agent.Requests.Service.{is_requested}
use society_agent.Requests.Effects.{get_event_society_id-ok, is_requested-cases}
use society_agent.RefundRequests.Service.{
  find_refund_request, approved_refund_input, approved_refund_request, rejected_refund_request,
  approve_refund_request, reject_refund_request,
}

-- Tables with the same payments and refunds.
Debited-after :
    {e f : ℕ} {amount : ℤ} {t : Tables} (t1 t' : Tables)
    → t'.payments ≡ t1.payments
    → t'.refunds ≡ t1.refunds
    → Debited e f amount t t1
    → Debited e f amount t t'
unfolding find_payment paid_of refunded_total
Debited-after t1 t' same more d = record {
  raised = rw more d.raised;
  covered = rw (same, more) d.covered;
  payment = d.payment;
  row = d.row;
  marked = rw same d.marked;
  others = λ e' f' ne. rw (same, more) (d.others e' f' ne);
}

-- An approval that returned.
pub record Approved (id p now : ℕ) (t t' : Tables) : Type 0 where
  pub request : RefundRequest
  pub found : find_refund_request id t ≡ some request
  pub pending : request.status ≡ RequestStatus.requested
  pub debited : Debited request.event_id request.flat_id request.amount t t'
  pub answered :
      find_refund_request id t'
      ≡ some (record request {
        status = RequestStatus.approved;
        approved_by = some p;
        approved_at = some now;
      })

answer_found :
    (id : ℕ) (r new : RefundRequest) (t : Tables)
    → r.id ≡ id
    → new.id ≡ r.id
    → find_first (λ row. row.id == id) (save (λ row. row.id == r.id) new t.refund_requests)
      ≡ some new
answer_found id r new t same_id kept =
    let key : (new.id == r.id) ≡ true = ground (arith, kept) in
    subst
      (λ k.
        find_first (λ row. row.id == k) (save (λ row. row.id == r.id) new t.refund_requests)
        ≡ some new)
      same_id (find_first-save_self (λ row. row.id == r.id) new t.refund_requests key)

module _ (amount_text : ℤ → String) (id_text : ℕ → String) where
  -- An approval of a refund request that returns answers a request that was pending: what the flat has
  -- been refunded rises by its amount, within what the flat has paid, and the request's
  -- row has the status approved, the performer and the time, and is else as it was, in the committed
  -- tables. It starts in a session with no uncommitted change.
  pub approve_refund_request-approves :
      (id p now : ℕ) (s : Session) {refund : Refund} {s' : Session}
      → IsClean s
      → approve_refund_request amount_text id_text id (uuid p) now s ≡ (ok refund, s')
      → Approved id p now s.durable s'.durable
  unfolding approve_refund_request validate_uuid find_refund_request
  approve_refund_request-approves id p now s {refund} {s'} clean h = lift_elim _ _ s h λ q given h1.
      require_elim (find_first (λ row. row.id == id) s.current.refund_requests) no_request _ s
        (query-ok _ _ s h1)
        λ r found h2. guard_elim _ _ _ s h2 λ waiting h3. bind_elim _ _ s h3 λ soc t1 of_event h4.
          lift_elim _ _ t1 (query-ok _ _ t1 h4) λ u permitted h5.
            bind_elim _ _ t1 h5 λ paid t2 processed h6.
              let (_, seen, stored) = finish-ok _ _ t2 (or_rollback-ok _ t2 h6) in
              let still = get_event_society_id-ok _ s of_event in
              let same_id : r.id ≡ id =
                ground
                  (arith, find_first_sound (λ row. row.id == id) s.current.refund_requests found) in
              let same_p : q ≡ p = ground (arith, given) in
              let tidy : IsClean t1 = subst IsClean (sym still) clean in
              let i = approved_refund_input r (uuid p) in
              let debit : Debited r.event_id r.flat_id r.amount t1.durable t2.durable =
                process_refund-debits i r.event_id r.flat_id t1 tidy refl refl processed in
              let wrote = process_refund-IsClean i t1 processed in
              let after =
                Debited-after t2.durable s'.durable (ground (arith, stored, wrote))
                  (ground (arith, stored, wrote)) debit in
              record {
                request = r;
                found = rw clean at found;
                pending = is_requested-cases r.status waiting;
                debited =
                    subst (λ x. Debited r.event_id r.flat_id r.amount x s'.durable)
                      (ap (λ (x : Session). x.durable) still) after;
                answered =
                    rw (stored, same_p)
                      (answer_found id r (approved_refund_request r p now) t2.current same_id refl);
              }

  waiting_only :
      (id q later : ℕ) (t : Session) (r : RefundRequest)
      → find_refund_request id t.current ≡ some r
      → is_requested r.status ≡ false
      → (approve_refund_request amount_text id_text id (uuid q) later t).0 ≡ err request_not_pending
  unfolding approve_refund_request validate_uuid require ◌>>=◌
  waiting_only id q later t r found answered = rw (found, answered) refl

  -- A refund request is approved once: when an approval has returned, every later one raises, as long
  -- as the request's row is as the approval left it.
  pub approve_refund_request-once :
      (id p now : ℕ) (s : Session) {refund : Refund} {s' : Session} (q later : ℕ) (t : Session)
      → IsClean s
      → approve_refund_request amount_text id_text id (uuid p) now s ≡ (ok refund, s')
      → find_refund_request id t.current ≡ find_refund_request id s'.durable
      → (approve_refund_request amount_text id_text id (uuid q) later t).0 ≡ err request_not_pending
  approve_refund_request-once id p now s {refund} {s'} q later t clean h same =
      let a : Approved id p now s.durable s'.durable =
        approve_refund_request-approves id p now s clean h in
      waiting_only id q later t _ (same ∙ a.answered) refl

  -- A rejection that returns sets the status of the request's row to rejected and nothing else of the
  -- row, whatever the status was, and changes no payment and no refund.
  pub reject_refund_request-rejects :
      (id : ℕ) (performed_by : RawId) (reason : Option String) (s : Session) {s' : Session}
      → reject_refund_request amount_text id_text id performed_by reason s ≡ (ok tt, s')
      → (r : RefundRequest) × (find_refund_request id s.current ≡ some r)
        × (find_refund_request id s'.durable ≡ some (record r { status = RequestStatus.rejected }))
        × (s'.durable.payments ≡ s.current.payments)
        × (s'.durable.refunds ≡ s.current.refunds)
  unfolding reject_refund_request find_refund_request
  reject_refund_request-rejects id performed_by reason s {s'} h = lift_elim _ _ s h λ q given h1.
      require_elim (find_first (λ row. row.id == id) s.current.refund_requests) no_request _ s
        (query-ok _ _ s h1)
        λ r found h2. bind_elim _ _ s h2 λ soc t1 of_event h3.
          lift_elim _ _ t1 (query-ok _ _ t1 h3) λ u permitted h4.
            let (_, seen, stored) = finish-ok _ _ t1 h4 in
            let still = get_event_society_id-ok _ s of_event in
            let same_id : r.id ≡ id =
              ground
                (arith, find_first_sound (λ row. row.id == id) s.current.refund_requests found) in
            (
              r,
              found,
              rw stored (answer_found id r (rejected_refund_request r) t1.current same_id refl),
              ground (arith, stored, still),
              ground (arith, stored, still),
            )
