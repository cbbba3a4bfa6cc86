-- ===== src/Requests/Effects.antt =====
-- What an approval and a rejection leave in the tables.
use mathlib.Core.Path.{subst, subst₂}
use society_agent.Prelude.{
  sym, save, false, ◌∙◌, ℕ, String, ◌≡◌, ap, Option, some, arith, find_first, find_first_sound,
  find_first-save_self, ◌==◌, refl, true,
}
use society_agent.Prelude.Int.{ℤ}
use society_agent.Validation.{RawId, uuid, validate_uuid}
use society_agent.Db.{Payment, PaymentRequest, RequestStatus, Tables}
use society_agent.Db.Errors.{ok, err, no_request, request_not_pending}
use society_agent.Db.Session.{Session, require, ◌>>=◌}
use society_agent.Db.Query.{find_payment}
use society_agent.Db.Steps.{
  bind_elim, lift_elim, require_elim, guard_elim, query-ok, finish-ok, or_rollback-ok,
}
use society_agent.Payments.Recorded.{Recorded, record_payment-ok}
use society_agent.Payments.Effects.{paid_of, Credited, record_payment-credits}
use society_agent.Requests.Service.{
  find_request, get_event_society_id, is_requested, approved_input, approved_request,
  rejected_request, approve_request, reject_request,
}

pub get_event_society_id-ok :
    (e : ℕ) (s : Session) {soc : ℕ} {s' : Session}
    → get_event_society_id e s ≡ (ok soc, s')
    → s' ≡ s
unfolding get_event_society_id require ◌>>=◌
get_event_society_id-ok e s h = ground arith

-- Tables with the same payments.
Credited-after :
    {e f : ℕ} {amount : ℤ} {t : Tables} {pay : Payment} (t1 t' : Tables)
    → t'.payments ≡ t1.payments
    → Credited e f amount t pay t1
    → Credited e f amount t pay t'
unfolding find_payment paid_of
Credited-after t1 t' same c = record {
  row = rw same c.row;
  raised = rw same c.raised;
  pass = c.pass;
  taking_part = c.taking_part;
  status = rw same c.status;
  others = λ e' f' ne. rw same (c.others e' f' ne);
}

-- An approval that returned.
pub record Approved (id p now : ℕ) (t : Tables) (pay : Payment) (t' : Tables) : Type 0 where
  pub request : PaymentRequest
  pub found : find_request id t ≡ some request
  pub pending : request.status ≡ RequestStatus.requested
  pub credited : Credited request.event_id request.flat_id request.amount t pay t'
  pub answered :
      find_request id t'
      ≡ some (record request {
        status = RequestStatus.approved;
        approved_by = some p;
        approved_at = some now;
      })

pub is_requested-cases :
    (st : RequestStatus) → is_requested st ≡ true → st ≡ RequestStatus.requested
is_requested-cases RequestStatus.requested h = refl
is_requested-cases RequestStatus.approved h = cc
is_requested-cases RequestStatus.rejected h = cc

Recorded-requests :
    {i : _} {s : Session} {pay : Payment} {s' : Session}
    → Recorded i s pay s'
    → s'.current.payment_requests ≡ s.current.payment_requests
Recorded-requests r = rw r.written refl

answer_found :
    (id : ℕ) (r new : PaymentRequest) (t : Tables)
    → r.id ≡ id
    → new.id ≡ r.id
    → find_first (λ row. row.id == id) (save (λ row. row.id == r.id) new t.payment_requests)
      ≡ some new
answer_found id r new t same_id kept =
    let key : (new.id == r.id) ≡ true = ground (arith, kept) in
    subst
      (λ k.
        find_first (λ row. row.id == k) (save (λ row. row.id == r.id) new t.payment_requests)
        ≡ some new)
      same_id (find_first-save_self (λ row. row.id == r.id) new t.payment_requests key)

module _ (amount_text : ℤ → String) (id_text : ℕ → String) where
  -- An approval that returns answers a request that was pending: the flat is credited with the amount
  -- of the request, once, and the request's row has the status approved, the performer and the time,
  -- and is else as it was, in the committed tables.
  pub approve_request-approves :
      (id p now : ℕ) (s : Session) {pay : Payment} {s' : Session}
      → approve_request amount_text id_text id (uuid p) now s ≡ (ok pay, s')
      → Approved id p now s.current pay s'.durable
  unfolding approve_request validate_uuid find_request
  approve_request-approves id p now s {pay} {s'} h = lift_elim _ _ s h λ q given h1.
      require_elim (find_first (λ row. row.id == id) s.current.payment_requests) no_request _ s
        (query-ok _ _ s h1)
        λ r found h2. guard_elim _ _ _ s h2 λ waiting h3. bind_elim _ _ s h3 λ soc t1 of_event h4.
          lift_elim _ _ t1 (query-ok _ _ t1 h4) λ u permitted h5.
            bind_elim _ _ t1 h5 λ paid t2 recorded h6.
              let (same, seen, stored) = finish-ok _ _ t2 (or_rollback-ok _ t2 h6) in
              let same1 = get_event_society_id-ok _ s of_event in
              let same_id : r.id ≡ id =
                ground (
                  arith,
                  find_first_sound (λ row. row.id == id) s.current.payment_requests found,
                ) in
              let same_p : q ≡ p = ground (arith, given) in
              let i = approved_input r (uuid p) now in
              let kept = Recorded-requests (record_payment-ok i t1 recorded) in
              let credit : Credited r.event_id r.flat_id r.amount t1.current paid t2.durable =
                record_payment-credits i r.event_id r.flat_id t1 refl refl recorded in
              let wrote = (record_payment-ok i t1 recorded).committed in
              record {
                request = r;
                found = found;
                pending = is_requested-cases r.status waiting;
                credited =
                    subst₂ (λ a b. Credited r.event_id r.flat_id r.amount a b s'.durable)
                      (ap (λ (x : Session). x.current) same1) (sym same)
                      (Credited-after t2.durable s'.durable (ground (arith, stored, wrote)) credit);
                answered =
                    rw (stored, same_p)
                      (answer_found id r (approved_request r p now) t2.current same_id refl);
              }

  waiting_only :
      (id q later : ℕ) (t : Session) (r : PaymentRequest)
      → find_request id t.current ≡ some r
      → is_requested r.status ≡ false
      → (approve_request amount_text id_text id (uuid q) later t).0 ≡ err request_not_pending
  unfolding approve_request validate_uuid require ◌>>=◌
  waiting_only id q later t r found answered = rw (found, answered) refl

  -- A request is approved once: when an approval has returned, every later one raises, as long as the
  -- request's row is as the approval left it.
  pub approve_request-once :
      (id p now : ℕ) (s : Session) {pay : Payment} {s' : Session} (q later : ℕ) (t : Session)
      → approve_request amount_text id_text id (uuid p) now s ≡ (ok pay, s')
      → find_request id t.current ≡ find_request id s'.durable
      → (approve_request amount_text id_text id (uuid q) later t).0 ≡ err request_not_pending
  approve_request-once id p now s {pay} {s'} q later t h same =
      let a : Approved id p now s.current pay s'.durable = approve_request-approves id p now s h in
      waiting_only id q later t _ (same ∙ a.answered) refl

  -- A rejection that returns sets the status of the request's row to rejected and nothing else of the
  -- row, whatever the status was, and changes no payment.
  pub reject_request-rejects :
      (id : ℕ) (performed_by : RawId) (reason : Option String) (s : Session) {s' : Session}
      → reject_request amount_text id_text id performed_by reason s ≡ (ok tt, s')
      → (r : PaymentRequest) × (find_request id s.current ≡ some r)
        × (find_request id s'.durable ≡ some (record r { status = RequestStatus.rejected }))
        × (s'.durable.payments ≡ s.current.payments)
  unfolding reject_request find_request
  reject_request-rejects id performed_by reason s {s'} h = lift_elim _ _ s h λ q given h1.
      require_elim (find_first (λ row. row.id == id) s.current.payment_requests) no_request _ s
        (query-ok _ _ s h1)
        λ r found h2. bind_elim _ _ s h2 λ soc t1 of_event h3.
          lift_elim _ _ t1 (query-ok _ _ t1 h3) λ u permitted h4.
            let (_, seen, stored) = finish-ok _ _ t1 h4 in
            let same1 = get_event_society_id-ok _ s of_event in
            let same_id : r.id ≡ id =
              ground
                (arith, find_first_sound (λ row. row.id == id) s.current.payment_requests found) in
            (
              r,
              found,
              rw stored (answer_found id r (rejected_request r) t1.current same_id refl),
              ground (arith, stored, same1),
            )
