-- ===== src/RefundRequests/Created.antt =====
-- What a call of `request_refund` leaves in the tables.
use mathlib.Core.Path.{subst, subst₂}
use society_agent.Prelude.{
  ℕ, String, ◌≡◌, refl, ap, sym, ◌∙◌, Option, none, some, true, false, [], ◌∷◌, ◌++◌, arith,
  find_first-add_self, Bool,
}
use society_agent.Prelude.Int.{ℤ, leb_ℤ, 0ℤ}
use society_agent.Validation.{uuid, validate_uuid}
use society_agent.Db.{Event, UserFlatMapping, RefundRequest, Tables}
use society_agent.Db.Errors.{ok, no_payment}
use society_agent.Db.Session.{Session, pure}
use society_agent.Db.Ran.{IsClean}
use society_agent.Db.Steps.{
  bind_elim, lift_elim, guard_elim, require_elim, flush_elim, query-ok, modify-ok, finish-ok,
  or_rollback-ok,
}
use society_agent.Db.Atomic.{Quiet, Atomic, quiet_rules, atomic_rules}
use society_agent.Workflow.Permit.{permit-Quiet, permit-ok, log_override-Quiet, log_override-ok}
use society_agent.Db.Query.{find_payment}
use society_agent.Requests.Create.{authorize_requester_mapping}
use society_agent.Requests.Created.{authorize_requester_mapping-ok, check_again-ok}
use society_agent.Passes.Written.{require_event_of_flat-ok, require_event_of_flat-Quiet}
use society_agent.Requests.Attempts.{attempt_limit, create_attempts-Quiet, create_attempts-Added}
use society_agent.RefundRequests.Create.{
  RefundRequestInput, is_open_refund, find_open_refund, new_refund_request, add_refund_request,
  create_refund_request, reuse_or_create_refund, request_refund,
}

add_refund_request-Quiet : (r : RefundRequest) → Quiet (add_refund_request r)
unfolding add_refund_request
add_refund_request-Quiet r = search quiet_rules depth 8

-- The tables with one more request.
abbrev with_refund_request : RefundRequest → Tables → Tables
with_refund_request r t = record t { refund_requests = t.refund_requests ++ r ∷ [] }

add_refund_request-ok :
    (new : RefundRequest) (s : Session) (r : RefundRequest) (s' : Session)
    → add_refund_request new s ≡ (ok r, s')
    → (r ≡ new) × (s'.current ≡ with_refund_request new s.current) × (s'.durable ≡ s.durable)
unfolding add_refund_request pure
add_refund_request-ok new s r s' h =
    flush_elim _ _ (modify-ok _ _ s h) λ t seen kept h1. (ground arith, ground arith, ground arith)

-- A pending request of the flat for the amount, and what else the call changed.
pub record Opened (e f : ℕ) (amount : ℤ) (t : Tables) (r : RefundRequest) (t' : Tables)
    : Type 0 where
  pub row : find_open_refund e f amount t' ≡ some r
  pub money_kept : (t'.payments ≡ t.payments) × (t'.refunds ≡ t.refunds)
  pub reused :
      (old : RefundRequest) → find_open_refund e f amount t ≡ some old → (r ≡ old) × (t' ≡ t)

module _ (amount_text : ℤ → String) (id_text : ℕ → String) where
  create_refund_request-ok :
      (event : Event) (i : RefundRequestInput) (e f : ℕ) (m : UserFlatMapping) (b : Bool)
      (s : Session) {r : RefundRequest} {s' : Session}
      → IsClean s
      → create_refund_request amount_text id_text event i e f m b s ≡ (ok r, s')
      → (k : ℕ) × (r ≡ new_refund_request i e f m k)
        × (s'.durable
            ≡ record (with_refund_request r s.durable) { audit_logs = s'.durable.audit_logs })
  unfolding create_refund_request
  create_refund_request-ok event i e f m b s clean h = bind_elim _ _ s h λ new t created h1.
      bind_elim _ _ t h1 λ u t1 checked h2. bind_elim _ _ t1 h2 λ v t2 logged h3.
        let added =
          create_attempts-Added add_refund_request add_refund_request-Quiet with_refund_request
            add_refund_request-ok attempt_limit (new_refund_request i e f m) s clean created in
        let same = check_again-ok b m event f t checked in
        let (_, audits, _) = log_override-ok _ _ _ _ _ _ _ t1 logged in
        let (kept, seen, stored) = finish-ok _ _ t2 (or_rollback-ok _ t2 h3) in
        (added.drawn, kept ∙ added.row, ground (arith, stored, audits, same, added.current, kept))

  own_request :
      (i : RefundRequestInput) (e f : ℕ) (m : UserFlatMapping) (k : ℕ)
      → is_open_refund e f i.amount (new_refund_request i e f m k) ≡ true
  own_request i e f m k = ground arith

  reuse_or_create_refund-ok :
      (event : Event) (i : RefundRequestInput) (e f : ℕ) (m : UserFlatMapping) (b : Bool)
      (o : Option RefundRequest) (s : Session) {r : RefundRequest} {s' : Session}
      → IsClean s
      → find_open_refund e f i.amount s.durable ≡ o
      → reuse_or_create_refund amount_text id_text event i e f m b o s ≡ (ok r, s')
      → Opened e f i.amount s.durable r s'.durable
  unfolding reuse_or_create_refund pure find_open_refund
  reuse_or_create_refund-ok event i e f m b (some old) s {r} {s'} clean found h =
      let same : r ≡ old = ground arith in
      let still : s'.durable ≡ s.durable = ground arith in
      record {
        row = rw (still, found) (ap some (sym same));
        money_kept = (rw still refl, rw still refl);
        reused = λ x seen. (ground (arith, seen, found, same), still);
      }
  reuse_or_create_refund-ok event i e f m b none s {r} {s'} clean found h =
      let (k, row, stored) = create_refund_request-ok event i e f m b s clean h in
      record {
        row = rw stored (
            find_first-add_self (is_open_refund e f i.amount) s.durable.refund_requests r found
              (rw row (own_request i e f m k)));
        money_kept = (rw stored refl, rw stored refl);
        reused = λ x seen. absurd (ground (arith, seen, found));
      }

  -- A call that returns is for a positive amount and leaves, in the committed tables, a pending
  -- request of the flat for the amount, which it returns, and every payment and refund as it was. If there was
  -- such a request before, it returns that one and commits nothing. It starts in a session with no
  -- uncommitted change.
  pub request_refund-opens :
      (i : RefundRequestInput) (e f : ℕ) (s : Session) {r : RefundRequest} {s' : Session}
      → IsClean s
      → i.event_id ≡ uuid e
      → i.flat_id ≡ uuid f
      → request_refund amount_text id_text i s ≡ (ok r, s')
      → (leb_ℤ i.amount 0ℤ ≡ false) × Opened e f i.amount s.durable r s'.durable
  unfolding request_refund validate_uuid
  request_refund-opens i e f s {r} {s'} clean eid fid h = lift_elim _ _ s h λ e1 e_read h1.
      lift_elim _ _ s h1 λ f1 f_read h2. guard_elim _ _ _ s h2 λ positive h3.
        bind_elim _ _ s h3 λ event t found h4. bind_elim _ _ t (query-ok _ _ t h4) λ m t1 mapped h5.
          bind_elim _ _ t1 h5 λ over t2 permitted h6.
            require_elim (find_payment e1 f1 t2.current) no_payment _ t2 (query-ok _ _ t2 h6)
              λ payment paid h7. guard_elim _ _ _ t2 h7 λ some_paid h8.
                let (_, same, _, _, _) = require_event_of_flat-ok _ _ s found in
                let same1 = authorize_requester_mapping-ok _ event f1 t mapped in
                let (same2, _, _) = permit-ok _ _ _ _ t1 permitted in
                let still : t2 ≡ s = same2 ∙ same1 ∙ same in
                let tidy : IsClean t2 = subst IsClean (sym still) clean in
                let opened =
                  reuse_or_create_refund-ok event i e1 f1 m over _ t2 tidy
                    (ap (find_open_refund e1 f1 i.amount) (sym tidy)) (query-ok _ _ t2 h8) in
                let same_e : e1 ≡ e = ground (arith, e_read, eid) in
                let same_f : f1 ≡ f = ground (arith, f_read, fid) in
                (
                  ground arith,
                  subst (λ x. Opened e f i.amount x r s'.durable)
                      (ap (λ (x : Session). x.durable) still)
                      (subst₂ (λ a b. Opened a b i.amount t2.durable r s'.durable) same_e same_f
                        opened),
                )

  create_refund_request-Atomic :
      (event : Event) (i : RefundRequestInput) (e f : ℕ) (m : UserFlatMapping) (b : Bool)
      → Atomic (create_refund_request amount_text id_text event i e f m b)
  unfolding create_refund_request authorize_requester_mapping
  create_refund_request-Atomic event i e f m b =
      search
        (
          atomic_rules,
          create_attempts-Quiet add_refund_request add_refund_request-Quiet,
          log_override-Quiet,
        )
        depth 14

  reuse_or_create_refund-Atomic :
      (event : Event) (i : RefundRequestInput) (e f : ℕ) (m : UserFlatMapping) (b : Bool)
      (o : Option RefundRequest)
      → Atomic (reuse_or_create_refund amount_text id_text event i e f m b o)
  unfolding reuse_or_create_refund pure
  reuse_or_create_refund-Atomic event i e f m b (some r) = record { at = λ s. tt }
  reuse_or_create_refund-Atomic event i e f m b none = create_refund_request-Atomic event i e f m b

  -- A call that raises, for whatever reason, all codes taken and a failed commit included, leaves every
  -- committed table as it was.
  pub request_refund-Atomic :
      (i : RefundRequestInput) → Atomic (request_refund amount_text id_text i)
  unfolding request_refund authorize_requester_mapping
  request_refund-Atomic i =
      search
        (atomic_rules, require_event_of_flat-Quiet, permit-Quiet, reuse_or_create_refund-Atomic)
        depth 16
