-- ===== src/Payments/Committed.antt =====
-- A refund that returns has committed all that it wrote, after any retries.
use society_agent.Prelude.{
  ℕ, zero, suc, ◌≡◌, refl, ◌∙◌, sym, inl, inr, Bool-cases, ltb, ◌&&◌, arith,
}
use society_agent.Db.{Event, Refund}
use society_agent.Db.Errors.{Result, ok, err}
use society_agent.Db.Session.{Session, rolled_back}
use society_agent.Db.Ran.{IsClean}
use society_agent.Db.Steps.{
  bind_elim, guard_elim, require_elim, flush_elim, query-ok, modify-ok, finish-ok,
}
use society_agent.Payments.Record.{Identifiers}
use society_agent.Payments.Refund.{
  RefundInput, write_refund, refund_once, is_serialization, handle, refund_attempts, retry_limit,
  process_refund,
}

write_refund-IsClean :
    (event : Event) (ids : Identifiers) (i : RefundInput) (s : Session) {refund : Refund}
    {s' : Session}
    → write_refund event ids i s ≡ (ok refund, s')
    → IsClean s'
unfolding write_refund
write_refund-IsClean event ids i s h = require_elim _ _ _ s (query-ok _ _ s h) λ payment found h1.
    guard_elim _ _ _ s h1 λ some_paid h2. guard_elim _ _ _ s (query-ok _ _ s h2) λ covered h3.
      flush_elim _ _ (modify-ok _ _ s h3) λ t seen kept h4.
        guard_elim _ _ _ t (query-ok _ _ t h4) λ covered_after h5.
          let (_, current, durable) = finish-ok _ _ t h5 in current ∙ sym durable

refund_once-IsClean :
    (ids : Identifiers) (i : RefundInput) (s : Session) {refund : Refund} {s' : Session}
    → refund_once ids i s ≡ (ok refund, s')
    → IsClean s'
unfolding refund_once
refund_once-IsClean ids i s h = bind_elim _ _ s h λ event t authorized h1.
    bind_elim _ _ t h1 λ u t1 logged h2. write_refund-IsClean event ids i t1 h2

handle-IsClean :
    (n : ℕ) (ids : Identifiers) (i : RefundInput) (s : Session)
    (first again : Result Refund × Session) {refund : Refund} {s' : Session}
    → refund_once ids i s ≡ first
    → (again ≡ (ok refund, s') → IsClean s')
    → handle n first again ≡ (ok refund, s')
    → IsClean s'
handle-IsClean n ids i s (ok x, t) again e next h = refund_once-IsClean ids i s (e ∙ h)
handle-IsClean n ids i s (err x, t) again e next h =
    elim (Bool-cases (is_serialization x && ltb 0 n)) [
      | inl retried ↦ next (rw retried at h)
      | inr given_up ↦ absurd (ground arith)
    ]

refund_attempts-IsClean :
    (n : ℕ) (ids : Identifiers) (i : RefundInput) (s : Session) {refund : Refund} {s' : Session}
    → refund_attempts n ids i s ≡ (ok refund, s')
    → IsClean s'
unfolding refund_attempts
refund_attempts-IsClean zero ids i s h = cc
refund_attempts-IsClean (suc n) ids i s h =
    handle-IsClean n ids i s (refund_once ids i s) _ refl
      (refund_attempts-IsClean n ids i (rolled_back (refund_once ids i s).1)) h

pub process_refund-IsClean :
    (i : RefundInput) (s : Session) {refund : Refund} {s' : Session}
    → process_refund i s ≡ (ok refund, s')
    → IsClean s'
unfolding process_refund
process_refund-IsClean i s h = bind_elim _ _ s h λ ids t checked h1.
    guard_elim _ _ _ t h1 λ positive h2.
      guard_elim _ _ _ t (query-ok _ _ t h2)
        λ approved h3. refund_attempts-IsClean retry_limit ids i t h3
