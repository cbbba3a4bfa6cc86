-- ===== src/Payments/Retries.antt =====
-- The retries of `process_refund`: each attempt starts from what is committed.
use society_agent.Prelude.{
  ℕ, zero, suc, ◌≡◌, refl, ◌∙◌, false, ◌&&◌, inl, inr, ltb, arith, Bool-cases,
}
use society_agent.Validation.{uuid}
use society_agent.Db.{Refund}
use society_agent.Db.Errors.{Error, Result, ok, err}
use society_agent.Db.Session.{Session, rolled_back}
use society_agent.Db.Steps.{bind_elim, query-ok, guard_elim}
use society_agent.Db.Atomic.{Atomic, Ended, Ended-from, atomic_rules}
use society_agent.Db.Ran.{IsClean}
use society_agent.Payments.Record.{Identifiers}
use society_agent.Payments.Recorded.{validate_identifiers-ok, validate_identifiers-Quiet}
use society_agent.Payments.Refund.{
  RefundInput, refund_once, refund_attempts, retry_limit, handle, is_serialization, process_refund,
}
use society_agent.Payments.Refunded.{Refunded, refund_once-ok, refund_once-Atomic}
use society_agent.Prelude.Int.{0ℤ, leb_ℤ}

err-durable :
    (ids : Identifiers) (i : RefundInput) (s : Session) {e : Error} {t : Session}
    → refund_once ids i s ≡ (err e, t)
    → t.durable ≡ s.durable
err-durable ids i s h = rw h at ((refund_once-Atomic ids i).at s)

handle-ok :
    (n : ℕ) (ids : Identifiers) (i : RefundInput) (s : Session)
    (first again : Result Refund × Session) {refund : Refund} {s' : Session}
    → refund_once ids i s ≡ first
    → IsClean s
    → (again ≡ (ok refund, s') → Refunded ids i first.1.durable refund s'.durable)
    → handle n first again ≡ (ok refund, s')
    → Refunded ids i s.durable refund s'.durable
handle-ok n ids i s (ok x, t) again {refund} {s'} e clean next h =
    rw clean at (refund_once-ok ids i s (e ∙ h))
handle-ok n ids i s (err x, t) again {refund} {s'} e clean next h =
    elim (Bool-cases (is_serialization x && ltb 0 n)) [
      | inl retried ↦ rw (err-durable ids i s e) at (next (rw retried at h))
      | inr given_up ↦ absurd (ground arith)
    ]

pub refund_attempts-ok :
    (n : ℕ) (ids : Identifiers) (i : RefundInput) (s : Session) {refund : Refund} {s' : Session}
    → IsClean s
    → refund_attempts n ids i s ≡ (ok refund, s')
    → Refunded ids i s.durable refund s'.durable
unfolding refund_attempts
refund_attempts-ok zero ids i s clean h = cc
refund_attempts-ok (suc n) ids i s clean h =
    handle-ok n ids i s (refund_once ids i s) _ refl clean
      (refund_attempts-ok n ids i (rolled_back (refund_once ids i s).1) refl) h

handle-Ended :
    (n : ℕ) (ids : Identifiers) (i : RefundInput) (s : Session)
    (first again : Result Refund × Session)
    → refund_once ids i s ≡ first
    → Ended first.1 again
    → Ended s (handle n first again)
handle-Ended n ids i s (ok x, t) again e next = tt
handle-Ended n ids i s (err x, t) again e next = elim (Bool-cases (is_serialization x && ltb 0 n)) [
  | inl retried ↦ rw retried (Ended-from again s t (err-durable ids i s e) next)
  | inr given_up ↦ rw given_up (err-durable ids i s e)
]

refund_attempts-Ended :
    (n : ℕ) (ids : Identifiers) (i : RefundInput) (s : Session)
    → Ended s (refund_attempts n ids i s)
unfolding refund_attempts
refund_attempts-Ended zero ids i s = refl
refund_attempts-Ended (suc n) ids i s =
    handle-Ended n ids i s (refund_once ids i s) _ refl
      (refund_attempts-Ended n ids i (rolled_back (refund_once ids i s).1))

refund_attempts-Atomic :
    (n : ℕ) (ids : Identifiers) (i : RefundInput) → Atomic (refund_attempts n ids i)
refund_attempts-Atomic n ids i = record { at = refund_attempts-Ended n ids i }

-- A refund that is refused, or whose attempts all fail, leaves every committed table as it was.
pub process_refund-Atomic : (i : RefundInput) → Atomic (process_refund i)
unfolding process_refund
process_refund-Atomic i =
    search (atomic_rules, validate_identifiers-Quiet, refund_attempts-Atomic) depth 14

-- A run that returned, with its identifiers.
pub record Processed (i : RefundInput) (s : Session) (refund : Refund) (s' : Session) : Type 0 where
  pub ids : Identifiers
  pub event_id : i.event_id ≡ uuid ids.event_id
  pub flat_id : i.flat_id ≡ uuid ids.flat_id
  pub positive : leb_ℤ i.amount 0ℤ ≡ false
  pub refunded : Refunded ids i s.durable refund s'.durable

pub process_refund-ok :
    (i : RefundInput) (s : Session) {refund : Refund} {s' : Session}
    → IsClean s
    → process_refund i s ≡ (ok refund, s')
    → Processed i s refund s'
unfolding process_refund
process_refund-ok i s clean h = bind_elim _ _ s h λ ids t checked h1.
    guard_elim _ _ _ t h1 λ positive h2. guard_elim _ _ _ t (query-ok _ _ t h2) λ approved h3.
      let (same, eid, fid, pid) = validate_identifiers-ok _ _ _ _ s checked in
      record {
        ids = ids;
        event_id = eid;
        flat_id = fid;
        positive = ground arith;
        refunded = rw same at (refund_attempts-ok retry_limit ids i t (rw same clean) h3);
      }
