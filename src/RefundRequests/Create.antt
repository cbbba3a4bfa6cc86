-- ===== src/RefundRequests/Create.antt =====
-- app/modules/payments/refund_request_service.py: `request_refund`. How an amount and an identifier
-- are written are parameters; the random codes, and the ids of new rows, are arguments.
use Prim.Native.String
use society_agent.Prelude.{
  ℕ, String, Bool, not, ◌&&◌, Option, none, some, [], ◌∷◌, ◌++◌, find_first, get_or, ◌==◌,
  if◌then◌else◌,
}
use society_agent.Prelude.Int.{ℤ, 0ℤ, leb_ℤ}
use society_agent.Validation.{RawId, validate_uuid}
use society_agent.Db.{Event, UserFlatMapping, RefundRequest, RequestStatus, Tables, AuditLog}
use society_agent.Db.Errors.{amount_not_positive, no_payment}
use society_agent.Db.Session.{
  Exec, pure, lift, query, guard, require, modify, flush, finish, or_rollback, ◌>>=◌, ◌>>◌,
}
use society_agent.Db.Query.{add_audit, find_payment}
use society_agent.Workflow.Rules.{Action}
use society_agent.Workflow.Permit.{permit, log_override}
use society_agent.Passes.Service.{require_event_of_flat}
use society_agent.Requests.Service.{is_requested}
use society_agent.Requests.Create.{equals, find_mapping, authorize_requester_mapping}
use society_agent.Requests.Attempts.{attempt_limit, create_attempts}

-- The keyword arguments of `request_refund`, and what each attempt draws: a code and a row id.
pub record RefundRequestInput : Type 0 where
  pub event_id : RawId
  pub flat_id : RawId
  pub amount : ℤ
  pub reason : String
  pub requested_by_mapping_id : ℕ
  pub override_reason : Option String
  pub code_of : ℕ → String
  pub id_of : ℕ → ℕ

abbrev pub is_open_refund : ℕ → ℕ → ℤ → RefundRequest → Bool
is_open_refund e f amount row =
    row.event_id == e && row.flat_id == f && is_requested row.status && equals row.amount amount

-- The request that is already pending for the flat and the amount.
unfoldable pub find_open_refund : ℕ → ℕ → ℤ → Tables → Option RefundRequest
find_open_refund e f amount t = find_first (is_open_refund e f amount) t.refund_requests

abbrev pub new_refund_request : RefundRequestInput → ℕ → ℕ → UserFlatMapping → ℕ → RefundRequest
new_refund_request i e f m n = record {
  id = i.id_of n;
  event_id = e;
  flat_id = f;
  request_code = i.code_of n;
  amount = i.amount;
  reason = i.reason;
  status = RequestStatus.requested;
  requested_by_mapping_id = i.requested_by_mapping_id;
  member_identity_id = m.member_identity_id;
  approved_by = none;
  approved_at = none;
}

-- `db.add(request)` and the flush.
unfoldable pub add_refund_request : RefundRequest → Exec RefundRequest
add_refund_request r = do
  modify (λ t. record t { refund_requests = t.refund_requests ++ r ∷ [] })
  flush
  pure r

module _ (amount_text : ℤ → String) (id_text : ℕ → String) where
  refund_creation_audit : Event → RefundRequestInput → Bool → RefundRequest → AuditLog
  refund_creation_audit event i is_override r = record {
    society_id = event.society_id;
    entity_type = "refund_request";
    entity_id = r.id;
    action = "REQUEST_REFUND";
    reason =
        if is_override
        then String.◌++◌ "OVERRIDE: " (get_or i.override_reason "")
        else String.◌++◌ "Request " (
            String.◌++◌ r.request_code (
              String.◌++◌ " for " (
                String.◌++◌ (amount_text i.amount)
                  (String.◌++◌ " by mapping " (id_text i.requested_by_mapping_id)))));
    performed_by = none;
    source = none;
    performed_at = none;
  }

  -- From the first attempt to the commit.
  unfoldable pub create_refund_request :
      Event → RefundRequestInput → ℕ → ℕ → UserFlatMapping → Bool → Exec RefundRequest
  unfolding refund_creation_audit
  create_refund_request event i e f m is_override = do
    r ← create_attempts add_refund_request attempt_limit (new_refund_request i e f m)
    if is_override then (authorize_requester_mapping (some m) event f >> pure tt) else pure tt
    log_override is_override event.society_id "refund_request" r.id "REQUEST_REFUND"
        i.override_reason none
    or_rollback (finish (add_audit (refund_creation_audit event i is_override r)) r)

  -- `if existing: return existing`
  unfoldable pub reuse_or_create_refund :
      Event
      → RefundRequestInput
      → ℕ
      → ℕ
      → UserFlatMapping
      → Bool
      → Option RefundRequest
      → Exec RefundRequest
  reuse_or_create_refund event i e f m is_override (some r) = pure r
  reuse_or_create_refund event i e f m is_override none =
      create_refund_request event i e f m is_override

  -- `RefundRequestService.request_refund`
  unfoldable pub request_refund : RefundRequestInput → Exec RefundRequest
  request_refund i = do
    e ← lift (validate_uuid i.event_id "event_id")
    f ← lift (validate_uuid i.flat_id "flat_id")
    guard (not (leb_ℤ i.amount 0ℤ)) amount_not_positive
    event ← require_event_of_flat e f
    m ← authorize_requester_mapping (← query (find_mapping i.requested_by_mapping_id)) event f
    is_override ← permit e Action.request_refund none i.override_reason
    payment ← require (← query (find_payment e f)) no_payment
    guard (not (leb_ℤ payment.paid_amount 0ℤ)) no_payment
    found ← query (find_open_refund e f i.amount)
    reuse_or_create_refund event i e f m is_override found
