-- ===== src/Requests/Create.antt =====
-- app/modules/payments/payment_request_service.py: `request_payment`. How an amount and an identifier
-- are written are parameters; the random codes, and the ids of new rows, are arguments.
use Prim.Native.String
use society_agent.Prelude.{
  ℕ, String, Bool, not, ◌&&◌, Option, none, some, [], ◌∷◌, ◌++◌, find_first, get_or, ◌==◌,
  if◌then◌else◌,
}
use society_agent.Prelude.Int.{ℤ, 0ℤ, leb_ℤ}
use society_agent.Validation.{RawId, validate_uuid}
use society_agent.Db.{Event, UserFlatMapping, PaymentRequest, RequestStatus, Tables, AuditLog}
use society_agent.Db.Errors.{
  amount_not_positive, pass_not_found, invalid_requester, requester_not_active,
  requester_not_authorized,
}
use society_agent.Db.Session.{
  Exec, pure, lift, query, guard, require, modify, flush, finish, or_rollback, ◌>>=◌, ◌>>◌,
}
use society_agent.Db.Query.{add_audit}
use society_agent.Workflow.Rules.{Action}
use society_agent.Workflow.Permit.{permit, log_override}
use society_agent.Payments.Record.{find_participating}
use society_agent.Passes.Service.{require_event_of_flat}
use society_agent.Requests.Service.{is_requested}
use society_agent.Requests.Attempts.{attempt_limit, create_attempts}

-- The keyword arguments of `request_payment`, and what each attempt draws: a code and a row id.
pub record RequestInput : Type 0 where
  pub event_id : RawId
  pub flat_id : RawId
  pub amount : ℤ
  pub payment_mode : Option String
  pub requested_by_mapping_id : ℕ
  pub override_reason : Option String
  pub code_of : ℕ → String
  pub id_of : ℕ → ℕ

abbrev pub equals : ℤ → ℤ → Bool
equals a b = leb_ℤ a b && leb_ℤ b a

unfoldable pub find_mapping : ℕ → Tables → Option UserFlatMapping
find_mapping m t = find_first (λ row. row.id == m) t.user_flat_mappings

-- `_authorize_requester_mapping`
unfoldable pub authorize_requester_mapping :
    Option UserFlatMapping → Event → ℕ → Exec UserFlatMapping
authorize_requester_mapping mapping event flat_id = do
  m ← require mapping invalid_requester
  guard (m.society_id == event.society_id && m.is_active) requester_not_active
  guard (m.flat_id == flat_id) requester_not_authorized
  pure m

abbrev pub is_open : ℕ → ℕ → ℤ → PaymentRequest → Bool
is_open e f amount row =
    row.event_id == e && row.flat_id == f && is_requested row.status && equals row.amount amount

-- The request that is already pending for the flat and the amount.
unfoldable pub find_open : ℕ → ℕ → ℤ → Tables → Option PaymentRequest
find_open e f amount t = find_first (is_open e f amount) t.payment_requests

abbrev pub new_request : RequestInput → ℕ → ℕ → UserFlatMapping → ℕ → PaymentRequest
new_request i e f m n = record {
  id = i.id_of n;
  event_id = e;
  flat_id = f;
  request_code = i.code_of n;
  amount = i.amount;
  payment_mode = i.payment_mode;
  status = RequestStatus.requested;
  requested_by_mapping_id = i.requested_by_mapping_id;
  member_identity_id = m.member_identity_id;
  approved_by = none;
  approved_at = none;
}

-- `db.add(request)` and the flush.
unfoldable pub add_request : PaymentRequest → Exec PaymentRequest
add_request r = do
  modify (λ t. record t { payment_requests = t.payment_requests ++ r ∷ [] })
  flush
  pure r

module _ (amount_text : ℤ → String) (id_text : ℕ → String) where
  creation_audit : Event → RequestInput → Bool → PaymentRequest → AuditLog
  creation_audit event i is_override r = record {
    society_id = event.society_id;
    entity_type = "payment_request";
    entity_id = r.id;
    action = "REQUEST_PAYMENT";
    reason =
        if is_override
        then String.◌++◌ "OVERRIDE: " (get_or i.override_reason "")
        else String.◌++◌ "Request " (
            String.◌++◌ r.request_code (
              String.◌++◌ " for " (
                String.◌++◌ (amount_text i.amount)
                  (String.◌++◌ " by mapping " (id_text i.requested_by_mapping_id)))));
    performed_by = none;
    source = none;
    performed_at = none;
  }

  -- From the first attempt to the commit.
  unfoldable pub create_request :
      Event → RequestInput → ℕ → ℕ → UserFlatMapping → Bool → Exec PaymentRequest
  unfolding creation_audit
  create_request event i e f m is_override = do
    r ← create_attempts add_request attempt_limit (new_request i e f m)
    if is_override then (authorize_requester_mapping (some m) event f >> pure tt) else pure tt
    log_override is_override event.society_id "payment_request" r.id "REQUEST_PAYMENT"
        i.override_reason none
    or_rollback (finish (add_audit (creation_audit event i is_override r)) r)

  -- `if existing: return existing`
  unfoldable pub reuse_or_create :
      Event
      → RequestInput
      → ℕ
      → ℕ
      → UserFlatMapping
      → Bool
      → Option PaymentRequest
      → Exec PaymentRequest
  reuse_or_create event i e f m is_override (some r) = pure r
  reuse_or_create event i e f m is_override none = create_request event i e f m is_override

  -- `PaymentRequestService.request_payment`
  unfoldable pub request_payment : RequestInput → Exec PaymentRequest
  request_payment i = do
    e ← lift (validate_uuid i.event_id "event_id")
    f ← lift (validate_uuid i.flat_id "flat_id")
    guard (not (leb_ℤ i.amount 0ℤ)) amount_not_positive
    event ← require_event_of_flat e f
    m ← authorize_requester_mapping (← query (find_mapping i.requested_by_mapping_id)) event f
    is_override ← permit e Action.request_payment none i.override_reason
    pass ← require (← query (find_participating e f)) pass_not_found
    found ← query (find_open e f i.amount)
    reuse_or_create event i e f m is_override found
