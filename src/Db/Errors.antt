-- ===== src/Db/Errors.antt =====
-- The exceptions that the services raise, one constructor for each message, and what they return.
use society_agent.Prelude.{◌≡◌, refl, ◌⊎◌, inl, inr, String, Bool, true, false}
use society_agent.Prelude.Int.{ℤ}
use society_agent.Db.Models.{EventState}

-- `serialization` is PostgreSQL's error 40001, `operational` any other `OperationalError`, and
-- `other` any further exception of the database driver.
pub data DbFault : Type 0 where
  serialization operational integrity other : DbFault

-- What `WorkflowEngine.check_action` says. The flag tells whether " for CLOSED state" is added.
pub data Message : Type 0 where
  allowed state_missing : Message
  performer_required role_required reason_required : Bool → Message
  override_required : String → EventState → Message

pub data Error : Type 0 where
  invalid_id : String → Error
  authentication_required not_active_member role_not_configured role_not_permitted : Error
  workflow : Message → Error
  invalid_event invalid_event_or_flat society_mismatch workflow_not_found : Error
  amount_not_positive approval_required pass_not_found : Error
  no_food_count override_performer_required : Error
  no_payment refund_exceeds_paid repeated_conflicts : Error
  close_reason_required close_performer_required : Error
  no_request request_not_pending codes_exhausted : Error
  invalid_requester requester_not_active requester_not_authorized : Error
  invalid_sponsor in_kind_contribution : Error
  refund_exceeds_contribution : ℤ → Error
  token_length_short tokens_exist token_space_exhausted token_attempts_exhausted : Error
  serving_method_invalid invalid_token counter_closed service_ended : Error
  too_many_failures token_used no_entitlement : Error
  only_active_chairman only_chairman invalid_phone invalid_role name_required : Error
  member_exists member_elsewhere member_not_found last_chairman no_active_member : Error
  database : DbFault → Error

pub data Result (A : Type 0) : Type 0 where
  ok : A → Result A
  err : Error → Result A

-- `IntegrityError`
abbrev pub is_integrity : Error → Bool
is_integrity (database integrity) = true
is_integrity _ = false

pub Result-cases :
    {A : Type 0} (r : Result A) → ((e : Error) × (r ≡ err e)) ⊎ ((a : A) × (r ≡ ok a))
Result-cases (ok a) = inr (a, refl)
Result-cases (err e) = inl (e, refl)
