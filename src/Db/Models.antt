-- ===== src/Db/Models.antt =====
-- app/db/models.py: one record for each table that the services use. An identifier (UUID) and a
-- time are numbers. Row ids that no service reads, and `created_at`, are left out.
use society_agent.Prelude.{ℕ, String, Bool, Option, List}
use society_agent.Prelude.Int.{ℤ}

-- The texts of `Event.status` and `WorkflowState.current_state`; `other` is any further text.
pub data EventState : Type 0 where
  draft active locked event_day closed : EventState
  other : String → EventState

pub record Event : Type 0 where
  pub id : ℕ
  pub society_id : ℕ
  pub name : String
  pub event_date : ℕ
  pub charge_per_adult : Option ℤ
  pub charge_per_child : Option ℤ
  pub food_types : List String
  pub payment_deadline : Option ℕ
  pub status : EventState
  pub created_by : Option ℕ

pub record WorkflowState : Type 0 where
  pub event_id : ℕ
  pub current_state : EventState
  pub allowed_next_states : List String

pub record Flat : Type 0 where
  pub id : ℕ
  pub society_id : ℕ
  pub flat_number : String
  pub block : String
  pub owner_name : Option String
  pub is_active : Bool

pub record CommitteeMember : Type 0 where
  pub id : ℕ
  pub society_id : ℕ
  pub name : String
  pub phone_number : String
  pub role : String
  pub is_active : Bool

pub record EventFoodPass : Type 0 where
  pub event_id : ℕ
  pub flat_id : ℕ
  pub veg_count : ℤ
  pub jain_count : ℤ
  pub kids_count : ℤ
  pub total_amount : ℤ
  pub is_participating : Bool
  pub is_locked : Bool
  pub updated_at : ℕ

-- `created_at` is the order of the rows.
pub record EventFoodToken : Type 0 where
  pub id : ℕ
  pub event_id : ℕ
  pub flat_id : ℕ
  pub food_type : String
  pub token_code : String
  pub qr_payload : String
  pub served_at : Option ℕ
  pub served_method : Option String
  pub served_by : Option ℕ

pub record EventFoodCounter : Type 0 where
  pub event_id : ℕ
  pub is_open : Bool
  pub opened_at : Option ℕ
  pub closes_at : Option ℕ
  pub closed_at : Option ℕ
  pub opened_by : Option ℕ
  pub closed_by : Option ℕ
  pub updated_at : ℕ

pub data PaymentStatus : Type 0 where
  pending partial paid refunded : PaymentStatus

pub record Payment : Type 0 where
  pub event_id : ℕ
  pub flat_id : ℕ
  pub expected_amount : ℤ
  pub paid_amount : ℤ
  pub status : PaymentStatus
  pub payment_mode : Option String
  pub paid_at : Option ℕ

-- `Refund.status` and `ContributionRefund.status`.
pub data RefundStatus : Type 0 where
  requested approved refunded rejected : RefundStatus

pub record Refund : Type 0 where
  pub event_id : ℕ
  pub flat_id : ℕ
  pub amount : ℤ
  pub reason : String
  pub status : RefundStatus
  pub created_by : ℕ

pub record UserFlatMapping : Type 0 where
  pub id : ℕ
  pub society_id : ℕ
  pub flat_id : ℕ
  pub member_identity_id : ℕ
  pub is_active : Bool

-- `PaymentRequest.status`.
pub data RequestStatus : Type 0 where
  requested approved rejected : RequestStatus

pub record PaymentRequest : Type 0 where
  pub id : ℕ
  pub event_id : ℕ
  pub flat_id : ℕ
  pub request_code : String
  pub amount : ℤ
  pub payment_mode : Option String
  pub status : RequestStatus
  pub requested_by_mapping_id : ℕ
  pub member_identity_id : ℕ
  pub approved_by : Option ℕ
  pub approved_at : Option ℕ

pub record RefundRequest : Type 0 where
  pub id : ℕ
  pub event_id : ℕ
  pub flat_id : ℕ
  pub request_code : String
  pub amount : ℤ
  pub reason : String
  pub status : RequestStatus
  pub requested_by_mapping_id : ℕ
  pub member_identity_id : ℕ
  pub approved_by : Option ℕ
  pub approved_at : Option ℕ

-- The code `SP-001` is kept as its number, 1.
pub record EventContribution : Type 0 where
  pub id : ℕ
  pub event_id : ℕ
  pub contribution_code : ℕ
  pub contribution_type : String
  pub source_name : String
  pub flat_id : Option ℕ
  pub amount : Option ℤ
  pub in_kind_details : Option String
  pub notes : Option String

pub record ContributionRefund : Type 0 where
  pub id : ℕ
  pub contribution_id : ℕ
  pub amount : ℤ
  pub reason : String
  pub status : RefundStatus

pub record EventExpense : Type 0 where
  pub event_id : ℕ
  pub description : String
  pub amount : ℤ
  pub is_override : Bool
  pub override_reason : Option String

pub record SocietyBalance : Type 0 where
  pub event_id : ℕ
  pub opening_balance : ℤ
  pub closing_balance : ℤ

-- The time is kept for the rows that are later searched by it: those of the food counter.
pub record AuditLog : Type 0 where
  pub society_id : ℕ
  pub entity_type : String
  pub entity_id : ℕ
  pub action : String
  pub reason : String
  pub source : Option String
  pub performed_by : Option ℕ
  pub performed_at : Option ℕ

pub record Tables : Type 0 where
  pub events : List Event
  pub workflow_states : List WorkflowState
  pub flats : List Flat
  pub committee_members : List CommitteeMember
  pub food_passes : List EventFoodPass
  pub food_tokens : List EventFoodToken
  pub food_counters : List EventFoodCounter
  pub payments : List Payment
  pub refunds : List Refund
  pub contributions : List EventContribution
  pub contribution_refunds : List ContributionRefund
  pub expenses : List EventExpense
  pub balances : List SocietyBalance
  pub user_flat_mappings : List UserFlatMapping
  pub payment_requests : List PaymentRequest
  pub refund_requests : List RefundRequest
  pub audit_logs : List AuditLog
