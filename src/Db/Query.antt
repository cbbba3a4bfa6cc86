-- ===== src/Db/Query.antt =====
-- The queries that several services make.
use society_agent.Prelude.{ℕ, Bool, ◌&&◌, Option, [], ◌∷◌, ◌++◌, find_first, ◌==◌}
use society_agent.Db.Models.{
  Event, WorkflowState, Flat, CommitteeMember, EventFoodPass, Payment, AuditLog, Tables,
}

unfoldable pub find_event : ℕ → Tables → Option Event
find_event e t = find_first (λ row. row.id == e) t.events

unfoldable pub find_workflow : ℕ → Tables → Option WorkflowState
find_workflow e t = find_first (λ row. row.event_id == e) t.workflow_states

unfoldable pub find_flat : ℕ → Tables → Option Flat
find_flat f t = find_first (λ row. row.id == f) t.flats

unfoldable pub find_member : ℕ → Tables → Option CommitteeMember
find_member m t = find_first (λ row. row.id == m) t.committee_members

-- The filters on the pair of columns `event_id` and `flat_id`.
abbrev pub is_pass_of : ℕ → ℕ → EventFoodPass → Bool
is_pass_of e f row = row.event_id == e && row.flat_id == f

abbrev pub is_payment_of : ℕ → ℕ → Payment → Bool
is_payment_of e f row = row.event_id == e && row.flat_id == f

unfoldable pub find_pass : ℕ → ℕ → Tables → Option EventFoodPass
find_pass e f t = find_first (is_pass_of e f) t.food_passes

unfoldable pub find_payment : ℕ → ℕ → Tables → Option Payment
find_payment e f t = find_first (is_payment_of e f) t.payments

-- `db.add(AuditLog(…))`
abbrev pub add_audit : AuditLog → Tables → Tables
add_audit row t = record t { audit_logs = t.audit_logs ++ row ∷ [] }
