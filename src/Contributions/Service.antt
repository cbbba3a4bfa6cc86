-- ===== src/Contributions/Service.antt =====
-- app/modules/contributions/contribution_service.py
use Prim.Native.String
use society_agent.Prelude.{
  none, ℕ, suc, String, Bool, Option, [], ◌∷◌, ◌++◌, find_all, length, get_or, ◌==◌, if◌then◌else◌,
}
use society_agent.Prelude.Int.{ℤ}
use society_agent.Db.{Event, EventContribution, Tables, AuditLog}
use society_agent.Db.Errors.{invalid_event}
use society_agent.Db.Session.{Exec, query, require, modify, flush, finish, ◌>>=◌, ◌>>◌}
use society_agent.Db.Query.{find_event, add_audit}
use society_agent.Workflow.Rules.{Action}
use society_agent.Workflow.Permit.{is_truthy, permit, log_override}

-- The keyword arguments of `add_contribution`, and the id that the new row is given.
pub record ContributionInput : Type 0 where
  pub event_id : ℕ
  pub contribution_type : String
  pub source_name : String
  pub amount : Option ℤ
  pub in_kind_details : Option String
  pub flat_id : Option ℕ
  pub notes : Option String
  pub performed_by : Option ℕ
  pub override_reason : Option String
  pub new_id : ℕ

abbrev pub is_contribution_to : ℕ → EventContribution → Bool
is_contribution_to e row = row.event_id == e

-- The number of the code that the next contribution to the event gets.
unfoldable pub next_code : ℕ → Tables → ℕ
next_code e t = suc (length (find_all (is_contribution_to e) t.contributions))

abbrev pub new_contribution : ContributionInput → ℕ → EventContribution
new_contribution i code = record {
  id = i.new_id;
  event_id = i.event_id;
  contribution_code = code;
  contribution_type = i.contribution_type;
  source_name = i.source_name;
  flat_id = i.flat_id;
  amount = i.amount;
  in_kind_details = i.in_kind_details;
  notes = i.notes;
}

abbrev contribution_audit : Event → ContributionInput → Bool → AuditLog
contribution_audit event i is_override = record {
  society_id = event.society_id;
  entity_type = "event_contribution";
  entity_id = i.new_id;
  action = "ADD_CONTRIBUTION";
  reason =
      if is_override
      then String.◌++◌ "OVERRIDE: " (get_or i.override_reason "")
      else if is_truthy i.notes
      then get_or i.notes ""
      else "Via WhatsApp";
  performed_by = i.performed_by;
  source = none;
  performed_at = none;
}

-- From the count to the commit.
unfoldable pub write_contribution : Event → ContributionInput → Bool → Exec ℕ
write_contribution event i is_override = do
  code ← query (next_code i.event_id)
  modify (λ t. record t { contributions = t.contributions ++ new_contribution i code ∷ [] })
  flush
  log_override is_override event.society_id "event_contribution" i.new_id "ADD_CONTRIBUTION"
      i.override_reason i.performed_by
  finish (add_audit (contribution_audit event i is_override)) code

-- `ContributionService.add_contribution`
unfoldable pub add_contribution : ContributionInput → Exec ℕ
add_contribution i = do
  event ← require (← query (find_event i.event_id)) invalid_event
  is_override ← permit i.event_id Action.add_contribution i.performed_by i.override_reason
  write_contribution event i is_override
