-- ===== src/Fixtures.antt =====
-- A small society for the tests: one event, one flat, a treasurer and a plain committee member.
use society_agent.Prelude.{true, false, none, some, [], ◌∷◌}
use society_agent.Prelude.Int.{pos}
use society_agent.Db.{
  Event, EventState, WorkflowState, Flat, CommitteeMember, EventFoodPass, Tables,
}
use society_agent.Db.Session.{Session}

abbrev pub event_in : EventState → Event
event_in st = record {
  id = 10;
  society_id = 1;
  name = "Diwali";
  event_date = 1000;
  charge_per_adult = some (pos 300);
  charge_per_child = some (pos 150);
  food_types = "veg" ∷ "jain" ∷ [];
  payment_deadline = none;
  status = st;
  created_by = some 30;
}

abbrev pub workflow_in : EventState → WorkflowState
workflow_in st = record { event_id = 10; current_state = st; allowed_next_states = [] }

abbrev pub flat : Flat
flat = record {
  id = 20;
  society_id = 1;
  flat_number = "A-101";
  block = "A";
  owner_name = none;
  is_active = true;
}

abbrev pub treasurer : CommitteeMember
treasurer = record {
  id = 30;
  society_id = 1;
  name = "Asha";
  phone_number = "1";
  role = "treasurer";
  is_active = true;
}

abbrev pub helper : CommitteeMember
helper = record {
  id = 31;
  society_id = 1;
  name = "Ravi";
  phone_number = "2";
  role = "committee_member";
  is_active = true;
}

abbrev pub food_pass : EventFoodPass
food_pass = record {
  event_id = 10;
  flat_id = 20;
  veg_count = pos 2;
  jain_count = pos 0;
  kids_count = pos 0;
  total_amount = pos 600;
  is_participating = true;
  is_locked = false;
  updated_at = 0;
}

abbrev pub tables_in : EventState → Tables
tables_in st = record {
  events = event_in st ∷ [];
  workflow_states = workflow_in st ∷ [];
  flats = flat ∷ [];
  committee_members = treasurer ∷ helper ∷ [];
  food_passes = food_pass ∷ [];
  food_tokens = [];
  food_counters = [];
  payments = [];
  refunds = [];
  contributions = [];
  contribution_refunds = [];
  expenses = [];
  balances = [];
  user_flat_mappings = [];
  payment_requests = [];
  refund_requests = [];
  audit_logs = [];
}

abbrev pub session_of : Tables → Session
session_of t = record { durable = t; current = t; outcomes = [] }
