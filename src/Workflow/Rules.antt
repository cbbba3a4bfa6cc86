-- ===== src/Workflow/Rules.antt =====
-- app/workflows/rules.py
use society_agent.Prelude.{String, Bool, false, List, [], ◌∷◌}
use society_agent.Prelude.{◌||◌, ◌==◌, ℕ}
use society_agent.Db.{EventState, draft, active, locked, event_day, closed}

-- The keys of `WORKFLOW_ACTION_PATHS`.
pub data Action : Type 0 where
  create_event activate_event lock_passes start_event close_event : Action
  add_pass mark_paid add_expense add_contribution : Action
  request_payment request_refund refund_contribution : Action
  generate_food_tokens open_food_counter serve_food_token : Action

unfoldable pub action_text : Action → String
action_text create_event = "CREATE_EVENT"
action_text activate_event = "ACTIVATE_EVENT"
action_text lock_passes = "LOCK_PASSES"
action_text start_event = "START_EVENT"
action_text close_event = "CLOSE_EVENT"
action_text add_pass = "ADD_PASS"
action_text mark_paid = "MARK_PAID"
action_text add_expense = "ADD_EXPENSE"
action_text add_contribution = "ADD_CONTRIBUTION"
action_text request_payment = "REQUEST_PAYMENT"
action_text request_refund = "REQUEST_REFUND"
action_text refund_contribution = "REFUND_CONTRIBUTION"
action_text generate_food_tokens = "GENERATE_FOOD_TOKENS"
action_text open_food_counter = "OPEN_FOOD_COUNTER"
action_text serve_food_token = "SERVE_FOOD_TOKEN"

abbrev locked_actions : List Action
locked_actions =
    mark_paid ∷ add_expense ∷ add_contribution ∷ request_payment ∷ request_refund
    ∷ refund_contribution ∷ start_event ∷ generate_food_tokens ∷ []

-- `STATE_RULES.get(state, set())`
abbrev pub state_rules : EventState → List Action
state_rules draft = create_event ∷ activate_event ∷ []
state_rules active =
    add_pass ∷ mark_paid ∷ add_expense ∷ add_contribution ∷ request_payment ∷ request_refund
    ∷ refund_contribution ∷ lock_passes ∷ []
state_rules locked = locked_actions
state_rules event_day =
    generate_food_tokens ∷ open_food_counter ∷ serve_food_token ∷ add_expense ∷ add_contribution
    ∷ request_payment ∷ request_refund ∷ refund_contribution ∷ close_event ∷ []
state_rules closed = []
state_rules (EventState.other s) = []

-- Actions are compared by their position in the list of constructors.
abbrev position : Action → ℕ
position create_event = 0
position activate_event = 1
position lock_passes = 2
position start_event = 3
position close_event = 4
position add_pass = 5
position mark_paid = 6
position add_expense = 7
position add_contribution = 8
position request_payment = 9
position request_refund = 10
position refund_contribution = 11
position generate_food_tokens = 12
position open_food_counter = 13
position serve_food_token = 14

abbrev is_among : Action → List Action → Bool
is_among a [] = false
is_among a (b ∷ bs) = position a == position b || is_among a bs

-- `action in STATE_RULES.get(state, set())`
unfoldable pub allows : EventState → Action → Bool
allows st a = is_among a (state_rules st)
