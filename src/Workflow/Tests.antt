-- ===== src/Workflow/Tests.antt =====
-- The theorems on workflow decisions, at the events of the test society.
use society_agent.Prelude.{String, ◌≡◌, refl, ◌↔◌, ℕ, true, false, none, some, []}
use society_agent.Db.{CommitteeMember, WorkflowState, active, closed}
use society_agent.Db.Query.{find_workflow, find_member}
use society_agent.Fixtures.{tables_in}
use society_agent.Runs.{running}
use society_agent.Workflow.Rules.{Action, allows}
use society_agent.Workflow.Engine.{check_action}
use society_agent.Text.{is_blank}
use society_agent.Workflow.Decisions.{
  IsOverrider, check_action-allowed, check_action-requires_override, check_action-closed,
}

check_action-allowed_example :
    ((check_action (tables_in active) 10 Action.add_pass (some 30) none).allowed ≡ true) ↔ (
      (w : WorkflowState) × (find_workflow 10 (tables_in active) ≡ some w)
      × (allows w.current_state Action.add_pass ≡ true))
check_action-allowed_example =
    check_action-allowed (tables_in active) 10 Action.add_pass (some 30) none

check_action-requires_override_example :
    ((check_action (tables_in closed) 10 Action.mark_paid (some 30) (some "late")).requires_override
      ≡ true)
    ↔ ((w : WorkflowState) × (m : ℕ) × (find_workflow 10 (tables_in closed) ≡ some w)
        × (allows w.current_state Action.mark_paid ≡ false)
        × (some 30 ≡ some m)
        × ((member : CommitteeMember) × (find_member m (tables_in closed) ≡ some member)
            × (member.id ≡ m)
            × IsOverrider member)
        × ((text : String) × (some "late" ≡ some text) × (is_blank text ≡ false)))
check_action-requires_override_example =
    check_action-requires_override (tables_in closed) 10 Action.mark_paid (some 30) (some "late")

overridden_test :
    (check_action (tables_in closed) 10 Action.mark_paid (some 30) (some "late")).requires_override
    ≡ true
unfolding running
overridden_test = refl

closed_workflow :
    find_workflow 10 (tables_in closed)
    ≡ some (record { event_id = 10; current_state = closed; allowed_next_states = [] })
unfolding running
closed_workflow = refl

check_action-closed_example :
    (check_action (tables_in closed) 10 Action.mark_paid (some 30) (some "late")).allowed ≡ false
check_action-closed_example =
    check_action-closed (tables_in closed) 10 Action.mark_paid (some 30) (some "late") _
      closed_workflow refl
