-- ===== src/Runs.antt =====
-- What a test has to compute through, named once: the session, the queries, the workflow and the
-- access checks.
use society_agent.Prelude.Rows.{find_first, find_all, save}
use society_agent.Prelude.Sums.{sum_where}
use society_agent.Prelude.Int.{◌+ℤ◌, ◌-ℤ◌, ◌*ℤ◌}
use society_agent.Text.{is_blank, strip, lower, contains}
use society_agent.Db.Session.{◌>>=◌, require, modify, flush, commit, rollback, finish}
use society_agent.Db.Query.{
  find_event, find_workflow, find_flat, find_member, find_pass, find_payment,
}
use society_agent.Workflow.Rules.{action_text, allows}
use society_agent.Workflow.Engine.{may_override, check_action, apply_override}
use society_agent.Workflow.Permit.{permit, log_override, ensure_permitted}
use society_agent.Security.Roles.{role_actions, is_action_allowed}
use society_agent.Security.Access.{
  find_active_member, normal_role, require_committee_action, require_committee_roles,
}

unfoldable pub running : Unit {0}
unfolding ◌>>=◌ require modify flush commit rollback finish find_first find_all save sum_where ◌+ℤ◌
    ◌-ℤ◌ ◌*ℤ◌ is_blank strip lower contains find_event find_workflow find_flat find_member find_pass
    find_payment action_text allows may_override check_action apply_override permit log_override
    ensure_permitted role_actions is_action_allowed find_active_member normal_role
    require_committee_action require_committee_roles
running = tt
