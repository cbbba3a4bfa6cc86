-- ===== src/Security/Roles.antt =====
-- app/permissions/roles.py and app/permissions/guard.py
use text.Mathlib.Text.{◌==◌ as str_eq}
use society_agent.Prelude.{String, Bool, ◌||◌, List, [], ◌∷◌, if◌then◌else◌}
use society_agent.Text.{contains}

-- `ROLE_ACTIONS.get(role, set())`
unfoldable pub role_actions : String → List String
role_actions role =
    if str_eq role "chairman"
    then "ALL" ∷ []
    else if str_eq role "secretary"
    then "ADD_PASS" ∷ "ADD_EXPENSE" ∷ "ADD_EVENT" ∷ "CLOSE_EVENT" ∷ "SUMMARY" ∷ "PENDING_PAYMENTS"
      ∷ "ONBOARDING_PENDING" ∷ "OVERRIDE_REPORT" ∷ "AUDIT_SUMMARY" ∷ "ADD_SPONSOR" ∷ []
    else if str_eq role "treasurer"
    then "PAY" ∷ "REFUND" ∷ "SUMMARY" ∷ "PENDING_PAYMENTS" ∷ "ADD_SPONSOR" ∷ "REFUND_SPONSOR"
      ∷ "CLOSE_EVENT" ∷ []
    else if str_eq role "committee_member"
    then "SUMMARY" ∷ "PENDING_PAYMENTS" ∷ "ONBOARDING_PENDING" ∷ "ADD_SPONSOR" ∷ "REFUND_SPONSOR"
      ∷ []
    else []

unfoldable pub is_action_allowed : String → String → Bool
is_action_allowed role action =
    let allowed = role_actions role in contains "ALL" allowed || contains action allowed
