-- ===== src/Security/Access.antt =====
-- app/modules/security/access_control.py
use text.Mathlib.Text.{◌==◌ as str_eq}
use society_agent.Prelude.{
  ℕ, String, Bool, not, ◌&&◌, Option, none, some, List, find_first, ◌==◌, if◌then◌else◌,
}
use society_agent.Text.{strip, lower, contains}
use society_agent.Db.{CommitteeMember, Tables}
use society_agent.Db.Errors.{
  Result, ok, err, authentication_required, not_active_member, role_not_configured,
  role_not_permitted,
}
use society_agent.Security.Roles.{is_action_allowed}

-- The query for an active committee member of the society.
unfoldable pub find_active_member : ℕ → ℕ → Tables → Option CommitteeMember
find_active_member society_id member_id t =
    find_first (λ row. row.id == member_id && row.society_id == society_id && row.is_active)
      t.committee_members

-- `(role or "").strip().lower()`
unfoldable pub normal_role : CommitteeMember → String
normal_role m = lower (strip m.role)

check_role : (String → Bool) → Option CommitteeMember → Result (Unit {0})
check_role is_allowed none = err not_active_member
check_role is_allowed (some m) =
    if str_eq (normal_role m) ""
    then err role_not_configured
    else if not (is_allowed (normal_role m))
    then err role_not_permitted
    else ok tt

check_performer : ℕ → Option ℕ → (String → Bool) → Tables → Result (Unit {0})
unfolding check_role
check_performer society_id none is_allowed t = err authentication_required
check_performer society_id (some p) is_allowed t =
    check_role is_allowed (find_active_member society_id p t)

unfoldable pub require_committee_action : ℕ → Option ℕ → String → Tables → Result (Unit {0})
unfolding check_performer
require_committee_action society_id performed_by action =
    check_performer society_id performed_by (λ role. is_action_allowed role action)

unfoldable pub require_committee_roles : ℕ → Option ℕ → List String → Tables → Result (Unit {0})
unfolding check_performer
require_committee_roles society_id performed_by allowed_roles =
    check_performer society_id performed_by (λ role. contains role allowed_roles)
