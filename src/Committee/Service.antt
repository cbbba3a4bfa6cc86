-- ===== src/Committee/Service.antt =====
-- app/modules/committee/committee_member_service.py: `add_member`, `remove_member` and `change_role`,
-- which leave the commit to their callers. Phone numbers count the ASCII digits.
use Prim.Native.Char.{Char, code}
use Prim.Native.String
use text.Mathlib.Text.{◌==◌ as str_eq}
use society_agent.Prelude.{
  ℕ, String, Bool, true, false, not, ◌&&◌, Option, none, some, List, [], ◌∷◌, ◌++◌, find_first,
  find_all, save, length, leb, ◌==◌, if◌then◌else◌,
}
use society_agent.Text.{strip, lower, contains}
use society_agent.Validation.{RawId, uuid, validate_uuid}
use society_agent.Db.{CommitteeMember, Tables, AuditLog}
use society_agent.Db.Errors.{
  only_active_chairman, only_chairman, invalid_phone, invalid_role, name_required, member_exists,
  member_elsewhere, member_not_found, last_chairman, no_active_member,
}
use society_agent.Db.Session.{
  Exec, pure, raise, lift, query, guard, require, modify, flush, ◌>>=◌, ◌>>◌,
}
use society_agent.Db.Query.{add_audit}

abbrev pub is_digit : Char → Bool
is_digit c = leb 48 (code c) && leb (code c) 57

-- `re.sub(r"\D", "", value)`
unfoldable pub digits_of : String → String
digits_of String.[] = ""
digits_of (String.◌∷◌ c s) =
    let rest = digits_of s in if is_digit c then String.◌∷◌ c rest else rest

-- `normalize_identifier` of app/utils/identity.py; "" stands for `None` too.
unfoldable pub normalize_identifier : String → String
normalize_identifier s = if str_eq (digits_of s) "" then strip s else digits_of s

-- `_normalize_phone`: both of its alternatives are `normalize_identifier`.
unfoldable pub normalize_phone : String → Exec String
normalize_phone phone_number = do
  guard (not (str_eq (normalize_identifier phone_number) "")) invalid_phone
  pure (normalize_identifier phone_number)

-- `VALID_COMMITTEE_ROLES`
abbrev pub valid_committee_roles : List String
valid_committee_roles = "chairman" ∷ "treasurer" ∷ "secretary" ∷ "committee_member" ∷ []

-- `_validate_role`
unfoldable pub validate_role : String → Exec String
validate_role role = do
  guard (contains (lower (strip role)) valid_committee_roles) invalid_role
  pure (lower (strip role))

abbrev pub is_in : ℕ → ℕ → CommitteeMember → Bool
is_in society_id id row = row.id == id && row.society_id == society_id

abbrev pub is_active_in : ℕ → ℕ → CommitteeMember → Bool
is_active_in society_id id row = is_in society_id id row && row.is_active

abbrev pub has_phone_in : ℕ → String → CommitteeMember → Bool
has_phone_in society_id phone row = row.society_id == society_id && str_eq row.phone_number phone

-- `_ensure_actor_authorized`
unfoldable pub ensure_actor_authorized : ℕ → RawId → Exec CommitteeMember
ensure_actor_authorized society_id performed_by = do
  p ← lift (validate_uuid performed_by "member_id")
  actor ←
      require (← query (λ t. find_first (is_active_in society_id p) t.committee_members))
        only_active_chairman
  guard (str_eq (lower actor.role) "chairman") only_chairman
  pure actor

abbrev pub raw_number : RawId → Option ℕ
raw_number (uuid n) = some n
raw_number _ = none

abbrev pub member_audit : ℕ → ℕ → String → String → RawId → AuditLog
member_audit society_id entity_id action reason performed_by = record {
  society_id = society_id;
  entity_type = "committee_member";
  entity_id = entity_id;
  action = action;
  reason = reason;
  source = none;
  performed_by = raw_number performed_by;
  performed_at = none;
}

-- The keyword arguments of `add_member`, and the id of a new row.
pub record MemberInput : Type 0 where
  pub society_id : ℕ
  pub name : String
  pub phone_number : String
  pub role : String
  pub performed_by : RawId
  pub new_id : ℕ

abbrev pub is_active_row : Option CommitteeMember → Bool
is_active_row none = false
is_active_row (some m) = m.is_active

abbrev pub is_elsewhere : ℕ → Option CommitteeMember → Bool
is_elsewhere society_id none = false
is_elsewhere society_id (some m) = not (m.society_id == society_id)

abbrev pub reactivated : MemberInput → String → CommitteeMember → CommitteeMember
reactivated i role m = record m { name = strip i.name; role = role; is_active = true }

abbrev pub new_member : MemberInput → String → String → CommitteeMember
new_member i phone role = record {
  id = i.new_id;
  society_id = i.society_id;
  name = strip i.name;
  phone_number = phone;
  role = role;
  is_active = true;
}

-- The row that was found is active no more, or there is none.
unfoldable pub write_member :
    MemberInput → String → String → Option CommitteeMember → Exec CommitteeMember
write_member i phone role (some m) = do
  modify (λ t.
      add_audit
        (member_audit i.society_id m.id "REACTIVATE_MEMBER"
          (String.◌++◌ "Reactivated committee member " (strip i.name)) i.performed_by)
        (record t {
          committee_members =
              save (has_phone_in i.society_id phone) (reactivated i role m) t.committee_members;
        }))
  pure (reactivated i role m)
write_member i phone role none = do
  modify (λ t. record t { committee_members = t.committee_members ++ new_member i phone role ∷ [] })
  flush
  modify (
      add_audit (
        member_audit i.society_id i.new_id "ADD_MEMBER"
          (String.◌++◌ "Added committee member " (strip i.name)) i.performed_by))
  pure (new_member i phone role)

-- The rows with the phone number.
unfoldable pub add_with_phone : MemberInput → String → String → Exec CommitteeMember
add_with_phone i phone role = do
  found ← query (λ t. find_first (has_phone_in i.society_id phone) t.committee_members)
  guard (not (is_active_row found)) member_exists
  other ← query (λ t. find_first (λ row. str_eq row.phone_number phone) t.committee_members)
  guard (not (is_elsewhere i.society_id other)) member_elsewhere
  write_member i phone role found

-- `CommitteeMemberService.add_member`
unfoldable pub add_member : MemberInput → Exec CommitteeMember
add_member i = do
  actor ← ensure_actor_authorized i.society_id i.performed_by
  phone ← normalize_phone i.phone_number
  role ← validate_role i.role
  guard (not (str_eq (strip i.name) "")) name_required
  add_with_phone i phone role

abbrev pub is_active_chairman : ℕ → CommitteeMember → Bool
is_active_chairman society_id row =
    row.society_id == society_id && row.is_active && str_eq row.role "chairman"

-- The count behind both checks for the last chairman.
unfoldable pub chairman_count : ℕ → Tables → ℕ
chairman_count society_id t = length (find_all (is_active_chairman society_id) t.committee_members)

-- A change of a member's row, with its audit row.
abbrev pub change_member :
    ℕ → CommitteeMember → CommitteeMember → String → String → RawId → Tables → Tables
change_member society_id target row action reason performed_by t =
    add_audit (member_audit society_id target.id action reason performed_by)
      (record t { committee_members = save (is_in society_id target.id) row t.committee_members })

unfoldable pub deactivate : ℕ → RawId → CommitteeMember → Exec CommitteeMember
deactivate society_id performed_by target = do
  count ← query (chairman_count society_id)
  guard (not (str_eq (lower target.role) "chairman" && leb count 1)) last_chairman
  modify (
      change_member society_id target (record target { is_active = false }) "REMOVE_MEMBER"
        (String.◌++◌ "Removed committee member " target.name) performed_by)
  pure (record target { is_active = false })

unfoldable pub remove_found : ℕ → RawId → Option CommitteeMember → Exec CommitteeMember
remove_found society_id performed_by none = raise member_not_found
remove_found society_id performed_by (some target) =
    if target.is_active then deactivate society_id performed_by target else pure target

-- `CommitteeMemberService.remove_member`
unfoldable pub remove_member : ℕ → RawId → RawId → Exec CommitteeMember
remove_member society_id member_id performed_by = do
  id ← lift (validate_uuid member_id "member_id")
  actor ← ensure_actor_authorized society_id performed_by
  found ← query (λ t. find_first (is_in society_id id) t.committee_members)
  remove_found society_id performed_by found

-- `previous_role or 'unknown'`
abbrev pub role_or_unknown : String → String
role_or_unknown r = if str_eq r "" then "unknown" else r

unfoldable pub set_role : ℕ → RawId → CommitteeMember → String → Exec CommitteeMember
set_role society_id performed_by target role = do
  count ← query (chairman_count society_id)
  guard (not (str_eq (lower target.role) "chairman" && not (str_eq role "chairman") && leb count 1))
      last_chairman
  modify (
      change_member society_id target (record target { role = role }) "CHANGE_MEMBER_ROLE"
        (String.◌++◌ "Changed role from "
          (String.◌++◌ (role_or_unknown (lower target.role)) (String.◌++◌ " to " role)))
        performed_by)
  pure (record target { role = role })

unfoldable pub change_found : ℕ → RawId → String → Option CommitteeMember → Exec CommitteeMember
change_found society_id performed_by role none = raise no_active_member
change_found society_id performed_by role (some target) = do
  guard target.is_active no_active_member
  next_role ← validate_role role
  set_role society_id performed_by target next_role

-- `CommitteeMemberService.change_role`
unfoldable pub change_role : ℕ → RawId → String → RawId → Exec CommitteeMember
change_role society_id member_id role performed_by = do
  id ← lift (validate_uuid member_id "member_id")
  actor ← ensure_actor_authorized society_id performed_by
  found ← query (λ t. find_first (is_in society_id id) t.committee_members)
  change_found society_id performed_by role found
