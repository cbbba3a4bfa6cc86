-- ===== src/Committee/Tests.antt =====
-- Runs of the committee's service, and its invariant at them.
use society_agent.Prelude.{◌≤◌, ◌≡◌, refl, true, false, [], ◌∷◌, arith}
use society_agent.Validation.{uuid, validate_uuid}
use society_agent.Db.{CommitteeMember, Tables, active}
use society_agent.Db.Errors.{err, last_chairman}
use society_agent.Fixtures.{tables_in, session_of, treasurer, helper}
use society_agent.Runs.{running}
use society_agent.Committee.Service.{
  MemberInput, digits_of, normalize_identifier, normalize_phone, validate_role,
  ensure_actor_authorized, add_with_phone, write_member, add_member, chairman_count, deactivate,
  remove_found, remove_member, set_role, change_found, change_role,
}
use society_agent.Committee.Chairman.{adds, removes, here, next, Reach-keeps_chairman}

abbrev chairman : CommitteeMember
chairman = record treasurer { id = 40; name = "Meera"; phone_number = "3"; role = "chairman" }

abbrev start : Tables
start = record (tables_in active) { committee_members = chairman ∷ helper ∷ [] }

unfoldable changing : Unit {0}
unfolding running validate_uuid digits_of normalize_identifier normalize_phone validate_role
    ensure_actor_authorized add_with_phone write_member add_member chairman_count deactivate
    remove_found remove_member set_role change_found change_role
changing = tt

-- The only chairman removes nobody's last chairman.
last_chairman_test : (remove_member 1 (uuid 40) (uuid 40) (session_of start)).0 ≡ err last_chairman
unfolding changing
last_chairman_test = refl

abbrev second_input : MemberInput
second_input = record {
  society_id = 1;
  name = " Kiran ";
  phone_number = "+91 98-1";
  role = "Chairman";
  performed_by = uuid 40;
  new_id = 41;
}

abbrev with_second : Tables
with_second = (add_member second_input (session_of start)).1.current

abbrev handed_over : Tables
handed_over = (remove_member 1 (uuid 40) (uuid 41) (session_of with_second)).1.current

-- A second chairman is added with the number in digits, and removes the first.
handover_test :
    handed_over.committee_members
    ≡ record chairman { is_active = false }
      ∷ helper
      ∷ record {
        id = 41;
        society_id = 1;
        name = "Kiran";
        phone_number = "91981";
        role = "chairman";
        is_active = true;
      }
      ∷ []
unfolding changing
handover_test = refl

one_at_start : 1 ≤ chairman_count 1 start
unfolding changing
one_at_start = omega arith

Reach-keeps_chairman_example : 1 ≤ chairman_count 1 handed_over
Reach-keeps_chairman_example =
    Reach-keeps_chairman 1
      (next (next here (adds second_input (session_of start) refl refl))
        (removes 1 (uuid 40) (uuid 41) (session_of with_second) refl refl))
      one_at_start
