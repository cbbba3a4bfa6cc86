-- ===== src/Committee/Chairman.antt =====
-- A society that has an active chairman keeps one.
use mathlib.Core.Path.{subst}
use society_agent.Prelude.{ℕ, ◌≤◌, String, ◌≡◌, refl, sym}
use society_agent.Validation.{RawId, validate_uuid}
use society_agent.Db.{Tables}
use society_agent.Db.Errors.{Result}
use society_agent.Db.Session.{Session, lift}
use society_agent.Committee.Service.{
  MemberInput, add_member, chairman_count, remove_member, change_role,
}
use society_agent.Committee.Steps.{
  HasChairman, then-HasChairman, guard-HasChairman, query-HasChairman, ensure_actor_authorized-same,
  validate_role-same, normalize_phone-same,
}
use society_agent.Committee.Changes.{
  remove_found-HasChairman, change_found-HasChairman, add_with_phone-HasChairman,
}

-- A call of the service, in a session whose transaction sees `t`; the caller commits what it leaves.
pub data Call (t t' : Tables) : Type 0 where
  adds :
      (i : MemberInput) (s : Session) → s.current ≡ t → (add_member i s).1.current ≡ t' → Call t t'
  removes :
      (soc : ℕ) (id p : RawId) (s : Session)
      → s.current ≡ t
      → (remove_member soc id p s).1.current ≡ t'
      → Call t t'
  changes :
      (soc : ℕ) (id : RawId) (role : String) (p : RawId) (s : Session)
      → s.current ≡ t
      → (change_role soc id role p s).1.current ≡ t'
      → Call t t'

-- A sequence of calls, each of which returns or raises, with its writes committed.
pub data Reach (t : Tables) : Tables → Type 0 where
  here : Reach t t
  next : {u v : Tables} → Reach t u → Call u v → Reach t v

add_member-HasChairman :
    (w : ℕ) (i : MemberInput) (s : Session) → HasChairman w s → HasChairman w (add_member i s).1
unfolding add_member
add_member-HasChairman w i s now =
    then-HasChairman w _ _ s (ensure_actor_authorized-same i.society_id i.performed_by s) now
      λ actor. then-HasChairman w _ _ s (normalize_phone-same i.phone_number s) now λ phone.
        then-HasChairman w _ _ s (validate_role-same i.role s) now λ role.
          guard-HasChairman w _ _ _ s now λ named. add_with_phone-HasChairman i phone role w s now

lift_same : {A : Type 0} (r : Result A) (s : Session) → (lift r s).1 ≡ s
unfolding lift
lift_same r s = refl

remove_member-HasChairman :
    (w soc : ℕ) (id p : RawId) (s : Session)
    → HasChairman w s
    → HasChairman w (remove_member soc id p s).1
unfolding remove_member
remove_member-HasChairman w soc id p s now =
    then-HasChairman w _ _ s (lift_same (validate_uuid id "member_id") s) now λ n.
      then-HasChairman w _ _ s (ensure_actor_authorized-same soc p s) now
        λ actor. query-HasChairman w _ _ s (remove_found-HasChairman w soc n p _ s refl now)

change_role-HasChairman :
    (w soc : ℕ) (id : RawId) (role : String) (p : RawId) (s : Session)
    → HasChairman w s
    → HasChairman w (change_role soc id role p s).1
unfolding change_role
change_role-HasChairman w soc id role p s now =
    then-HasChairman w _ _ s (lift_same (validate_uuid id "member_id") s) now λ n.
      then-HasChairman w _ _ s (ensure_actor_authorized-same soc p s) now
        λ actor. query-HasChairman w _ _ s (change_found-HasChairman w soc n p role _ s refl now)

Call-chairman :
    (w : ℕ) {t t' : Tables} → Call t t' → 1 ≤ chairman_count w t → 1 ≤ chairman_count w t'
Call-chairman w (adds i s before after) now =
    subst (λ x. 1 ≤ chairman_count w x) after
      (add_member-HasChairman w i s (subst (λ x. 1 ≤ chairman_count w x) (sym before) now))
Call-chairman w (removes soc id p s before after) now =
    subst (λ x. 1 ≤ chairman_count w x) after
      (remove_member-HasChairman w soc id p s
        (subst (λ x. 1 ≤ chairman_count w x) (sym before) now))
Call-chairman w (changes soc id role p s before after) now =
    subst (λ x. 1 ≤ chairman_count w x) after
      (change_role-HasChairman w soc id role p s
        (subst (λ x. 1 ≤ chairman_count w x) (sym before) now))

-- A society that has an active chairman keeps one over any sequence of additions, removals and changes
-- of role, in any societies, whether the calls return or raise.
pub Reach-keeps_chairman :
    (w : ℕ) {t t' : Tables} → Reach t t' → 1 ≤ chairman_count w t → 1 ≤ chairman_count w t'
Reach-keeps_chairman w here now = now
Reach-keeps_chairman w (next r c) now = Call-chairman w c (Reach-keeps_chairman w r now)
