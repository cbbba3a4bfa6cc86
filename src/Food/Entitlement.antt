-- ===== src/Food/Entitlement.antt =====
-- A meal without a token is served only within what the flat has booked.
use society_agent.Prelude.{
  ℕ, ◌+◌, String, ◌≡◌, refl, ◌∙◌, Bool, true, false, none, List, [], ◌∷◌, ◌++◌, inl, inr, find_all,
  length, arith,
}
use society_agent.Prelude.Int.{ℤ, pos, 0ℤ, ◌-ℤ◌, ◌≤ℤ◌, leb_ℤ, -ℤ_parts}
use society_agent.Db.{Event, EventFoodToken, Tables, AuditLog}
use society_agent.Db.Errors.{ok}
use society_agent.Db.Session.{Session}
use society_agent.Db.Query.{add_audit}
use society_agent.Db.Steps.{bind_elim, guard_elim, query-ok, finish-ok}
use society_agent.Food.Entry.{ensure_workflow_action_allowed-ok}
use society_agent.Food.Serving.{require_event_roles-ok, require_open_counter-ok}
use society_agent.Food.Serve.{is_food_audit}
use society_agent.Food.Lookup.{
  LookupInput, find_unserved, entitled_count, served_token_count, served_no_token_count,
  no_token_fallback_method, fallback_audit, serve_without_token, serve_or_fall_back,
  serve_by_flat_lookup,
}

-- The meals served to the flat are within its booking.
abbrev pub IsWithin : ℕ → ℕ → Tables → Type 0
IsWithin e f t = pos (served_token_count e f t + served_no_token_count f t) ≤ℤ entitled_count e f t

length-find_all_add :
    (p : AuditLog → Bool) (xs : List AuditLog) (x : AuditLog)
    → p x ≡ true
    → length (find_all p (xs ++ x ∷ [])) ≡ length (find_all p xs) + 1
unfolding find_all
length-find_all_add p [] x h = ground arith
length-find_all_add p (y ∷ xs) x h = ground (arith, length-find_all_add p xs x)

room_for_one : (x : ℤ) (n : ℕ) → leb_ℤ (x -ℤ pos n) 0ℤ ≡ false → pos (n + 1) ≤ℤ x
room_for_one x n h = ground (arith, -ℤ_parts x (pos n))

counted_once :
    (event : Event) (i : LookupInput) (t : Tables)
    → served_no_token_count i.flat_id (add_audit (fallback_audit event i) t)
      ≡ served_no_token_count i.flat_id t + 1
unfolding served_no_token_count
counted_once event i t =
    length-find_all_add (is_food_audit i.flat_id no_token_fallback_method) t.audit_logs
      (fallback_audit event i) (ground arith)

serve_without_token-IsWithin :
    (event : Event) (i : LookupInput) (s : Session) {token : EventFoodToken} {s' : Session}
    → serve_without_token event i s ≡ (ok token, s')
    → IsWithin i.event_id i.flat_id s'.durable
unfolding serve_without_token served_token_count entitled_count
serve_without_token-IsWithin event i s {token} {s'} h =
    guard_elim _ _ _ s (query-ok _ _ s (query-ok _ _ s (query-ok _ _ s h))) λ room h1.
      let (_, _, stored) = finish-ok _ _ s h1 in
      let n = served_token_count i.event_id i.flat_id s.current in
      let m = served_no_token_count i.flat_id s.current in
      let fits : pos (n + m + 1) ≤ℤ entitled_count i.event_id i.flat_id s.current =
        room_for_one _ (n + m) (ground (arith, room)) in
      rw (stored, counted_once event i s.current) (omega (arith, fits))

-- An override's audit row does not hide a token.
find_unserved_same :
    (e f : ℕ) (row : AuditLog) (t : Tables)
    → find_unserved e f (add_audit row t) ≡ find_unserved e f t
unfolding find_unserved
find_unserved_same e f row t = refl

-- When a flat with no unserved token is served by its number, the meals served to it, with a token and
-- without, are within the counts that it has booked, after the serving too.
pub serve_by_flat_lookup-IsWithin :
    (id_text : ℕ → String) (i : LookupInput) (s : Session) {token : EventFoodToken} {s' : Session}
    → find_unserved i.event_id i.flat_id s.current ≡ none
    → serve_by_flat_lookup id_text i s ≡ (ok token, s')
    → IsWithin i.event_id i.flat_id s'.durable
unfolding serve_by_flat_lookup serve_or_fall_back
serve_by_flat_lookup-IsWithin id_text i s {token} {s'} empty h =
    bind_elim _ _ s h λ event t entered h1. bind_elim _ _ t h1 λ u t1 allowed h2.
      bind_elim _ _ t1 h2 λ v t2 opened h3.
        let (same, _) = require_event_roles-ok _ _ s entered in
        let (_, same2) = require_open_counter-ok event _ _ _ t1 opened in
        let no_token : find_unserved i.event_id i.flat_id t2.current ≡ none =
          elim (ensure_workflow_action_allowed-ok event _ _ _ _ t allowed) [
            | inl same1 ↦ rw (same2 ∙ same1 ∙ same) empty
            | inr over ↦ rw (same2 ∙ over) (rw (find_unserved_same, same) empty)
          ] in
        serve_without_token-IsWithin event i t2 (rw no_token at (query-ok _ _ t2 h3))
