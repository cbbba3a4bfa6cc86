-- ===== src/Food/Lookup.antt =====
-- app/modules/events/food_collection_service.py: `serve_by_flat_lookup`.
use society_agent.Prelude.{
  ℕ, ◌+◌, String, Bool, not, ◌&&◌, Option, none, some, find_first, find_all, length, is_some, ◌==◌,
}
use society_agent.Prelude.Int.{ℤ, pos, 0ℤ, ◌+ℤ◌, ◌-ℤ◌, leb_ℤ}
use society_agent.Prelude.Sums.{sum_where}
use society_agent.Db.{Event, EventFoodPass, EventFoodToken, Tables, AuditLog}
use society_agent.Db.Errors.{no_entitlement}
use society_agent.Db.Session.{Exec, query, guard, finish, ◌>>=◌, ◌>>◌}
use society_agent.Db.Query.{add_audit}
use society_agent.Workflow.Rules.{Action}
use society_agent.Food.Entry.{require_event_roles, ensure_workflow_action_allowed}
use society_agent.Food.Counter.{require_open_counter}
use society_agent.Food.Serve.{ServeInput, is_food_audit, food_audit, verify_and_serve_token}

-- The keyword arguments of `serve_by_flat_lookup`, and the time at which it runs.
pub record LookupInput : Type 0 where
  pub event_id : ℕ
  pub flat_id : ℕ
  pub performed_by : Option ℕ
  pub override_reason : Option String
  pub now : ℕ

-- `NO_TOKEN_FALLBACK_METHOD`
abbrev pub no_token_fallback_method : String
no_token_fallback_method = "FLAT_LOOKUP_NO_TOKEN"

abbrev pub is_token_of : ℕ → ℕ → EventFoodToken → Bool
is_token_of e f row = row.event_id == e && row.flat_id == f

-- The oldest token of the flat that is not served.
unfoldable pub find_unserved : ℕ → ℕ → Tables → Option EventFoodToken
find_unserved e f t =
    find_first (λ row. is_token_of e f row && not (is_some row.served_at)) t.food_tokens

abbrev pub is_entitling : ℕ → ℕ → EventFoodPass → Bool
is_entitling e f row = row.event_id == e && row.flat_id == f && row.is_participating

unfoldable pub entitled_count : ℕ → ℕ → Tables → ℤ
entitled_count e f t =
    sum_where (is_entitling e f) (λ row. row.veg_count) t.food_passes
    +ℤ sum_where (is_entitling e f) (λ row. row.jain_count) t.food_passes
    +ℤ sum_where (is_entitling e f) (λ row. row.kids_count) t.food_passes

unfoldable pub served_token_count : ℕ → ℕ → Tables → ℕ
served_token_count e f t =
    length (find_all (λ row. is_token_of e f row && is_some row.served_at) t.food_tokens)

-- The audit rows are those of the flat, of whatever event.
unfoldable pub served_no_token_count : ℕ → Tables → ℕ
served_no_token_count f t =
    length (find_all (is_food_audit f no_token_fallback_method) t.audit_logs)

-- The token that stands for a meal without one; it is not stored.
abbrev pub fallback_token : LookupInput → EventFoodToken
fallback_token i = record {
  id = 0;
  event_id = i.event_id;
  flat_id = i.flat_id;
  food_type = "manual";
  token_code = no_token_fallback_method;
  qr_payload = "";
  served_at = some i.now;
  served_method = some no_token_fallback_method;
  served_by = i.performed_by;
}

abbrev pub fallback_audit : Event → LookupInput → AuditLog
fallback_audit event i =
    food_audit event.society_id i.flat_id no_token_fallback_method
      "Manual serve via flat lookup without available token" no_token_fallback_method i.performed_by
      i.now

unfoldable pub serve_without_token : Event → LookupInput → Exec EventFoodToken
serve_without_token event i = do
  entitled ← query (entitled_count i.event_id i.flat_id)
  with_token ← query (served_token_count i.event_id i.flat_id)
  no_token ← query (served_no_token_count i.flat_id)
  guard (not (leb_ℤ (entitled -ℤ pos (with_token + no_token)) 0ℤ)) no_entitlement
  finish (add_audit (fallback_audit event i)) (fallback_token i)

-- The call for a token that was found; the reason for an override is not passed on.
abbrev pub lookup_input : LookupInput → EventFoodToken → ServeInput
lookup_input i token = record {
  event_id = i.event_id;
  token_code = token.token_code;
  method = "FLAT_LOOKUP";
  performed_by = i.performed_by;
  override_reason = none;
  now = i.now;
}

module _ (id_text : ℕ → String) where
  unfoldable pub serve_or_fall_back :
      Event → LookupInput → Option EventFoodToken → Exec EventFoodToken
  serve_or_fall_back event i none = serve_without_token event i
  serve_or_fall_back event i (some token) = verify_and_serve_token id_text (lookup_input i token)

  -- `FoodCollectionService.serve_by_flat_lookup`
  unfoldable pub serve_by_flat_lookup : LookupInput → Exec EventFoodToken
  serve_by_flat_lookup i = do
    event ← require_event_roles i.event_id i.performed_by
    ensure_workflow_action_allowed event i.event_id Action.serve_food_token i.performed_by
        i.override_reason
    require_open_counter event i.event_id i.performed_by i.now
    token ← query (find_unserved i.event_id i.flat_id)
    serve_or_fall_back event i token
