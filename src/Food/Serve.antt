-- ===== src/Food/Serve.antt =====
-- app/modules/events/food_collection_service.py: `verify_and_serve_token`. The metadata that the audit
-- rows carry as JSON are left out; how an id is written is a parameter.
use Prim.Native.String
use text.Mathlib.Text.{◌==◌ as str_eq}
use society_agent.Prelude.{
  ℕ, ◌+◌, String, Bool, false, not, ◌&&◌, Option, none, some, List, [], ◌∷◌, find_first, find_all,
  update_where, length, is_some, leb, ltb, ◌==◌, same_option, get_or, if◌then◌else◌,
}
use society_agent.Text.{strip, upper, contains}
use society_agent.Db.{Event, EventFoodToken, Tables, AuditLog}
use society_agent.Db.Errors.{serving_method_invalid, invalid_token, too_many_failures, token_used}
use society_agent.Db.Session.{Exec, pure, raise, query, guard, modify, finish, ◌>>=◌, ◌>>◌}
use society_agent.Db.Query.{add_audit}
use society_agent.Workflow.Rules.{Action}
use society_agent.Food.Codes.{is_token_text}
use society_agent.Food.Entry.{require_event_roles, ensure_workflow_action_allowed, reject_with}
use society_agent.Food.Counter.{require_open_counter}

-- The arguments of `verify_and_serve_token`, and the time at which it runs. A missing text is "".
pub record ServeInput : Type 0 where
  pub event_id : ℕ
  pub token_code : String
  pub method : String
  pub performed_by : Option ℕ
  pub override_reason : Option String
  pub now : ℕ

-- `SERVE_METHODS`
abbrev pub serve_methods : List String
serve_methods = "QR_SCAN" ∷ "MANUAL_TOKEN" ∷ "FLAT_LOOKUP" ∷ []

-- `(x or "").strip().upper()`
unfoldable pub normalize : String → String
normalize s = upper (strip s)

-- The windows, in seconds, and the threshold.
abbrev pub failed_token_lockout : ℕ
failed_token_lockout = 600

abbrev pub failed_token_burst_window : ℕ
failed_token_burst_window = 180

abbrev pub failed_token_burst_threshold : ℕ
failed_token_burst_threshold = 5

-- `performed_at >= now - window`
abbrev pub is_since : Option ℕ → ℕ → ℕ → Bool
is_since none window now = false
is_since (some at) window now = leb now (at + window)

abbrev pub is_food_audit : ℕ → String → AuditLog → Bool
is_food_audit entity_id action row =
    str_eq row.entity_type "food_collection"
    && row.entity_id == entity_id
    && str_eq row.action action

abbrev pub is_failed_attempt : ℕ → Option ℕ → String → ℕ → AuditLog → Bool
is_failed_attempt event_id performed_by method now row =
    is_food_audit event_id "REJECT_FOOD_TOKEN" row
    && same_option row.performed_by performed_by
    && str_eq (get_or row.source "") method
    && is_some row.source
    && is_since row.performed_at failed_token_burst_window now

-- The row that was written last; of several at one time, the first.
unfoldable pub latest : List AuditLog → Option AuditLog
latest [] = none
latest (x ∷ xs) = elim (latest xs) [
  | none ↦ some x
  | some y ↦ if ltb (get_or x.performed_at 0) (get_or y.performed_at 0) then some y else some x
]

abbrev pub food_audit : ℕ → ℕ → String → String → String → Option ℕ → ℕ → AuditLog
food_audit society_id entity_id action reason method performed_by now = record {
  society_id = society_id;
  entity_type = "food_collection";
  entity_id = entity_id;
  action = action;
  reason = reason;
  source = some method;
  performed_by = performed_by;
  performed_at = some now;
}

unfoldable pub find_token : ℕ → String → Tables → Option EventFoodToken
find_token e code t =
    find_first (λ row. row.event_id == e && str_eq row.token_code code) t.food_tokens

-- The filter of the UPDATE.
abbrev pub is_unserved : ℕ → EventFoodToken → Bool
is_unserved id row = row.id == id && not (is_some row.served_at)

abbrev pub served : String → Option ℕ → ℕ → EventFoodToken → EventFoodToken
served method performed_by now token = record token {
  served_at = some now;
  served_method = some method;
  served_by = performed_by;
}

module _ (id_text : ℕ → String) where
  -- `_actor_identifier`
  abbrev pub actor_identifier : Option ℕ → String
  actor_identifier none = "system"
  actor_identifier (some p) = id_text p

  abbrev pub lockout_reason : Option ℕ → String
  lockout_reason performed_by =
      String.◌++◌ "Actor lockout active for " (actor_identifier performed_by)

  abbrev pub is_lockout : ℕ → Option ℕ → ℕ → AuditLog → Bool
  is_lockout event_id performed_by now row =
      is_food_audit event_id "REJECT_FOOD_TOKEN_BURST" row
      && str_eq row.reason (lockout_reason performed_by)
      && is_since row.performed_at failed_token_lockout now

  -- `expires_at`, unless it is reached.
  unfoldable pub expiry_of : ℕ → Option AuditLog → Option ℕ
  expiry_of now none = none
  expiry_of now (some row) = elim row.performed_at [
    | none ↦ none
    | some at ↦
        if leb (at + failed_token_lockout) now then none else some (at + failed_token_lockout)
  ]

  -- `_active_failed_token_lockout`
  unfoldable pub active_failed_token_lockout : ℕ → Option ℕ → ℕ → Tables → Option ℕ
  active_failed_token_lockout event_id performed_by now t =
      expiry_of now (latest (find_all (is_lockout event_id performed_by now) t.audit_logs))

  -- The count is of the rows that are flushed: the attempt that is being recorded is not among them.
  unfoldable pub failed_attempt_count : ℕ → Option ℕ → String → ℕ → Tables → ℕ
  failed_attempt_count event_id performed_by method now t =
      length (find_all (is_failed_attempt event_id performed_by method now) t.audit_logs)

  -- `_record_failed_token_attempt`
  unfoldable pub record_failed_token_attempt : Event → ServeInput → String → Exec (Unit {0})
  record_failed_token_attempt event i method = do
    count ← query (failed_attempt_count i.event_id i.performed_by method i.now)
    modify (
        add_audit (
          food_audit event.society_id i.event_id "REJECT_FOOD_TOKEN" "Token not found" method
            i.performed_by i.now))
    if ltb count failed_token_burst_threshold
        then pure tt
        else modify (
            add_audit (
              food_audit event.society_id i.event_id "REJECT_FOOD_TOKEN_BURST"
                (lockout_reason i.performed_by) method i.performed_by i.now))

  already_served : Event → ServeInput → String → EventFoodToken → AuditLog
  already_served event i method token =
      food_audit event.society_id token.id "REJECT_FOOD_TOKEN"
        (String.◌++◌ "Already served via " (get_or token.served_method "None")) method
        i.performed_by i.now

  -- The UPDATE, the count of the rows that it changed, and the commit.
  unfoldable pub mark_served : Event → ServeInput → String → EventFoodToken → Exec EventFoodToken
  unfolding already_served
  mark_served event i method token = do
    matching ← query (λ t. find_all (is_unserved token.id) t.food_tokens)
    modify (λ t. record t {
      food_tokens =
          update_where (is_unserved token.id) (served method i.performed_by i.now) t.food_tokens;
    })
    if length matching == 1
        then finish
            (add_audit (
              food_audit event.society_id token.id "SERVE_FOOD_TOKEN"
                (String.◌++◌ "Served via " method) method i.performed_by i.now))
            (served method i.performed_by i.now token)
        else reject_with (already_served event i method token) token_used

  unfoldable pub serve_found :
      Event → ServeInput → String → Option EventFoodToken → Exec EventFoodToken
  unfolding already_served
  serve_found event i method none = do
    record_failed_token_attempt event i method
    finish (λ t. t) tt
    raise invalid_token
  serve_found event i method (some token) =
      if is_some token.served_at
      then reject_with (already_served event i method token) token_used
      else mark_served event i method token

  -- The lockout, then the token.
  unfoldable pub serve_unless_locked : Event → ServeInput → String → String → Exec EventFoodToken
  serve_unless_locked event i method code = do
    lockout ← query (active_failed_token_lockout i.event_id i.performed_by i.now)
    if is_some lockout
        then reject_with
            (food_audit event.society_id i.event_id "REJECT_FOOD_TOKEN"
              "Actor temporarily locked after repeated failed token attempts" method i.performed_by
              i.now)
            too_many_failures
        else do token ← query (find_token i.event_id code); serve_found event i method token

  -- `FoodCollectionService.verify_and_serve_token`
  unfoldable pub verify_and_serve_token : ServeInput → Exec EventFoodToken
  verify_and_serve_token i = do
    guard (contains (normalize i.method) serve_methods) serving_method_invalid
    guard (is_token_text (normalize i.token_code)) invalid_token
    event ← require_event_roles i.event_id i.performed_by
    ensure_workflow_action_allowed event i.event_id Action.serve_food_token i.performed_by
        i.override_reason
    require_open_counter event i.event_id i.performed_by i.now
    serve_unless_locked event i (normalize i.method) (normalize i.token_code)
