-- ===== src/Food/Tests.antt =====
-- Runs of the food services, and their theorems at those runs.
use Prim.Native.String
use society_agent.Prelude.{
  ℕ, Bool, zero, suc, ◌+◌, ◌==◌, String, ◌≡◌, refl, true, false, none, some, Option, List, [], ◌∷◌,
  find_first, update_where, arith, if◌then◌else◌,
}
use society_agent.Text.{text_length, upper, strip, contains}
use society_agent.Db.{EventFoodToken, EventFoodCounter, Tables, AuditLog, event_day, active}
use society_agent.Db.Errors.{Error, Result, ok, err, no_entitlement}
use society_agent.Db.Session.{Session}
use society_agent.Fixtures.{tables_in, session_of, treasurer}
use society_agent.Runs.{running}
use society_agent.Food.Codes.{all_token_letters, is_token_text, draw_unused, build_token_code}
use society_agent.Food.Entry.{require_event_roles, ensure_workflow_action_allowed, reject_with}
use society_agent.Food.Generate.{
  TokensInput, tokens_of_type, tokens_of_pass, tokens_of_passes, tokens_for, insert_tokens,
  on_conflict, insert_or_reject, generate_tokens_for_event,
}
use society_agent.Food.Counter.{
  find_counter, opened_counter, close_counter_if_expired, require_open_counter,
}
use society_agent.Food.Serve.{
  ServeInput, normalize, expiry_of, latest, find_token, served, active_failed_token_lockout,
  failed_attempt_count, record_failed_token_attempt, mark_served, serve_found, serve_unless_locked,
  verify_and_serve_token,
}
use society_agent.Food.Lookup.{
  LookupInput, find_unserved, entitled_count, served_token_count, served_no_token_count,
  fallback_token, serve_without_token, serve_or_fall_back, serve_by_flat_lookup,
}
use society_agent.Food.Plan.{build_token_code-finds}
use society_agent.Food.Generated.{Issued, generate_tokens_for_event-issues}
use society_agent.Food.Serving.{Serving, verify_and_serve_token-serves}
use society_agent.Food.History.{here, served_once}
use society_agent.Food.Entitlement.{IsWithin, serve_by_flat_lookup-IsWithin}

abbrev id_text : ℕ → String
id_text n = "30"

-- The codes that are drawn: the first is drawn twice.
abbrev drawn : ℕ → String
drawn k = if k == 2 then "BBBBBBBB" else "AAAAAAAA"

abbrev tokens_input : TokensInput
tokens_input = record {
  event_id = 10;
  performed_by = some 30;
  token_length = 8;
  override_reason = none;
  draw = drawn;
  id_of = λ n. n + 1;
  text_of = λ n. "2";
  is_unique_conflict = false;
}

abbrev token : ℕ → String → EventFoodToken
token id code = record {
  id = id;
  event_id = 10;
  flat_id = 20;
  food_type = "veg";
  token_code = code;
  qr_payload = String.◌++◌ "DFP:2:" code;
  served_at = none;
  served_method = none;
  served_by = none;
}

abbrev both : List EventFoodToken
both = token 1 "AAAAAAAA" ∷ token 2 "BBBBBBBB" ∷ []

abbrev plain_row : ℕ → String → String → AuditLog
plain_row entity_id action reason = record {
  society_id = 1;
  entity_type = "food_collection";
  entity_id = entity_id;
  action = action;
  reason = reason;
  source = none;
  performed_by = some 30;
  performed_at = none;
}

abbrev issued_tables : Tables
issued_tables = record (tables_in event_day) {
  food_tokens = both;
  audit_logs = plain_row 10 "GENERATE_FOOD_TOKENS" "Generated 2 tokens" ∷ [];
}

generate_tokens_for_event_run :
    generate_tokens_for_event tokens_input (session_of (tables_in event_day))
    ≡ (ok both, session_of issued_tables)
unfolding running build_token_code draw_unused require_event_roles ensure_workflow_action_allowed
    tokens_of_type tokens_of_pass tokens_of_passes tokens_for insert_tokens on_conflict
    insert_or_reject generate_tokens_for_event
generate_tokens_for_event_run = refl

generate_tokens_for_event-issues_example :
    Issued tokens_input (tables_in event_day) both issued_tables
generate_tokens_for_event-issues_example =
    generate_tokens_for_event-issues tokens_input (session_of (tables_in event_day))
      generate_tokens_for_event_run

build_token_code-finds_example :
    (code : String) × (k' : ℕ) × (build_token_code 8 drawn ("AAAAAAAA" ∷ []) 0 ≡ ok (code, k'))
    × (contains code ("AAAAAAAA" ∷ []) ≡ false)
unfolding contains
build_token_code-finds_example =
    build_token_code-finds 8 drawn ("AAAAAAAA" ∷ []) 0 2 (omega arith) (omega arith) refl

-- The counter is open from second 100 to second 1000.
abbrev counter : EventFoodCounter
counter = opened_counter record {
  event_id = 10;
  performed_by = some 30;
  auto_close_minutes = 15;
  override_reason = none;
  now = 100;
}

abbrev counting : List EventFoodToken → Tables
counting tokens = record (tables_in event_day) {
  food_tokens = tokens;
  food_counters = counter ∷ [];
}

-- The token is scanned in lower case, with blanks.
abbrev serve_input : String → ServeInput
serve_input code = record {
  event_id = 10;
  token_code = code;
  method = "qr_scan";
  performed_by = some 30;
  override_reason = none;
  now = 200;
}

abbrev served_one : EventFoodToken
served_one = served "QR_SCAN" (some 30) 200 (token 1 "AAAAAAAA")

abbrev served_tables : Tables
served_tables = record (counting (served_one ∷ token 2 "BBBBBBBB" ∷ [])) {
  audit_logs =
      record (plain_row 1 "SERVE_FOOD_TOKEN" "Served via QR_SCAN") {
        source = some "QR_SCAN";
        performed_at = some 200;
      }
      ∷ [];
}

unfoldable serving : Unit {0}
unfolding running normalize upper text_length all_token_letters is_token_text require_event_roles
    ensure_workflow_action_allowed reject_with find_counter close_counter_if_expired
    require_open_counter latest find_token expiry_of active_failed_token_lockout
    failed_attempt_count record_failed_token_attempt update_where mark_served serve_found
    serve_unless_locked verify_and_serve_token find_unserved entitled_count served_token_count
    served_no_token_count serve_without_token serve_or_fall_back serve_by_flat_lookup
serving = tt

verify_and_serve_token_run :
    verify_and_serve_token id_text (serve_input " aaaaaaaa ") (session_of (counting both))
    ≡ (ok served_one, session_of served_tables)
unfolding serving
verify_and_serve_token_run = refl

verify_and_serve_token-serves_example :
    Serving id_text (serve_input " aaaaaaaa ") (counting both) served_one served_tables
verify_and_serve_token-serves_example =
    verify_and_serve_token-serves id_text (serve_input " aaaaaaaa ") (session_of (counting both))
      verify_and_serve_token_run

served_once_example :
    (e : Error) × ((verify_and_serve_token id_text
        (serve_input "AAAAAAAA")
        (session_of served_tables)).0
      ≡ err e)
unfolding normalize upper strip
served_once_example =
    served_once id_text (serve_input " aaaaaaaa ") (serve_input "AAAAAAAA")
      (session_of (counting both)) (session_of served_tables) verify_and_serve_token_run here refl
      refl refl

-- One of the two meals is served without a token, in an event with no tokens.
abbrev lookup : LookupInput
lookup = record {
  event_id = 10;
  flat_id = 20;
  performed_by = some 30;
  override_reason = none;
  now = 200;
}

abbrev lookup_tables : Tables
lookup_tables = record (counting []) {
  audit_logs =
      record (plain_row 20 "FLAT_LOOKUP_NO_TOKEN"
        "Manual serve via flat lookup without available token") {
          source = some "FLAT_LOOKUP_NO_TOKEN";
          performed_at = some 200;
        }
      ∷ [];
}

serve_by_flat_lookup_run :
    serve_by_flat_lookup id_text lookup (session_of (counting []))
    ≡ (ok (fallback_token lookup), session_of lookup_tables)
unfolding serving
serve_by_flat_lookup_run = refl

serve_by_flat_lookup-IsWithin_example : IsWithin 10 20 lookup_tables
unfolding find_unserved find_first
serve_by_flat_lookup-IsWithin_example =
    serve_by_flat_lookup-IsWithin id_text lookup (session_of (counting [])) refl
      serve_by_flat_lookup_run

-- Failed attempts of the treasurer, one at each of the seconds 100, 101, …
abbrev failed_at : ℕ → AuditLog
failed_at time = record (plain_row 10 "REJECT_FOOD_TOKEN" "Token not found") {
  source = some "QR_SCAN";
  performed_at = some time;
}

abbrev failures : ℕ → List AuditLog
failures zero = []
failures (suc n) = failed_at (100 + n) ∷ failures n

abbrev after_failures : ℕ → Session
after_failures n = session_of (record (counting both) { audit_logs = failures n })

-- The lockouts in force after one more failed attempt.
abbrev lockout_after : ℕ → Option ℕ
lockout_after n =
    active_failed_token_lockout id_text 10 (some 30) 200
      (verify_and_serve_token id_text (serve_input "CCCCCCCC") (after_failures n)).1.durable

-- The fifth failure does not lock the treasurer out, the sixth does.
lockout_count_test : (lockout_after 4 ≡ none) × (lockout_after 5 ≡ some 800)
unfolding serving
lockout_count_test = (refl, refl)

abbrev succeeds : {A : Type 0} → Result A → Bool
succeeds (ok a) = true
succeeds (err e) = false

-- In an event that is not on its day the chairman serves by an override: without a token it goes
-- through, with a token it is refused.
abbrev early : List EventFoodToken → Tables
early tokens = record (tables_in active) {
  food_tokens = tokens;
  food_counters = counter ∷ [];
  committee_members = record treasurer { role = "chairman" } ∷ [];
}

abbrev with_reason : LookupInput
with_reason = record lookup { override_reason = some "Guests" }

override_lost_test :
    (succeeds (serve_by_flat_lookup id_text with_reason (session_of (early []))).0 ≡ true)
    × (succeeds (serve_by_flat_lookup id_text with_reason (session_of (early both))).0 ≡ false)
unfolding serving
override_lost_test = (refl, refl)

-- Two meals served without a token in another event leave nothing for this one.
abbrev elsewhere : Tables
elsewhere = record (counting []) {
  audit_logs =
      plain_row 20 "FLAT_LOOKUP_NO_TOKEN" "in another event"
      ∷ plain_row 20 "FLAT_LOOKUP_NO_TOKEN" "in another event"
      ∷ [];
}

other_event_test :
    (serve_by_flat_lookup id_text lookup (session_of elsewhere)).0 ≡ err no_entitlement
unfolding serving
other_event_test = refl
