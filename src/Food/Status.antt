-- ===== src/Food/Status.antt =====
-- app/modules/events/food_collection_service.py: `inspect_token` and the numbers of
-- `member_pass_status`.
use society_agent.Prelude.{ℕ, ◌+◌, ◌-◌, String, Option, none, find_all, length, if◌then◌else◌}
use society_agent.Db.{EventFoodToken, Tables}
use society_agent.Food.Codes.{is_token_text}
use society_agent.Food.Serve.{normalize, find_token}
use society_agent.Food.Lookup.{is_token_of, served_token_count, served_no_token_count}

-- `FoodCollectionService.inspect_token`; `none` stands for its exception.
unfoldable pub inspect_token : ℕ → String → Tables → Option EventFoodToken
inspect_token e code t =
    if is_token_text (normalize code) then find_token e (normalize code) t else none

pub record PassStatus : Type 0 where
  pub total_passes : ℕ
  pub served : ℕ
  pub remaining : ℕ
  pub fallback_served : ℕ

unfoldable pub token_count : ℕ → ℕ → Tables → ℕ
token_count e f t = length (find_all (is_token_of e f) t.food_tokens)

-- `FoodCollectionService.member_pass_status`; on ℕ the difference stops at 0, as `max(…, 0)` does.
unfoldable pub member_pass_status : ℕ → ℕ → Tables → PassStatus
member_pass_status e f t =
    let fallback = served_no_token_count f t in
    record {
      total_passes = token_count e f t + fallback;
      served = served_token_count e f t + fallback;
      remaining = token_count e f t + fallback - (served_token_count e f t + fallback);
      fallback_served = fallback;
    }
