-- ===== src/Validation.antt =====
-- app/utils/validation.py: identifiers as they arrive.
use society_agent.Prelude.{ℕ, String}
use society_agent.Db.Errors.{Result, ok, err, invalid_id}

-- What `uuid.UUID(str(value))` makes of an argument: there is none, it is refused, or it is read.
pub data RawId : Type 0 where
  absent malformed : RawId
  uuid : ℕ → RawId

-- `validate_uuid(value, field_name=…)` with `allow_none` left at `False`
unfoldable pub validate_uuid : RawId → String → Result ℕ
validate_uuid absent field_name = err (invalid_id field_name)
validate_uuid malformed field_name = err (invalid_id field_name)
validate_uuid (uuid n) field_name = ok n
