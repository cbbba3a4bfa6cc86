-- ===== src/Announcements/Templates.antt =====
-- app/modules/announcements/service.py: the payload of a template message. Python's exceptions are
-- values here: `ValueError` with its text, and the errors of the provider's client.
use text.Mathlib.Text.{◌==◌ as str_eq}
use society_agent.Prelude.{
  ℕ, String, Bool, not, ◌&&◌, ◌||◌, Option, none, some, List, [], ◌∷◌, get_or, leb, if◌then◌else◌,
}
use society_agent.Text.{text_length, strip, lower, contains}
use society_agent.Announcements.Models.{Payload}

pub data Failure : Type 0 where
  whatsapp_retryable timeout connection_error : Failure
  http_error : Option ℕ → Failure
  value_error : String → Failure
  other_error : String → Failure

pub data Try (A : Type 0) : Type 0 where
  gives : A → Try A
  fails_with : Failure → Try A

-- `normalize_language_code` of app/modules/users/language_service.py
unfoldable pub normalize_language_code : String → Option String
normalize_language_code s =
    if contains (lower (strip s)) ("en" ∷ "hi" ∷ "gu" ∷ []) then some (lower (strip s)) else none

-- `TEMPLATE_LOCALE_BY_APP_LANGUAGE.get(code, default)`
abbrev pub locale_of : String → String
locale_of code = if str_eq code "hi" then "hi_IN" else if str_eq code "gu" then "gu_IN" else "en_US"

abbrev pub valid_locales : List String
valid_locales = "en_US" ∷ "hi_IN" ∷ "gu_IN" ∷ []

abbrev pub max_free_text_length : ℕ
max_free_text_length = 1024

-- `_is_event_related`
unfoldable pub is_event_related : String → String → Bool
is_event_related announcement_type event_name =
    not (str_eq event_name "")
    || contains (lower (strip announcement_type))
        ("event" ∷ "event_related" ∷ "event-related" ∷ "event_announcement" ∷ [])

-- The keyword arguments of `build_whatsapp_template_payload`; a missing text is "".
pub record TemplateInput : Type 0 where
  pub announcement_type : String
  pub receiver_name : String
  pub free_text : String
  pub event_name : String
  pub app_language_code : String

abbrev pub payload_of : TemplateInput → String → List String → Payload
payload_of i name parameters = record {
  template_name = name;
  body_parameters = parameters;
  app_language_code = get_or (normalize_language_code i.app_language_code) "en";
  template_locale_code = locale_of (get_or (normalize_language_code i.app_language_code) "en");
}

-- From `if AnnouncementService._is_event_related(...)` on.
unfoldable pub choose_template : TemplateInput → Try Payload
choose_template i =
    if is_event_related i.announcement_type (strip i.event_name)
    then (if str_eq (strip i.event_name) ""
        then fails_with (value_error "event_name is required for event-related announcements")
        else gives (
            payload_of i "society_announcement_event"
              (strip i.receiver_name ∷ strip i.event_name ∷ strip i.free_text ∷ [])))
    else gives (
        payload_of i "society_announcement_general"
          (strip i.receiver_name ∷ strip i.free_text ∷ []))

-- `AnnouncementService.build_whatsapp_template_payload`
unfoldable pub build_whatsapp_template_payload : TemplateInput → Try Payload
build_whatsapp_template_payload i =
    if str_eq (strip i.receiver_name) ""
    then fails_with (value_error "receiver_name is required")
    else if str_eq (strip i.free_text) ""
    then fails_with (value_error "free_text is required")
    else if not (leb (text_length (strip i.free_text)) max_free_text_length)
    then fails_with (value_error "free_text exceeds max length of 1024 characters")
    else choose_template i

-- `AnnouncementService.ensure_whatsapp_template_delivery`
abbrev pub ensure_whatsapp_template_delivery : String → Bool → Try (Unit {0})
ensure_whatsapp_template_delivery channel uses_template_path =
    if str_eq channel "whatsapp" && not uses_template_path
    then fails_with (value_error "WhatsApp announcement deliveries must use template messaging")
    else gives tt
