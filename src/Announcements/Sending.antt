-- ===== src/Announcements/Sending.antt =====
-- app/modules/announcements/delivery_worker.py and recipient_resolver.py: what is sent for a delivery,
-- up to the call of the provider's client.
use Prim.Native.String
use text.Mathlib.Text.{◌==◌ as str_eq}
use society_agent.Prelude.{
  ℕ, String, Bool, true, false, not, ◌||◌, Option, none, some, List, [], ◌∷◌, find_first, get_or,
  ◌==◌, if◌then◌else◌,
}
use society_agent.Text.{strip, lower, is_blank, contains}
use society_agent.Announcements.Models.{
  Payload, Announcement, AnnouncementDelivery, MemberIdentity, TemplateMessage, World, is_sent,
}
use society_agent.Announcements.Templates.{
  Failure, http_error, whatsapp_retryable, timeout, connection_error, value_error, Try, gives,
  fails_with, normalize_language_code, locale_of, valid_locales, ensure_whatsapp_template_delivery,
}

-- The text that a processing returns, or the exception that it raises to the queue.
pub data SendOutcome : Type 0 where
  missing already_sent sent_template skipped_no_opt_in failed_template_required : SendOutcome
  retry_deferred gives_up : SendOutcome
  raised : Failure → SendOutcome

-- What `_send_delivery` comes to: an outcome without a message, an exception, or a message to send.
pub data Prepared : Type 0 where
  answers : SendOutcome → Option String → Prepared
  refuses : Failure → Prepared
  hands_over : TemplateMessage → Prepared

-- `_is_transient_error`
abbrev pub is_transient_error : Failure → Bool
is_transient_error whatsapp_retryable = true
is_transient_error timeout = true
is_transient_error connection_error = true
is_transient_error (http_error (some status)) =
    status == 429 || status == 500 || status == 502 || status == 503 || status == 504
is_transient_error _ = false

unfoldable pub find_identity : ℕ → World → Option MemberIdentity
find_identity m w = find_first (λ row. row.id == m) w.member_identities

unfoldable pub find_announcement : ℕ → World → Option Announcement
find_announcement a w = find_first (λ row. row.id == a) w.announcements

abbrev pub has_text : Option Announcement → Bool
has_text none = false
has_text (some a) = not (str_eq a.message_text "")

-- `state.get("opt_in")`
abbrev pub has_opted_in : Option MemberIdentity → Bool
has_opted_in none = false
has_opted_in (some m) = m.opt_in

-- `_resolve_policy_outcome`; `none` stands for `("sent_template", None)`.
unfoldable pub resolve_policy_outcome : World → AnnouncementDelivery → Option (SendOutcome × String)
resolve_policy_outcome w d =
    if not (has_opted_in (find_identity d.member_identity_id w))
    then some (skipped_no_opt_in, "Recipient has no opt-in state for WhatsApp announcements")
    else elim d.rendered_payload [
      | none ↦ some (failed_template_required, "Announcement rendered payload is missing")
      | some p ↦
          if str_eq (strip p.template_name) ""
          then some (failed_template_required, "Announcement template is not configured")
          else none
    ]

-- `_resolve_template_locale_code`
unfoldable pub resolve_template_locale_code : Payload → String
resolve_template_locale_code p =
    if contains (strip p.template_locale_code) valid_locales
    then strip p.template_locale_code
    else locale_of (get_or (normalize_language_code p.app_language_code) "en")

-- `CHANNEL_RECIPIENT_FIELDS`, and the field of the member.
abbrev pub recipient_field : String → MemberIdentity → Option (Option String)
recipient_field channel_key m =
    if str_eq channel_key "whatsapp"
    then some m.whatsapp_user_id
    else if str_eq channel_key "telegram"
    then some m.telegram_user_id
    else none

abbrev pub recipient_of : Option (Option String) → Try String
recipient_of none = fails_with (value_error "Unsupported channel")
recipient_of (some field) =
    if str_eq (strip (get_or field "")) ""
    then fails_with (value_error "Missing provider recipient identifier")
    else gives (strip (get_or field ""))

-- `resolve_provider_recipient_id`; the texts of its exceptions are without their arguments.
unfoldable pub resolve_provider_recipient_id : World → ℕ → String → Try String
resolve_provider_recipient_id w m channel = elim (find_identity m w) [
  | none ↦ fails_with (value_error "Member identity not found")
  | some identity ↦ recipient_of (recipient_field (lower (strip channel)) identity)
]

-- `not body_parameters or any(not str(param).strip() for param in body_parameters)`
unfoldable pub any_blank : List String → Bool
any_blank [] = false
any_blank (x ∷ xs) = is_blank x || any_blank xs

abbrev pub has_empty_placeholder : List String → Bool
has_empty_placeholder [] = true
has_empty_placeholder (x ∷ xs) = any_blank (x ∷ xs)

abbrev pub address : Payload → Try String → Prepared
address p (fails_with f) = refuses f
address p (gives to) = hands_over record {
  to_phone = to;
  template_name = p.template_name;
  body_parameters = p.body_parameters;
  language_code = resolve_template_locale_code p;
}

abbrev pub fill_in : World → AnnouncementDelivery → Option Payload → Prepared
fill_in w d none = refuses (value_error "Announcement payload has empty template placeholders")
fill_in w d (some p) =
    if has_empty_placeholder p.body_parameters
    then refuses (value_error "Announcement payload has empty template placeholders")
    else address p (resolve_provider_recipient_id w d.member_identity_id d.channel)

abbrev pub use_template : World → AnnouncementDelivery → Try (Unit {0}) → Prepared
use_template w d (fails_with f) = refuses f
use_template w d (gives u) = fill_in w d d.rendered_payload

abbrev pub follow_policy : World → AnnouncementDelivery → Option (SendOutcome × String) → Prepared
follow_policy w d (some (outcome, reason)) = answers outcome (some reason)
follow_policy w d none = use_template w d (ensure_whatsapp_template_delivery d.channel true)

-- `_send_delivery`, without the call of the client.
unfoldable pub prepare_delivery : World → AnnouncementDelivery → Prepared
prepare_delivery w d =
    if is_sent d.status
    then answers sent_template none
    else if not (str_eq d.channel "whatsapp")
    then refuses (value_error (String.◌++◌ "Unsupported channel: " d.channel))
    else if not (has_text (find_announcement d.announcement_id w))
    then refuses (value_error "Announcement payload is missing message text")
    else follow_policy w d (resolve_policy_outcome w d)
