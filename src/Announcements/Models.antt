-- ===== src/Announcements/Models.antt =====
-- app/db/models.py: the rows of an announcement, and what the worker's world holds beside them.
use text.Mathlib.Text.{◌==◌ as str_eq}
use society_agent.Prelude.{
  ℕ, Bool, true, false, ◌&&◌, ◌||◌, String, Option, List, find_first, save, is_some, ◌==◌,
}
use society_agent.Db.{AuditLog}

pub data DeliveryStatus : Type 0 where
  pending processing sent failed skipped : DeliveryStatus

abbrev pub is_sent : DeliveryStatus → Bool
is_sent sent = true
is_sent _ = false

-- `RenderedTemplatePayload`, as `build_whatsapp_template_payload` renders it.
pub record Payload : Type 0 where
  pub template_name : String
  pub body_parameters : List String
  pub app_language_code : String
  pub template_locale_code : String

pub record Announcement : Type 0 where
  pub id : ℕ
  pub society_id : ℕ
  pub event_id : Option ℕ
  pub announcement_type : String
  pub message_text : String
  pub created_by : ℕ
  pub status : String
  pub total_targets : ℕ
  pub sent_count : ℕ
  pub failed_count : ℕ
  pub skipped_count : ℕ

pub record AnnouncementDelivery : Type 0 where
  pub announcement_id : ℕ
  pub member_identity_id : ℕ
  pub channel : String
  pub rendered_payload : Option Payload
  pub status : DeliveryStatus
  pub attempts : ℕ
  pub last_error : Option String
  pub sent_at : Option ℕ
  pub processing_started_at : Option ℕ

-- The fields that the worker reads. `opt_in` is `metadata_json["channel_state"]["whatsapp"]["opt_in"]`,
-- false where a part of the path is missing.
pub record MemberIdentity : Type 0 where
  pub id : ℕ
  pub whatsapp_user_id : Option String
  pub telegram_user_id : Option String
  pub opt_in : Bool

-- The primary key of a delivery.
pub record Key : Type 0 where
  pub announcement_id : ℕ
  pub member_identity_id : ℕ
  pub channel : String

-- The arguments of `send_template_message`.
pub record TemplateMessage : Type 0 where
  pub to_phone : String
  pub template_name : String
  pub body_parameters : List String
  pub language_code : String

-- A message that the client was called with, for which delivery, and whether the call returned.
pub record Handed : Type 0 where
  pub key : Key
  pub message : TemplateMessage
  pub returned : Bool

-- The committed tables, and the messages that the client was called with so far.
pub record World : Type 0 where
  pub announcements : List Announcement
  pub deliveries : List AnnouncementDelivery
  pub member_identities : List MemberIdentity
  pub audit_logs : List AuditLog
  pub handed : List Handed

abbrev pub key_of : AnnouncementDelivery → Key
key_of d = record {
  announcement_id = d.announcement_id;
  member_identity_id = d.member_identity_id;
  channel = d.channel;
}

abbrev pub same_key : Key → Key → Bool
same_key a b =
    a.announcement_id == b.announcement_id
    && a.member_identity_id == b.member_identity_id
    && str_eq a.channel b.channel

abbrev pub is_at : Key → AnnouncementDelivery → Bool
is_at k d = same_key (key_of d) k

unfoldable pub find_delivery : Key → World → Option AnnouncementDelivery
find_delivery k w = find_first (is_at k) w.deliveries

abbrev pub save_delivery : AnnouncementDelivery → World → World
save_delivery d w = record w { deliveries = save (is_at (key_of d)) d w.deliveries }

-- `delivery.sent_at is not None or delivery.status == "sent"`
abbrev pub is_done : AnnouncementDelivery → Bool
is_done d = is_some d.sent_at || is_sent d.status
