-- ===== src/Announcements/Create.antt =====
-- app/modules/announcements/service.py: `create_announcement`. An exception commits nothing; the id of
-- the new row is an argument.
use Prim.Native.Char.{code}
use Prim.Native.String
use text.Mathlib.Text.{◌==◌ as str_eq}
use society_agent.Prelude.{
  ℕ, zero, suc, String, Option, none, some, List, [], ◌∷◌, ◌++◌, find_all, length, is_some, get_or,
  ◌==◌, if◌then◌else◌,
}
use society_agent.Text.{strip}
use society_agent.Db.{AuditLog}
use society_agent.Announcements.Models.{Announcement, AnnouncementDelivery, Payload, World, pending}
use society_agent.Announcements.Templates.{Try, gives, fails_with, build_whatsapp_template_payload}

-- `AnnouncementRecipient`; a text that is missing is "", but for the channel.
pub record Recipient : Type 0 where
  pub member_identity_id : Option ℕ
  pub channel : Option String
  pub receiver_name : String
  pub event_name : String
  pub preferred_language : String

-- The keyword arguments of `create_announcement`, and the id of the new row.
pub record CreateInput : Type 0 where
  pub society_id : ℕ
  pub event_id : Option ℕ
  pub announcement_type : String
  pub message_text : String
  pub created_by : ℕ
  pub recipients : List Recipient
  pub announcement_id : ℕ

-- `[:n]` after `.replace("\n", " ")`
unfoldable pub one_line : ℕ → String → String
one_line zero s = ""
one_line (suc n) String.[] = ""
one_line (suc n) (String.◌∷◌ c s) =
    let rest = one_line n s in if code c == 10 then String.◌++◌ " " rest else String.◌∷◌ c rest

-- The reason that `log_announcement_creation` of app/utils/audit_logger.py writes.
unfoldable pub creation_reason : String → String → String
creation_reason announcement_type message_text =
    let preview = one_line 80 (strip message_text) in
    if str_eq preview ""
    then String.◌++◌ "type=" announcement_type
    else String.◌++◌ "type=" (String.◌++◌ announcement_type (String.◌++◌ "; preview=" preview))

abbrev pub announcement_audit : CreateInput → AuditLog
announcement_audit i = record {
  society_id = i.society_id;
  entity_type = "announcement";
  entity_id = i.announcement_id;
  action = "CREATE_ANNOUNCEMENT";
  reason = creation_reason i.announcement_type i.message_text;
  source = none;
  performed_by = some i.created_by;
  performed_at = none;
}

-- The payload of a recipient: rendered for WhatsApp only.
unfoldable pub render_for : CreateInput → Recipient → Try (Option Payload)
render_for i r =
    if str_eq (get_or r.channel "whatsapp") "whatsapp"
    then elim (build_whatsapp_template_payload record {
      announcement_type = i.announcement_type;
      receiver_name = r.receiver_name;
      free_text = i.message_text;
      event_name = r.event_name;
      app_language_code = r.preferred_language;
    }) [ gives p ↦ gives (some p) | fails_with f ↦ fails_with f ]
    else gives none

abbrev pub new_delivery : CreateInput → Recipient → ℕ → Option Payload → AnnouncementDelivery
new_delivery i r member payload = record {
  announcement_id = i.announcement_id;
  member_identity_id = member;
  channel = get_or r.channel "whatsapp";
  rendered_payload = payload;
  status = pending;
  attempts = 0;
  last_error = none;
  sent_at = none;
  processing_started_at = none;
}

abbrev pub add_row :
    Try (List AnnouncementDelivery) → AnnouncementDelivery → Try (List AnnouncementDelivery)
add_row (gives rows) d = gives (d ∷ rows)
add_row (fails_with f) d = fails_with f

abbrev pub first_row :
    CreateInput
    → Recipient
    → ℕ
    → Try (Option Payload)
    → Try (List AnnouncementDelivery)
    → Try (List AnnouncementDelivery)
first_row i r member (gives payload) rest = add_row rest (new_delivery i r member payload)
first_row i r member (fails_with f) rest = fails_with f

-- The loop over the recipients, those without a member identity left out.
unfoldable pub delivery_rows : CreateInput → List Recipient → Try (List AnnouncementDelivery)
delivery_rows i [] = gives []
delivery_rows i (r ∷ rs) = elim r.member_identity_id [
  | none ↦ delivery_rows i rs
  | some member ↦ first_row i r member (render_for i r) (delivery_rows i rs)
]

abbrev pub new_announcement : CreateInput → Announcement
new_announcement i = record {
  id = i.announcement_id;
  society_id = i.society_id;
  event_id = i.event_id;
  announcement_type = i.announcement_type;
  message_text = i.message_text;
  created_by = i.created_by;
  status = "queued";
  total_targets = length (find_all (λ r. is_some r.member_identity_id) i.recipients);
  sent_count = 0;
  failed_count = 0;
  skipped_count = 0;
}

abbrev pub commit_rows :
    CreateInput → World → Try (List AnnouncementDelivery) → Try Announcement × World
commit_rows i w (fails_with f) = (fails_with f, w)
commit_rows i w (gives rows) = (
  gives (new_announcement i),
  record w {
    announcements = w.announcements ++ new_announcement i ∷ [];
    deliveries = w.deliveries ++ rows;
    audit_logs = w.audit_logs ++ announcement_audit i ∷ [];
  },
)

-- `AnnouncementService.create_announcement`
unfoldable pub create_announcement : CreateInput → World → Try Announcement × World
create_announcement i w = commit_rows i w (delivery_rows i i.recipients)
