-- ===== src/Announcements/Tests.antt =====
-- Runs of the announcement service and its worker, and their theorems at those runs.
use society_agent.Prelude.{
  ◌==◌, ◌≡◌, refl, true, false, none, some, List, [], ◌∷◌, find_first, find_all, save, update_where,
  if◌then◌else◌,
}
use society_agent.Text.{text_length, strip, lower, contains, is_blank}
use society_agent.Announcements.Models.{
  Payload, AnnouncementDelivery, MemberIdentity, TemplateMessage, key_of, World, find_delivery,
  pending, sent, failed,
}
use society_agent.Announcements.Templates.{
  timeout, other_error, gives, TemplateInput, normalize_language_code, is_event_related,
  choose_template, build_whatsapp_template_payload,
}
use society_agent.Announcements.Sending.{
  hands_over, find_identity, find_announcement, resolve_policy_outcome,
  resolve_template_locale_code, resolve_provider_recipient_id, any_blank, prepare_delivery,
}
use society_agent.Announcements.Worker.{
  Setup, count_status, refresh_announcement_summary, record_outcome, handle_failure, process_found,
  process_announcement_delivery, run_claimed, claim, claim_pending_deliveries,
  run_pending_announcement_deliveries,
}
use society_agent.Announcements.Create.{
  CreateInput, one_line, creation_reason, announcement_audit, render_for, delivery_rows,
  new_announcement, create_announcement,
}
use society_agent.Announcements.Processed.{handed_for, returned_for}
use society_agent.Announcements.Calls.{Call, claims, processes, run_calls}
use society_agent.Announcements.Batches.{claim_pending_deliveries-repeats}
use society_agent.Announcements.Rendered.{Addressed, prepare_delivery-sends}

abbrev member : MemberIdentity
member = record {
  id = 7;
  whatsapp_user_id = some " 919800 ";
  telegram_user_id = none;
  opt_in = true;
}

abbrev no_rows : World
no_rows = record {
  announcements = [];
  deliveries = [];
  member_identities = member ∷ [];
  audit_logs = [];
  handed = [];
}

abbrev create_input : CreateInput
create_input = record {
  society_id = 1;
  event_id = none;
  announcement_type = "announcement";
  message_text = " Water is off at 6 ";
  created_by = 30;
  recipients =
      record {
        member_identity_id = some 7;
        channel = none;
        receiver_name = "Asha";
        event_name = "";
        preferred_language = "HI";
      }
      ∷ record {
        member_identity_id = none;
        channel = none;
        receiver_name = "Ravi";
        event_name = "";
        preferred_language = "";
      }
      ∷ [];
  announcement_id = 5;
}

abbrev template_input : TemplateInput
template_input = record {
  announcement_type = "announcement";
  receiver_name = "Asha";
  free_text = " Water is off at 6 ";
  event_name = "";
  app_language_code = "HI";
}

abbrev payload : Payload
payload = record {
  template_name = "society_announcement_general";
  body_parameters = "Asha" ∷ "Water is off at 6" ∷ [];
  app_language_code = "hi";
  template_locale_code = "hi_IN";
}

abbrev delivery : AnnouncementDelivery
delivery = record {
  announcement_id = 5;
  member_identity_id = 7;
  channel = "whatsapp";
  rendered_payload = some payload;
  status = pending;
  attempts = 0;
  last_error = none;
  sent_at = none;
  processing_started_at = none;
}

build_run : build_whatsapp_template_payload template_input ≡ gives payload
unfolding build_whatsapp_template_payload strip text_length choose_template is_event_related
    normalize_language_code lower contains
build_run = refl

abbrev queued : World
queued = record no_rows {
  announcements = new_announcement create_input ∷ [];
  deliveries = delivery ∷ [];
  audit_logs = announcement_audit create_input ∷ [];
}

-- One recipient has no member identity and gets no delivery.
create_announcement_test :
    create_announcement create_input no_rows ≡ (gives (new_announcement create_input), queued)
unfolding create_announcement delivery_rows render_for build_whatsapp_template_payload strip
    text_length choose_template is_event_related normalize_language_code lower contains
create_announcement_test = refl

creation_reason_test :
    creation_reason "announcement" " Water is off at 6 "
    ≡ "type=announcement; preview=Water is off at 6"
unfolding creation_reason one_line strip
creation_reason_test = refl

-- The client's first call times out, the later ones return; every commit succeeds.
abbrev setup : Setup
setup = record {
  max_attempts = 3;
  rq_enabled = false;
  enqueues = λ k. true;
  error_text = λ f. "raised";
  answer = λ n. if n == 0 then some timeout else none;
  commit_error = λ n. none;
}

abbrev message : TemplateMessage
message = record {
  to_phone = "919800";
  template_name = "society_announcement_general";
  body_parameters = "Asha" ∷ "Water is off at 6" ∷ [];
  language_code = "hi_IN";
}

unfoldable working : Unit {0}
unfolding find_first find_all save update_where strip lower contains is_blank find_delivery
    normalize_language_code find_identity find_announcement resolve_policy_outcome
    resolve_template_locale_code resolve_provider_recipient_id any_blank prepare_delivery
    count_status refresh_announcement_summary record_outcome handle_failure process_found
    process_announcement_delivery run_claimed claim claim_pending_deliveries
    run_pending_announcement_deliveries run_calls handed_for returned_for
working = tt

abbrev twice : World
twice =
    (run_pending_announcement_deliveries setup 20 200
      (run_pending_announcement_deliveries setup 20 100 queued).1).1

abbrev delivered_row : AnnouncementDelivery
delivered_row = record delivery { status = sent; attempts = 2; sent_at = some 200 }

-- The first run is deferred, the second delivers.
run_test :
    (twice.deliveries ≡ delivered_row ∷ [])
    × (twice.handed
        ≡ record { key = key_of delivery; message = message; returned = false }
          ∷ record { key = key_of delivery; message = message; returned = true }
          ∷ [])
unfolding working
run_test = (refl, refl)

-- The only delivery of the announcement is sent, and its summary counts none.
summary_test : find_all (λ row. row.sent_count == 0) twice.announcements ≡ twice.announcements
unfolding working
summary_test = refl

claim_pending_deliveries-repeats_example :
    (claim_pending_deliveries 20 101 (claim_pending_deliveries 20 100 queued).1).0
    ≡ (claim_pending_deliveries 20 100 queued).0
claim_pending_deliveries-repeats_example = claim_pending_deliveries-repeats 20 100 101 queued

abbrev three_calls : List Call
three_calls =
    claims 20 100
    ∷ processes (key_of delivery) 100
    ∷ processes (key_of delivery) 101
    ∷ processes (key_of delivery) 102
    ∷ []

-- A commit that fails after the call returned leaves the delivery failed, although its message was
-- handed over.
commit_test :
    (run_pending_announcement_deliveries
      (record setup { answer = λ n. none; commit_error = λ n. some (other_error "database") })
      20
      100
      queued).1.deliveries
    ≡ record delivery { status = failed; attempts = 1; last_error = some "raised" } ∷ []
unfolding working
commit_test = refl

delivery-Addressed : Addressed queued delivery " 919800 "
unfolding working
delivery-Addressed = record {
  on_whatsapp = refl;
  new = refl;
  announcement = new_announcement create_input;
  announced = refl;
  text = refl;
  member = member;
  identified = refl;
  opted_in = refl;
  numbered = refl;
  not_empty = refl;
}

prepare_delivery-sends_example :
    prepare_delivery queued delivery
    ≡ hands_over record {
      to_phone = strip " 919800 ";
      template_name = payload.template_name;
      body_parameters = payload.body_parameters;
      language_code = payload.template_locale_code;
    }
prepare_delivery-sends_example =
    prepare_delivery-sends template_input queued delivery " 919800 " payload build_run refl
      delivery-Addressed
