-- ===== src/Announcements/Rendered.antt =====
-- A payload that `build_whatsapp_template_payload` has rendered passes every check of the worker.
use text.Mathlib.Text.{◌==◌ as str_eq}
use text.Mathlib.TextEquality.{eq_iff}
use mathlib.Core.Path.{subst}
use society_agent.Prelude.{
  String, ◌≡◌, refl, sym, ap, ◌∙◌, true, false, none, some, [], ◌∷◌, inl, inr, Bool-cases, get_or,
  arith,
}
use society_agent.Text.{strip, lower, contains, strip-blank}
use society_agent.Announcements.Models.{
  Payload, Announcement, AnnouncementDelivery, MemberIdentity, World, is_sent,
}
use society_agent.Announcements.Templates.{
  gives, TemplateInput, locale_of, normalize_language_code, is_event_related, payload_of,
  choose_template, build_whatsapp_template_payload,
}
use society_agent.Announcements.Sending.{
  hands_over, find_identity, find_announcement, recipient_field, recipient_of, any_blank,
  has_empty_placeholder, resolve_policy_outcome, resolve_template_locale_code,
  resolve_provider_recipient_id, prepare_delivery,
}

-- The locale is one of the three, so the worker takes it as it is.
locale_of-valid :
    (lang : String) (p : Payload)
    → p.template_locale_code ≡ locale_of lang
    → resolve_template_locale_code p ≡ locale_of lang
unfolding resolve_template_locale_code contains strip
locale_of-valid lang p h = elim (Bool-cases (str_eq lang "hi")) [
  | inl hindi ↦ rw (h, hindi) refl
  | inr not_hindi ↦ elim (Bool-cases (str_eq lang "gu")) [
    | inl gujarati ↦ rw (h, not_hindi, gujarati) refl
    | inr other ↦ rw (h, not_hindi, other) refl
  ]
]

-- What the rendering gives: a template with a name, and no empty placeholder.
record IsReady (p : Payload) : Type 0 where
  named : str_eq (strip p.template_name) "" ≡ false
  filled : has_empty_placeholder p.body_parameters ≡ false
  lang : String
  localized : p.template_locale_code ≡ locale_of lang

module _ (i : TemplateInput) (receiver : str_eq (strip i.receiver_name) "" ≡ false)
    (message : str_eq (strip i.free_text) "" ≡ false) where
  general-IsReady :
      IsReady (
        payload_of i "society_announcement_general"
          (strip i.receiver_name ∷ strip i.free_text ∷ []))
  unfolding any_blank strip
  general-IsReady = record {
    named = refl;
    filled = ground (arith, strip-blank i.receiver_name receiver, strip-blank i.free_text message);
    lang = get_or (normalize_language_code i.app_language_code) "en";
    localized = refl;
  }

  event-IsReady :
      str_eq (strip i.event_name) "" ≡ false
      → IsReady (
          payload_of i "society_announcement_event"
            (strip i.receiver_name ∷ strip i.event_name ∷ strip i.free_text ∷ []))
  unfolding any_blank strip
  event-IsReady name = record {
    named = refl;
    filled = ground (
      arith,
      strip-blank i.receiver_name receiver,
      strip-blank i.event_name name,
      strip-blank i.free_text message,
    );
    lang = get_or (normalize_language_code i.app_language_code) "en";
    localized = refl;
  }

choose_template-IsReady :
    (i : TemplateInput) {p : Payload}
    → str_eq (strip i.receiver_name) "" ≡ false
    → str_eq (strip i.free_text) "" ≡ false
    → choose_template i ≡ gives p
    → IsReady p
unfolding choose_template
choose_template-IsReady i {p} receiver message h =
    let lang = get_or (normalize_language_code i.app_language_code) "en" in
    let general =
      payload_of i "society_announcement_general"
        (strip i.receiver_name ∷ strip i.free_text ∷ []) in
    let about =
      payload_of i "society_announcement_event"
        (strip i.receiver_name ∷ strip i.event_name ∷ strip i.free_text ∷ []) in
    elim (Bool-cases (is_event_related i.announcement_type (strip i.event_name))) [
      | inr not_event ↦
          let same : general ≡ p = ground (arith, not_event) in
          subst IsReady same (general-IsReady i receiver message)
      | inl event ↦ elim (Bool-cases (str_eq (strip i.event_name) "")) [
        | inl no_name ↦ absurd (ground (arith, event, no_name))
        | inr name ↦
            let same : about ≡ p = ground (arith, event, name) in
            subst IsReady same (event-IsReady i receiver message name)
      ]
    ]

build_whatsapp_template_payload-IsReady :
    (i : TemplateInput) {p : Payload} → build_whatsapp_template_payload i ≡ gives p → IsReady p
unfolding build_whatsapp_template_payload
build_whatsapp_template_payload-IsReady i {p} h =
    choose_template-IsReady i (ground arith) (ground arith) (ground arith)

-- A delivery is ready to be sent when its announcement has a text, and its member has opted in and has
-- a number.
pub record Addressed (w : World) (d : AnnouncementDelivery) (number : String) : Type 0 where
  pub on_whatsapp : d.channel ≡ "whatsapp"
  pub new : is_sent d.status ≡ false
  pub announcement : Announcement
  pub announced : find_announcement d.announcement_id w ≡ some announcement
  pub text : str_eq announcement.message_text "" ≡ false
  pub member : MemberIdentity
  pub identified : find_identity d.member_identity_id w ≡ some member
  pub opted_in : member.opt_in ≡ true
  pub numbered : member.whatsapp_user_id ≡ some number
  pub not_empty : str_eq (strip number) "" ≡ false

whatsapp_key : lower (strip "whatsapp") ≡ "whatsapp"
unfolding lower strip
whatsapp_key = refl

recipient-found :
    (w : World) (d : AnnouncementDelivery) (number : String)
    → Addressed w d number
    → resolve_provider_recipient_id w d.member_identity_id d.channel ≡ gives (strip number)
unfolding resolve_provider_recipient_id
recipient-found w d number a =
    let key : lower (strip d.channel) ≡ "whatsapp" =
      ap (λ x. lower (strip x)) a.on_whatsapp ∙ whatsapp_key in
    let field : recipient_field (lower (strip d.channel)) a.member ≡ some (some number) =
      rw key (ap some a.numbered) in
    let number_of : recipient_of (some (some number)) ≡ gives (strip number) =
      ground (arith, a.not_empty) in
    rw (resolve_provider_recipient_id, a.identified) (ap recipient_of field ∙ number_of)

policy-passes :
    (w : World) (d : AnnouncementDelivery) (number : String) (p : Payload)
    → Addressed w d number
    → d.rendered_payload ≡ some p
    → IsReady p
    → resolve_policy_outcome w d ≡ none
unfolding resolve_policy_outcome
policy-passes w d number p a h r = rw (a.identified, a.opted_in, h, r.named) refl

-- A payload that was rendered is sent as it is: for a delivery that is addressed, the worker hands the
-- provider the rendered template, parameters and locale, for the member's number.
pub prepare_delivery-sends :
    (i : TemplateInput) (w : World) (d : AnnouncementDelivery) (number : String) (p : Payload)
    → build_whatsapp_template_payload i ≡ gives p
    → d.rendered_payload ≡ some p
    → Addressed w d number
    → prepare_delivery w d
      ≡ hands_over record {
        to_phone = strip number;
        template_name = p.template_name;
        body_parameters = p.body_parameters;
        language_code = p.template_locale_code;
      }
unfolding prepare_delivery
prepare_delivery-sends i w d number p built h a =
    let r = build_whatsapp_template_payload-IsReady i built in
    let locale = locale_of-valid r.lang p r.localized ∙ sym r.localized in
    let policy = policy-passes w d number p a h r in
    let found = recipient-found w d number a in
    ground (
      arith,
      a.new,
      a.on_whatsapp,
      a.announced,
      a.text,
      policy,
      h,
      r.filled,
      found,
      locale,
      eq_iff d.channel "whatsapp",
    )
