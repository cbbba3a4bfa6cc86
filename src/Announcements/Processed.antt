-- ===== src/Announcements/Processed.antt =====
-- What one processing leaves of the delivery that it is for, and of the others.
use text.Mathlib.TextEquality.{eq_iff}
use mathlib.Core.Path.{subst}
use society_agent.Prelude.{
  ℕ, suc, ◌+◌, String, ◌≡◌, ◌≢◌, refl, sym, ◌∙◌, Bool, true, false, ◌&&◌, Option, none, some, List,
  [], ◌∷◌, ◌++◌, inl, inr, Bool-cases, find_first-save_self, find_first-save_ne, find_all, save,
  length, ltb, ◌≤◌, ap, arith, if◌then◌else◌,
}
use society_agent.Announcements.Models.{
  pending, failed, is_sent, AnnouncementDelivery, Payload, Key, key_of, same_key, is_at,
  TemplateMessage, Handed, World, find_delivery, save_delivery, is_done,
}
use society_agent.Announcements.Templates.{Failure}
use society_agent.Announcements.Sending.{
  SendOutcome, sent_template, Prepared, answers, refuses, hands_over, is_transient_error,
  resolve_policy_outcome, fill_in, follow_policy, prepare_delivery,
}
use society_agent.Announcements.Worker.{
  Setup, refresh_announcement_summary, settled, record_outcome, after_failure, handle_failure,
  hand_over, sending, attempt, started, process_found,
}
use society_agent.Announcements.Machine.{Move, Phase, phase}

pub same_key_eq : (a b : Key) → same_key a b ≡ true → a ≡ b
same_key_eq a b h =
    let one : a.announcement_id ≡ b.announcement_id = ground arith in
    let two : a.member_identity_id ≡ b.member_identity_id = ground arith in
    let three : a.channel ≡ b.channel = ground (arith, eq_iff a.channel b.channel) in
    λ i. record { announcement_id = one i; member_identity_id = two i; channel = three i }

pub same_key_refl : (a : Key) → same_key a a ≡ true
same_key_refl a = ground (arith, eq_iff a.channel a.channel)

-- How often the client was called with a message of the delivery.
unfoldable pub handed_for : Key → List Handed → ℕ
handed_for k hs = length (find_all (λ h. same_key h.key k) hs)

-- How many of these calls returned.
unfoldable pub returned_for : Key → List Handed → ℕ
returned_for k hs = length (find_all (λ h. same_key h.key k && h.returned) hs)

length-find_all-append :
    (p : Handed → Bool) (xs : List Handed) (x : Handed)
    → length (find_all p (xs ++ x ∷ [])) ≡ length (find_all p xs) + (if p x then 1 else 0)
unfolding find_all
length-find_all-append p [] x = ground arith
length-find_all-append p (y ∷ xs) x = ground (arith, length-find_all-append p xs x)

-- 1 for a delivered message.
abbrev pub done_count : AnnouncementDelivery → ℕ
done_count d = if is_done d then 1 else 0

policy-undelivered :
    (w : World) (d : AnnouncementDelivery) {outcome : SendOutcome} {reason : String}
    → resolve_policy_outcome w d ≡ some (outcome, reason)
    → outcome ≢ sent_template
unfolding resolve_policy_outcome
policy-undelivered w d h same = ground arith

fill_in-sends :
    (w : World) (d : AnnouncementDelivery) (o : Option Payload) {outcome : SendOutcome}
    {reason : Option String}
    → fill_in w d o ≢ answers outcome reason
fill_in-sends w d o h = ground arith

follow_policy-undelivered :
    (w : World) (d : AnnouncementDelivery) (o : Option (SendOutcome × String))
    {outcome : SendOutcome} {reason : Option String}
    → ((p : SendOutcome) (r : String) → o ≡ some (p, r) → p ≢ sent_template)
    → follow_policy w d o ≡ answers outcome reason
    → outcome ≢ sent_template
follow_policy-undelivered w d none {outcome} {reason} k h =
    absurd
      (fill_in-sends w d d.rendered_payload {outcome = outcome} {reason = reason} (ground arith))
follow_policy-undelivered w d (some (p, r)) k h = ground (arith, k p r refl)

-- A delivery that is not sent is answered without a message only when it is skipped or fails.
prepare_delivery-undelivered :
    (w : World) (d : AnnouncementDelivery) {outcome : SendOutcome} {reason : Option String}
    → is_sent d.status ≡ false
    → prepare_delivery w d ≡ answers outcome reason
    → outcome ≢ sent_template
unfolding prepare_delivery
prepare_delivery-undelivered w d {outcome} {reason} new h =
    let last : follow_policy w d (resolve_policy_outcome w d) ≡ answers outcome reason =
      ground (arith, new) in
    follow_policy-undelivered w d _ (λ p r. policy-undelivered w d) last

-- The messages of a delivery in one attempt: one at most, and when the delivery is then delivered, one
-- whose call returned.
pub record Handing (k : Key) (d : AnnouncementDelivery) (w w' : World) : Type 0 where
  pub at_most : handed_for k w'.handed ≤ suc (handed_for k w.handed)
  pub delivered : returned_for k w.handed + done_count d ≤ returned_for k w'.handed

-- No message of a delivery is handed over.
abbrev pub NoneHanded : Key → World → World → Type 0
NoneHanded k w w' =
    (handed_for k w'.handed ≡ handed_for k w.handed)
    × (returned_for k w'.handed ≡ returned_for k w.handed)

-- What an attempt for `d` makes of the world.
pub record Ended (limit : ℕ) (d : AnnouncementDelivery) (w w' : World) : Type 0 where
  pub row : AnnouncementDelivery
  pub same : key_of row ≡ key_of d
  pub stored : w'.deliveries ≡ save (is_at (key_of d)) row w.deliveries
  pub move : Move limit (phase d) (phase row)
  pub handing : Handing (key_of d) row w w'
  pub others : (k : Key) → same_key (key_of d) k ≡ false → NoneHanded k w w'

module _ (c : Setup) (d : AnnouncementDelivery) (new : is_done d ≡ false) where
  record_outcome-Ended :
      (outcome : SendOutcome) (reason : Option String) (now : ℕ) (w : World)
      → outcome ≢ sent_template
      → Ended c.max_attempts d w (record_outcome d outcome reason now w).1
  unfolding record_outcome refresh_announcement_summary
  record_outcome-Ended outcome reason now w other = record {
    row = settled d outcome reason now;
    same = ground arith;
    stored = ground arith;
    move = record {
      rests = λ h. ground arith;
      counts = λ h. ground arith;
      waits = λ h k. ground arith;
    };
    handing = record { at_most = omega arith; delivered = ground arith };
    others = λ k ne. (refl, refl);
  }

  handle_failure-Ended :
      (f : Failure) (w : World) → Ended c.max_attempts d w (handle_failure c d f w).1
  unfolding handle_failure refresh_announcement_summary
  handle_failure-Ended f w =
      elim (Bool-cases (is_transient_error f && ltb (suc d.attempts) c.max_attempts)) [
        | inl again ↦ record {
          row = after_failure c d f pending;
          same = ground arith;
          stored = ground (arith, again);
          move = record {
            rests = λ h. ground arith;
            counts = λ h. ground arith;
            waits = λ h k. ground (arith, again);
          };
          handing = record { at_most = ground (arith, again); delivered = ground (arith, again) };
          others = λ k ne. (ground (arith, again), ground (arith, again));
        }
        | inr last ↦ record {
          row = after_failure c d f failed;
          same = ground arith;
          stored = ground (arith, last);
          move = record {
            rests = λ h. ground arith;
            counts = λ h. ground arith;
            waits = λ h k. ground arith;
          };
          handing = record { at_most = ground (arith, last); delivered = ground (arith, last) };
          others = λ k ne. (ground (arith, last), ground (arith, last));
        }
      ]

  handed_more :
      (k : Key) (m : TemplateMessage) (b : Bool) (w : World)
      → (handed_for k (hand_over c d m b w).handed
          ≡ handed_for k w.handed + (if same_key (key_of d) k then 1 else 0))
        × (returned_for k (hand_over c d m b w).handed
            ≡ returned_for k w.handed + (if same_key (key_of d) k && b then 1 else 0))
  unfolding handed_for returned_for
  handed_more k m b w = (length-find_all-append _ w.handed _, length-find_all-append _ w.handed _)

  handle_failure-handed : (f : Failure) (w : World) → (handle_failure c d f w).1.handed ≡ w.handed
  unfolding handle_failure refresh_announcement_summary
  handle_failure-handed f w = ground arith

  -- The failure of a call, or of the commit after it.
  failed-Ended :
      (m : TemplateMessage) (b : Bool) (f : Failure) (w : World)
      → Ended c.max_attempts d w (handle_failure c d f (hand_over c d m b w)).1
  failed-Ended m b f w =
      let e = handle_failure-Ended f (hand_over c d m b w) in
      let (one, some_back) = handed_more (key_of d) m b w in
      record {
        row = e.row;
        same = e.same;
        stored = e.stored;
        move = e.move;
        handing = record {
          at_most = ground (
            arith,
            ap (handed_for (key_of d)) (handle_failure-handed f (hand_over c d m b w)),
            one,
            same_key_refl (key_of d),
          );
          delivered = omega (arith, e.handing.delivered, some_back);
        };
        others = λ k ne.
            let (h, r) = e.others k ne in
            let (h1, r1) = handed_more k m b w in
            (ground (arith, h, h1, ne), ground (arith, r, r1, ne));
      }

  sending-Ended :
      (m : TemplateMessage) (now : ℕ) (w : World) (o commit_error : Option Failure)
      → Ended c.max_attempts d w (sending c d m now w o commit_error).1
  unfolding record_outcome refresh_announcement_summary
  sending-Ended m now w none none =
      let (one, back) = handed_more (key_of d) m true w in
      record {
        row = settled d sent_template none now;
        same = refl;
        stored = refl;
        move = record {
          rests = λ h. ground arith;
          counts = λ h. refl;
          waits = λ h k. ground arith;
        };
        handing = record {
          at_most = ground (arith, one, same_key_refl (key_of d));
          delivered = ground (arith, back, same_key_refl (key_of d));
        };
        others = λ k ne.
            let (h, r) = handed_more k m true w in (ground (arith, h, ne), ground (arith, r, ne));
      }
  sending-Ended m now w none (some f) = failed-Ended m true f w
  sending-Ended m now w (some f) commit_error = failed-Ended m false f w

  attempt-Ended :
      (now : ℕ) (w : World) (p : Prepared)
      → ((outcome : SendOutcome) (reason : Option String)
          → p ≡ answers outcome reason
          → outcome ≢ sent_template)
      → Ended c.max_attempts d w (attempt c d now w p).1
  attempt-Ended now w (answers outcome reason) k =
      record_outcome-Ended outcome reason now w (k outcome reason refl)
  attempt-Ended now w (refuses f) k = handle_failure-Ended f w
  attempt-Ended now w (hands_over m) k = sending-Ended m now w _ _

-- What a call does with the messages of the delivery `d`, whose row it leaves as `row`: each one that
-- it hands over is counted as an attempt, a delivery that becomes delivered has had a call that
-- returned, and one that is delivered stays so and is not handed over.
pub record Handled (k : Key) (d row : AnnouncementDelivery) (w w' : World) : Type 0 where
  pub counted : handed_for k w'.handed + d.attempts ≤ handed_for k w.handed + row.attempts
  pub delivered : returned_for k w.handed + done_count row ≤ returned_for k w'.handed + done_count d
  pub rests :
      is_done d ≡ true → (is_done row ≡ true) × (handed_for k w'.handed ≡ handed_for k w.handed)

pub Handled-still :
    (k : Key) (d row : AnnouncementDelivery) (w w' : World)
    → phase row ≡ phase d
    → NoneHanded k w w'
    → Handled k d row w w'
Handled-still k d row w w' same nothing =
    let attempts : row.attempts ≡ d.attempts = ap (λ (x : Phase). x.attempts) same in
    let verdicts = ap (λ (x : Phase). x.verdict) same in
    record {
      counted = ground (arith, attempts, nothing);
      delivered = ground (arith, verdicts, nothing);
      rests = λ h. (ground (arith, verdicts, h), nothing.0);
    }

pub Handled-after :
    (k : Key) (d e row : AnnouncementDelivery) (u v w : World)
    → Handled k d e u v
    → Handled k e row v w
    → Handled k d row u w
Handled-after k d e row u v w first second = record {
  counted = omega (arith, first.counted, second.counted);
  delivered = omega (arith, first.delivered, second.delivered);
  rests = λ h.
      let (done, same) = first.rests h in
      let (done', same') = second.rests done in (done', same' ∙ same);
}

-- What one processing leaves of the delivery with the key.
pub record Processed (limit : ℕ) (k : Key) (d : AnnouncementDelivery) (w w' : World) : Type 0 where
  pub row : AnnouncementDelivery
  pub found : find_delivery k w' ≡ some row
  pub move : Move limit (phase d) (phase row)
  pub handled : Handled k d row w w'

module _ (c : Setup) (d : AnnouncementDelivery) (now : ℕ) (w : World)
    (new : is_done d ≡ false) where
  w1 : World
  w1 = save_delivery (started c d now) w

  started-Ended : Ended c.max_attempts (started c d now) w1 (process_found c d now w).1
  unfolding process_found w1
  started-Ended =
      attempt-Ended c (started c d now) (ground (arith, new)) now w1 _
        (λ outcome reason. prepare_delivery-undelivered w1 (started c d now) refl)

  pub process_found-Processed : Processed c.max_attempts (key_of d) d w (process_found c d now w).1
  unfolding w1 find_delivery
  process_found-Processed =
      let e = started-Ended in
      record {
        row = e.row;
        found = rw e.stored (
            find_first-save_self (is_at (key_of d)) e.row w1.deliveries
              (rw e.same (same_key_refl (key_of d))));
        move = record {
          rests = λ h. ground (arith, new);
          counts = λ h. ground (arith, new, e.move.counts);
          waits = λ h v. e.move.waits (ground (arith, new)) v;
        };
        handled = record {
          counted = ground (arith, e.handing.at_most, new, e.move.counts);
          delivered = ground (arith, e.handing.delivered, new);
          rests = λ h. ground (arith, new);
        };
      }

  pub process_found-other :
      (k : Key)
      → same_key (key_of d) k ≡ false
      → (find_delivery k (process_found c d now w).1 ≡ find_delivery k w)
        × NoneHanded k w (process_found c d now w).1
  unfolding w1 find_delivery
  process_found-other k ne =
      let e = started-Ended in
      let away : (x : AnnouncementDelivery) → is_at (key_of d) x ≡ true → is_at k x ≡ false =
        λ x here.
          subst (λ y. same_key y k ≡ false) (sym (same_key_eq (key_of x) (key_of d) here)) ne in
      let first =
        find_first-save_ne (is_at (key_of d)) (is_at k) (started c d now) w.deliveries ne away in
      let second =
        find_first-save_ne (is_at (key_of d)) (is_at k) e.row w1.deliveries (rw e.same ne) away in
      (rw e.stored (second ∙ first), e.others k ne)
