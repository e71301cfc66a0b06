-- ===== src/Messages/Arrivals.antt =====
-- What an arriving edit changes, and what a deletion does not (src/core.rs: `on_room_message`,
-- `on_redaction`, `reply_preview`).
use omarchy_chatd.Messages.Events.{replacement, RoomMessage, Parsed, ReplyPreview, formatted_html}
use omarchy_chatd.Messages.Convert.{Place}
use omarchy_chatd.Messages.Edits.{is_original, sender_from}
use omarchy_chatd.Messages.Previews.{
  Previews, preview_key, get_preview, drop_preview, forget_reply_preview, Quoted,
  build_reply_preview, preview_or_build, reply_preview,
}
use omarchy_chatd.Messages.Live.{
  message_edited, redacted, Feed, PushAction, on_edit, by_relation, on_room_message, on_redaction,
}
use omarchy_chatd.Messages.Shown.{is_original_iff}
use omarchy_chatd.Media.Attachment.{MessageType, body_of}
use mathlib.Core.Path.{subst}
use omarchy_chatd.Base.{
  ◌≡◌, refl, sym, ap, ◌∙◌, ◌≢◌, ◌⊎◌, inl, inr, Bool, true, false, Option, none, some, List, [], ◌∷◌,
  ◌++◌, if◌then◌else◌, Bool-cases, Text, text_eq, text_eq_sound,
}

get-drop_self : (k : Text) (c : Previews) → get_preview k (drop_preview k c) ≡ none
unfolding get_preview drop_preview
get-drop_self k [] = refl
get-drop_self k ((j, p) ∷ c) = elim (Bool-cases (text_eq k j)) [
  | inl e ↦ rw e (get-drop_self k c)
  | inr n ↦ rw (n, n) (get-drop_self k c)
]

get-drop_other :
    (k i : Text) (c : Previews) → k ≢ i → get_preview i (drop_preview k c) ≡ get_preview i c
unfolding get_preview drop_preview
get-drop_other k i [] h = refl
get-drop_other k i ((j, p) ∷ c) h = elim (Bool-cases (text_eq k j)) [
  | inl e ↦ rw e (get-drop_other k i c h ∙ sym (rw (other (text_eq_sound k j e)) refl))
  | inr n ↦ rw n (ap (λ r. if text_eq i j then some p else r) (get-drop_other k i c h))
]
  where
    other : k ≡ j → text_eq i j ≡ false
    other q = elim (Bool-cases (text_eq i j)) [
      | inl y ↦ let z = text_eq_sound i j y in absurd (h (q ∙ sym z))
      | inr f ↦ f
    ]

-- An edit that counts: it is announced, the preview of its target is forgotten and no other, and the
-- times of the rooms stay.
pub record IsEdited (place : Place) (target : Text) (content : MessageType) (w w' : Feed)
    : Type 0 where
  pub told :
      w'.sent
      ≡ w.sent
        ++ message_edited (record {
          room = place.room_id;
          event_id = target;
          body = body_of content;
          html = formatted_html content;
        })
          ∷ []
  pub forgotten : get_preview (preview_key place.room_id target) w'.previews ≡ none
  pub others_kept :
      (k : Text)
      → preview_key place.room_id target ≢ k
      → get_preview k w'.previews ≡ get_preview k w.previews
  pub same_times : w'.activity ≡ w.activity

on_edit_lem :
    (place : Place) (load : Text → Option Parsed) (ev : RoomMessage) (target : Text)
    (content : MessageType) (w : Feed)
    → (IsEdited place target content w (on_edit place load ev target content w)
        × (sender_from (load target) ≡ some ev.sender))
      ⊎ ((on_edit place load ev target content w ≡ w)
          × (sender_from (load target) ≢ some ev.sender))
unfolding on_edit forget_reply_preview
on_edit_lem place load ev target content w =
    elim (Bool-cases (is_original (sender_from (load target)) ev.sender)) [
      | inl y ↦ rw y (
          inl (
            record {
              told = refl;
              forgotten = get-drop_self (preview_key place.room_id target) w.previews;
              others_kept = λ k n. get-drop_other (preview_key place.room_id target) k w.previews n;
              same_times = refl;
            },
            (is_original_iff (sender_from (load target)) ev.sender).0 y,
          ))
      | inr n ↦ rw n (
          inr
            (refl, λ e. let y = (is_original_iff (sender_from (load target)) ev.sender).1 e in cc))
    ]

-- In a joined room an edit counts exactly when it comes from the sender of the event that it names:
-- then it is announced and that message's preview is forgotten, and any other edit changes nothing.
pub on_room_message_edit :
    (place : Place) (encrypted : Bool) (actions : List PushAction) (load : Text → Option Parsed)
    (quoted : Text → Quoted) (ev : RoomMessage) (target : Text) (content : MessageType) (w : Feed)
    → ev.relates_to ≡ replacement target content
    → let w' = on_room_message place true encrypted actions load quoted ev w in
      (IsEdited place target content w w' × (sender_from (load target) ≡ some ev.sender))
      ⊎ ((w' ≡ w) × (sender_from (load target) ≢ some ev.sender))
unfolding on_room_message
on_room_message_edit place was_encrypted actions load quoted ev target content w r =
    subst
      (λ (v : Feed).
        (IsEdited place target content w v × (sender_from (load target) ≡ some ev.sender))
        ⊎ ((v ≡ w) × (sender_from (load target) ≢ some ev.sender)))
      (sym (ap (λ x. by_relation place was_encrypted actions load quoted ev x w) r))
      (on_edit_lem place load ev target content w)

-- A message that was deleted is still quoted with its text: where its preview is in the cache, the
-- next reply to it shows that preview, whatever the room has of the message now.
redacted_still_quoted :
    (place : Place) (target : Text) (now : Quoted) (p : ReplyPreview) (w : Feed)
    → get_preview (preview_key place.room_id target) w.previews ≡ some p
    → let w' = on_redaction place true target w in
      (w'.sent ≡ w.sent ++ redacted place.room_id target ∷ [])
      × (reply_preview place target now w'.previews ≡ (some p, w'.previews))
unfolding on_redaction reply_preview
redacted_still_quoted place target now p w e = (
  refl,
  ap
      (λ o.
        preview_or_build (preview_key place.room_id target) o (build_reply_preview place target now)
          w.previews)
      e,
)
