-- ===== src/Messages/Live.antt =====
-- Events as they arrive (src/core.rs: `on_room_message`, `on_reaction`, `on_redaction`, `on_typing`,
-- `on_receipt`, `user_ref`).
use omarchy_chatd.Messages.Events.{
  Relation, unrelated, reply, thread, replacement, RoomMessage, Shell, Parsed, ReplyPreview,
  Message, MessageEdit, formatted_html,
}
use omarchy_chatd.Messages.Convert.{Place, name_of, to_message}
use omarchy_chatd.Messages.Edits.{max_reaction_key, is_original, sender_from}
use omarchy_chatd.Messages.Previews.{Previews, forget_reply_preview, Quoted, reply_preview}
use omarchy_chatd.Media.Attachment.{MessageType, body_of}
use omarchy_chatd.Reactions.Readers.{UserRef}
use omarchy_chatd.Reactions.Tally.{is_me}
use omarchy_chatd.Base.{
  ℕ, max, Bool, true, false, Option, none, some, List, [], ◌∷◌, ◌++◌, map, if◌then◌else◌, unwrap_or,
  take, any, Text, text_eq,
}

-- What the handlers send to the clients.
pub data Announcement : Type 0 where
  new_message : Message → Announcement
  message_edited : MessageEdit → Announcement
  reacted : Text → Text → Text → UserRef → Text → Announcement
  redacted : Text → Text → Announcement
  typing : Text → List UserRef → Announcement
  receipt : Text → Text → List UserRef → Announcement

-- What the handlers change: the rooms' latest times, the cache of previews, and what was sent.
pub record Feed : Type 0 where
  pub activity : Text → Option ℕ
  pub previews : Previews
  pub sent : List Announcement

abbrev pub announce : Announcement → Feed → Feed
announce a w = record w { sent = w.sent ++ a ∷ [] }

-- The push actions of an event: whether each notifies, and whether it is a highlight.
pub record PushAction : Type 0 where
  pub should_notify : Bool
  pub is_highlight : Bool

-- `activity.entry(room).or_insert(0)`, then the later of the two.
unfoldable pub note_activity : Text → ℕ → (Text → Option ℕ) → Text → Option ℕ
note_activity room ts activity k =
    if text_eq room k then some (max (unwrap_or 0 (activity room)) ts) else activity k

-- The event that a new message quotes.
unfoldable pub quoted_event : Relation → Option Text
quoted_event (reply target) = some target
quoted_event (thread root (some target) false) = some target
quoted_event (thread root (some target) true) = none
quoted_event (thread root none falls) = none
quoted_event (replacement target content) = none
quoted_event unrelated = none

-- The preview that a new message has, and the cache after it.
preview_of : Place → (Text → Quoted) → Option Text → Previews → Option ReplyPreview × Previews
preview_of place quoted none c = (none, c)
preview_of place quoted (some target) c = reply_preview place target (quoted target) c

-- A new message.
unfoldable pub on_new_message :
    Place → Bool → List PushAction → (Text → Quoted) → RoomMessage → Feed → Feed
unfolding preview_of note_activity quoted_event
on_new_message place encrypted actions quoted ev w =
    let (shown, previews) = preview_of place quoted (quoted_event ev.relates_to) w.previews in
    let msg : Message = record (to_message (record place { preview = λ _. shown }) ev encrypted) {
      notify = some (any (λ (a : PushAction). a.should_notify) actions);
      highlight = some (any (λ (a : PushAction). a.is_highlight) actions);
    } in
    announce (new_message msg)
      (record w { previews = previews; activity = note_activity place.room_id msg.ts w.activity })

-- An edit counts only when it comes from whoever wrote the original.
unfoldable pub on_edit :
    Place → (Text → Option Parsed) → RoomMessage → Text → MessageType → Feed → Feed
on_edit place load ev target content w =
    if is_original (sender_from (load target)) ev.sender
    then announce
        (message_edited (record {
          room = place.room_id;
          event_id = target;
          body = body_of content;
          html = formatted_html content;
        }))
        (record w { previews = forget_reply_preview place.room_id target w.previews })
    else w

unfoldable pub by_relation :
    Place
    → Bool
    → List PushAction
    → (Text → Option Parsed)
    → (Text → Quoted)
    → RoomMessage
    → Relation
    → Feed
    → Feed
by_relation place encrypted actions load quoted ev (replacement target content) w =
    on_edit place load ev target content w
by_relation place encrypted actions load quoted ev _ w =
    on_new_message place encrypted actions quoted ev w

-- `on_room_message`: `load` gives an event that can be loaded and parses, and `quoted` what is found
-- for a preview.
unfoldable pub on_room_message :
    Place
    → Bool
    → Bool
    → List PushAction
    → (Text → Option Parsed)
    → (Text → Quoted)
    → RoomMessage
    → Feed
    → Feed
unfolding by_relation on_edit on_new_message
on_room_message place is_joined encrypted actions load quoted ev w =
    if is_joined then by_relation place encrypted actions load quoted ev ev.relates_to w else w

-- `user_ref`.
unfoldable pub user_ref : Place → Text → UserRef
unfolding name_of
user_ref place user = record { id = user; name = name_of place user }

-- `on_reaction`.
unfoldable pub on_reaction : Place → Bool → Text → Text → Shell → Feed → Feed
unfolding user_ref
on_reaction place is_joined target key e w =
    if is_joined
    then announce
        (reacted place.room_id target (take max_reaction_key key) (user_ref place e.sender)
          e.event_id)
        w
    else w

-- `on_redaction`; the target is read by the rules of the room's version.
unfoldable pub on_redaction : Place → Bool → Text → Feed → Feed
on_redaction place is_joined target w =
    if is_joined then announce (redacted place.room_id target) w else w

-- The users but oneself.
unfoldable pub others : Place → Option Text → List Text → List UserRef
unfolding user_ref
others place me [] = []
others place me (u ∷ us) =
    let rest = others place me us in if is_me me u then rest else user_ref place u ∷ rest

-- `on_typing`.
unfoldable pub on_typing : Place → Option Text → List Text → Feed → Feed
unfolding others
on_typing place me users w = announce (typing place.room_id (others place me users)) w

-- One entry of a receipt event: the message, and the users whose read receipts are on it, if it
-- has any of that kind.
abbrev pub ReceiptEntry : Type 0
ReceiptEntry = Text × Option (List Text)

-- The map by message: only a message with a reader other than oneself has an entry.
group_entry : Place → Option Text → Text → List UserRef → List (Text × List UserRef)
group_entry place me event [] = []
group_entry place me event (u ∷ us) = (event, u ∷ us) ∷ []

entry_of : Place → Option Text → ReceiptEntry → List (Text × List UserRef)
entry_of place me (event, none) = []
entry_of place me (event, some users) = group_entry place me event (others place me users)

unfoldable pub by_event : Place → Option Text → List ReceiptEntry → List (Text × List UserRef)
unfolding entry_of group_entry
by_event place me [] = []
by_event place me (entry ∷ entries) = entry_of place me entry ++ by_event place me entries

-- `on_receipt`; a message stands in one entry of the event, and the map gives its entries in an order
-- of its own, here that of the event.
unfoldable pub on_receipt : Place → Option Text → List ReceiptEntry → Feed → Feed
unfolding by_event others
on_receipt place me entries w = record w {
  sent =
      w.sent
      ++ map (λ (g : Text × List UserRef). receipt place.room_id g.0 g.1)
          (by_event place me entries);
}
