-- ===== src/Messages/Events.antt =====
-- Events as the SDK parses them, and messages as clients get them (src/protocol.rs: `Message`,
-- `ThreadInfo`, `ReplyPreview`, `MessageEdit`).
use omarchy_chatd.Media.Attachment.{Formatted, MessageType, notice, emote, Attachment}
use omarchy_chatd.Reactions.Tally.{Reaction}
use omarchy_chatd.Reactions.Readers.{UserRef}
use omarchy_chatd.Base.{ℕ, Bool, Option, none, some, List, if◌then◌else◌, Text}

-- What a message relates to; a thread's reply names what it replies to, or falls back to it.
pub data Relation : Type 0 where
  unrelated : Relation
  reply : Text → Relation
  thread : Text → Option Text → Bool → Relation
  replacement : Text → MessageType → Relation

-- `OriginalSyncRoomMessageEvent`.
pub record RoomMessage : Type 0 where
  pub event_id : Text
  pub sender : Text
  pub ts : ℕ
  pub msgtype : MessageType
  pub relates_to : Relation

-- The change that the SDK reads from a member event; a new name with the old one and the new one.
pub data MembershipChange : Type 0 where
  joined left invited invitation_accepted invitation_rejected invitation_revoked : MembershipChange
  kicked banned unbanned kicked_and_banned knocked : MembershipChange
  renamed : Option Text → Option Text → MembershipChange
  new_avatar : MembershipChange
  no_change : MembershipChange

pub record MemberEvent : Type 0 where
  pub event_id : Text
  pub sender : Text
  pub state_key : Text
  pub ts : ℕ
  pub displayname : Option Text
  pub change : MembershipChange

-- An event without its content: the id, the sender and the time.
pub record Shell : Type 0 where
  pub event_id : Text
  pub sender : Text
  pub ts : ℕ

-- `AnySyncTimelineEvent`, as far as the program tells events apart. A reaction has its target, its
-- key and its shell.
pub data Parsed : Type 0 where
  message : RoomMessage → Parsed
  redacted_message : Shell → Parsed
  encrypted_event : Shell → Parsed
  redacted_encrypted : Shell → Parsed
  reaction : Text → Text → Shell → Parsed
  member : MemberEvent → Parsed
  other : Shell → Parsed

-- `AnySyncTimelineEvent::sender`.
unfoldable pub sender_of : Parsed → Text
sender_of (message m) = m.sender
sender_of (redacted_message e) = e.sender
sender_of (encrypted_event e) = e.sender
sender_of (redacted_encrypted e) = e.sender
sender_of (reaction target key e) = e.sender
sender_of (member m) = m.sender
sender_of (other e) = e.sender

-- `ReplyPreview`.
pub record ReplyPreview : Type 0 where
  pub event_id : Text
  pub sender : Text
  pub sender_name : Text
  pub body : Text

-- `ThreadInfo`.
pub record ThreadInfo : Type 0 where
  pub replies : ℕ
  pub unread : ℕ
  pub latest_ts : Option ℕ
  pub latest_sender : Option Text
  pub latest_sender_name : Option Text

-- `Message`.
pub record Message : Type 0 where
  pub room : Text
  pub event_id : Text
  pub sender : Text
  pub sender_name : Text
  pub sender_avatar : Option Text
  pub body : Text
  pub html : Option Text
  pub msgtype : Text
  pub ts : ℕ
  pub encrypted : Bool
  pub attachment : Option Attachment
  pub reply_to : Option ReplyPreview
  pub edited : Bool
  pub reactions : List Reaction
  pub read_by : List UserRef
  pub deleted : Bool
  pub notify : Option Bool
  pub highlight : Option Bool
  pub thread_root : Option Text
  pub thread : Option ThreadInfo
  pub via : Option Text

-- `MessageEdit`.
pub record MessageEdit : Type 0 where
  pub room : Text
  pub event_id : Text
  pub body : Text
  pub html : Option Text

-- `formatted_html`.
html_from : Option Formatted → Option Text
html_from none = none
html_from (some f) = if f.is_html then some f.text else none

unfoldable pub formatted_html : MessageType → Option Text
unfolding html_from
formatted_html (MessageType.text b f) = html_from f
formatted_html (notice b f) = html_from f
formatted_html (emote b f) = html_from f
formatted_html _ = none
