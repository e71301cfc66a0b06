-- ===== src/Messages/Convert.antt =====
-- From an event to a message (src/core.rs: `message_from_event`, `to_message`,
-- `deleted_placeholder`, `membership_line`).
use omarchy_chatd.Messages.Events.{
  Relation, unrelated, reply, thread, replacement, RoomMessage, MembershipChange, joined, left,
  invited, invitation_accepted, invitation_rejected, invitation_revoked, kicked, banned, unbanned,
  kicked_and_banned, knocked, renamed, new_avatar, no_change, MemberEvent, Shell, Parsed, message,
  redacted_message, encrypted_event, redacted_encrypted, reaction, member, other, ReplyPreview,
  Message, formatted_html,
}
use omarchy_chatd.Messages.Quotes.{strip_reply_fallback}
use omarchy_chatd.Media.Attachment.{attachment_of, body_of, msgtype_of}
use omarchy_chatd.Bridge.Names.{display_name, protocol_of_user}
use omarchy_chatd.Base.{
  ℕ, Bool, true, false, Option, none, some, [], ◌++◌, if◌then◌else◌, unwrap_or, Text, codes,
}

-- The room as it answers: its id, the name and the avatar of a member that the store knows, the local
-- part of a user's id, the preview of a quoted event, and the language's table of upper case.
pub record Place : Type 0 where
  pub room_id : Text
  pub known_member : Text → Option (Text × Option Text)
  pub localpart : Text → Text
  pub preview : Text → Option ReplyPreview
  pub to_uppercase : ℕ → Text

name_from : Place → Text → Option (Text × Option Text) → Text
name_from place user none = place.localpart user
name_from place user (some (name, avatar)) = name

-- A member's name, or the local part of the id.
unfoldable pub name_of : Place → Text → Text
unfolding name_from
name_of place user = name_from place user (place.known_member user)

avatar_from : Option (Text × Option Text) → Option Text
avatar_from none = none
avatar_from (some (name, avatar)) = avatar

-- The names that a line is written with: the sender, and whom it is about.
line_of : Text → Text → Text → MembershipChange → Option Text
line_of sender target id joined = some (target ++ codes " joined")
line_of sender target id left = some (target ++ codes " left")
line_of sender target id invited = some (sender ++ codes " invited " ++ target)
line_of sender target id invitation_accepted = some (target ++ codes " accepted the invitation")
line_of sender target id invitation_rejected = some (target ++ codes " declined the invitation")
line_of sender target id invitation_revoked =
    some (sender ++ codes " withdrew the invitation for " ++ target)
line_of sender target id kicked = some (sender ++ codes " removed " ++ target)
line_of sender target id banned = some (sender ++ codes " banned " ++ target)
line_of sender target id unbanned = some (sender ++ codes " unbanned " ++ target)
line_of sender target id kicked_and_banned = some (sender ++ codes " removed and banned " ++ target)
line_of sender target id knocked = some (target ++ codes " asked to join")
line_of sender target id (renamed old new) =
    some (unwrap_or id old ++ codes " is now known as " ++ unwrap_or id new)
line_of sender target id new_avatar = some (target ++ codes " changed their avatar")
line_of sender target id no_change = none

-- `membership_line`.
unfoldable pub membership_line : Place → MemberEvent → Option Text
unfolding line_of name_of
membership_line place ev =
    let id = place.localpart ev.state_key in
    line_of (name_of place ev.sender) (unwrap_or id ev.displayname) id ev.change

-- The preview of what a message replies to, and the root of the thread that it is in.
unfoldable pub reply_of : Place → Relation → Option ReplyPreview
reply_of place (reply target) = place.preview target
reply_of place (thread root (some target) false) = place.preview target
reply_of place (thread root (some target) true) = none
reply_of place (thread root none falls) = none
reply_of place (replacement target content) = none
reply_of place unrelated = none

unfoldable pub root_of : Relation → Option Text
root_of (thread root target falls) = some root
root_of _ = none

unfoldable pub shown_body : Option ReplyPreview → Text → Text
unfolding strip_reply_fallback
shown_body none body = body
shown_body (some p) body = strip_reply_fallback body

via_of : (ℕ → Text) → Option Text → Option Text
via_of to_uppercase none = none
via_of to_uppercase (some protocol) = some (display_name to_uppercase protocol)

-- A line with no decoration: no text of its own, no file, no reactions.
bare_message : Place → Shell → Text → Text → Bool → Message
bare_message place e name kind encrypted = record {
  room = place.room_id;
  event_id = e.event_id;
  sender = e.sender;
  sender_name = name;
  sender_avatar = none;
  body = [];
  html = none;
  msgtype = kind;
  ts = e.ts;
  encrypted = encrypted;
  attachment = none;
  reply_to = none;
  edited = false;
  reactions = [];
  read_by = [];
  deleted = false;
  notify = none;
  highlight = none;
  thread_root = none;
  thread = none;
  via = none;
}

abbrev pub shell_of : RoomMessage → Shell
shell_of m = record { event_id = m.event_id; sender = m.sender; ts = m.ts }

-- `to_message`.
unfoldable pub to_message : Place → RoomMessage → Bool → Message
unfolding name_of avatar_from via_of bare_message reply_of root_of shown_body
to_message place ev encrypted =
    let quoted = reply_of place ev.relates_to in
    record (bare_message place (shell_of ev) (name_of place ev.sender) (msgtype_of ev.msgtype)
      encrypted) {
        sender_avatar = avatar_from (place.known_member ev.sender);
        body = shown_body quoted (body_of ev.msgtype);
        html = formatted_html ev.msgtype;
        attachment = attachment_of ev.msgtype;
        reply_to = quoted;
        thread_root = root_of ev.relates_to;
        via = via_of place.to_uppercase (protocol_of_user (place.localpart ev.sender));
      }

-- `deleted_placeholder`.
unfoldable pub deleted_placeholder : Place → Shell → Bool → Message
unfolding bare_message name_of
deleted_placeholder place e encrypted =
    record (bare_message place e (name_of place e.sender) (codes "m.text") encrypted) {
      deleted = true;
    }

system_line : Place → MemberEvent → Option Text → Option Message
system_line place m none = none
system_line place m (some line) =
    let e : Shell = record { event_id = m.event_id; sender = m.sender; ts = m.ts } in
    some (record (bare_message place e [] (codes "system") false) { body = line })

-- The edit that the server bundled, if any, over a message.
unfoldable pub with_bundled : Option (Text × Option Text) → Message → Message
with_bundled none m = m
with_bundled (some (body, html)) m = record m { body = body; html = html; edited = true }

-- An edit event itself is not shown.
unfoldable pub is_replacement : Relation → Bool
is_replacement (replacement target content) = true
is_replacement _ = false

undecrypted_line : Place → Shell → Message
undecrypted_line place e =
    record (bare_message place e (name_of place e.sender) (codes "unable_to_decrypt") true) {
      body = codes "Unable to decrypt this message";
    }

-- `message_from_event`: `was_encrypted` is whether it came encrypted, `bundled` the edit that the
-- server attached to it, and `parsed` what the SDK reads in it.
unfoldable pub message_from_event :
    Place → Bool → Option (Text × Option Text) → Option Parsed → Option Message
unfolding to_message deleted_placeholder system_line membership_line with_bundled undecrypted_line
    is_replacement
message_from_event place was_encrypted bundled (some (message m)) =
    if is_replacement m.relates_to
    then none
    else some (with_bundled bundled (to_message place m was_encrypted))
message_from_event place was_encrypted bundled (some (redacted_message e)) =
    some (deleted_placeholder place e was_encrypted)
message_from_event place was_encrypted bundled (some (encrypted_event e)) =
    some (undecrypted_line place e)
message_from_event place was_encrypted bundled (some (redacted_encrypted e)) =
    some (deleted_placeholder place e true)
message_from_event place was_encrypted bundled (some (reaction target key e)) = none
message_from_event place was_encrypted bundled (some (member m)) =
    system_line place m (membership_line place m)
message_from_event place was_encrypted bundled (some (other e)) = none
message_from_event place was_encrypted bundled none = none
