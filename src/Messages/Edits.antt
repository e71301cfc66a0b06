-- ===== src/Messages/Edits.antt =====
-- Edits and reactions of a message from the cache's index (src/core.rs: `cached_relations`, and the
-- decoration of a page's messages in `timeline` and `thread`).
use omarchy_chatd.Messages.Events.{
  Relation, replacement, RoomMessage, Parsed, message, reaction, sender_of, Message, formatted_html,
}
use omarchy_chatd.Media.Attachment.{MessageType, body_of}
use omarchy_chatd.Reactions.Tally.{Entry, aggregate_reactions}
use omarchy_chatd.Reactions.Readers.{UserRef}
use omarchy_chatd.Base.{
  ℕ, Bool, true, false, not, Option, none, some, List, [], ◌∷◌, ◌++◌, leb, if◌then◌else◌, take,
  Text, text_eq,
}

-- `MAX_REACTION_KEY`.
abbrev pub max_reaction_key : ℕ
max_reaction_key = 64

-- An edit: when it was made, its body and its HTML.
pub record Edit : Type 0 where
  pub ts : ℕ
  pub body : Text
  pub html : Option Text

-- `original_sender.as_deref() == Some(sender)`.
abbrev pub is_original : Option Text → Text → Bool
is_original none sender = false
is_original (some s) sender = text_eq s sender

abbrev pub edit_of : RoomMessage → MessageType → Edit
edit_of m content = record { ts = m.ts; body = body_of content; html = formatted_html content }

-- `edit.as_ref().is_none_or(|(t, _, _)| ts >= *t)`.
abbrev pub not_older : Option Edit → ℕ → Bool
not_older none ts = true
not_older (some e) ts = leb e.ts ts

-- One related event that is a message: an edit by the original sender, not older than the one kept.
unfoldable pub take_edit : Option Text → RoomMessage → Relation → Option Edit → Option Edit
take_edit original m (replacement target content) kept =
    if not (is_original original m.sender)
    then kept
    else (if not_older kept m.ts then some (edit_of m content) else kept)
take_edit original m _ kept = kept

-- The pairs that the loop builds.
abbrev pub Related : Type 0
Related = List Entry × Option Edit

-- One related event; `none` does not parse.
unfoldable pub take_related : Option Text → Option Parsed → Related → Related
unfolding take_edit
take_related original (some (reaction target key e)) (entries, kept) = (
  entries ++ record { key = take max_reaction_key key; sender = e.sender; id = e.event_id } ∷ [],
  kept,
)
take_related original (some (message m)) (entries, kept) =
    (entries, take_edit original m m.relates_to kept)
take_related original _ acc = acc

abbrev pub take_each : Option Text → List (Option Parsed) → Related → Related
take_each original [] acc = acc
take_each original (ev ∷ evs) acc = take_each original evs (take_related original ev acc)

-- The sender of the event that is found; `none` is not found, or does not parse.
abbrev pub sender_from : Option Parsed → Option Text
sender_from none = none
sender_from (some ev) = some (sender_of ev)

-- `cached_relations`: `found` is the message itself, `related` what the index has for it.
unfoldable pub cached_relations : Option Parsed → Option (List (Option Parsed)) → Related
unfolding take_related sender_of
cached_relations found none = ([], none)
cached_relations found (some related) = take_each (sender_from found) related ([], none)

-- A message of a page with its edit, unless it is deleted.
unfoldable pub with_edit : Option Edit → Message → Message
with_edit none m = m
with_edit (some e) m =
    if m.deleted then m else record m { body = e.body; html = e.html; edited = true }

-- What a page's loop writes over a message; `parsed_id` is whether its id parses.
unfoldable pub decorate :
    (Text → Text)
    → Option Text
    → List Text
    → Bool
    → Option Parsed
    → Option (List (Option Parsed))
    → List UserRef
    → Message
    → Message
unfolding with_edit cached_relations
decorate name me redacted parsed_id found related readers m =
    let (entries, kept) = cached_relations found related in
    if parsed_id
    then with_edit kept
        (record m { reactions = aggregate_reactions name me redacted entries; read_by = readers })
    else record m { reactions = []; read_by = [] }
