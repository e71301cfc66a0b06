-- ===== src/Messages/Previews.antt =====
-- The one-line previews of quoted messages and their cache (src/core.rs: `reply_preview`,
-- `build_reply_preview`, `forget_reply_preview`).
use omarchy_chatd.Messages.Events.{Parsed, message, encrypted_event, ReplyPreview}
use omarchy_chatd.Messages.Quotes.{strip_reply_fallback}
use omarchy_chatd.Messages.Convert.{Place, name_of}
use omarchy_chatd.Messages.Edits.{Edit}
use omarchy_chatd.Media.Attachment.{Attachment, attachment_of, body_of}
use omarchy_chatd.Base.{
  ℕ, Option, none, some, List, [], ◌∷◌, ◌++◌, ltb, leb, if◌then◌else◌, or_else, unwrap_or, length,
  take, Text, codes, text_eq, is_empty, is_whitespace,
}

-- `MAX_REPLY_CACHE`.
abbrev pub max_reply_cache : ℕ
max_reply_cache = 4096

-- `REPLY_CACHE`: the previews by their keys, no key twice.
abbrev pub Previews : Type 0
Previews = List (Text × ReplyPreview)

-- `"room|event"`.
unfoldable pub preview_key : Text → Text → Text
preview_key room event = room ++ b'|' ∷ event

unfoldable pub get_preview : Text → Previews → Option ReplyPreview
get_preview k [] = none
get_preview k ((j, p) ∷ c) = if text_eq k j then some p else get_preview k c

-- `HashMap::remove`.
unfoldable pub drop_preview : Text → Previews → Previews
drop_preview k [] = []
drop_preview k ((j, p) ∷ c) =
    let rest = drop_preview k c in if text_eq k j then rest else (j, p) ∷ rest

-- `HashMap::insert`.
unfoldable pub insert_preview : Text → ReplyPreview → Previews → Previews
unfolding drop_preview
insert_preview k p c = (k, p) ∷ drop_preview k c

-- `forget_reply_preview`.
unfoldable pub forget_reply_preview : Text → Text → Previews → Previews
unfolding drop_preview preview_key
forget_reply_preview room event c = drop_preview (preview_key room event) c

-- A new preview in the cache, which is emptied first where it is full.
unfoldable pub store_preview : Text → ReplyPreview → Previews → Previews
unfolding insert_preview
store_preview k p c = insert_preview k p (if leb max_reply_cache (length c) then [] else c)

-- The words of a text: `split_whitespace`. The first is the one that a text begins within.
unfoldable pub words_from : Text → Text → List Text
words_from word [] = if is_empty word then [] else word ∷ []
words_from word (c ∷ s) =
    let next = words_from [] s in
    let same = words_from (word ++ c ∷ []) s in
    if is_whitespace c then (if is_empty word then next else word ∷ next) else same

unfoldable pub join_words : List Text → Text
join_words [] = []
join_words (w ∷ []) = w
join_words (w ∷ v ∷ ws) = w ++ 32 ∷ join_words (v ∷ ws)

-- `body.split_whitespace().collect().join(" ")`.
unfoldable pub one_line : Text → Text
unfolding words_from join_words
one_line body = join_words (words_from [] body)

-- At most 160 characters, and an ellipsis where more are cut.
unfoldable pub cut_line : Text → Text
cut_line line = if ltb 160 (length line) then take 160 line ++ 0x2026 ∷ [] else line

icon_of : Text → Text
icon_of kind =
    if text_eq kind (codes "image")
    then 0x1f5bc ∷ []
    else (if text_eq kind (codes "video")
        then 0x1f39e ∷ []
        else (if text_eq kind (codes "audio") then 0x1f3b5 ∷ [] else 0x1f4ce ∷ []))

text_from : Option Attachment → Option Text → Text → Text
unfolding strip_reply_fallback
text_from (some a) edited body = icon_of a.kind ++ 32 ∷ unwrap_or a.name a.caption
text_from none (some e) body = e
text_from none none body = strip_reply_fallback body

-- The sender and the text that a preview shows, if the event is one to show.
unfoldable pub quoted_text : Option Text → Parsed → Option (Text × Text)
unfolding text_from icon_of
quoted_text edited (message m) =
    some (m.sender, text_from (attachment_of m.msgtype) edited (body_of m.msgtype))
quoted_text edited (encrypted_event e) = some (e.sender, codes "Unable to decrypt")
quoted_text edited _ = none

abbrev pub edit_body : Option Edit → Option Text
edit_body none = none
edit_body (some e) = some e.body

unfoldable pub preview_from : Place → Text → Option (Text × Text) → Option ReplyPreview
preview_from place event none = none
preview_from place event (some (sender, body)) = some (record {
  event_id = event;
  sender = sender;
  sender_name = name_of place sender;
  body = cut_line (one_line body);
})

-- What `build_reply_preview` finds: the event, where it is loaded in time and parses; the body of
-- the edit that the server bundled; and the newest edit that the cache knows of.
pub record Quoted : Type 0 where
  pub event : Option Parsed
  pub bundled : Option Text
  pub cached : Option Edit

unfoldable pub build_from : Place → Text → Option Text → Option Parsed → Option ReplyPreview
build_from place event edited none = none
build_from place event edited (some parsed) = preview_from place event (quoted_text edited parsed)

-- `build_reply_preview`.
unfoldable pub build_reply_preview : Place → Text → Quoted → Option ReplyPreview
unfolding build_from preview_from quoted_text one_line cut_line
build_reply_preview place event q =
    build_from place event (or_else (edit_body q.cached) q.bundled) q.event

unfoldable pub stored : Text → Option ReplyPreview → Previews → Option ReplyPreview × Previews
stored k none c = (none, c)
stored k (some p) c = (some p, store_preview k p c)

unfoldable pub preview_or_build :
    Text → Option ReplyPreview → Option ReplyPreview → Previews → Option ReplyPreview × Previews
unfolding stored
preview_or_build k (some p) built c = (some p, c)
preview_or_build k none built c = stored k built c

-- `reply_preview`, where nothing else happens to the cache while the preview is built.
unfoldable pub reply_preview : Place → Text → Quoted → Previews → Option ReplyPreview × Previews
unfolding preview_or_build store_preview get_preview preview_key
reply_preview place event q c =
    let k = preview_key place.room_id event in
    preview_or_build k (get_preview k c) (build_reply_preview place event q) c
