-- ===== src/Media/Attachment.antt =====
-- What a message with a file tells of it (src/media.rs: `attachment_of`; src/protocol.rs:
-- `Attachment`).
use omarchy_chatd.Base.{
  ℕ, min, Bool, true, false, not, Option, none, some, List, [], ◌∷◌, map, if◌then◌else◌, take, Text,
  codes, is_empty, trim,
}

-- `formatted_body` with its format.
pub record Formatted : Type 0 where
  pub is_html : Bool
  pub text : Text

-- The `info` block of a file; times are in milliseconds.
pub record Info : Type 0 where
  pub mimetype : Option Text
  pub size : Option ℕ
  pub width : Option ℕ
  pub height : Option ℕ
  pub duration : Option ℕ
  pub has_thumbnail_source : Bool

-- The MSC3245 block of a recording.
pub record AudioDetails : Type 0 where
  pub duration : ℕ
  pub waveform : List ℕ

-- The content of a file's message, with the caption and the file name that the SDK reads from it.
pub record FileContent : Type 0 where
  pub body : Text
  pub caption : Option Text
  pub filename : Text
  pub info : Option Info
  pub audio : Option AudioDetails
  pub is_voice : Bool

-- `MessageType`.
pub data MessageType : Type 0 where
  text : Text → Option Formatted → MessageType
  notice : Text → Option Formatted → MessageType
  emote : Text → Option Formatted → MessageType
  image : FileContent → MessageType
  file : FileContent → MessageType
  video : FileContent → MessageType
  audio : FileContent → MessageType
  other : Text → Text → MessageType

-- `Attachment`.
pub record Attachment : Type 0 where
  pub kind : Text
  pub name : Text
  pub caption : Option Text
  pub mime : Option Text
  pub size : Option ℕ
  pub width : Option ℕ
  pub height : Option ℕ
  pub has_thumbnail : Bool
  pub voice : Bool
  pub duration_ms : Option ℕ
  pub waveform : Option (List ℕ)

-- `MAX_WAVEFORM` and `u16::MAX`.
abbrev pub max_waveform : ℕ
max_waveform = 256

abbrev pub u16_max : ℕ
u16_max = 65535

abbrev pub info_field {ℓ} : {A : Type ℓ} → (Info → Option A) → Option Info → Option A
info_field field none = none
info_field field (some i) = field i

abbrev pub with_thumbnail : Option Info → Bool
with_thumbnail none = false
with_thumbnail (some i) = i.has_thumbnail_source

abbrev pub filter_text : (Text → Bool) → Option Text → Option Text
filter_text p none = none
filter_text p (some t) = if p t then some t else none

-- The caption, unless it is blank.
unfoldable pub caption_of : FileContent → Option Text
unfolding trim
caption_of c = filter_text (λ t. not (is_empty (trim t))) c.caption

abbrev pub duration_from : Option AudioDetails → Option Info → Option ℕ
duration_from (some a) info = some a.duration
duration_from none info = info_field (λ i. i.duration) info

-- `(!a.waveform.is_empty()).then(…)`, the samples cut to 16 bits.
unfoldable pub waveform_from : List ℕ → Option (List ℕ)
waveform_from [] = none
waveform_from (v ∷ vs) = some (map (λ (x : ℕ). min x u16_max) (take max_waveform (v ∷ vs)))

abbrev pub waveform_of : Option AudioDetails → Option (List ℕ)
unfolding waveform_from
waveform_of none = none
waveform_of (some a) = waveform_from a.waveform

-- The parts that the kinds share: no size in pixels, no recording.
unfoldable pub plain_attachment : Text → Bool → FileContent → Attachment
unfolding caption_of
plain_attachment kind thumbnail c = record {
  kind = kind;
  name = c.filename;
  caption = caption_of c;
  mime = info_field (λ i. i.mimetype) c.info;
  size = info_field (λ i. i.size) c.info;
  width = none;
  height = none;
  has_thumbnail = thumbnail;
  voice = false;
  duration_ms = none;
  waveform = none;
}

unfoldable pub pixel_attachment : Text → Bool → FileContent → Attachment
unfolding plain_attachment
pixel_attachment kind thumbnail c = record (plain_attachment kind thumbnail c) {
  width = info_field (λ i. i.width) c.info;
  height = info_field (λ i. i.height) c.info;
}

-- `attachment_of`.
unfoldable pub attachment_of : MessageType → Option Attachment
unfolding plain_attachment pixel_attachment waveform_from
attachment_of (image c) = some (pixel_attachment (codes "image") true c)
attachment_of (file c) = some (plain_attachment (codes "file") (with_thumbnail c.info) c)
attachment_of (video c) = some (pixel_attachment (codes "video") (with_thumbnail c.info) c)
attachment_of (audio c) = some (record (plain_attachment (codes "audio") false c) {
  voice = c.is_voice;
  duration_ms = duration_from c.audio c.info;
  waveform = waveform_of c.audio;
})
attachment_of _ = none

-- `MessageType::body` and `MessageType::msgtype`.
abbrev pub body_of : MessageType → Text
body_of (text b f) = b
body_of (notice b f) = b
body_of (emote b f) = b
body_of (image c) = c.body
body_of (file c) = c.body
body_of (video c) = c.body
body_of (audio c) = c.body
body_of (other t b) = b

abbrev pub msgtype_of : MessageType → Text
msgtype_of (text b f) = codes "m.text"
msgtype_of (notice b f) = codes "m.notice"
msgtype_of (emote b f) = codes "m.emote"
msgtype_of (image c) = codes "m.image"
msgtype_of (file c) = codes "m.file"
msgtype_of (video c) = codes "m.video"
msgtype_of (audio c) = codes "m.audio"
msgtype_of (other t b) = t
