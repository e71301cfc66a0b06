-- ===== src/Search/Scan.antt =====
-- The local scan of encrypted rooms (src/core.rs: `search`, its second half; src/protocol.rs:
-- `SearchHit`).
use omarchy_chatd.Messages.Events.{RoomMessage}
use omarchy_chatd.Messages.Convert.{is_replacement}
use omarchy_chatd.Media.Attachment.{body_of}
use omarchy_chatd.Base.{
  ℕ, zero, suc, ◌+◌, Bool, true, false, Option, none, some, List, [], ◌∷◌, ◌++◌, ltb, if◌then◌else◌,
  unwrap_or, length, Text, contains,
}

-- `SearchHit`.
pub record SearchHit : Type 0 where
  pub room : Text
  pub room_name : Text
  pub event_id : Text
  pub sender : Text
  pub sender_name : Text
  pub body : Text
  pub ts : ℕ

-- An event of a page of history: the message that the SDK reads in it, if it is one that is not
-- redacted, and the body of the edit that the server bundled.
pub record ScanEvent : Type 0 where
  pub message : Option RoomMessage
  pub bundled : Option Text

-- The answer to a request for a page: its events and the token of the next; or a failure, with whether
-- the deadline of the scan has passed by then.
pub data PageAnswer : Type 0 where
  got : List ScanEvent → Option Text → PageAnswer
  no_answer : Bool → PageAnswer

-- A room to search: its id, its name or else its id, whether it is a space, whether it is encrypted,
-- how its members are named, and its pages by the token that they are asked with.
pub record SearchRoom : Type 0 where
  pub id : Text
  pub name : Text
  pub is_space : Bool
  pub is_encrypted : Bool
  pub sender_name : Text → Text
  pub messages : Option Text → PageAnswer

-- What the scan has so far: the hits, the messages read, and the pages asked for.
pub record Scan : Type 0 where
  pub hits : List SearchHit
  pub scanned_messages : ℕ
  pub requests : ℕ

unfoldable pub hit_of : SearchRoom → RoomMessage → Text → SearchHit
hit_of room m body = record {
  room = room.id;
  room_name = room.name;
  event_id = m.event_id;
  sender = m.sender;
  sender_name = room.sender_name m.sender;
  body = body;
  ts = m.ts;
}

-- A message that is no edit, as it reads after the bundled edit.
unfoldable pub scan_message :
    (Text → Text) → Text → SearchRoom → RoomMessage → Option Text → Scan → Scan
unfolding hit_of contains
scan_message to_lowercase needle room m bundled s =
    let body = unwrap_or (body_of m.msgtype) bundled in
    record s {
      scanned_messages = s.scanned_messages + 1;
      hits =
          if contains (to_lowercase body) needle then s.hits ++ hit_of room m body ∷ [] else s.hits;
    }

unfoldable pub scan_parsed :
    (Text → Text) → Text → SearchRoom → Option RoomMessage → Option Text → Scan → Scan
unfolding is_replacement
scan_parsed to_lowercase needle room none bundled s = s
scan_parsed to_lowercase needle room (some m) bundled s =
    if is_replacement m.relates_to then s else scan_message to_lowercase needle room m bundled s

unfoldable pub scan_events : (Text → Text) → Text → SearchRoom → List ScanEvent → Scan → Scan
unfolding scan_parsed scan_message
scan_events to_lowercase needle room [] s = s
scan_events to_lowercase needle room (ev ∷ evs) s =
    scan_events to_lowercase needle room evs
      (scan_parsed to_lowercase needle room ev.message ev.bundled s)

-- How the pages of a room end: the scan goes on with the next room, or is over.
pub data Next : Type 0 where
  next_room over : Next

-- A failure after the deadline ends the whole scan; any other ends the room's.
unfoldable pub after_failure : Bool → Next
after_failure true = over
after_failure false = next_room

-- One page; a page of fewer than 100 events, or one with no token, is the last.
unfoldable pub scan_page :
    (Text → Text)
    → Text
    → SearchRoom
    → (Option Text → Scan → Scan × Next)
    → PageAnswer
    → Scan
    → Scan × Next
unfolding scan_events after_failure
scan_page to_lowercase needle room again (no_answer late) s = (s, after_failure late)
scan_page to_lowercase needle room again (got evs none) s =
    (scan_events to_lowercase needle room evs s, next_room)
scan_page to_lowercase needle room again (got evs (some token)) s =
    let s' = scan_events to_lowercase needle room evs s in
    let rest = again (some token) s' in if ltb (length evs) 100 then (s', next_room) else rest

-- The pages of one room, with those that are left to ask for.
unfoldable pub scan_pages : (Text → Text) → Text → SearchRoom → ℕ → Option Text → Scan → Scan × Next
unfolding scan_page
scan_pages to_lowercase needle room zero from s = (s, next_room)
scan_pages to_lowercase needle room (suc pages) from s =
    scan_page to_lowercase needle room (scan_pages to_lowercase needle room pages)
      (room.messages from) (record s { requests = s.requests + 1 })

unfoldable pub after_room : Next → Scan → (Scan → Scan) → Scan
after_room next_room s again = again s
after_room over s again = s

unfoldable pub scan_rooms : (Text → Text) → Text → ℕ → List SearchRoom → Scan → Scan
unfolding scan_pages after_room
scan_rooms to_lowercase needle pages [] s = s
scan_rooms to_lowercase needle pages (room ∷ rooms) s =
    let r = scan_pages to_lowercase needle room pages none s in
    after_room r.1 r.0 (scan_rooms to_lowercase needle pages rooms)
