-- ===== src/Search/Find.antt =====
-- The search of messages (src/core.rs: `search`; src/protocol.rs: `SearchResults`).
use omarchy_chatd.Search.Scan.{SearchHit, SearchRoom, scan_rooms}
use omarchy_chatd.Messages.Events.{RoomMessage}
use omarchy_chatd.Messages.Convert.{is_replacement}
use omarchy_chatd.Media.Attachment.{body_of}
use omarchy_chatd.Base.{
  ℕ, min, max, Bool, not, Option, none, some, List, [], ◌∷◌, leb, if◌then◌else◌, length, take, keep,
  sort_by, Text, text_eq, is_empty, trim,
}

-- `MAX_SEARCH_ROOMS`.
abbrev pub max_search_rooms : ℕ
max_search_rooms = 40

-- `SearchResults`.
pub record SearchResults : Type 0 where
  pub hits : List SearchHit
  pub scanned_rooms : ℕ
  pub scanned_messages : ℕ
  pub server_rooms : ℕ

pub data SearchError : Type 0 where
  nothing_to_search no_such_room : SearchError

pub data Found : Type 0 where
  found : SearchResults → Found
  refused : SearchError → Found

-- A result of the server's search that parses as a message that is not redacted: the room that it is
-- in, the message, and the names of the room and of the sender, or what stands for them.
pub record ServerHit : Type 0 where
  pub room : Text
  pub message : RoomMessage
  pub room_name : Text
  pub sender_name : Text

-- What the client answers: the language's table of lower case, the rooms joined, a room by its id, and
-- the server's search of some rooms, `none` where it fails or does not answer in time.
pub record Searcher : Type 0 where
  pub to_lowercase : Text → Text
  pub joined_rooms : List SearchRoom
  pub room_by_id : Text → Option SearchRoom
  pub server_search : List Text → ℕ → Option (List (Option ServerHit))

server_hit : ServerHit → SearchHit
server_hit h = record {
  room = h.room;
  room_name = h.room_name;
  event_id = h.message.event_id;
  sender = h.message.sender;
  sender_name = h.sender_name;
  body = body_of h.message.msgtype;
  ts = h.message.ts;
}

-- The results that are no edits.
unfoldable pub collect_server : List (Option ServerHit) → List SearchHit
unfolding server_hit is_replacement
collect_server [] = []
collect_server (none ∷ rs) = collect_server rs
collect_server (some h ∷ rs) =
    let rest = collect_server rs in
    if is_replacement h.message.relates_to then rest else server_hit h ∷ rest

unfoldable pub from_answer : Option (List (Option ServerHit)) → List SearchHit
unfolding collect_server
from_answer none = []
from_answer (some rs) = collect_server rs

unfoldable pub room_ids : List SearchRoom → List Text
room_ids [] = []
room_ids (r ∷ rs) = r.id ∷ room_ids rs

-- The server is asked only where some room is not encrypted.
unfoldable pub server_hits : Searcher → ℕ → List SearchRoom → List SearchHit
unfolding from_answer room_ids
server_hits client limit [] = []
server_hits client limit (r ∷ plain) =
    from_answer (client.server_search (room_ids (r ∷ plain)) limit)

-- `hits.dedup_by(…)`: of neighbours with one id the first is kept.
unfoldable pub dedup_after : SearchHit → List SearchHit → List SearchHit
dedup_after h [] = []
dedup_after h (k ∷ ks) =
    let same = dedup_after h ks in
    let rest = dedup_after k ks in if text_eq k.event_id h.event_id then same else k ∷ rest

unfoldable pub dedup_hits : List SearchHit → List SearchHit
unfolding dedup_after
dedup_hits [] = []
dedup_hits (h ∷ hs) = h ∷ dedup_after h hs

-- `hits.sort_by(|a, b| b.ts.cmp(&a.ts))`.
abbrev pub is_newer : SearchHit → SearchHit → Bool
is_newer h k = leb k.ts h.ts

-- What is done with all hits: newest first, without the neighbours that are one event, and cut.
unfoldable pub arrange : ℕ → List SearchHit → List SearchHit
unfolding dedup_hits sort_by
arrange limit hits = take limit (dedup_hits (sort_by is_newer hits))

-- The search of some rooms; `pages` is how many pages of each are scanned.
unfoldable pub search_rooms : Searcher → Text → ℕ → ℕ → List SearchRoom → SearchResults × ℕ
unfolding server_hits scan_rooms arrange
search_rooms client q limit pages rooms =
    let plain = keep (λ (r : SearchRoom). not r.is_encrypted) rooms in
    let encrypted = take max_search_rooms (keep (λ (r : SearchRoom). r.is_encrypted) rooms) in
    let s =
      scan_rooms client.to_lowercase (client.to_lowercase q) pages encrypted
        (record { hits = server_hits client limit plain; scanned_messages = 0; requests = 0 }) in
    (
      record {
        hits = arrange limit s.hits;
        scanned_rooms = length encrypted;
        scanned_messages = s.scanned_messages;
        server_rooms = length plain;
      },
      s.requests,
    )

-- The result, and how many pages of history were asked for.
unfoldable pub in_room : Searcher → Text → ℕ → Option SearchRoom → Found × ℕ
unfolding search_rooms
in_room client q limit none = (refused no_such_room, 0)
in_room client q limit (some room) =
    let r = search_rooms client q limit 12 (room ∷ []) in (found r.0, r.1)

unfoldable pub in_scope : Searcher → Text → ℕ → Option Text → Found × ℕ
unfolding in_room
in_scope client q limit (some id) = in_room client q limit (client.room_by_id id)
in_scope client q limit none =
    let rooms = keep (λ (r : SearchRoom). not r.is_space) client.joined_rooms in
    let r = search_rooms client q limit 3 rooms in (found r.0, r.1)

-- `search`.
unfoldable pub search_messages : Searcher → Text → Option Text → ℕ → Found × ℕ
unfolding in_scope trim
search_messages client query room_id limit =
    let q = trim query in
    if is_empty q
    then (refused nothing_to_search, 0)
    else in_scope client q (min (max limit 1) 200) room_id
