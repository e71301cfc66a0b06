-- ===== src/Search/Found.antt =====
-- What a search finds (src/core.rs: `search`).
use omarchy_chatd.Search.Scan.{SearchHit, ScanEvent, got, SearchRoom, Scan, hit_of}
use omarchy_chatd.Search.Find.{
  SearchResults, nothing_to_search, no_such_room, Found, found, refused, Searcher, from_answer,
}
use omarchy_chatd.Messages.Events.{RoomMessage}
use omarchy_chatd.Messages.Convert.{is_replacement}
use omarchy_chatd.Media.Attachment.{body_of}
use omarchy_chatd.Base.{
  ℕ, ◌≤◌, ◌≡◌, ◌⊎◌, true, false, Option, none, some, List, unwrap_or, length, All, In, Pairwise,
  Text, is_empty, contains,
}

-- A message of the scan of a room, in an event of a page that its history gave: no edit, and with the
-- query in its text, which is that of the edit which the server bundled, if there is one.
pub record IsScannedHit (client : Searcher) (q : Text) (h : SearchHit) : Type 0 where
  pub room : SearchRoom
  pub from : Option Text
  pub page : List ScanEvent
  pub more : Option Text
  pub event : ScanEvent
  pub message : RoomMessage
  pub asked : room.messages from ≡ got page more
  pub on_page : In event page
  pub of_event : event.message ≡ some message
  pub no_edit : is_replacement message.relates_to ≡ false
  pub shown : h ≡ hit_of room message (unwrap_or (body_of message.msgtype) event.bundled)
  pub has_query : contains (client.to_lowercase h.body) (client.to_lowercase q) ≡ true

-- A hit is one of the scan, or is from an answer of the server's search.
abbrev pub Origin : Searcher → Text → ℕ → SearchHit → Type 0
Origin client q limit h =
    IsScannedHit client q h
    ⊎ ((rooms : List Text) × In h (from_answer (client.server_search rooms limit)))

-- Newest first.
abbrev pub NewestFirst : List SearchHit → Type 0
NewestFirst hits = Pairwise (λ (h k : SearchHit). k.ts ≤ h.ts) hits

-- The results of a search: at most `limit` hits, newest first, each with its origin.
abbrev pub AreResults : Searcher → Text → ℕ → SearchResults → Type 0
AreResults client q limit r =
    (length r.hits ≤ limit) × NewestFirst r.hits × All (Origin client q limit) r.hits

-- The answer to a search: refused for a query that is empty, or for a room that is not known, or results.
abbrev pub IsFound : Searcher → Text → Option Text → ℕ → Found → Type 0
IsFound client q room_id limit (refused nothing_to_search) = is_empty q ≡ true
IsFound client q room_id limit (refused no_such_room) =
    (id : Text) × (room_id ≡ some id) × (client.room_by_id id ≡ none)
IsFound client q room_id limit (found r) = (is_empty q ≡ false) × AreResults client q limit r
