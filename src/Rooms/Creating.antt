-- ===== src/Rooms/Creating.antt =====
-- Finding and creating rooms (src/core.rs: `directory`, `dm`,
-- `create_room`; src/protocol.rs: `DirectoryRoom`, `DirectoryPage`).

use omarchy_chatd.Rooms.Sending.{non_empty}
use omarchy_chatd.Base.{
  ℕ, min, max, ◌≡◌, ◌≢◌, ◌⊎◌, inl, inr, Bool, true, false, not, Option, none, some, List, map,
  if◌then◌else◌, or_else, unwrap_or, if_lem, Text, is_empty, trim,
}

pub data RoomsError : Type 0 where
  no_client invalid_server no_answer refused invalid_id needs_name : RoomsError

-- `.map(str::trim).filter(|s| !s.is_empty())`.
unfoldable pub trimmed : Option Text → Option Text
unfolding trim
trimmed none = none
trimmed (some t) = non_empty (some (trim t))

-- What is asked of the room directory.
pub record DirectoryRequest : Type 0 where
  pub limit : ℕ
  pub search_term : Option Text
  pub since : Option Text
  pub server : Option Text

-- A room of the answer.
pub record PublicRoom : Type 0 where
  pub room_id : Text
  pub name : Option Text
  pub canonical_alias : Option Text
  pub topic : Option Text
  pub avatar_url : Option Text
  pub num_joined_members : ℕ

pub record PublicRooms : Type 0 where
  pub chunk : List PublicRoom
  pub next_batch : Option Text
  pub total_room_count_estimate : Option ℕ

-- `DirectoryRoom`.
pub record DirectoryRoom : Type 0 where
  pub joined : Bool
  pub id : Text
  pub name : Text
  pub alias : Option Text
  pub topic : Option Text
  pub avatar : Option Text
  pub members : ℕ

-- `DirectoryPage`.
pub record DirectoryPage : Type 0 where
  pub server : Text
  pub rooms : List DirectoryRoom
  pub next : Option Text
  pub total : Option ℕ

-- A client: its server, the rooms that it has joined, and what the directory answers (`none`: not in
-- time, `some none`: an error).
pub record DirectoryClient : Type 0 where
  pub own_server : Text
  pub is_joined : Text → Bool
  pub is_server : Text → Bool
  pub public_rooms : DirectoryRequest → Option (Option PublicRooms)

unfoldable pub directory_room : (Text → Bool) → PublicRoom → DirectoryRoom
directory_room is_joined r = record {
  joined = is_joined r.room_id;
  id = r.room_id;
  name = unwrap_or r.room_id (or_else r.name r.canonical_alias);
  alias = r.canonical_alias;
  topic = r.topic;
  avatar = r.avatar_url;
  members = r.num_joined_members;
}

directory_page :
    DirectoryClient → Option Text → Option (Option PublicRooms) → RoomsError ⊎ DirectoryPage
unfolding directory_room
directory_page c server none = inl no_answer
directory_page c server (some none) = inl refused
directory_page c server (some (some resp)) = inr (record {
  server = unwrap_or c.own_server server;
  rooms = map (directory_room c.is_joined) resp.chunk;
  next = resp.next_batch;
  total = resp.total_room_count_estimate;
})

is_valid : (Text → Bool) → Option Text → Bool
is_valid is_server none = true
is_valid is_server (some s) = is_server s

-- `directory`.
unfoldable pub directory :
    Option DirectoryClient → Text → Option Text → ℕ → Option Text → RoomsError ⊎ DirectoryPage
unfolding directory_page trimmed is_valid
directory none query server limit since = inl no_client
directory (some c) query server limit since =
    if is_valid c.is_server (trimmed server)
    then directory_page c (trimmed server) (
        c.public_rooms (record {
          limit = min (max limit 1) 100;
          search_term = trimmed (some query);
          since = trimmed since;
          server = trimmed server;
        }))
    else inl invalid_server

-- What is asked of the server for a new room.
pub record NewRoom : Type 0 where
  pub name : Text
  pub topic : Option Text
  pub is_private_chat : Bool
  pub is_listed : Bool
  pub is_encrypted : Bool

unfoldable pub room_request : Text → Option Text → Bool → Bool → NewRoom
unfolding trimmed
room_request name topic encrypted private = record {
  name = name;
  topic = trimmed topic;
  is_private_chat = private;
  is_listed = not private;
  is_encrypted = encrypted;
}

-- `create_room`, by what the server makes of a request; `none` is that nobody is signed in.
unfoldable pub create_room :
    Option (NewRoom → Option Text) → Text → Option Text → Bool → Bool → RoomsError ⊎ Text
unfolding room_request
create_room none name topic encrypted private = inl no_client
create_room (some server) name topic encrypted private =
    if is_empty (trim name)
    then inl needs_name
    else elim (server (room_request (trim name) topic encrypted private)) [
      | none ↦ inl refused
      | some id ↦ inr id
    ]

-- A direct chat that the client knows: its id, and whether it is joined.
pub record DmClient : Type 0 where
  pub is_user_id : Text → Bool
  pub dm_room : Text → Option (Text × Bool)
  pub create_dm : Text → Option Text

-- A chat that is made anew.
new_dm : DmClient → Text → (RoomsError ⊎ Text) × Bool
new_dm c user = (elim (c.create_dm user) [ none ↦ inl refused | some id ↦ inr id ], true)

dm_with : DmClient → Text → Option (Text × Bool) → (RoomsError ⊎ Text) × Bool
unfolding new_dm
dm_with c user none = new_dm c user
dm_with c user (some (id, true)) = (inr id, false)
dm_with c user (some (id, false)) = new_dm c user

-- `dm`: the chat, and whether one was asked for. One that is joined is used again.
unfoldable pub dm : Option DmClient → Text → (RoomsError ⊎ Text) × Bool
unfolding dm_with trim
dm none user = (inl no_client, false)
dm (some c) user =
    if c.is_user_id (trim user)
    then dm_with c (trim user) (c.dm_room (trim user))
    else (inl invalid_id, false)

dm_with-asks :
    (c : DmClient) (user : Text) (known : Option (Text × Bool))
    → (dm_with c user known).1 ≡ true
    → (id : Text) → known ≢ some (id, true)
unfolding dm_with
dm_with-asks c user none h id e = absurd (cc)
dm_with-asks c user (some (i, true)) h id e = absurd (cc)
dm_with-asks c user (some (i, false)) h id e = absurd (cc)

-- A chat is asked for only where the user's id parses and no direct chat with the user is joined.
dm-asks :
    (c : DmClient) (user : Text)
    → (dm (some c) user).1 ≡ true
    → (c.is_user_id (trim user) ≡ true) × ((id : Text) → c.dm_room (trim user) ≢ some (id, true))
unfolding dm
dm-asks c user =
    if_lem
      (λ (r : (RoomsError ⊎ Text) × Bool).
        r.1 ≡ true
        → (c.is_user_id (trim user) ≡ true)
          × ((id : Text) → c.dm_room (trim user) ≢ some (id, true)))
      (c.is_user_id (trim user)) (λ v h. (v, dm_with-asks c (trim user) (c.dm_room (trim user)) h))
      (λ _ h. absurd (not_asked h))
  where
    not_asked : false ≡ true → ⊥
    not_asked h = absurd (cc)
