-- ===== src/Community/Spaces.antt =====
-- The commands that ask the server for a space (src/community.rs: `join_space`, `create_space`,
-- `add_child`).
use omarchy_chatd.Community.Policy.{Room, Client, get_room}
use omarchy_chatd.Community.Listing.{forget}
use omarchy_chatd.Community.Leaving.{CommunityState}
use omarchy_chatd.Json.{Json, bool, str, arr, obj, nil, cons, end, field}
use omarchy_chatd.Base.{
  ℕ, ◌⊎◌, inl, inr, Bool, true, not, Option, none, some, List, [], ◌∷◌, if◌then◌else◌, Text, codes,
}

pub data SpaceError : Type 0 where
  not_an_alias not_joined not_created unknown_space unknown_room no_server not_listed : SpaceError

-- `join_space`, by the room that the server says is joined; the listing is forgotten.
unfoldable pub join_space :
    Client → Text → Option Text → CommunityState → (SpaceError ⊎ Text) × CommunityState
join_space c alias answer state =
    if not (c.is_alias alias) then (inl not_an_alias, state) else (elim answer [
      | none ↦ (inl not_joined, state)
      | some id ↦ (inr id, record state { hierarchy_cache = forget alias state.hierarchy_cache })
    ])

-- What `create_space` asks for: a public and listed room of the type space, whose cards are of level
-- 0 and whose history the world may read. The choices are as the protocol spells them.
pub record CreateRoom : Type 0 where
  pub name : Option Text
  pub topic : Option Text
  pub preset : Text
  pub visibility : Text
  pub room_alias_name : Option Text
  pub room_type : Text
  pub power_levels : List (Text × ℕ)
  pub history_visibility : Text

abbrev pub profile_type : Text
profile_type = codes "org.omarchy.profile"

unfoldable pub space_request : Text → Option Text → Option Text → CreateRoom
space_request name topic alias_local = record {
  name = some name;
  topic = topic;
  preset = codes "public_chat";
  visibility = codes "public";
  room_alias_name = alias_local;
  room_type = codes "m.space";
  power_levels = (profile_type, 0) ∷ [];
  history_visibility = codes "world_readable";
}

unfoldable pub create_space :
    (CreateRoom → Option Text) → Text → Option Text → Option Text → SpaceError ⊎ Text
unfolding space_request
create_space server name topic alias_local = elim (server (space_request name topic alias_local)) [
  | none ↦ inl not_created
  | some id ↦ inr id
]

-- The state events that `add_child` sends.
unfoldable pub child_json : Text → Bool → Json
child_json server suggested = obj (
    field (codes "via") (arr (cons (str server) nil))
      (if suggested then field (codes "suggested") (bool true) end else end))

unfoldable pub parent_json : Text → Json
parent_json server =
    obj (
      field (codes "via") (arr (cons (str server) nil)) (field (codes "canonical") (bool true) end))

-- A state event that is sent to a room, under a key.
pub record Sent : Type 0 where
  pub to_room : Text
  pub state_key : Text
  pub content : Json

unfoldable pub add_known :
    (Sent → Bool) → Text → Text → Bool → Option Text → Option SpaceError × List Sent
unfolding child_json parent_json
add_known is_sent space room suggested none = (some no_server, [])
add_known is_sent space room suggested (some server) =
    let child : Sent = record {
      to_room = space;
      state_key = room;
      content = child_json server suggested;
    } in
    let parent : Sent = record {
      to_room = room;
      state_key = space;
      content = parent_json server;
    } in
    if is_sent child
    then (none, child ∷ (if is_sent parent then parent ∷ [] else []))
    else (some not_listed, [])

-- With what is known of the space and of the room.
unfoldable pub add_between :
    Option Room
    → Option Room
    → (Sent → Bool)
    → Text
    → Text
    → Bool
    → Option Text
    → Option SpaceError × List Sent
unfolding add_known
add_between none room_known is_sent space room suggested server = (some unknown_space, [])
add_between (some _) none is_sent space room suggested server = (some unknown_room, [])
add_between (some _) (some _) is_sent space room suggested server =
    add_known is_sent space room suggested server

-- `add_child`: the error, if there is one, and the events that the server takes.
unfoldable pub add_child :
    Client
    → (Text → Option Text)
    → (Sent → Bool)
    → Text
    → Text
    → Bool
    → Option SpaceError × List Sent
unfolding add_between
add_child c server_name is_sent space room suggested =
    add_between (get_room c space) (get_room c room) is_sent space room suggested
      (server_name space)
