-- ===== src/Community/Status.antt =====
-- What is shown of the community (src/community.rs:
-- `CommunityStatus`, `status`).
use omarchy_chatd.Community.Policy.{DmPolicy, Prefs, Client, get_room}
use omarchy_chatd.Community.Listing.{CommunityRoom, Summary, Outcome, ok, err, hierarchy}
use omarchy_chatd.Community.Leaving.{CommunityState, is_joined}
use omarchy_chatd.Community.Cards.{Profile}
use omarchy_chatd.Community.Publish.{CardStore, read_profile}
use omarchy_chatd.Base.{
  ℕ, ◌⊎◌, Bool, true, false, ◌&&◌, Option, none, some, List, [], map, ◌==◌, if◌then◌else◌, or_else,
  Text,
}

-- `CommunityStatus`.
pub record CommunityStatus : Type 0 where
  pub alias : Text
  pub exists : Bool
  pub joined : Bool
  pub space_id : Option Text
  pub name : Option Text
  pub topic : Option Text
  pub member_count : ℕ
  pub rooms : List CommunityRoom
  pub profile : Option Profile
  pub dm_policy : DmPolicy
  pub joining : ℕ

-- What a status is made of beside the client: the clock, the server's answer to a listing, the user, the
-- cards in the store, what the store knows of the space, and which texts are room ids.
pub record Sources : Type 0 where
  pub now : ℕ
  pub answer : (List Summary) ⊎ Text
  pub user_id : Option Text
  pub cards : CardStore
  pub space_name : Option Text
  pub joined_members_count : ℕ
  pub is_room_id : Text → Bool

unfoldable pub empty_status : Text → Prefs → CommunityState → CommunityStatus
empty_status alias prefs state = record {
  alias = alias;
  exists = false;
  joined = false;
  space_id = none;
  name = none;
  topic = none;
  member_count = 0;
  rooms = [];
  profile = none;
  dm_policy = prefs.dm_policy;
  joining = state.joining;
}

-- The status of a space that exists, before its listing is read.
unfoldable pub found_status : Client → Text → Prefs → CommunityState → Text → CommunityStatus
unfolding empty_status
found_status c alias prefs state id = record (empty_status alias prefs state) {
  exists = true;
  space_id = some id;
  joined = is_joined (get_room c id);
}

-- Whether the client is in a listed room.
unfoldable pub is_in : Client → (Text → Bool) → Text → Bool
is_in c is_room_id id = is_room_id id && is_joined (get_room c id)

abbrev pub mark_joined : Client → (Text → Bool) → CommunityRoom → CommunityRoom
mark_joined c is_room_id r = record r { joined = is_in c is_room_id r.id }

-- A listing that fails leaves the status as it was.
unfoldable pub with_listing : Client → (Text → Bool) → Outcome → CommunityStatus → CommunityStatus
with_listing c is_room_id (err why) out = out
with_listing c is_room_id (ok h) out = record out {
  name = h.name;
  topic = h.topic;
  member_count = h.member_count;
  rooms = map (mark_joined c is_room_id) h.rooms;
}

-- What is known only of a space that is joined.
unfoldable pub own_of : Sources → Text → CommunityStatus → CommunityStatus
unfolding read_profile
own_of src me out = record out {
  profile = read_profile src.cards me;
  name = or_else out.name src.space_name;
  member_count = if out.member_count == 0 then src.joined_members_count else out.member_count;
}

unfoldable pub with_own : Sources → Option Text → CommunityStatus → CommunityStatus
unfolding own_of
with_own src none out = out
with_own src (some me) out = if out.joined then own_of src me out else out

unfoldable pub status_of :
    Client
    → Sources
    → Text
    → Prefs
    → CommunityState
    → Option (Option Text)
    → Option CommunityStatus × CommunityState
unfolding empty_status found_status with_listing with_own hierarchy
status_of c src alias prefs state none = (none, state)
status_of c src alias prefs state (some none) = (some (empty_status alias prefs state), state)
status_of c src alias prefs state (some (some id)) =
    let result = hierarchy src.now alias id src.answer state.hierarchy_cache in
    (
      some (
          with_own src src.user_id
            (with_listing c src.is_room_id result.0 (found_status c alias prefs state id))),
      record state { hierarchy_cache = result.2 },
    )

-- `status`; `none` is an error.
unfoldable pub status :
    Client → Sources → Text → Prefs → CommunityState → Option CommunityStatus × CommunityState
unfolding status_of omarchy_chatd.Community.Policy.space_id
status c src alias prefs state =
    status_of c src alias prefs state (omarchy_chatd.Community.Policy.space_id c alias)
