-- ===== src/Community/Publish.antt =====
-- Publishing and withdrawing one's card (src/community.rs: `joined_space`, `publish_profile`,
-- `clear_profile`, `read_profile`).
use omarchy_chatd.Community.Policy.{Client, get_room, space_id}
use omarchy_chatd.Community.Leaving.{is_joined}
use omarchy_chatd.Community.Cards.{Profile, profile_from}
use omarchy_chatd.Json.{Json, bool, num, str, obj, Fields, end, field, ◌>>=◌}
use omarchy_chatd.Base.{
  ℕ, ◌%◌, ◌^◌, Bool, Option, none, some, if◌then◌else◌, take, Text, codes, text_eq, is_empty, trim,
}

pub data PublishError : Type 0 where
  unresolved no_space join_first not_signed_in not_sent : PublishError

-- `joined_space`: the id of the space, if it is there and joined.
space_joined : Client → Text → Option PublishError
space_joined c id = if is_joined (get_room c id) then none else some join_first

space_from : Client → Option (Option Text) → Option PublishError
unfolding space_joined
space_from c none = some unresolved
space_from c (some none) = some no_space
space_from c (some (some id)) = space_joined c id

unfoldable pub joined_space : Client → Text → Option PublishError
unfolding space_from space_id
joined_space c alias = space_from c (space_id c alias)

-- `serde_json::to_value(&profile)`; an avatar or a theme that is not there is left out.
abbrev pub optional_field : Text → Option Text → Fields → Fields
optional_field k none fields = fields
optional_field k (some t) fields = field k (str t) fields

unfoldable pub card_json : Profile → Json
card_json p = obj (
    field (codes "user_id") (str p.user_id) (
      field (codes "name") (str p.name) (
        optional_field (codes "avatar") p.avatar (
          field (codes "bio") (str p.bio) (
            field (codes "open_to_dm") (bool p.open_to_dm) (
              optional_field (codes "theme") p.theme
                (field (codes "updated") (num p.updated) end)))))))

-- A state event as the store has it.
unfoldable pub state_event : Text → Json → Json
state_event key content =
    obj (field (codes "content") content (field (codes "state_key") (str key) end))

-- The cards of the space, by the user under whom they are, as the server has them: the store on disk
-- follows with the next sync.
abbrev pub CardStore : Type 0
CardStore = Text → Option Json

unfoldable pub put_state : Text → Json → CardStore → CardStore
unfolding state_event
put_state key content store u = if text_eq key u then some (state_event key content) else store u

-- Who publishes: the id and its local part, what the store knows of the member, the time, and whether
-- the server takes the event.
pub record Publisher : Type 0 where
  pub me : Text
  pub localpart : Text
  pub member : Option (Text × Option Text)
  pub now : ℕ
  pub is_sent : Bool

member_name : Text → Option (Text × Option Text) → Text
member_name local none = local
member_name local (some (name, avatar)) = name

member_avatar : Option (Text × Option Text) → Option Text
member_avatar none = none
member_avatar (some (name, avatar)) = avatar

-- `theme.map(|t| t.trim().to_owned()).filter(|t| !t.is_empty())`.
theme_of : Option Text → Option Text
theme_of none = none
theme_of (some t) = if is_empty (trim t) then none else some (trim t)

-- The card that is published; its time is a u64.
unfoldable pub new_card : Publisher → Text → Bool → Option Text → Profile
unfolding member_name member_avatar theme_of trim
new_card who bio open_to_dm theme = record {
  user_id = who.me;
  name = member_name who.localpart who.member;
  avatar = member_avatar who.member;
  bio = take 280 (trim bio);
  open_to_dm = open_to_dm;
  theme = theme_of theme;
  updated = who.now % 2 ^ 64;
}

-- The result of a command, and the store after it.
pub data Published : Type 0 where
  published : Profile → Published
  withdrawn : Published
  refused_by : PublishError → Published

send_card : Publisher → Json → Published → CardStore → Published × CardStore
send_card who content done store =
    if who.is_sent then (done, put_state who.me content store) else (refused_by not_sent, store)

publish_in :
    Option PublishError
    → Option Publisher
    → Text
    → Bool
    → Option Text
    → CardStore
    → Published × CardStore
unfolding send_card
publish_in (some e) who bio open_to_dm theme store = (refused_by e, store)
publish_in none none bio open_to_dm theme store = (refused_by not_signed_in, store)
publish_in none (some who) bio open_to_dm theme store =
    let p = new_card who bio open_to_dm theme in send_card who (card_json p) (published p) store

-- `publish_profile`.
unfoldable pub publish_profile :
    Client → Text → Option Publisher → Text → Bool → Option Text → CardStore → Published × CardStore
unfolding publish_in joined_space
publish_profile c alias who bio open_to_dm theme store =
    publish_in (joined_space c alias) who bio open_to_dm theme store

clear_in : Option PublishError → Option Publisher → CardStore → Published × CardStore
unfolding send_card
clear_in (some e) who store = (refused_by e, store)
clear_in none none store = (refused_by not_signed_in, store)
clear_in none (some who) store = send_card who (obj end) withdrawn store

-- `clear_profile`: an empty content is how a state is cleared.
unfoldable pub clear_profile : Client → Text → Option Publisher → CardStore → Published × CardStore
unfolding clear_in joined_space
clear_profile c alias who store = clear_in (joined_space c alias) who store

-- `read_profile`.
unfoldable pub read_profile : CardStore → Text → Option Profile
unfolding profile_from
read_profile store user = store user >>= profile_from
