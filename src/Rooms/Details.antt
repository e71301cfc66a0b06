-- ===== src/Rooms/Details.antt =====
-- The details of a room (src/core.rs: `room_details`; src/protocol.rs: `RoomDetails`).
use omarchy_chatd.Rooms.Info.{Facts, room_info}
use omarchy_chatd.Rooms.Activity.{Activity}
use omarchy_chatd.Rooms.Sending.{SendError}
use omarchy_chatd.Bridge.Detect.{BridgeInfo, detect}
use omarchy_chatd.Base.{
  ℕ, ◌≡◌, refl, ◌⊎◌, inl, inr, Bool, false, Option, none, some, unwrap_or, Text, codes,
}

-- What a member may do in the room.
pub record Rights : Type 0 where
  pub can_invite : Bool
  pub can_kick : Bool
  pub can_ban : Bool
  pub can_set_name : Bool
  pub can_set_topic : Bool
  pub can_redact_other : Bool

abbrev pub no_rights : Rights
no_rights = record {
  can_invite = false;
  can_kick = false;
  can_ban = false;
  can_set_name = false;
  can_set_topic = false;
  can_redact_other = false;
}

-- `JoinRuleKind`.
pub data JoinRuleKind : Type 0 where
  public invite knock private restricted knock_restricted : JoinRuleKind

-- `RoomDetails`, with the rights in a record of their own.
pub record RoomDetails : Type 0 where
  pub id : Text
  pub name : Text
  pub topic : Option Text
  pub avatar : Option Text
  pub alias : Option Text
  pub encrypted : Bool
  pub direct : Bool
  pub notification_mode : Text
  pub notification_custom : Bool
  pub bridge : Option BridgeInfo
  pub join_rule : Text
  pub member_count : ℕ
  pub rights : Rights

-- What the SDK gives beside the facts of the list: the user, the user's member in the store if it can be
-- read, the alias, the join rule and the count of members.
pub record More : Type 0 where
  pub me : Option Text
  pub own : Option Rights
  pub canonical_alias : Option Text
  pub join_rule : Option JoinRuleKind
  pub joined_members_count : ℕ

unfoldable pub join_rule_name : Option JoinRuleKind → Text
join_rule_name (some public) = codes "public"
join_rule_name (some JoinRuleKind.invite) = codes "invite"
join_rule_name (some knock) = codes "knock"
join_rule_name (some restricted) = codes "restricted"
join_rule_name (some knock_restricted) = codes "restricted"
join_rule_name (some private) = codes "other"
join_rule_name none = codes "other"

unfoldable pub details_of : (Text → Bool → Bool → Text × Bool) → Facts → More → RoomDetails
unfolding join_rule_name detect
details_of notification_mode room more =
    let encrypted = unwrap_or false room.encryption in
    let direct = unwrap_or false room.is_direct in
    let (mode, custom) = notification_mode room.room_id encrypted direct in
    record {
      id = room.room_id;
      name = unwrap_or room.room_id room.display_name;
      topic = room.topic;
      avatar = room.avatar_url;
      alias = more.canonical_alias;
      encrypted = encrypted;
      direct = direct;
      notification_mode = mode;
      notification_custom = custom;
      bridge = detect room.bridged;
      join_rule = join_rule_name more.join_rule;
      member_count = more.joined_members_count;
      rights = unwrap_or no_rights more.own;
    }

-- `room_details`; `inl none` is that there is no user id.
unfoldable pub room_details :
    Option SendError
    → (Text → Bool → Bool → Text × Bool)
    → Facts
    → More
    → (Option SendError) ⊎ RoomDetails
unfolding details_of
room_details (some e) notification_mode room more = inl (some e)
room_details none notification_mode room more = elim more.me [
  | none ↦ inl none
  | some _ ↦ inr (details_of notification_mode room more)
]

-- The details of a room agree with its entry in the list: the same name, topic, avatar, bridge and mode,
-- and the same of encryption and of being direct.
details_of-room_info :
    (me : Option Text) (notification_mode : Text → Bool → Bool → Text × Bool) (room : Facts)
    (more : More) (activity : Activity)
    → let d = details_of notification_mode room more in
      let i = (room_info me notification_mode room activity).0 in
      (d.id ≡ i.id)
      × (d.name ≡ i.name)
      × (d.topic ≡ i.topic)
      × (d.avatar ≡ i.avatar)
      × (d.bridge ≡ i.bridge)
      × (d.encrypted ≡ i.encrypted)
      × (d.direct ≡ i.direct)
      × (d.notification_mode ≡ i.notification_mode)
unfolding details_of room_info
details_of-room_info me notification_mode room more activity =
    (refl, refl, refl, refl, refl, refl, refl, refl)
