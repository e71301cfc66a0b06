-- ===== src/Bridge/Detect.antt =====
-- What a room is bridged to (src/bridge.rs: `BridgeInfo`, `detect`).
use omarchy_chatd.Bridge.Names.{display_name, protocol_of_user, is_bridge_bot}
use omarchy_chatd.Json.{Json, get, as_str, no_fields, ◌>>=◌}
use omarchy_chatd.Base.{
  ℕ, Option, none, some, List, [], ◌∷◌, ltb, if◌then◌else◌, or_else, unwrap_or, take, Text, codes,
  to_ascii_lowercase, before_first, after_last,
}

-- `BridgeInfo`.
pub record BridgeInfo : Type 0 where
  pub protocol : Text
  pub name : Text
  pub bridge : Option Text
  pub bot : Option Text
  pub channel : Option Text

-- A joined member: the id and its local part.
pub record Member : Type 0 where
  pub user_id : Text
  pub local : Text

-- What an event of the room's state says: nothing, or the end of the detection with its result.
pub data Verdict : Type 0 where
  skips : Verdict
  settles : Option BridgeInfo → Verdict

abbrev pub or_verdict : Verdict → Verdict → Verdict
or_verdict skips v = v
or_verdict (settles r) v = settles r

-- `cap`.
abbrev pub cap_text : Text → Text
cap_text s = take 128 s

-- `.filter(|k| !k.is_empty())`.
abbrev pub non_empty : Text → Option Text
non_empty [] = none
non_empty (c ∷ s) = some (c ∷ s)

-- The language's table of upper case, the SDK's parsing of a user id (to its local part), and what
-- the store answers: the state events of a kind, each as JSON where it parses, the count of joined
-- members, and the members.
pub record Room : Type 0 where
  pub to_uppercase : ℕ → Text
  pub parse_user : Text → Option Text
  pub state_events : Text → Option (List (Option Json))
  pub joined_members : ℕ
  pub members : Option (List Member)

-- The protocol that the content of a state event names, or that its bot's name does.
unfoldable pub protocol_id : (Text → Option Text) → Json → Option Text
unfolding get
protocol_id parse_user content =
    or_else
      (get (codes "protocol") content >>= get (codes "id") >>= as_str >>= λ s.
        some (to_ascii_lowercase s))
      (get (codes "bridgebot") content >>= as_str >>= parse_user >>= protocol_of_user)

unfoldable pub text_at : Text → Json → Option Text
unfolding get
text_at k content =
    get k content
    >>= (λ v. or_else (get (codes "displayname") v) (get (codes "id") v))
    >>= as_str
    >>= λ s. some (cap_text s)

-- The software's name, from the key of the event.
unfoldable pub software_of : Json → Option Text
unfolding get before_first after_last
software_of raw = get (codes "state_key") raw >>= as_str >>= λ k.
    non_empty (after_last b'.' (before_first (codes "://") k))

unfoldable pub info_of : Room → Json → Json → Text → BridgeInfo
unfolding get
info_of room raw content id = record {
  protocol = id;
  name = unwrap_or (display_name room.to_uppercase id) (
      get (codes "protocol") content >>= get (codes "displayname") >>= as_str >>= λ s.
      some (cap_text s));
  bridge = software_of raw;
  bot = get (codes "bridgebot") content >>= as_str >>= λ s. some (cap_text s);
  channel = text_at (codes "channel") content;
}

-- An event with a content; an emptied one says that the bridge was removed.
unfoldable pub judge_content : Room → Json → Json → Verdict
judge_content room raw content =
    if no_fields content
    then skips
    else settles (protocol_id room.parse_user content >>= λ id. some (info_of room raw content id))

-- `raw.get("content")?`: an event without a content ends the detection.
unfoldable pub judge_raw : Room → Json → Option Json → Verdict
judge_raw room raw none = settles none
judge_raw room raw (some content) = judge_content room raw content

unfoldable pub judge_event : Room → Option Json → Verdict
unfolding judge_raw judge_content info_of
judge_event room none = skips
judge_event room (some raw) = judge_raw room raw (get (codes "content") raw)

abbrev pub judge_events : Room → List (Option Json) → Verdict
judge_events room [] = skips
judge_events room (ev ∷ evs) = or_verdict (judge_event room ev) (judge_events room evs)

abbrev pub judge_kind : Room → Option (List (Option Json)) → Verdict
judge_kind room none = skips
judge_kind room (some evs) = judge_events room evs

-- The protocol of the first member that has one, and the last bot.
abbrev pub Seen : Type 0
Seen = Option Text × Option Text

unfoldable pub see_user : Member → Option Text → Seen → Seen
see_user m none seen = seen
see_user m (some p) (protocol, bot) =
    (or_else protocol (some p), if is_bridge_bot m.local then some m.user_id else bot)

unfoldable pub look_at : List Member → Seen → Seen
unfolding see_user
look_at [] seen = seen
look_at (m ∷ ms) seen = look_at ms (see_user m (protocol_of_user m.local) seen)

abbrev pub guessed : Room → Seen → Option BridgeInfo
guessed room (protocol, bot) = protocol >>= λ p. some (record {
  protocol = p;
  name = display_name room.to_uppercase p;
  bridge = none;
  bot = bot;
  channel = none;
})

unfoldable pub look_members : Room → Option (List Member) → Option BridgeInfo
unfolding look_at
look_members room none = none
look_members room (some ms) = guessed room (look_at ms (none, none))

-- No state: the members of a room of at most 64.
unfoldable pub by_members : Room → Option BridgeInfo
unfolding look_members
by_members room = if ltb 64 room.joined_members then none else look_members room room.members

abbrev pub conclude_with : Verdict → Option BridgeInfo → Option BridgeInfo
conclude_with skips r = r
conclude_with (settles r) _ = r

-- `detect`.
unfoldable pub detect : Room → Option BridgeInfo
unfolding by_members judge_event
detect room =
    let first = judge_kind room (room.state_events (codes "m.bridge")) in
    let second = judge_kind room (room.state_events (codes "uk.half-shot.bridge")) in
    conclude_with (or_verdict first second) (by_members room)
