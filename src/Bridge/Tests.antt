-- ===== src/Bridge/Tests.antt =====
-- Concrete runs of the theorems on bridges.
use omarchy_chatd.Bridge.Names.{prefixes, display_name, plain_local, protocol_of_user}
use omarchy_chatd.Bridge.Detect.{Member, Room, guessed, detect}
use omarchy_chatd.Bridge.Puppets.{Names, protocol_of_user_iff}
use omarchy_chatd.Bridge.Members.{first_protocol, last_bot, detect_by_members}
use omarchy_chatd.Base.{
  ℕ, ◌-◌, ◌≡◌, refl, ◌↔◌, ◌&&◌, none, some, List, [], ◌∷◌, arith, leb, if◌then◌else◌, Text, codes,
  text_eq, strip_prefix, starts_with,
}

abbrev some_upper : ℕ → Text
some_upper c = (if leb b'a' c && leb c b'z' then c - 32 else c) ∷ []

-- A puppet of Discord, a bot of WhatsApp, and a person.
abbrev three_members : List Member
three_members =
    record { user_id = codes "@bob:x"; local = codes "bob" }
    ∷ record { user_id = codes "@_discord_1:x"; local = codes "_discord_1" }
    ∷ record { user_id = codes "@whatsappbot:x"; local = codes "whatsappbot" }
    ∷ []

abbrev stateless : Room
stateless = record {
  to_uppercase = some_upper;
  parse_user = λ s. some s;
  state_events = λ _. none;
  joined_members = 3;
  members = some three_members;
}

protocol_of_user_iff_example :
    (protocol_of_user (codes "_Discord_12") ≡ some (codes "discord"))
    ↔ Names prefixes (codes "discord") (plain_local (codes "_Discord_12"))
protocol_of_user_iff_example = protocol_of_user_iff (codes "_Discord_12") (codes "discord")

display_name_other : display_name some_upper (codes "matterbridge") ≡ codes "Matterbridge"
unfolding display_name text_eq
display_name_other = refl

slacker_is_none : protocol_of_user (codes "slacker") ≡ none
unfolding protocol_of_user strip_prefix text_eq starts_with
slacker_is_none = refl

detect_by_members_example :
    detect stateless ≡ guessed stateless (first_protocol three_members, last_bot three_members)
detect_by_members_example = detect_by_members stateless three_members refl refl (omega arith) refl
