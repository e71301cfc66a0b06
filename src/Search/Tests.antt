-- ===== src/Search/Tests.antt =====
-- Concrete runs of the theorems on searches and members.
use omarchy_chatd.Search.Scan.{ScanEvent, got, SearchRoom}
use omarchy_chatd.Search.Find.{Searcher}
use omarchy_chatd.Search.Members.{ℤ, pos, negsuc, int, MemberInfo, RoomMember, member_info, members}
use omarchy_chatd.Messages.Events.{unrelated, RoomMessage}
use omarchy_chatd.Media.Attachment.{text}
use omarchy_chatd.Bridge.Names.{protocol_of_user}
use omarchy_chatd.Base.{
  ℕ, ◌≡◌, refl, true, false, none, some, List, [], ◌∷◌, map, Text, codes, text_eq, strip_prefix,
  to_ascii_lowercase,
}

abbrev said : Text → ℕ → Text → RoomMessage
said id ts body = record {
  event_id = id;
  sender = codes "a";
  ts = ts;
  msgtype = text body none;
  relates_to = unrelated;
}

abbrev two_said : List ScanEvent
two_said =
    record { message = some (said (codes "$2") 2 (codes "lunch?")); bundled = none }
    ∷ record { message = some (said (codes "$3") 3 (codes "x")); bundled = some (codes "Lunch!") }
    ∷ []

-- An encrypted room with two messages, one of which was edited, and a client that has joined it.
abbrev secret_room : SearchRoom
secret_room = record {
  id = codes "!s";
  name = codes "Secret";
  is_space = false;
  is_encrypted = true;
  sender_name = λ u. u;
  messages = λ _. got two_said none;
}

abbrev client_of_one : Searcher
client_of_one = record {
  to_lowercase = to_ascii_lowercase;
  joined_rooms = secret_room ∷ [];
  room_by_id = λ _. none;
  server_search = λ _ _. none;
}

abbrev member_with : Text → ℤ → RoomMember
member_with name power = record {
  user_id = name;
  localpart = name;
  name = name;
  avatar_url = none;
  power_level = int power;
}

abbrev three : List RoomMember
three =
    member_with (codes "bo") (pos 0)
    ∷ member_with (codes "al") (negsuc 0)
    ∷ member_with (codes "cy") (pos 100)
    ∷ []

first_is_admin :
    map (λ (i : MemberInfo). i.role) (members to_ascii_lowercase (λ c. c ∷ []) (codes "") 2 three)
    ≡ codes "admin" ∷ codes "member" ∷ []
unfolding members member_info text_eq protocol_of_user strip_prefix
first_is_admin = refl
