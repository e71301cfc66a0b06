-- ===== src/Community/Tests.antt =====
-- Concrete runs of the community's theorems.
use omarchy_chatd.Base.{
  ℕ, ◌≡◌, refl, ◌≢◌, ◌↔◌, ◌⊎◌, inl, inr, true, false, ◌&&◌, none, some, List, [], ◌∷◌, arith, ltb,
  if◌then◌else◌, map, Text, codes, text_eq, is_empty,
}
use omarchy_chatd.Json.{Json, str, obj, end, field, get}
use omarchy_chatd.Community.Policy.{
  DmPolicy, anyone, community, nobody, Prefs, join, invite, Room, not_found, Client, is_text,
  space_id, invite_allowed,
}
use omarchy_chatd.Community.Allowed.{IsContact, IsSpaceMember, invite_allowed_iff}
use omarchy_chatd.Community.Invites.{
  Invited, invite_info, MemberEvent, leave_room, parsed, on_stripped_member, IsRefused,
  on_stripped_member_declines,
}
use omarchy_chatd.Community.Listing.{Summary, cached, known_by, err, hierarchy, hierarchy_reused}
use omarchy_chatd.Community.Cards.{Profile, profile_from, IsCard, profile_from-IsCard}
use omarchy_chatd.Community.Joining
use omarchy_chatd.Community.Leaving

-- The space, which bob is in, and a direct chat with cat.
abbrev space : Room
space = record {
  room_id = codes "!s";
  canonical_alias = some (codes "#om:x");
  alt_aliases = [];
  direct_targets = [];
  heroes = [];
  joined = true;
  get_member = λ u. if text_eq u (codes "@bob:x") then some join else none;
}

abbrev chat : Room
chat = record {
  room_id = codes "!c";
  canonical_alias = none;
  alt_aliases = [];
  direct_targets = codes "@cat:x" ∷ [];
  heroes = [];
  joined = true;
  get_member = λ _. none;
}

abbrev pub ours : Client
ours = record { rooms = space ∷ chat ∷ []; is_alias = λ _. true; resolve = λ _. not_found }

abbrev pub by_policy : DmPolicy → Prefs
by_policy p = record { dm_policy = p; community_alias = codes "#om:x" }

invite_allowed_iff_example :
    (invite_allowed ours (by_policy community) (codes "@bob:x") true ≡ true) ↔ (
      (true ≡ false)
      ⊎ ((community ≡ anyone)
          ⊎ (((community ≢ nobody) × IsContact ours (codes "@bob:x"))
              ⊎ ((community ≡ community)
                  × (is_empty (codes "#om:x") ≡ false)
                  × IsSpaceMember ours (codes "#om:x") (codes "@bob:x")))))
invite_allowed_iff_example = invite_allowed_iff ours (by_policy community) (codes "@bob:x") true

abbrev from_bob : Invited
from_bob = record {
  room_id = codes "!b";
  display_name = some (codes "Bob");
  invite_details = some (some (codes "@bob:x", codes "Bob"));
  is_direct = some true;
  is_invited = true;
}

abbrev our_invite : MemberEvent
our_invite = record { membership = invite; state_key = codes "@me:x" }

on_stripped_member_declines_example :
    (on_stripped_member ours
        (by_policy nobody)
        (some (codes "@me:x"))
        (λ _. true)
        our_invite
        from_bob
      ≡ leave_room (invite_info from_bob).room ∷ [])
    ↔ ((is_text (codes "@me:x") (some (codes "@me:x")) && true) ≡ true)
      × IsRefused ours
          (by_policy nobody)
          (invite_info from_bob)
          (parsed (λ _. true) (invite_info from_bob).inviter)
on_stripped_member_declines_example =
    on_stripped_member_declines ours (by_policy nobody) (some (codes "@me:x")) (λ _. true)
      our_invite from_bob

-- A server that limits the second attempt and grants the third.
abbrev busy : ℕ → Joining.Answer
busy n = if ltb n 3 then Joining.limited (Joining.delay 10) else Joining.joined

abbrev idle : Joining.Joiner
idle = record { joining = 0; landed = []; announced = 0 }

abbrev two_rooms : List Text
two_rooms = codes "!1" ∷ codes "!2" ∷ []

-- The server lists a room that we are in and two that we are not.
abbrev summary : Text → Summary
summary id = record { room_id = id; name = none; topic = none; num_joined_members = 2 }

abbrev three_listed : (List Summary) ⊎ Text
three_listed = inl (map summary (codes "!1" ∷ codes "!c" ∷ codes "!2" ∷ []))

hierarchy_reused_example :
    hierarchy 130 (codes "#om:x") (codes "!s") (inl []) (
      (
        codes "#om:x",
        record {
          fetched = 100;
          failure = some (codes "no");
          name = none;
          topic = none;
          member_count = 0;
          rooms = [];
        },
      )
      ∷ [])
    ≡ (
      err (codes "no (not asked again for a minute)"),
      false,
      (
        codes "#om:x",
        record {
          fetched = 100;
          failure = some (codes "no");
          name = none;
          topic = none;
          member_count = 0;
          rooms = [];
        },
      )
          ∷ [],
    )
hierarchy_reused_example =
    hierarchy_reused 100 130 (codes "#om:x") (codes "!s") (inr (codes "no")) (inl []) []
      (err (codes "no")) _ (unfold hierarchy known_by in refl) (omega arith)

abbrev leaving : Leaving.Answers
leaving = record {
  joined_members_count = 2;
  children = codes "!c" ∷ codes "!d" ∷ [];
  is_left = true;
}

abbrev settled : Leaving.CommunityState
settled = record { hierarchy_cache = []; joining = 3; joiner = true }

leave_lem_example :
    let (result, s') = Leaving.leave ours leaving (codes "#om:x") settled in
    (s'.joiner ≡ false)
    × (s'.joining ≡ 0)
    × (cached (codes "#om:x") s'.hierarchy_cache ≡ none)
    × Leaving.Asks ours leaving (space_id ours (codes "#om:x")) result.1
leave_lem_example = Leaving.leave_lem ours leaving (codes "#om:x") settled

-- A card that gives itself another's id.
abbrev posed : Json
posed = obj (
    field (codes "state_key") (str (codes "@eve:x")) (
      field (codes "content")
        (obj (
          field (codes "user_id") (str (codes "@ann:x"))
            (field (codes "name") (str (codes "Ann")) end)))
        end))

abbrev posed_card : Profile
posed_card = record {
  user_id = codes "@eve:x";
  name = codes "Ann";
  avatar = none;
  bio = [];
  open_to_dm = false;
  theme = none;
  updated = 0;
}

profile_from-IsCard_example : IsCard (some (codes "@eve:x")) posed_card
unfolding get text_eq profile_from
profile_from-IsCard_example = profile_from-IsCard posed posed_card refl
