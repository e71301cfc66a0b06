-- ===== src/Community/StatusTests.antt =====
-- Concrete runs of the theorems on the status and on one's card.
use omarchy_chatd.Community.Policy.{community, contacts, nobody, space_id}
use omarchy_chatd.Community.Preferences.{
  default_prefs, missing, load_prefs, Write, not_opened, cut_short, written, Kept, changed,
  set_dm_policy, restart, set_dm_policy-restart,
}
use omarchy_chatd.Community.Leaving.{CommunityState}
use omarchy_chatd.Community.Cards.{cut_card}
use omarchy_chatd.Community.Publish.{
  joined_space, CardStore, Publisher, new_card, published, publish_profile, clear_profile,
  read_profile,
}
use omarchy_chatd.Community.Status.{CommunityStatus, Sources, status}
use omarchy_chatd.Community.Published.{publish-read}
use omarchy_chatd.Community.Shown.{ShowsSpace, status-ShowsSpace}
use omarchy_chatd.Community.Listing.{hierarchy}
use omarchy_chatd.Community.Tests.{ours, by_policy}
use omarchy_chatd.Base.{◌≡◌, refl, inr, true, false, none, some, [], ◌∷◌, Text, codes, text_eq}

abbrev ann : Publisher
ann = record {
  me = codes "@ann:x";
  localpart = codes "ann";
  member = some (codes "Ann", none);
  now = 7;
  is_sent = true;
}

abbrev no_cards : CardStore
no_cards _ = none

publish-read_example :
    (after : CardStore) × (publish_profile ours
        (codes "#om:x")
        (some ann)
        (codes " hi ")
        true
        none
        no_cards
      ≡ (published (new_card ann (codes " hi ") true none), after))
    × (read_profile after (codes "@ann:x")
        ≡ some (cut_card (some (codes "@ann:x")) (new_card ann (codes " hi ") true none)))
    × ((u : Text)
        → text_eq (codes "@ann:x") u ≡ false
        → read_profile after u ≡ read_profile no_cards u)
    × (read_profile (clear_profile ours (codes "#om:x") (some ann) after).1 (codes "@ann:x") ≡ none)
publish-read_example =
    publish-read ours (codes "#om:x") ann (codes " hi ") true none no_cards
      (unfold joined_space space_id text_eq in refl) refl

abbrev sources : Sources
sources = record {
  now = 400;
  answer = inr (codes "no");
  user_id = some (codes "@ann:x");
  cards = no_cards;
  space_name = some (codes "Omarchy");
  joined_members_count = 5;
  is_room_id = λ _. true;
}

abbrev stale : CommunityState
stale = record {
  hierarchy_cache =
      (
        codes "#om:x",
        record {
          fetched = 10;
          failure = none;
          name = none;
          topic = none;
          member_count = 0;
          rooms = [];
        },
      )
      ∷ [];
  joining = 0;
  joiner = false;
}

status-ShowsSpace_example :
    (s : CommunityStatus) × ((status ours sources (codes "#om:x") (by_policy community) stale).0
      ≡ some s)
    × ShowsSpace ours sources
        (codes "!s")
        (some (codes "@ann:x"))
        true
        (hierarchy 400 (codes "#om:x") (codes "!s") (inr (codes "no")) stale.hierarchy_cache).0
        s
unfolding text_eq
status-ShowsSpace_example =
    status-ShowsSpace ours sources (codes "#om:x") (by_policy community) stale (codes "!s")
      (unfold space_id text_eq in refl)

-- The policy is `nobody` when it is changed.
abbrev closed : Kept
closed = record {
  prefs = record { dm_policy = nobody; community_alias = codes "#om:x" };
  file = missing;
}

set_dm_policy-restart_example :
    let p = changed contacts [] closed.prefs in
    ((set_dm_policy written contacts [] closed).0 ≡ true)
    × ((restart (set_dm_policy written contacts [] closed).1).prefs ≡ p)
    × ((w : Write) → (set_dm_policy w contacts [] closed).1.prefs ≡ p)
    × ((restart (set_dm_policy not_opened contacts [] closed).1).prefs ≡ load_prefs missing)
    × ((restart (set_dm_policy cut_short contacts [] closed).1).prefs ≡ default_prefs)
set_dm_policy-restart_example = set_dm_policy-restart contacts [] closed
