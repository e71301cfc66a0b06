-- ===== src/Community/Published.antt =====
-- A published card is read back, and a withdrawn one is gone (src/community.rs: `publish_profile`,
-- `clear_profile`, `read_profile`, `profile_from`).

use omarchy_chatd.Community.Cards.{Profile, read_card, cut_card, profile_from}
use omarchy_chatd.Community.Publish.{
  joined_space, card_json, state_event, CardStore, put_state, Publisher, new_card, published,
  publish_profile, clear_profile, read_profile,
}
use omarchy_chatd.Json.{Json, obj, end, get, no_fields}
use omarchy_chatd.Community.Policy.{Client}
use omarchy_chatd.Base.{
  ◌^◌, ◌≡◌, refl, ◌∙◌, Bool, true, false, Option, none, some, arith, ltb, lt→ltb, Text, text_eq,
  text_eq_refl,
}

-- A card survives its JSON.
read-card_json : (p : Profile) → ltb p.updated (2 ^ 64) ≡ true → read_card (card_json p) ≡ some p
unfolding read_card card_json get text_eq
read-card_json p h = by_fields p.avatar p.theme refl refl
  where
    by_fields :
        (avatar theme : Option Text)
        → p.avatar ≡ avatar
        → p.theme ≡ theme
        → read_card (card_json p) ≡ some p
    by_fields none none a t = rw (a, t, h) refl
    by_fields none (some s) a t = rw (a, t, h) refl
    by_fields (some r) none a t = rw (a, t, h) refl
    by_fields (some r) (some s) a t = rw (a, t, h) refl

fields_of_card : (p : Profile) → no_fields (card_json p) ≡ false
unfolding card_json
fields_of_card p = refl

-- What is read from the event of a card.
profile_from-state_event :
    (key : Text) (p : Profile)
    → ltb p.updated (2 ^ 64) ≡ true
    → profile_from (state_event key (card_json p)) ≡ some (cut_card (some key) p)
unfolding profile_from state_event get text_eq
profile_from-state_event key p h = rw (fields_of_card p, read-card_json p h) refl

-- What is read once an event of one's own has been sent.
read-put_state :
    (me : Text) (content : Json) (store : CardStore)
    → read_profile (put_state me content store) me ≡ profile_from (state_event me content)
unfolding read_profile put_state
read-put_state me content store = rw (text_eq_refl me) refl

-- The card of another user stays what it was.
read-put_state_other :
    (me u : Text) (content : Json) (store : CardStore)
    → text_eq me u ≡ false
    → read_profile (put_state me content store) u ≡ read_profile store u
unfolding read_profile put_state
read-put_state_other me u content store h = rw h refl

-- An empty content is no card.
profile_from-empty : (key : Text) → profile_from (state_event key (obj end)) ≡ none
unfolding profile_from state_event get text_eq
profile_from-empty key = refl

new_card_time :
    (who : Publisher) (bio : Text) (open_to_dm : Bool) (theme : Option Text)
    → ltb (new_card who bio open_to_dm theme).updated (2 ^ 64) ≡ true
unfolding new_card
new_card_time who bio open_to_dm theme = lt→ltb _ (2 ^ 64) (omega arith)

-- A card that is withdrawn is gone.
clear-read :
    (c : Client) (alias : Text) (who : Publisher) (store : CardStore)
    → joined_space c alias ≡ none
    → who.is_sent ≡ true
    → read_profile (clear_profile c alias (some who) store).1 who.me ≡ none
unfolding clear_profile
clear-read c alias who store hj hs =
    rw (hj, hs) (read-put_state who.me (obj end) store ∙ profile_from-empty who.me)

-- Where the space is joined and the server takes the events, a card that is published is the one that
-- is read back, cut to what its reader allows and under its publisher's id; the other users' cards
-- stay what they were, and once the card is withdrawn none is read.
pub publish-read :
    (c : Client) (alias : Text) (who : Publisher) (bio : Text) (open_to_dm : Bool)
    (theme : Option Text) (store : CardStore)
    → joined_space c alias ≡ none
    → who.is_sent ≡ true
    → (after : CardStore) × (publish_profile c alias (some who) bio open_to_dm theme store
        ≡ (published (new_card who bio open_to_dm theme), after))
      × (read_profile after who.me
          ≡ some (cut_card (some who.me) (new_card who bio open_to_dm theme)))
      × ((u : Text) → text_eq who.me u ≡ false → read_profile after u ≡ read_profile store u)
      × (read_profile (clear_profile c alias (some who) after).1 who.me ≡ none)
unfolding publish_profile
publish-read c alias who bio open_to_dm theme store hj hs =
    let p = new_card who bio open_to_dm theme in
    let after = put_state who.me (card_json p) store in
    (
      after,
      rw (hj, hs) refl,
      read-put_state who.me (card_json p) store
          ∙ (profile_from-state_event who.me p (new_card_time who bio open_to_dm theme)),
      λ u h. read-put_state_other who.me u (card_json p) store h,
      clear-read c alias who after hj hs,
    )
