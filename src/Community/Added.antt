-- ===== src/Community/Added.antt =====
-- A room that is listed under the space is a child of it (src/community.rs: `add_child`, `children`).
use omarchy_chatd.Community.Policy.{Room, Client, get_room}
use omarchy_chatd.Community.Cards.{child_of, filter_map, children}
use omarchy_chatd.Community.Publish.{state_event}
use omarchy_chatd.Community.Spaces.{SpaceError, child_json, Sent, add_known, add_between, add_child}
use omarchy_chatd.Json.{Json, get}
use omarchy_chatd.Base.{
  ◌≡◌, refl, Bool, true, false, Option, none, some, List, ◌∷◌, if_lem, Text, text_eq,
}

-- An event that `add_child` sends is that of a child.
child_of-child_json :
    (is_room_id : Text → Bool) (room server : Text) (suggested : Bool)
    → is_room_id room ≡ true
    → child_of is_room_id (state_event room (child_json server suggested)) ≡ some room
unfolding child_of get state_event child_json text_eq
child_of-child_json is_room_id room server true h = rw h refl
child_of-child_json is_room_id room server false h = rw h refl

-- The first event that is sent makes the room a child of the space.
pub record IsListed (is_room_id : Text → Bool) (space room : Text) (evs : List Json)
    (sent : List Sent) : Type 0 where
  pub content : Json
  pub back : List Sent
  pub first : sent ≡ record { to_room = space; state_key = room; content = content } ∷ back
  pub listed : children is_room_id (state_event room content ∷ evs) ≡ room ∷ children is_room_id evs

filter_map-some :
    {A B : Type 0} (f : A → Option B) (a : A) (b : B) (xs : List A)
    → f a ≡ some b
    → filter_map f (a ∷ xs) ≡ b ∷ filter_map f xs
filter_map-some f a b xs h = rw (h, filter_map) refl

sent_child :
    (is_room_id : Text → Bool) (space room server : Text) (suggested : Bool) (evs : List Json)
    (back : List Sent)
    → is_room_id room ≡ true
    → IsListed is_room_id space room evs
        (record { to_room = space; state_key = room; content = child_json server suggested } ∷ back)
unfolding children
sent_child is_room_id space room server suggested evs back h = record {
  content = child_json server suggested;
  back = back;
  first = refl;
  listed =
      filter_map-some (child_of is_room_id) _ room evs
        (child_of-child_json is_room_id room server suggested h);
}

some_refused : {A : Type 0} {e : SpaceError} → some e ≡ none → A
some_refused h = absurd (cc)

-- What is sent once both rooms are known.
add_known-IsListed :
    (is_sent : Sent → Bool) (is_room_id : Text → Bool) (space room : Text) (suggested : Bool)
    (server : Option Text) (evs : List Json)
    → is_room_id room ≡ true
    → (add_known is_sent space room suggested server).0 ≡ none
    → IsListed is_room_id space room evs (add_known is_sent space room suggested server).1
unfolding add_known
add_known-IsListed is_sent is_room_id space room suggested none evs h e = absurd (cc)
add_known-IsListed is_sent is_room_id space room suggested (some server) evs h e =
    if_lem
      (λ (r : Option SpaceError × List Sent). r.0 ≡ none → IsListed is_room_id space room evs r.1)
      (is_sent _) (λ _ _. sent_child is_room_id space room server suggested evs _ h)
      (λ _. some_refused) e

add_between-IsListed :
    (r s : Option Room) (is_sent : Sent → Bool) (is_room_id : Text → Bool) (space room : Text)
    (suggested : Bool) (server : Option Text) (evs : List Json)
    → is_room_id room ≡ true
    → (add_between r s is_sent space room suggested server).0 ≡ none
    → IsListed is_room_id space room evs (add_between r s is_sent space room suggested server).1
unfolding add_between
add_between-IsListed none s is_sent is_room_id space room suggested server evs h e = absurd (cc)
add_between-IsListed (some _) none is_sent is_room_id space room suggested server evs h e =
    absurd (cc)
add_between-IsListed (some _) (some _) is_sent is_room_id space room suggested server evs h e =
    add_known-IsListed is_sent is_room_id space room suggested server evs h e

-- A room that has been added without an error is a child of the space, whichever children it has.
add_child-IsListed :
    (c : Client) (server_name : Text → Option Text) (is_sent : Sent → Bool)
    (is_room_id : Text → Bool) (space room : Text) (suggested : Bool) (evs : List Json)
    → is_room_id room ≡ true
    → (add_child c server_name is_sent space room suggested).0 ≡ none
    → IsListed is_room_id space room evs (add_child c server_name is_sent space room suggested).1
unfolding add_child
add_child-IsListed c server_name is_sent is_room_id space room suggested evs h e =
    add_between-IsListed (get_room c space) (get_room c room) is_sent is_room_id space room
      suggested (server_name space) evs h e
