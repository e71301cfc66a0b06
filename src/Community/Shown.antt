-- ===== src/Community/Shown.antt =====
-- What is shown of the community is what the client knows (src/community.rs: `status`, `join_space`).
use omarchy_chatd.Community.Policy.{Prefs, Room, Client, get_room, space_id}
use omarchy_chatd.Community.Listing.{
  CommunityRoom, Summary, Cache, cached, forget, known_by, Outcome, ok, err, fetch, answer_by,
  hierarchy,
}
use omarchy_chatd.Community.Leaving.{CommunityState, is_joined, cached-forget}
use omarchy_chatd.Community.Status.{
  CommunityStatus, Sources, empty_status, found_status, is_in, mark_joined, with_listing, own_of,
  with_own, status_of, status,
}
use omarchy_chatd.Community.Spaces.{join_space}
use omarchy_chatd.Community.Publish.{read_profile}
use omarchy_chatd.Community.Cards.{Profile}
use omarchy_chatd.Base.{
  ℕ, ◌≡◌, refl, ap, ◌↔◌, ◌⊎◌, inl, inr, Bool, true, false, ◌&&◌, Option, none, some, List, [], ◌∷◌,
  map, arith, ◌==◌, if◌then◌else◌, and_elim, or_else, if_lem, All, Text, text_eq, text_eq_sound,
}

-- What a listing gives: nothing where it fails.
abbrev pub name_in : Outcome → Option Text
name_in (err why) = none
name_in (ok l) = l.name

abbrev pub topic_in : Outcome → Option Text
topic_in (err why) = none
topic_in (ok l) = l.topic

abbrev pub counted_in : Outcome → ℕ
counted_in (err why) = 0
counted_in (ok l) = l.member_count

abbrev pub rooms_in : Outcome → List CommunityRoom
rooms_in (err why) = []
rooms_in (ok l) = l.rooms

-- What a listed room shows beside its mark.
abbrev pub row : CommunityRoom → Text × Text × Option Text × ℕ
row r = (r.id, r.name, r.topic, r.members)

-- The mark of a room: that its id parses, and that the client knows it as joined.
abbrev pub IsMarked : Client → (Text → Bool) → CommunityRoom → Type 0
IsMarked c is_room_id r = (r.joined ≡ true) ↔ (
    (is_room_id r.id ≡ true)
    × ((room : Room) × (get_room c r.id ≡ some room) × (room.joined ≡ true)))

-- What only the store knows of a joined space, where a user is signed in.
abbrev pub own_name : Option Text → Bool → Sources → Option Text → Option Text
own_name none b src name = name
own_name (some me) false src name = name
own_name (some me) true src name = or_else name src.space_name

abbrev pub own_count : Option Text → Bool → Sources → ℕ → ℕ
own_count none b src n = n
own_count (some me) false src n = n
own_count (some me) true src n = if n == 0 then src.joined_members_count else n

abbrev pub own_card : Option Text → Bool → Sources → Option Profile
own_card none b src = none
own_card (some me) false src = none
own_card (some me) true src = read_profile src.cards me

-- The status of a space with an id and the outcome of its listing; `b`: whether it is joined.
pub record ShowsSpace (c : Client) (src : Sources) (id : Text) (me : Option Text) (b : Bool)
    (o : Outcome) (s : CommunityStatus) : Type 0 where
  pub there : s.exists ≡ true
  pub located : s.space_id ≡ some id
  pub space_joined : s.joined ≡ b
  pub rows : map row s.rooms ≡ map row (rooms_in o)
  pub marks : All (IsMarked c src.is_room_id) s.rooms
  pub topic_shown : s.topic ≡ topic_in o
  pub name_shown : s.name ≡ own_name me b src (name_in o)
  pub count_shown : s.member_count ≡ own_count me b src (counted_in o)
  pub card_shown : s.profile ≡ own_card me b src

is_in_iff :
    (c : Client) (is_room_id : Text → Bool) (id : Text)
    → (is_in c is_room_id id ≡ true) ↔ (
        (is_room_id id ≡ true)
        × ((room : Room) × (get_room c id ≡ some room) × (room.joined ≡ true)))
unfolding is_in
is_in_iff c is_room_id id = (forward (get_room c id) refl, backward)
  where
    forward :
        (o : Option Room)
        → get_room c id ≡ o
        → (is_room_id id && is_joined o) ≡ true
        → (is_room_id id ≡ true)
          × ((room : Room) × (get_room c id ≡ some room) × (room.joined ≡ true))
    forward none e h = absurd (joined_none (and_elim (is_room_id id) false h).1)
      where
        joined_none : false ≡ true → ⊥
        joined_none q = absurd (cc)
    forward (some room) e h =
        let (v, j) = and_elim (is_room_id id) room.joined h in (v, (room, e, j))

    backward :
        (is_room_id id ≡ true)
          × ((room : Room) × (get_room c id ≡ some room) × (room.joined ≡ true))
        → (is_room_id id && is_joined (get_room c id)) ≡ true
    backward (v, (room, e, j)) = rw (v, e, j) refl

marked :
    (c : Client) (is_room_id : Text → Bool) (rs : List CommunityRoom)
    → All (IsMarked c is_room_id) (map (mark_joined c is_room_id) rs)
marked c is_room_id [] = tt
marked c is_room_id (r ∷ rs) = (is_in_iff c is_room_id r.id, marked c is_room_id rs)

rows_kept :
    (c : Client) (is_room_id : Text → Bool) (rs : List CommunityRoom)
    → map row (map (mark_joined c is_room_id) rs) ≡ map row rs
rows_kept c is_room_id [] = refl
rows_kept c is_room_id (r ∷ rs) = ap (λ rest. row r ∷ rest) (rows_kept c is_room_id rs)

with_listing-ShowsSpace :
    (c : Client) (src : Sources) (id : Text) (b : Bool) (o : Outcome) (s : CommunityStatus)
    → ShowsSpace c src id none b (err []) s
    → ShowsSpace c src id none b o (with_listing c src.is_room_id o s)
unfolding with_listing
with_listing-ShowsSpace c src id b (err why) s h = record {
  there = h.there;
  located = h.located;
  space_joined = h.space_joined;
  rows = h.rows;
  marks = h.marks;
  topic_shown = h.topic_shown;
  name_shown = h.name_shown;
  count_shown = h.count_shown;
  card_shown = h.card_shown;
}
with_listing-ShowsSpace c src id b (ok l) s h = record {
  there = h.there;
  located = h.located;
  space_joined = h.space_joined;
  rows = rows_kept c src.is_room_id l.rooms;
  marks = marked c src.is_room_id l.rooms;
  topic_shown = refl;
  name_shown = refl;
  count_shown = refl;
  card_shown = h.card_shown;
}

own_of-ShowsSpace :
    (c : Client) (src : Sources) (id me : Text) (o : Outcome) (s : CommunityStatus)
    → ShowsSpace c src id none true o s
    → ShowsSpace c src id (some me) true o (own_of src me s)
unfolding own_of
own_of-ShowsSpace c src id me o s h = record {
  there = h.there;
  located = h.located;
  space_joined = h.space_joined;
  rows = h.rows;
  marks = h.marks;
  topic_shown = h.topic_shown;
  name_shown = ap (λ n. or_else n src.space_name) h.name_shown;
  count_shown = ap (λ n. if n == 0 then src.joined_members_count else n) h.count_shown;
  card_shown = refl;
}

with_own-ShowsSpace :
    (c : Client) (src : Sources) (id : Text) (me : Option Text) (b : Bool) (o : Outcome)
    (s : CommunityStatus)
    → ShowsSpace c src id none b o s
    → ShowsSpace c src id me b o (with_own src me s)
unfolding with_own own_of
with_own-ShowsSpace c src id none b o s h = h
with_own-ShowsSpace c src id (some me) true o s h =
    if_lem (ShowsSpace c src id (some me) true o) s.joined
      (λ e. own_of-ShowsSpace c src id me o s h) (λ e. absurd (cc))
with_own-ShowsSpace c src id (some me) false o s h =
    if_lem (ShowsSpace c src id (some me) false o) s.joined (λ e. absurd (cc))
      (λ e. record {
        there = h.there;
        located = h.located;
        space_joined = h.space_joined;
        rows = h.rows;
        marks = h.marks;
        topic_shown = h.topic_shown;
        name_shown = h.name_shown;
        count_shown = h.count_shown;
        card_shown = h.card_shown;
      })

found_status-ShowsSpace :
    (c : Client) (src : Sources) (alias : Text) (prefs : Prefs) (state : CommunityState) (id : Text)
    → ShowsSpace c src id none
        (is_joined (get_room c id))
        (err [])
        (found_status c alias prefs state id)
unfolding found_status empty_status
found_status-ShowsSpace c src alias prefs state id = record {
  there = refl;
  located = refl;
  space_joined = refl;
  rows = refl;
  marks = tt;
  topic_shown = refl;
  name_shown = refl;
  count_shown = refl;
  card_shown = refl;
}

-- Where the alias of a space resolves to an id, there is a status, whatever the outcome of the listing.
-- It shows the id; that the space is joined exactly if the client has it as joined; the listing's rooms
-- in order, each joined exactly if its id parses and the client has it as joined, and the listing's
-- name, topic and count of members, nothing of these if the listing fails; and, in a joined space of a
-- signed-in user, the user's card, with the store's name and count where the listing has none.
pub status-ShowsSpace :
    (c : Client) (src : Sources) (alias : Text) (prefs : Prefs) (state : CommunityState) (id : Text)
    → space_id c alias ≡ some (some id)
    → (s : CommunityStatus) × ((status c src alias prefs state).0 ≡ some s)
      × ShowsSpace c src id src.user_id
          (is_joined (get_room c id))
          (hierarchy src.now alias id src.answer state.hierarchy_cache).0
          s
unfolding status status_of
status-ShowsSpace c src alias prefs state id h =
    let o = (hierarchy src.now alias id src.answer state.hierarchy_cache).0 in
    let known = found_status c alias prefs state id in
    let b = is_joined (get_room c id) in
    (
      with_own src src.user_id (with_listing c src.is_room_id o known),
      rw h refl,
      with_own-ShowsSpace c src id src.user_id b o (with_listing c src.is_room_id o known) (
          with_listing-ShowsSpace c src id b o known
            (found_status-ShowsSpace c src alias prefs state id)),
    )

text_eq_differs :
    (k alias a : Text) → text_eq alias a ≡ false → text_eq k alias ≡ true → text_eq k a ≡ false
text_eq_differs k alias a h e = rw (text_eq_sound k alias e) h

cached-forget_kept :
    (alias a : Text) (cache : Cache)
    → text_eq alias a ≡ false
    → cached a (forget alias cache) ≡ cached a cache
cached-forget_kept alias a [] h = refl
cached-forget_kept alias a ((k, l) ∷ cache) h =
    ground (arith, cached-forget_kept alias a cache h, text_eq_differs k alias a h)

-- A listing that is not in the cache is asked for.
hierarchy_asked :
    (now : ℕ) (alias id : Text) (answer : (List Summary) ⊎ Text) (cache : Cache)
    → cached alias cache ≡ none
    → (hierarchy now alias id answer cache).1 ≡ true
unfolding hierarchy known_by answer_by fetch
hierarchy_asked now alias id (inl ss) cache h = rw h refl
hierarchy_asked now alias id (inr why) cache h = rw h refl

-- After a join, the next status of that space asks the server anew, and of another it does as before.
join_space-hierarchy :
    (c : Client) (alias id : Text) (state : CommunityState)
    → c.is_alias alias ≡ true
    → let joined = join_space c alias (some id) state in
      (joined.0 ≡ inr id)
      × ((now : ℕ) (answer : (List Summary) ⊎ Text)
          → (hierarchy now alias id answer joined.1.hierarchy_cache).1 ≡ true)
      × ((a : Text)
          → text_eq alias a ≡ false
          → cached a joined.1.hierarchy_cache ≡ cached a state.hierarchy_cache)
unfolding join_space
join_space-hierarchy c alias id state h = rw h (
  refl,
  λ now answer.
      hierarchy_asked now alias id answer (forget alias state.hierarchy_cache)
        (cached-forget alias state.hierarchy_cache),
  λ a e. cached-forget_kept alias a state.hierarchy_cache e,
)
