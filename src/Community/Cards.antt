-- ===== src/Community/Cards.antt =====
-- The cards of the members (src/community.rs: `Profile`, `profile_from`, `people`, `children`).
use mathlib.Core.Path.{subst}
use omarchy_chatd.Base.{
  ℕ, ◌^◌, ◌≤◌, min, max, ◌≡◌, refl, inl, inr, Bool, true, false, ◌||◌, Option, none, some, List, [],
  ◌∷◌, map, arith, ltb, leb, if◌then◌else◌, le→leb, Bool-cases, length, take, keep, length-take,
  Text, codes, is_empty, contains, trim,
}
use omarchy_chatd.Json.{Json, null, bool, num, str, get, as_str, no_fields, no_items, ◌>>=◌}

-- `Profile`.
pub record Profile : Type 0 where
  pub user_id : Text
  pub name : Text
  pub avatar : Option Text
  pub bio : Text
  pub open_to_dm : Bool
  pub theme : Option Text
  pub updated : ℕ

-- A field of the card as serde reads it: `none` where it is of another type, and where it is missing
-- if it must be there.
abbrev required : Option Json → Option Text
required none = none
required (some v) = as_str v

abbrev optional : Option Json → Option (Option Text)
optional none = some none
optional (some null) = some none
optional (some (str s)) = some (some s)
optional (some _) = none

abbrev text_or : Text → Option Json → Option Text
text_or t none = some t
text_or t (some v) = as_str v

abbrev bool_or : Bool → Option Json → Option Bool
bool_or b none = some b
bool_or b (some (bool c)) = some c
bool_or b (some _) = none

-- A u64.
abbrev number_or : ℕ → Option Json → Option ℕ
number_or n none = some n
number_or n (some (num m)) = if ltb m (2 ^ 64) then some m else none
number_or n (some _) = none

-- `serde_json::from_value::<Profile>`.
unfoldable pub read_card : Json → Option Profile
read_card v = required (get (codes "user_id") v) >>= λ user_id.
    required (get (codes "name") v) >>= λ name. optional (get (codes "avatar") v) >>= λ avatar.
    text_or [] (get (codes "bio") v) >>= λ bio.
    bool_or false (get (codes "open_to_dm") v) >>= λ open_to_dm.
    optional (get (codes "theme") v) >>= λ theme.
    number_or 0 (get (codes "updated") v) >>= λ updated. some (record {
      user_id = user_id;
      name = name;
      avatar = avatar;
      bio = bio;
      open_to_dm = open_to_dm;
      theme = theme;
      updated = updated;
    })

abbrev pub Option-map : {A B : Type 0} → (A → B) → Option A → Option B
Option-map f none = none
Option-map f (some a) = some (f a)

-- The state key takes the place of the id that the card gives itself.
abbrev pub owner : Option Text → Text → Text
owner none id = id
owner (some key) id = key

-- The card, cut to what its publisher may write, by the event's state key.
abbrev pub cut_card : Option Text → Profile → Profile
cut_card key p = record p {
  name = take 128 p.name;
  bio = take 280 p.bio;
  theme = Option-map (take 64) p.theme;
  user_id = owner key p.user_id;
}

-- `profile_from`, on the event's JSON.
unfoldable pub profile_from : Json → Option Profile
unfolding get read_card
profile_from v = get (codes "content") v >>= λ content.
    if no_fields content
    then none
    else Option-map (cut_card (get (codes "state_key") v >>= as_str)) (read_card content)

-- A child of the space: its state key, if it has a `via` that is not empty and the key is a room id.
unfoldable pub child_of : (Text → Bool) → Json → Option Text
unfolding get
child_of is_room_id v = get (codes "content") v >>= get (codes "via") >>= λ via.
    if no_items via
    then none
    else get (codes "state_key") v >>= as_str >>= λ key. if is_room_id key then some key else none

abbrev pub filter_map : {A B : Type 0} → (A → Option B) → List A → List B
filter_map f [] = []
filter_map f (a ∷ xs) = let rest = filter_map f xs in elim (f a) [ none ↦ rest | some b ↦ b ∷ rest ]

-- `children`, on what the store has.
unfoldable pub children : (Text → Bool) → List Json → List Text
unfolding child_of
children is_room_id evs = filter_map (child_of is_room_id) evs

-- `sort_by(|a, b| b.updated.cmp(&a.updated))`, which is stable.
abbrev pub insert_card : Profile → List Profile → List Profile
insert_card p [] = p ∷ []
insert_card p (q ∷ qs) =
    let rest = insert_card p qs in if ltb p.updated q.updated then q ∷ rest else p ∷ q ∷ qs

abbrev pub sort_cards : List Profile → List Profile
sort_cards [] = []
sort_cards (p ∷ ps) = insert_card p (sort_cards ps)

-- Whether a card is what the query, trimmed and in lower case, asks for; `lower` is Unicode's.
abbrev pub is_asked : (Text → Text) → Text → Profile → Bool
is_asked lower q p =
    is_empty q
    || contains (lower p.name) q
    || contains (lower p.user_id) q
    || contains (lower p.bio) q
    || elim p.theme [ none ↦ false | some t ↦ contains (lower t) q ]

-- The name and the avatar of the card's member, where the store knows it.
abbrev pub freshen : (Text → Option (Text × Option Text)) → Profile → Profile
freshen member p = elim (member p.user_id) [
  | none ↦ p
  | some (name, avatar) ↦ record p { name = name; avatar = avatar }
]

-- `people`, on the events of the joined space.
unfoldable pub people :
    (Text → Text) → (Text → Option (Text × Option Text)) → Text → ℕ → List Json → List Profile
unfolding profile_from
people lower member query limit evs = take (min (max limit 1) 500) (
    sort_cards (
      map (freshen member)
        (keep (is_asked lower (lower (trim query))) (filter_map profile_from evs))))

-- A card that shows no more than its publisher may write, under the event's state key if it has one.
pub record IsCard (key : Option Text) (p : Profile) : Type 0 where
  pub name_fits : length p.name ≤ 128
  pub bio_fits : length p.bio ≤ 280
  pub theme_fits : elim p.theme [ none ↦ true | some t ↦ leb (length t) 64 ] ≡ true
  pub owned : p.user_id ≡ owner key p.user_id

cut_card-IsCard : (key : Option Text) (p : Profile) → IsCard key (cut_card key p)
cut_card-IsCard key p = record {
  name_fits = omega (arith, length-take 128 p.name);
  bio_fits = omega (arith, length-take 280 p.bio);
  theme_fits = fits p.theme;
  owned = same key;
}
  where
    fits :
        (t : Option Text)
        → elim (Option-map (take 64) t) [ none ↦ true | some s ↦ leb (length s) 64 ] ≡ true
    fits none = refl
    fits (some s) = le→leb (length (take 64 s)) 64 (omega (arith, length-take 64 s))

    same : (o : Option Text) → owner o p.user_id ≡ owner o (owner o p.user_id)
    same none = refl
    same (some k) = refl

Option-map-IsCard :
    (key : Option Text) (o : Option Profile) (p : Profile)
    → Option-map (cut_card key) o ≡ some p
    → IsCard key p
Option-map-IsCard key none p h = absurd (cc)
Option-map-IsCard key (some q) p h =
    let same : cut_card key q ≡ p = cc in subst (λ r. IsCard key r) same (cut_card-IsCard key q)

-- Whatever the event holds, the card read from it has a name of at most 128 characters, a text of at
-- most 280 and a theme of at most 64, and it is under the user of the event's state key.
pub profile_from-IsCard :
    (v : Json) (p : Profile)
    → profile_from v ≡ some p
    → IsCard (get (codes "state_key") v >>= as_str) p
unfolding profile_from
profile_from-IsCard v p h = from_content (get (codes "content") v) h
  where
    from_content :
        (o : Option Json)
        → (o >>= λ content.
            if no_fields content
            then none
            else Option-map (cut_card (get (codes "state_key") v >>= as_str)) (read_card content))
          ≡ some p
        → IsCard (get (codes "state_key") v >>= as_str) p
    from_content none h = absurd (cc)
    from_content (some content) h = elim (Bool-cases (no_fields content)) [
      | inl e ↦ (let x = rw e at h in absurd (cc))
      | inr e ↦
          Option-map-IsCard (get (codes "state_key") v >>= as_str) (read_card content) p (rw e at h)
    ]
