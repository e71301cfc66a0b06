-- ===== src/Community/Listing.antt =====
-- The space's listing and its cache (src/community.rs: `hierarchy`, `CommunityState::forget`). Times
-- are seconds of the daemon's clock.
use mathlib.Core.Path.{subst}
use omarchy_chatd.Base.{
  ℕ, ◌+◌, ◌-◌, ◌≤◌, ◌<◌, ◌≡◌, refl, ap, ◌⊎◌, inl, inr, Bool, true, false, Option, none, some, List,
  [], ◌∷◌, ◌++◌, arith, ltb, if◌then◌else◌, Bool-cases, Text, codes, text_eq, text_eq_refl,
}

-- `HIERARCHY_TTL` and `HIERARCHY_FAILURE_TTL`.
abbrev pub hierarchy_ttl : ℕ
hierarchy_ttl = 300

abbrev pub hierarchy_failure_ttl : ℕ
hierarchy_failure_ttl = 60

-- `CommunityRoom`.
pub record CommunityRoom : Type 0 where
  pub id : Text
  pub name : Text
  pub topic : Option Text
  pub joined : Bool
  pub members : ℕ

-- `CachedHierarchy`.
pub record CachedHierarchy : Type 0 where
  pub fetched : ℕ
  pub failure : Option Text
  pub name : Option Text
  pub topic : Option Text
  pub member_count : ℕ
  pub rooms : List CommunityRoom

-- The summary of a room in the server's answer.
pub record Summary : Type 0 where
  pub room_id : Text
  pub name : Option Text
  pub topic : Option Text
  pub num_joined_members : ℕ

abbrev pub Cache : Type 0
Cache = List (Text × CachedHierarchy)

abbrev pub cached : Text → Cache → Option CachedHierarchy
cached alias [] = none
cached alias ((k, h) ∷ c) = let rest = cached alias c in if text_eq k alias then some h else rest

-- `CommunityState::forget`.
abbrev pub forget : Text → Cache → Cache
forget alias [] = []
forget alias ((k, h) ∷ c) =
    let rest = forget alias c in if text_eq k alias then rest else (k, h) ∷ rest

abbrev pub remember : Text → CachedHierarchy → Cache → Cache
remember alias h c = (alias, h) ∷ forget alias c

abbrev empty_hierarchy : ℕ → Option Text → CachedHierarchy
empty_hierarchy now failure = record {
  fetched = now;
  failure = failure;
  name = none;
  topic = none;
  member_count = 0;
  rooms = [];
}

abbrev name_or : Option Text → Text → Text
name_or none t = t
name_or (some n) t = n

-- The walk over the answer: the space itself gives the summary, any other room is listed.
unfoldable pub gather_rooms : Text → List Summary → CachedHierarchy → CachedHierarchy
gather_rooms space_id [] h = h
gather_rooms space_id (s ∷ ss) h =
    let itself =
      gather_rooms space_id ss
        (record h { name = s.name; topic = s.topic; member_count = s.num_joined_members }) in
    let listed = gather_rooms space_id ss (record h {
      rooms =
          h.rooms
          ++ record {
            id = s.room_id;
            name = name_or s.name s.room_id;
            topic = s.topic;
            joined = false;
            members = s.num_joined_members;
          }
            ∷ [];
    }) in
    if text_eq s.room_id space_id then itself else listed

-- What the cache says at a time: a listing, that it was refused, or that the server is to be asked.
pub data Known : Type 0 where
  listed : CachedHierarchy → Known
  refused : Text → Known
  ask : Known

unfoldable pub known_by : ℕ → Option CachedHierarchy → Known
known_by now none = ask
known_by now (some h) = elim h.failure [
  | none ↦ if ltb (now - h.fetched) hierarchy_ttl then listed h else ask
  | some why ↦ if ltb (now - h.fetched) hierarchy_failure_ttl then refused why else ask
]

pub data Outcome : Type 0 where
  ok : CachedHierarchy → Outcome
  err : Text → Outcome

abbrev no_rooms : List CommunityRoom → Bool
no_rooms [] = true
no_rooms (r ∷ rs) = false

-- What is made of the server's answer, its rooms or the text of its error.
unfoldable pub fetch : ℕ → Text → Text → (List Summary) ⊎ Text → Cache → Outcome × Bool × Cache
unfolding gather_rooms
fetch now alias space_id (inr why) c =
    (err why, true, remember alias (empty_hierarchy now (some why)) c)
fetch now alias space_id (inl ss) c =
    let fresh = gather_rooms space_id ss (empty_hierarchy now none) in
    (ok fresh, true, if no_rooms fresh.rooms then c else remember alias fresh c)

abbrev pub not_again : Text
not_again = codes " (not asked again for a minute)"

unfoldable pub answer_by :
    Known → ℕ → Text → Text → (List Summary) ⊎ Text → Cache → Outcome × Bool × Cache
unfolding fetch
answer_by (listed h) now alias space_id answer c = (ok h, false, c)
answer_by (refused why) now alias space_id answer c = (err (why ++ not_again), false, c)
answer_by ask now alias space_id answer c = fetch now alias space_id answer c

-- `hierarchy`: the result, whether the server was asked, and the cache.
unfoldable pub hierarchy : ℕ → Text → Text → (List Summary) ⊎ Text → Cache → Outcome × Bool × Cache
unfolding known_by answer_by
hierarchy now alias space_id answer c =
    answer_by (known_by now (cached alias c)) now alias space_id answer c

gather_rooms_fetched :
    (space_id : Text) (ss : List Summary) (h : CachedHierarchy)
    → ((gather_rooms space_id ss h).fetched ≡ h.fetched)
      × ((gather_rooms space_id ss h).failure ≡ h.failure)
unfolding gather_rooms
gather_rooms_fetched space_id [] h = (refl, refl)
gather_rooms_fetched space_id (s ∷ ss) h = elim (Bool-cases (text_eq s.room_id space_id)) [
  | inl e ↦ rw e (gather_rooms_fetched space_id ss _)
  | inr e ↦ rw e (gather_rooms_fetched space_id ss _)
]

cached-remember :
    (alias : Text) (h : CachedHierarchy) (c : Cache) → cached alias (remember alias h c) ≡ some h
cached-remember alias h c = rw (text_eq_refl alias)

answer_by_asked :
    (k : Known) (t : ℕ) (alias space_id : Text) (answer : (List Summary) ⊎ Text) (c : Cache)
    (r : Outcome) (c' : Cache)
    → answer_by k t alias space_id answer c ≡ (r, true, c')
    → fetch t alias space_id answer c ≡ (r, true, c')
unfolding answer_by
answer_by_asked (listed h) t alias space_id answer c r c' e = absurd (cc)
answer_by_asked (refused why) t alias space_id answer c r c' e = absurd (cc)
answer_by_asked ask t alias space_id answer c r c' e = e

-- An entry for the alias: a listing fetched at that time, or an error.
abbrev Holds : ℕ → Text → Outcome → Cache → Type 0
Holds t alias (ok h) c = (cached alias c ≡ some h) × (h.fetched ≡ t) × (h.failure ≡ none)
Holds t alias (err why) c = cached alias c ≡ some (empty_hierarchy t (some why))

fetch-Holds :
    (t : ℕ) (alias space_id : Text) (answer : (List Summary) ⊎ Text) (c : Cache)
    → let (r, _, c') = fetch t alias space_id answer c in
      Holds t alias r c' ⊎ ((h : CachedHierarchy) × (r ≡ ok h) × (no_rooms h.rooms ≡ true))
unfolding fetch
fetch-Holds t alias space_id (inr why) c =
    inl (cached-remember alias (empty_hierarchy t (some why)) c)
fetch-Holds t alias space_id (inl ss) c =
    let h = gather_rooms space_id ss (empty_hierarchy t none) in
    let (at, fine) = gather_rooms_fetched space_id ss (empty_hierarchy t none) in
    elim (Bool-cases (no_rooms h.rooms)) [
      | inl e ↦ inr (h, refl, e)
      | inr e ↦ rw e (inl (cached-remember alias h c, at, fine))
    ]

-- A result as it is given once more.
abbrev pub repeated : Outcome → Outcome
repeated (ok h) = ok h
repeated (err why) = err (why ++ not_again)

-- How long a result is reused.
abbrev pub IsFreshAt : ℕ → ℕ → Outcome → Type 0
IsFreshAt t u (ok h) = (no_rooms h.rooms ≡ false) × (t ≤ u) × (u < t + hierarchy_ttl)
IsFreshAt t u (err why) = (t ≤ u) × (u < t + hierarchy_failure_ttl)

known_by_fresh :
    (t u : ℕ) (alias : Text) (h : CachedHierarchy) (c : Cache)
    → Holds t alias (ok h) c
    → IsFreshAt t u (ok h)
    → known_by u (cached alias c) ≡ listed h
unfolding known_by
known_by_fresh t u alias h c (k, at, fine) (some_rooms, le, lt) = rw (k, fine) (ground arith)

known_by_refused :
    (t u : ℕ) (alias why : Text) (c : Cache)
    → Holds t alias (err why) c
    → IsFreshAt t u (err why)
    → known_by u (cached alias c) ≡ refused why
unfolding known_by
known_by_refused t u alias why c k (le, lt) = rw k (ground arith)

reused_by :
    (t u : ℕ) (alias space_id : Text) (second : (List Summary) ⊎ Text) (r : Outcome) (c : Cache)
    → Holds t alias r c ⊎ ((h : CachedHierarchy) × (r ≡ ok h) × (no_rooms h.rooms ≡ true))
    → IsFreshAt t u r
    → hierarchy u alias space_id second c ≡ (repeated r, false, c)
unfolding hierarchy
reused_by t u alias space_id second (ok h) c (inl k) f =
    ap (λ n. answer_by n u alias space_id second c) (known_by_fresh t u alias h c k f)
reused_by t u alias space_id second (ok h) c (inr (g, e, n)) (s, le, lt) = absurd (cc)
reused_by t u alias space_id second (err why) c (inl k) f =
    ap (λ n. answer_by n u alias space_id second c) (known_by_refused t u alias why c k f)
reused_by t u alias space_id second (err why) c (inr (g, e, n)) f = absurd (cc)

-- A listing that the server gave, unless it is empty, answers every request of the next five minutes
-- for the same alias, and an error, with a remark, every one of the next minute; neither asks the
-- server again, whatever it would answer.
pub hierarchy_reused :
    (t u : ℕ) (alias space_id : Text) (first second : (List Summary) ⊎ Text) (c : Cache)
    (r : Outcome) (c' : Cache)
    → hierarchy t alias space_id first c ≡ (r, true, c')
    → IsFreshAt t u r
    → hierarchy u alias space_id second c' ≡ (repeated r, false, c')
hierarchy_reused t u alias space_id first second c r c' asked fresh =
    let e =
      answer_by_asked (known_by t (cached alias c)) t alias space_id first c r c'
        (unfold hierarchy in asked) in
    reused_by t u alias space_id second r c'
      (subst
        (λ (x : Outcome × Bool × Cache).
          Holds t alias x.0 x.2
          ⊎ ((h : CachedHierarchy) × (x.0 ≡ ok h) × (no_rooms h.rooms ≡ true)))
        e (fetch-Holds t alias space_id first c))
      fresh
