-- ===== src/Community/Policy.antt =====
-- Who may open a direct chat (src/community.rs: `DmPolicy`, `space_id`, `invite_allowed`).
use omarchy_chatd.Base.{
  ℕ, ◌≤◌, ◌≡◌, ◌≢◌, ◌↔◌, ◌⊎◌, Bool, true, false, not, ◌&&◌, ◌||◌, Option, none, some, List, [], ◌∷◌,
  arith, if◌then◌else◌, any, keep, Text, text_eq, is_empty,
}

-- `DmPolicy`.
pub data DmPolicy : Type 0 where
  anyone community contacts nobody : DmPolicy

-- `Prefs`.
pub record Prefs : Type 0 where
  pub dm_policy : DmPolicy
  pub community_alias : Text

pub data Membership : Type 0 where
  join invite leave other : Membership

-- What the program reads of a room: its id and aliases, the users that it is a direct chat with, its
-- heroes, and a member of it that the store knows (`none`: none known, or the store fails).
pub record Room : Type 0 where
  pub room_id : Text
  pub canonical_alias : Option Text
  pub alt_aliases : List Text
  pub direct_targets : List Text
  pub heroes : List Text
  pub joined : Bool
  pub get_member : Text → Option Membership

-- The server's answer to the resolving of an alias.
pub data Resolved : Type 0 where
  found : Text → Resolved
  not_found : Resolved
  not_answered : Resolved

-- A client: the rooms that it knows, whether a text is an alias, and what the server resolves it to.
pub record Client : Type 0 where
  pub rooms : List Room
  pub is_alias : Text → Bool
  pub resolve : Text → Resolved

abbrev pub find {ℓ} : {A : Type ℓ} → (A → Bool) → List A → Option A
find p [] = none
find p (a ∷ xs) = let rest = find p xs in if p a then some a else rest

abbrev pub is_text : Text → Option Text → Bool
is_text t none = false
is_text t (some s) = text_eq s t

-- `client.joined_rooms()`.
abbrev pub joined_rooms : Client → List Room
joined_rooms c = keep (λ r. r.joined) c.rooms

abbrev pub get_room : Client → Text → Option Room
get_room c id = find (λ r. text_eq r.room_id id) c.rooms

abbrev room_id_of : Option Room → Option Text
room_id_of none = none
room_id_of (some r) = some r.room_id

-- `space_id`; `none` is an error, `some none` that there is no such space.
unfoldable pub space_id : Client → Text → Option (Option Text)
space_id c alias =
    if not (c.is_alias alias)
    then none
    else elim (find (λ r. is_text alias r.canonical_alias || any (text_eq alias) r.alt_aliases)
        (joined_rooms c)) [
          | some r ↦ some (some r.room_id)
          | none ↦ elim (c.resolve alias) [
            | found id ↦ some (some id)
            | not_found ↦ some none
            | not_answered ↦ none
          ]
        ]

-- `get_member_no_sync_blocking`.
unfoldable pub is_quick_member : Text → Room → Bool
is_quick_member user r =
    any (λ t. text_eq t user) r.direct_targets || any (λ h. text_eq h user) r.heroes

abbrev pub is_join : Option Membership → Bool
is_join (some join) = true
is_join _ = false

-- Whether `user` is a member of the community space, as far as the store knows.
unfoldable pub in_space : Client → Text → Text → Bool
unfolding space_id
in_space c alias user = elim (space_id c alias) [
  | none ↦ false
  | some none ↦ false
  | some (some id) ↦ elim (get_room c id) [
    | none ↦ false
    | some space ↦ is_join (space.get_member user)
  ]
]

abbrev pub is_community : DmPolicy → Bool
is_community community = true
is_community _ = false

-- `invite_allowed`.
unfoldable pub invite_allowed : Client → Prefs → Text → Bool → Bool
unfolding is_quick_member in_space
invite_allowed c prefs inviter direct = if not direct then true else elim prefs.dm_policy [
  | anyone ↦ true
  | nobody ↦ false
  | policy ↦
      if any (is_quick_member inviter) (joined_rooms c)
      then true
      else is_community policy
        && not (is_empty prefs.community_alias)
        && in_space c prefs.community_alias inviter
]

-- How open a policy is.
abbrev pub openness : DmPolicy → ℕ
openness nobody = 0
openness contacts = 1
openness community = 2
openness anyone = 3

-- A more open policy declines no invite that a less open one allows.
invite_allowed_mono :
    (c : Client) (alias inviter : Text) (direct : Bool) (p q : DmPolicy)
    → openness p ≤ openness q
    → invite_allowed c (record { dm_policy = p; community_alias = alias }) inviter direct ≡ true
    → invite_allowed c (record { dm_policy = q; community_alias = alias }) inviter direct ≡ true
unfolding invite_allowed
invite_allowed_mono c alias inviter direct p q h a = ground arith

-- The branches of `invite_allowed`.
pub invite_allowed_branches :
    (c : Client) (prefs : Prefs) (inviter : Text) (direct : Bool)
    → (invite_allowed c prefs inviter direct ≡ true) ↔ (
        (direct ≡ false)
        ⊎ ((prefs.dm_policy ≡ anyone)
            ⊎ (((prefs.dm_policy ≢ nobody)
                  × (any (is_quick_member inviter) (joined_rooms c) ≡ true))
                ⊎ ((prefs.dm_policy ≡ community)
                    × (is_empty prefs.community_alias ≡ false)
                    × (in_space c prefs.community_alias inviter ≡ true)))))
unfolding invite_allowed
invite_allowed_branches c prefs inviter direct = ground arith
