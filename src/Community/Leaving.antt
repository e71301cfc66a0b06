-- ===== src/Community/Leaving.antt =====
-- Leaving the community (src/community.rs: `leave`, `stop_joiner`).
use omarchy_chatd.Base.{
  ℕ, ◌≤◌, ◌≡◌, refl, ◌⊎◌, inl, inr, Bool, true, false, Option, none, some, List, [], ◌∷◌, ◌++◌,
  arith, leb, if◌then◌else◌, Bool-cases, keep, Text,
}
use omarchy_chatd.Community.Policy.{Room, Client, get_room, space_id}
use omarchy_chatd.Community.Listing.{Cache, cached, forget}

-- `CommunityState`: the cache, the count of rooms to join, and whether a joiner is at work.
pub record CommunityState : Type 0 where
  pub hierarchy_cache : Cache
  pub joining : ℕ
  pub joiner : Bool

-- What is asked of the server; `clear_card` and the leaving of a child may fail unnoticed.
pub data Act : Type 0 where
  clear_card : Act
  leave_room : Text → Act

-- The answers to a leaving: how many members the space has joined, its children, and whether the
-- space itself is left.
pub record Answers : Type 0 where
  pub joined_members_count : ℕ
  pub children : List Text
  pub is_left : Bool

pub data Outcome : Type 0 where
  finished not_resolved only_member not_left : Outcome

abbrev pub is_joined : Option Room → Bool
is_joined none = false
is_joined (some r) = r.joined

abbrev pub leave_each : List Text → List Act
leave_each [] = []
leave_each (r ∷ rs) = leave_room r ∷ leave_each rs

-- `stop_joiner`, then `forget`.
unfoldable pub settle : Text → CommunityState → CommunityState
settle alias s = record s {
  joiner = false;
  joining = 0;
  hierarchy_cache = forget alias s.hierarchy_cache;
}

-- The leaving of a space that is joined.
unfoldable pub leave_space : Client → Answers → Text → Outcome × List Act
leave_space c a id = if leb a.joined_members_count 1 then (only_member, []) else (
  if a.is_left then finished else not_left,
  clear_card ∷ (leave_each (keep (λ r. is_joined (get_room c r)) a.children) ++ leave_room id ∷ []),
)

-- What is left, by the space's id and room.
unfoldable pub leave_known : Client → Answers → Option (Option Text) → Outcome × List Act
unfolding leave_space
leave_known c a none = (not_resolved, [])
leave_known c a (some none) = (finished, [])
leave_known c a (some (some id)) =
    if is_joined (get_room c id) then leave_space c a id else (finished, [])

-- `leave`: the result, what is asked of the server, and the state.
unfoldable pub leave :
    Client → Answers → Text → CommunityState → (Outcome × List Act) × CommunityState
unfolding leave_known settle
leave c a alias s = (leave_known c a (space_id c alias), settle alias s)

pub cached-forget : (alias : Text) (c : Cache) → cached alias (forget alias c) ≡ none
cached-forget alias [] = refl
cached-forget alias ((k, h) ∷ c) = ground (arith, cached-forget alias c)

-- What is asked for: nothing, in a space that is not joined or has no other member, or all of it.
abbrev pub Asks : Client → Answers → Option (Option Text) → List Act → Type 0
Asks c a o acts =
    ((acts ≡ [])
      × ((id : Text)
          → o ≡ some (some id)
          → is_joined (get_room c id) ≡ true
          → a.joined_members_count ≤ 1))
    ⊎ ((2 ≤ a.joined_members_count)
        × ((id : Text) × (o ≡ some (some id))
            × (is_joined (get_room c id) ≡ true)
            × (acts
                ≡ clear_card
                  ∷ (leave_each (keep (λ r. is_joined (get_room c r)) a.children)
                      ++ leave_room id ∷ []))))

not_joined :
    (c : Client) (a : Answers) (id : Text)
    → is_joined (get_room c id) ≡ false
    → (i : Text) → some (some id) ≡ some (some i)
    → is_joined (get_room c i) ≡ true
    → a.joined_members_count ≤ 1
not_joined c a id e i p q = absurd (cc)

leave_known-Asks :
    (c : Client) (a : Answers) (o : Option (Option Text)) → Asks c a o (leave_known c a o).1
unfolding leave_known
leave_known-Asks c a none = inl (refl, λ id p q. absurd (cc))
leave_known-Asks c a (some none) = inl (refl, λ id p q. absurd (cc))
leave_known-Asks c a (some (some id)) = elim (Bool-cases (is_joined (get_room c id))) [
  | inl e ↦ elim (Bool-cases (leb a.joined_members_count 1)) [
    | inl m ↦ rw (e, m) (inl (refl, λ i p q. ground arith))
    | inr m ↦ rw (e, m) (inr (ground arith, (id, refl, e, refl)))
  ]
  | inr e ↦ rw e (inl (refl, not_joined c a id e))
]

-- Leaving always stops the joiner, with nothing left to join, and drops the listing. Beside resolving
-- the alias, it asks the server for something exactly in a space that is joined and has another
-- member, and then for all of it: the card's withdrawal, the leaving of each child that is joined, and
-- of the space last.
pub leave_lem :
    (c : Client) (a : Answers) (alias : Text) (s : CommunityState)
    → let (result, s') = leave c a alias s in
      (s'.joiner ≡ false)
      × (s'.joining ≡ 0)
      × (cached alias s'.hierarchy_cache ≡ none)
      × Asks c a (space_id c alias) result.1
unfolding leave
leave_lem c a alias s =
    (refl, refl, cached-forget alias s.hierarchy_cache, leave_known-Asks c a (space_id c alias))
