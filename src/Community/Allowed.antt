-- ===== src/Community/Allowed.antt =====
-- Whose invites are allowed, by the rooms of the client (src/community.rs: `invite_allowed`,
-- `get_member_no_sync_blocking`).
use mathlib.Core.Path.{subst}
use omarchy_chatd.Community.Policy.{
  anyone, community, nobody, Prefs, Membership, join, Room, Client, joined_rooms, get_room,
  space_id, is_quick_member, is_join, in_space, invite_allowed, invite_allowed_branches,
}
use omarchy_chatd.Base.{
  ◌≡◌, refl, ◌≢◌, ◌↔◌, ◌⊎◌, inl, inr, Bool, true, false, Option, none, some, List, [], ◌∷◌, arith,
  Bool-cases, any, keep, In, Text, text_eq, text_eq_sound, text_eq_refl, is_empty,
}

-- A direct partner or a hero of a room that the client has joined.
abbrev pub IsContact : Client → Text → Type 0
IsContact c user =
    (r : Room) × In r c.rooms × (r.joined ≡ true) × (In user r.direct_targets ⊎ In user r.heroes)

-- A user whom the store knows as a joined member of the space of an alias, as it is resolved.
abbrev pub IsSpaceMember : Client → Text → Text → Type 0
IsSpaceMember c alias user =
    (id : Text) × (space : Room) × (space_id c alias ≡ some (some id))
    × (get_room c id ≡ some space)
    × (space.get_member user ≡ some join)

module _ {A : Type 0} (p : A → Bool) where
  any-In : (xs : List A) → any p xs ≡ true → (x : A) × In x xs × (p x ≡ true)
  any-In [] h = absurd (cc)
  any-In (x ∷ xs) h = elim (Bool-cases (p x)) [
    | inl e ↦ (x, inl refl, e)
    | inr e ↦ (let (y, i, q) = any-In xs (rw e at h) in (y, inr i, q))
  ]

  In-any : (xs : List A) (x : A) → In x xs → p x ≡ true → any p xs ≡ true
  In-any [] x i h = absurd i
  In-any (y ∷ xs) x (inl e) h = rw (← e, h) refl
  In-any (y ∷ xs) x (inr i) h = ground (arith, In-any xs x i h)

  In-keep : (xs : List A) (x : A) → In x (keep p xs) → In x xs × (p x ≡ true)
  In-keep [] x i = absurd i
  In-keep (y ∷ xs) x i = elim (Bool-cases (p y)) [
    | inl e ↦ elim (rw e at i) [
      | inl q ↦ (inl q, rw q e)
      | inr j ↦ (let (k, h) = In-keep xs x j in (inr k, h))
    ]
    | inr e ↦ (let (k, h) = In-keep xs x (rw e at i) in (inr k, h))
  ]

  keep-In : (xs : List A) (x : A) → In x xs → p x ≡ true → In x (keep p xs)
  keep-In [] x i h = absurd i
  keep-In (y ∷ xs) x (inl e) h = rw (← e, h) (inl refl)
  keep-In (y ∷ xs) x (inr i) h = elim (Bool-cases (p y)) [
    | inl e ↦ rw e (inr (keep-In xs x i h))
    | inr e ↦ rw e (keep-In xs x i h)
  ]

named_In : (user : Text) (ts : List Text) → (any (λ t. text_eq t user) ts ≡ true) ↔ In user ts
named_In user ts = (
  λ h.
      let (t, i, e) = any-In (λ t. text_eq t user) ts h in
      subst (λ x. In x ts) (text_eq_sound t user e) i,
  λ i. In-any (λ t. text_eq t user) ts user i (text_eq_refl user),
)

quick_iff :
    (user : Text) (r : Room)
    → (is_quick_member user r ≡ true) ↔ (In user r.direct_targets ⊎ In user r.heroes)
unfolding is_quick_member
quick_iff user r = ground (arith, named_In user r.direct_targets, named_In user r.heroes)

IsContact-iff :
    (c : Client) (user : Text)
    → (any (is_quick_member user) (joined_rooms c) ≡ true) ↔ IsContact c user
IsContact-iff c user = (
  λ h.
      let (r, i, q) = any-In (is_quick_member user) (joined_rooms c) h in
      let (k, j) = In-keep (λ (r : Room). r.joined) c.rooms r i in
      (r, k, j, (quick_iff user r).0 q),
  λ (r, k, j, m).
      In-any (is_quick_member user) (joined_rooms c) r
        (keep-In (λ (r : Room). r.joined) c.rooms r k j) ((quick_iff user r).1 m),
)

is_join_iff : (m : Option Membership) → (is_join m ≡ true) ↔ (m ≡ some join)
is_join_iff m = ground arith

member_iff :
    (c : Client) (alias user : Text) → (in_space c alias user ≡ true) ↔ IsSpaceMember c alias user
unfolding in_space
member_iff c alias user = (forward, backward)
  where
    in_room :
        (id : Text) (o : Option Room)
        → space_id c alias ≡ some (some id)
        → get_room c id ≡ o
        → elim o as (λ _. Bool) [ none ↦ false | some space ↦ is_join (space.get_member user) ]
          ≡ true
        → IsSpaceMember c alias user
    in_room id none e g h = absurd (cc)
    in_room id (some space) e g h = (id, space, e, g, (is_join_iff (space.get_member user)).0 h)

    by_id :
        (o : Option (Option Text))
        → space_id c alias ≡ o
        → in_space c alias user ≡ true
        → IsSpaceMember c alias user
    by_id none e h = (let x = rw (e, in_space) at h in absurd (cc))
    by_id (some none) e h = (let x = rw (e, in_space) at h in absurd (cc))
    by_id (some (some id)) e h = in_room id (get_room c id) e refl (rw (e, in_space) at h)

    forward : in_space c alias user ≡ true → IsSpaceMember c alias user
    forward = by_id (space_id c alias) refl

    backward : IsSpaceMember c alias user → in_space c alias user ≡ true
    backward (id, space, e, g, m) = rw (e, in_space, g, m) refl

-- An invite is allowed exactly if it is to a group, or the policy is `anyone`, or the policy is not
-- `nobody` and the inviter is a direct partner or a hero of a joined room, or the policy is
-- `community`, an alias is set, and the store knows the inviter as a joined member of its space.
pub invite_allowed_iff :
    (c : Client) (prefs : Prefs) (inviter : Text) (direct : Bool)
    → (invite_allowed c prefs inviter direct ≡ true) ↔ (
        (direct ≡ false)
        ⊎ ((prefs.dm_policy ≡ anyone)
            ⊎ (((prefs.dm_policy ≢ nobody) × IsContact c inviter)
                ⊎ ((prefs.dm_policy ≡ community)
                    × (is_empty prefs.community_alias ≡ false)
                    × IsSpaceMember c prefs.community_alias inviter))))
invite_allowed_iff c prefs inviter direct = (
  λ h. elim ((invite_allowed_branches c prefs inviter direct).0 h) [
    | inl g ↦ inl g
    | inr (inl a) ↦ inr (inl a)
    | inr (inr (inl (n, k))) ↦ inr (inr (inl (n, (IsContact-iff c inviter).0 k)))
    | inr (inr (inr (p, e, m))) ↦
        inr (inr (inr (p, e, (member_iff c prefs.community_alias inviter).0 m)))
  ],
  λ h. (invite_allowed_branches c prefs inviter direct).1 (elim h [
    | inl g ↦ inl g
    | inr (inl a) ↦ inr (inl a)
    | inr (inr (inl (n, k))) ↦ inr (inr (inl (n, (IsContact-iff c inviter).1 k)))
    | inr (inr (inr (p, e, m))) ↦
        inr (inr (inr (p, e, (member_iff c prefs.community_alias inviter).1 m)))
  ]),
)
