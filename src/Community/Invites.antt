-- ===== src/Community/Invites.antt =====
-- What becomes of an invite (src/core.rs: `on_stripped_member`, `invite_info`).
use omarchy_chatd.Base.{
  ◌≡◌, refl, ap, ◌∙◌, ◌↔◌, inl, inr, Bool, true, false, not, ◌&&◌, ◌||◌, Option, none, some, List,
  [], ◌∷◌, arith, if◌then◌else◌, Bool-cases, Text, text_eq_refl,
}
use omarchy_chatd.Community.Policy.{Prefs, Membership, invite, Client, is_text, invite_allowed}

-- `InviteInfo`.
pub record InviteInfo : Type 0 where
  pub room : Text
  pub name : Text
  pub inviter : Option Text
  pub inviter_name : Option Text
  pub direct : Bool

-- The room of an invite: its name and the answers to the reading of who invited, by id and name, and
-- of whether it is a direct chat; `none` is a failed reading.
pub record Invited : Type 0 where
  pub room_id : Text
  pub display_name : Option Text
  pub invite_details : Option (Option (Text × Text))
  pub is_direct : Option Bool
  pub is_invited : Bool

abbrev or_text : Option Text → Text → Text
or_text none t = t
or_text (some s) t = s

abbrev or_false : Option Bool → Bool
or_false none = false
or_false (some b) = b

abbrev pub inviter_of : Invited → Option (Text × Text)
inviter_of r = elim r.invite_details [ none ↦ none | some who ↦ who ]

abbrev pub Option-map : {A B : Type 0} → (A → B) → Option A → Option B
Option-map f none = none
Option-map f (some a) = some (f a)

-- `invite_info`.
unfoldable pub invite_info : Invited → InviteInfo
invite_info r = record {
  room = r.room_id;
  name = or_text r.display_name r.room_id;
  inviter = Option-map (λ m. m.0) (inviter_of r);
  inviter_name = Option-map (λ m. m.1) (inviter_of r);
  direct = or_false r.is_direct;
}

-- The membership event: what it says, and of whom.
pub record MemberEvent : Type 0 where
  pub membership : Membership
  pub state_key : Text

-- What the handler does: it leaves the room (a failure is only logged), or tells the clients.
pub data Act : Type 0 where
  leave_room : Text → Act
  send_invite : InviteInfo → Act

abbrev pub is_invite : Membership → Bool
is_invite invite = true
is_invite _ = false

-- The inviter, if there is one whose id parses.
abbrev pub parsed : (Text → Bool) → Option Text → Option Text
parsed is_user_id none = none
parsed is_user_id (some i) = if is_user_id i then some i else none

-- The judging of an invite to us, by the inviter.
unfoldable pub judge_invite : Client → Prefs → InviteInfo → Option Text → List Act
judge_invite c prefs info none = send_invite info ∷ []
judge_invite c prefs info (some i) =
    if invite_allowed c prefs i info.direct
    then send_invite info ∷ []
    else leave_room info.room ∷ []

-- `on_stripped_member`; `me` is the client's user id.
unfoldable pub on_stripped_member :
    Client → Prefs → Option Text → (Text → Bool) → MemberEvent → Invited → List Act
on_stripped_member c prefs me is_user_id ev r =
    if not (is_invite ev.membership) || not (is_text ev.state_key me) || not r.is_invited
    then []
    else judge_invite c prefs (invite_info r) (parsed is_user_id (invite_info r).inviter)

our_invite :
    (c : Client) (prefs : Prefs) (me : Text) (is_user_id : Text → Bool) (r : Invited)
    (o : Option Text)
    → r.is_invited ≡ true
    → parsed is_user_id (invite_info r).inviter ≡ o
    → on_stripped_member c prefs
        (some me)
        is_user_id
        (record { membership = invite; state_key = me })
        r
      ≡ judge_invite c prefs (invite_info r) o
unfolding on_stripped_member
our_invite c prefs me is_user_id r o i e =
    let mine = text_eq_refl me in
    let judged = ap (judge_invite c prefs (invite_info r)) e in simp (mine, i) judged

-- The user whom the policy declines: an inviter with a proper id whom it does not allow.
abbrev pub IsRefused : Client → Prefs → InviteInfo → Option Text → Type 0
IsRefused c prefs info o =
    (i : Text) × (o ≡ some i) × (invite_allowed c prefs i info.direct ≡ false)

judge_invite-IsRefused :
    (c : Client) (prefs : Prefs) (info : InviteInfo) (o : Option Text)
    → (judge_invite c prefs info o ≡ leave_room info.room ∷ []) ↔ IsRefused c prefs info o
unfolding judge_invite
judge_invite-IsRefused c prefs info none = (λ h. absurd (cc), λ (i, e, a). absurd (cc))
judge_invite-IsRefused c prefs info (some i) =
    elim (Bool-cases (invite_allowed c prefs i info.direct)) [
      | inl e ↦ (
        λ h. (let x = rw e at h in absurd (cc)),
        λ (j, s, a).
            (let same : i ≡ j = cc in
              let b : invite_allowed c prefs i info.direct ≡ false =
                ap (λ k. invite_allowed c prefs k info.direct) same ∙ a in
              absurd (cc)),
      )
      | inr e ↦ (λ h. (i, refl, e), λ h. rw e refl)
    ]

-- An invite is declined, by leaving its room, exactly if it is an invite of ours to a room that we
-- are invited to, and its inviter is known by a proper id and not allowed by the policy.
pub on_stripped_member_declines :
    (c : Client) (prefs : Prefs) (me : Option Text) (is_user_id : Text → Bool) (ev : MemberEvent)
    (r : Invited)
    → (on_stripped_member c prefs me is_user_id ev r ≡ leave_room (invite_info r).room ∷ []) ↔ (
        ((is_invite ev.membership && is_text ev.state_key me && r.is_invited) ≡ true)
        × IsRefused c prefs (invite_info r) (parsed is_user_id (invite_info r).inviter))
unfolding on_stripped_member
on_stripped_member_declines c prefs me is_user_id ev r = ground (
  arith,
  judge_invite-IsRefused c prefs (invite_info r) (parsed is_user_id (invite_info r).inviter),
)

-- An invite of which it is not known who sent it is announced under every policy.
pub unknown_inviter_announced :
    (c : Client) (prefs : Prefs) (me : Text) (is_user_id : Text → Bool) (r : Invited)
    → r.is_invited ≡ true
    → inviter_of r ≡ none
    → on_stripped_member c prefs
        (some me)
        is_user_id
        (record { membership = invite; state_key = me })
        r
      ≡ send_invite (invite_info r) ∷ []
unknown_inviter_announced c prefs me is_user_id r i d =
    our_invite c prefs me is_user_id r none i
      (unfold invite_info in ap (λ o. parsed is_user_id (Option-map (λ m. m.0) o)) d)
    ∙ unfold judge_invite in refl
