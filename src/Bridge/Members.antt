-- ===== src/Bridge/Members.antt =====
-- What `detect` gives for a room by its members, and where it ends early (src/bridge.rs).
use omarchy_chatd.Bridge.Names.{protocol_of_user, is_bridge_bot}
use omarchy_chatd.Bridge.Detect.{
  Member, skips, settles, or_verdict, Room, protocol_id, judge_content, judge_raw, judge_event,
  judge_events, judge_kind, see_user, look_at, guessed, look_members, by_members, conclude_with,
  detect,
}
use omarchy_chatd.Bridge.Puppets.{bot_has_protocol}
use omarchy_chatd.Json.{Json, get, no_fields}
use omarchy_chatd.Base.{
  ◌≤◌, ◌≡◌, refl, sym, ap, ◌∙◌, ◌⊎◌, inl, inr, false, Option, none, some, List, [], ◌∷◌, ◌++◌,
  arith, if◌then◌else◌, Bool-cases, or_else, All, Text, codes,
}

-- The protocol of the first member that has one, and the last member that is a bot.
abbrev pub first_protocol : List Member → Option Text
first_protocol [] = none
first_protocol (m ∷ ms) = or_else (protocol_of_user m.local) (first_protocol ms)

abbrev pub last_bot : List Member → Option Text
last_bot [] = none
last_bot (m ∷ ms) = or_else (last_bot ms) (if is_bridge_bot m.local then some m.user_id else none)

or_else_assoc {ℓ} :
    {A : Type ℓ} (a b c : Option A) → or_else (or_else a b) c ≡ or_else a (or_else b c)
or_else_assoc none b c = refl
or_else_assoc (some x) b c = refl

or_else-none {ℓ} : {A : Type ℓ} (a : Option A) → or_else a none ≡ a
or_else-none none = refl
or_else-none (some x) = refl

-- One member; a bot has a protocol.
see_user_lem :
    (m : Member) (o : Option Text) (p b : Option Text)
    → protocol_of_user m.local ≡ o
    → see_user m o (p, b)
      ≡ (or_else p o, or_else (if is_bridge_bot m.local then some m.user_id else none) b)
unfolding see_user
see_user_lem m (some q) p b e = elim (Bool-cases (is_bridge_bot m.local)) [
  | inl h ↦ rw h refl
  | inr h ↦ rw h refl
]
see_user_lem m none p b e = elim (Bool-cases (is_bridge_bot m.local)) [
  | inl h ↦ let (q, k) = bot_has_protocol m.local h in absurd (cc)
  | inr h ↦ rw (h, or_else-none p) refl
]

look_at_lem :
    (ms : List Member) (p b : Option Text)
    → look_at ms (p, b) ≡ (or_else p (first_protocol ms), or_else (last_bot ms) b)
unfolding look_at
look_at_lem [] p b = rw (or_else-none p) refl
look_at_lem (m ∷ ms) p b =
    let o = protocol_of_user m.local in
    let bot : Option Text = if is_bridge_bot m.local then some m.user_id else none in
    ap (look_at ms) (see_user_lem m o p b refl)
    ∙ look_at_lem ms (or_else p o) (or_else bot b)
    ∙ ap (λ q. (q, or_else (last_bot ms) (or_else bot b))) (or_else_assoc p o (first_protocol ms))
    ∙ ap (λ q. (or_else p (or_else o (first_protocol ms)), q))
        (sym (or_else_assoc (last_bot ms) bot b))

-- No event of a kind settles what the room is bridged to.
abbrev pub Unsettled : Room → Text → Type 0
Unsettled room kind = judge_kind room (room.state_events kind) ≡ skips

-- Where no state event says it and at most 64 have joined, the room is bridged to the protocol of
-- the first member that is a puppet or a bot, by the last member that is a bot of any protocol.
pub detect_by_members :
    (room : Room) (ms : List Member)
    → Unsettled room (codes "m.bridge")
    → Unsettled room (codes "uk.half-shot.bridge")
    → room.joined_members ≤ 64
    → room.members ≡ some ms
    → detect room ≡ guessed room (first_protocol ms, last_bot ms)
unfolding detect by_members look_members
detect_by_members room ms u v h e =
    ap
      (λ r.
        conclude_with
          (or_verdict r (judge_kind room (room.state_events (codes "uk.half-shot.bridge"))))
          (by_members room))
      u
    ∙ ap (λ r. conclude_with r (by_members room)) v
    ∙ small
    ∙ ap (look_members room) e
    ∙ ap (guessed room)
        (look_at_lem ms none none ∙ ap (λ b. (first_protocol ms, b)) (or_else-none (last_bot ms)))
  where
    small : by_members room ≡ look_members room room.members
    small = ground arith

judge_events_ends :
    (room : Room) (before after : List (Option Json)) (raw : Json)
    → All (λ ev. judge_event room ev ≡ skips) before
    → judge_event room (some raw) ≡ settles none
    → judge_events room (before ++ some raw ∷ after) ≡ settles none
judge_events_ends room [] after raw h e = rw e refl
judge_events_ends room (ev ∷ before) after raw h e =
    rw h.0 (judge_events_ends room before after raw h.1 e)

-- An event of the room's state that names no protocol: it has no content, or one that is not empty
-- and gives no protocol, neither by its id nor by the name of its bot.
abbrev pub NamesNone : Room → Json → Type 0
NamesNone room raw =
    (get (codes "content") raw ≡ none)
    ⊎ ((content : Json) × (get (codes "content") raw ≡ some content)
        × (no_fields content ≡ false)
        × (protocol_id room.parse_user content ≡ none))

judge_event-none :
    (room : Room) (raw : Json) → NamesNone room raw → judge_event room (some raw) ≡ settles none
unfolding judge_event judge_raw judge_content
judge_event-none room raw (inl e) = ap (judge_raw room raw) e
judge_event-none room raw (inr (content, e, f, p)) = ap (judge_raw room raw) e ∙ rw (f, p) refl

-- A bridge event that names no protocol ends the whole detection: whatever events follow it,
-- under the older kind too, and whoever the members are, the room is bridged to nothing.
pub detect_ends :
    (room : Room) (before after : List (Option Json)) (raw : Json)
    → room.state_events (codes "m.bridge") ≡ some (before ++ some raw ∷ after)
    → All (λ ev. judge_event room ev ≡ skips) before
    → NamesNone room raw
    → detect room ≡ none
unfolding detect
detect_ends room before after raw e h n =
    ap
      (λ r.
        conclude_with
          (or_verdict r (judge_kind room (room.state_events (codes "uk.half-shot.bridge"))))
          (by_members room))
      (ap (judge_kind room) e
        ∙ judge_events_ends room before after raw h (judge_event-none room raw n))
