-- ===== src/Rooms/Listed.antt =====
-- The list of rooms: its order, and how often the server is asked (src/core.rs: `rooms`, `room_info`,
-- `activity_of`).
use omarchy_chatd.Rooms.Info.{RoomInfo, stays_first}
use omarchy_chatd.Search.Members.{text_leb}
use omarchy_chatd.Base.{◌<◌, ◌≡◌, refl, ◌⊎◌, true, false, [], ◌∷◌, arith, Text}

-- The order of texts is total and transitive.
text_leb_flips : (s t : Text) → text_leb s t ≡ false → text_leb t s ≡ true
unfolding text_leb
text_leb_flips [] t h = absurd (cc)
text_leb_flips (c ∷ s) [] h = refl
text_leb_flips (c ∷ s) (d ∷ t) h = ground (arith, text_leb_flips s t)

text_leb_trans : (s t u : Text) → text_leb s t ≡ true → text_leb t u ≡ true → text_leb s u ≡ true
unfolding text_leb
text_leb_trans [] t u h k = refl
text_leb_trans (c ∷ s) [] u h k = absurd (cc)
text_leb_trans (c ∷ s) (d ∷ t) [] h k = absurd (cc)
text_leb_trans (c ∷ s) (d ∷ t) (e ∷ u) h k = ground (arith, text_leb_trans s t u)

-- The order of the list: more unread messages first, then by name.
abbrev pub Before : RoomInfo → RoomInfo → Type 0
Before a b = (b.unread < a.unread) ⊎ ((a.unread ≡ b.unread) × (text_leb a.name b.name ≡ true))

pub stays_first-Before : (a b : RoomInfo) → stays_first a b ≡ true → Before a b
unfolding stays_first
stays_first-Before a b h = ground arith

pub stays_first-flips : (a b : RoomInfo) → stays_first a b ≡ false → Before b a
unfolding stays_first
stays_first-flips a b h = ground (arith, text_leb_flips a.name b.name)

pub Before-trans : (a b c : RoomInfo) → Before a b → Before b c → Before a c
Before-trans a b c h k = ground (arith, text_leb_trans a.name b.name c.name)
