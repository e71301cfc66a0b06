-- ===== src/Search/Members.antt =====
-- The list of a room's members, and the preview of a link (src/core.rs: `members`, `role_of`,
-- `power_i64`, `preview`; src/protocol.rs: `MemberInfo`, `LinkPreview`).
use omarchy_chatd.Bridge.Names.{display_name, protocol_of_user}
use omarchy_chatd.Json.{Json, null, get, as_str, ◌>>=◌}
use Prim.Native.Nat.{compare, Ordering, lt, eq, gt}
use omarchy_chatd.Base.{
  ℕ, ◌-◌, ◌^◌, min, max, Bool, true, false, ◌||◌, Option, none, some, List, [], ◌∷◌, map, leb,
  if◌then◌else◌, take, keep, sort_by, Text, codes, is_empty, starts_with, contains, trim,
}

-- A signed number; `negsuc n` is -(n + 1).
pub data ℤ : Type 0 where
  pos : ℕ → ℤ
  negsuc : ℕ → ℤ

-- The power of a member: beyond all levels, or a level.
pub data PowerLevel : Type 0 where
  infinite : PowerLevel
  int : ℤ → PowerLevel

-- `i64::MAX`.
abbrev pub i64_max : ℕ
i64_max = 2 ^ 63 - 1

-- `power_i64`.
unfoldable pub power_i64 : PowerLevel → ℤ
power_i64 infinite = pos i64_max
power_i64 (int i) = i

-- `power >= k`.
abbrev pub at_least : ℕ → ℤ → Bool
at_least k (pos n) = leb k n
at_least k (negsuc n) = false

-- `role_of`.
unfoldable pub role_of : ℤ → Text
role_of power =
    if at_least 100 power
    then codes "admin"
    else (if at_least 50 power then codes "moderator" else codes "member")

-- `MemberInfo`.
pub record MemberInfo : Type 0 where
  pub id : Text
  pub name : Text
  pub avatar : Option Text
  pub power : ℤ
  pub role : Text
  pub via : Option Text

-- A joined member, as the SDK has it.
pub record RoomMember : Type 0 where
  pub user_id : Text
  pub localpart : Text
  pub name : Text
  pub avatar_url : Option Text
  pub power_level : PowerLevel

network_of : (ℕ → Text) → Option Text → Option Text
network_of to_uppercase none = none
network_of to_uppercase (some protocol) = some (display_name to_uppercase protocol)

unfoldable pub member_info : (ℕ → Text) → RoomMember → MemberInfo
unfolding network_of role_of power_i64
member_info to_uppercase m = record {
  id = m.user_id;
  name = m.name;
  avatar = m.avatar_url;
  power = power_i64 m.power_level;
  role = role_of (power_i64 m.power_level);
  via = network_of to_uppercase (protocol_of_user m.localpart);
}

-- The test of the filter, by the query trimmed and in lower case.
unfoldable pub is_asked_for : (Text → Text) → Text → RoomMember → Bool
unfolding contains
is_asked_for to_lowercase q m =
    is_empty q || contains (to_lowercase m.name) q || contains (to_lowercase m.user_id) q

-- The order of two signed numbers, and of two texts.
abbrev pub compare_ℤ : ℤ → ℤ → Ordering
compare_ℤ (pos a) (pos b) = compare a b
compare_ℤ (pos a) (negsuc b) = gt
compare_ℤ (negsuc a) (pos b) = lt
compare_ℤ (negsuc a) (negsuc b) = compare b a

unfoldable pub text_leb : Text → Text → Bool
text_leb [] t = true
text_leb (c ∷ s) [] = false
text_leb (c ∷ s) (d ∷ t) =
    let rest = text_leb s t in elim (compare c d) [ lt ↦ true | eq ↦ rest | gt ↦ false ]

-- `b.power.cmp(&a.power).then_with(|| a.name.to_lowercase().cmp(&b.name.to_lowercase()))` is not
-- greater.
unfoldable pub comes_before : (Text → Text) → MemberInfo → MemberInfo → Bool
unfolding text_leb
comes_before to_lowercase a b = elim (compare_ℤ b.power a.power) [
  | lt ↦ true
  | eq ↦ text_leb (to_lowercase a.name) (to_lowercase b.name)
  | gt ↦ false
]

-- `members`, of the members that the server lists.
unfoldable pub members : (Text → Text) → (ℕ → Text) → Text → ℕ → List RoomMember → List MemberInfo
unfolding sort_by comes_before is_asked_for member_info trim
members to_lowercase to_uppercase query limit listed =
    let q = to_lowercase (trim query) in
    take (min (max limit 1) 2000) (
      sort_by (comes_before to_lowercase)
        (map (member_info to_uppercase) (keep (is_asked_for to_lowercase q) listed)))

-- `LinkPreview`.
pub record LinkPreview : Type 0 where
  pub url : Text
  pub title : Option Text
  pub description : Option Text
  pub site : Option Text
  pub image : Option Text

pub data PreviewError : Type 0 where
  not_a_link no_answer unreadable : PreviewError

pub data Previewed : Type 0 where
  previewed : LinkPreview → Previewed
  no_preview : PreviewError → Previewed

-- What the homeserver answers: nothing in time or an error, no preview, one that is no JSON, or one.
pub data PreviewAnswer : Type 0 where
  failed empty not_json : PreviewAnswer
  json : Json → PreviewAnswer

-- A field of a preview, trimmed, unless it is then empty.
unfoldable pub preview_field : Text → Json → Option Text
unfolding get trim
preview_field k v = get k v >>= as_str >>= λ x. if is_empty (trim x) then none else some (trim x)

abbrev pub cut_to : ℕ → Option Text → Option Text
cut_to n none = none
cut_to n (some t) = some (take n t)

abbrev pub only_mxc : Option Text → Option Text
only_mxc none = none
only_mxc (some i) = if starts_with i (codes "mxc://") then some i else none

preview_of : Text → Json → LinkPreview
unfolding preview_field
preview_of url v = record {
  url = url;
  title = cut_to 200 (preview_field (codes "og:title") v);
  description = cut_to 300 (preview_field (codes "og:description") v);
  site = cut_to 100 (preview_field (codes "og:site_name") v);
  image = only_mxc (preview_field (codes "og:image") v);
}

preview_from : Text → PreviewAnswer → Previewed
unfolding preview_of
preview_from url failed = no_preview no_answer
preview_from url empty = previewed (preview_of url null)
preview_from url not_json = no_preview unreadable
preview_from url (json v) = previewed (preview_of url v)

-- `preview`: `answer` is the homeserver's for a link.
unfoldable pub preview : (Text → PreviewAnswer) → Text → Previewed
unfolding preview_from trim
preview answer url =
    let url' = trim url in
    if starts_with url' (codes "http://") || starts_with url' (codes "https://")
    then preview_from url' (answer url')
    else no_preview not_a_link
