-- ===== src/Community/Pending.antt =====
-- The joiner of the community's rooms as a whole (src/community.rs: `join_rooms`): the rooms that are
-- pending by the listing, their joining, and the dropping of the listing.
use omarchy_chatd.Base.{ℕ, ◌+◌, ◌⊎◌, Bool, not, ◌&&◌, List, [], map, keep, Text}
use omarchy_chatd.Community.Policy.{Client, get_room, space_id}
use omarchy_chatd.Community.Listing.{
  CommunityRoom, Summary, Cache, forget, Outcome, ok, err, hierarchy,
}
use omarchy_chatd.Community.Leaving.{is_joined}
use omarchy_chatd.Community.Joining.{Answer, Joiner, join_pending}

-- A listed room that the client is not in.
unfoldable pub is_pending : Client → (Text → Bool) → Text → Bool
is_pending c is_room_id id = is_room_id id && not (is_joined (get_room c id))

abbrev pub listed_ids : List CommunityRoom → List Text
listed_ids rooms = map (λ r. r.id) rooms

-- The rooms to join; none where there is no listing.
unfoldable pub pending_rooms : Client → (Text → Bool) → Outcome → List Text
unfolding is_pending
pending_rooms c is_room_id (err why) = []
pending_rooms c is_room_id (ok h) = keep (is_pending c is_room_id) (listed_ids h.rooms)

-- `join_rooms` at a time: what the joiner leaves, and the cache of listings.
unfoldable pub join_rooms :
    ℕ
    → Client
    → (Text → Bool)
    → Text
    → Text
    → (List Summary) ⊎ Text
    → (Text → ℕ → Answer)
    → Joiner
    → Cache
    → Joiner × Cache
unfolding hierarchy pending_rooms join_pending
join_rooms now c is_room_id alias space_id listing answer s cache =
    let (o, _, cache') = hierarchy now alias space_id listing cache in
    let s' = join_pending answer (pending_rooms c is_room_id o) s in
    (record s' { announced = s'.announced + 1 }, forget alias cache')
