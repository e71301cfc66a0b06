-- ===== src/Timeline/Page.antt =====
-- Loading and cutting a page of a room's timeline (src/core.rs: `timeline`, up to `next`).
use omarchy_chatd.Base.{
  ℕ, zero, suc, ◌+◌, ◌-◌, min, max, Bool, false, ◌&&◌, ◌||◌, Option, none, some, List, [], ◌∷◌,
  ◌++◌, reverse, leb, ◌==◌, if◌then◌else◌, is_some, length, get_elem?, take, drop, all, keep, Text,
  text_eq, is_empty,
}
use omarchy_chatd.Timeline.Events.{Event, is_message_like}
use omarchy_chatd.Timeline.Chunks.{contiguous_tail}

-- The SDK's event cache of one room, as a parameter: what it holds, its listing, and a step of
-- back-pagination, which says whether the start of the room is reached, or fails.
pub record Cache : Type 1 where
  pub Held : Type 0
  pub events : Held → Option (List Event)
  pub listing : Held → List Text
  pub run_backwards_once : ℕ → Held → Option (Bool × Held)

-- `e.event_id().is_some_and(|x| x.as_str() == id)`.
unfoldable pub has_id : Text → Event → Bool
has_id id ev = elim ev.event_id [ none ↦ false | some x ↦ text_eq x id ]

abbrev pub suc_option : Option ℕ → Option ℕ
suc_option none = none
suc_option (some n) = some (suc n)

-- `Iterator::position`.
abbrev pub position : (Event → Bool) → List Event → Option ℕ
position p [] = none
position p (ev ∷ evs) = let rest = position p evs in if p ev then some 0 else suc_option rest

-- Where the events before the anchor end.
unfoldable pub cut_of : Option Text → List Event → Option ℕ
unfolding has_id
cut_of none all = some (length all)
cut_of (some id) all = position (has_id id) all

-- `slice.iter().rev().filter(..).take(limit).count()`, over the events that are shown.
unfoldable pub have_of : (Event → Bool) → ℕ → List Event → ℕ
have_of is_shown limit slice = length (take limit (keep is_shown (reverse slice)))

pub data Failure : Type 0 where
  not_read no_longer_loaded not_loaded : Failure

-- The end of the loop: the events before the anchor and whether the start was reached, or an error;
-- then the number of back-paginations and the cache.
pub data Loaded : Type 0 where
  page : List Event → Bool → Loaded
  failed : Failure → Loaded

-- `cut.map(|c| all[..c].to_vec()).unwrap_or_default()`.
abbrev pub slice_or_empty : Option ℕ → List Event → List Event
slice_or_empty none all = []
slice_or_empty (some c) all = take c all

-- The events after the last gap of the listing.
unfoldable pub tail_of : List Event → List Text → List Event
tail_of all listing = drop (length all - min (contiguous_tail listing) (length all)) all

-- What a round decides before it paginates: to stop with a page, to fail, or to go on.
pub data Verdict : Type 0 where
  stop : List Event → Verdict
  give_up : Verdict
  go_on : Verdict

unfoldable pub judge : (Event → Bool) → ℕ → Option ℕ → List Event → Bool → Verdict
unfolding have_of
judge is_shown limit (some cut) all reached_start =
    let slice = take cut all in
    if leb limit (have_of is_shown limit slice) || reached_start then stop slice else go_on
judge is_shown limit none all reached_start = if reached_start then give_up else go_on

abbrev pub count_page : Loaded × ℕ → Loaded × ℕ
count_page (r, n) = (r, suc n)

-- What a round does by its verdict; `further` is what follows one that goes on.
unfoldable pub conclude : Verdict → Bool → Loaded × ℕ → Loaded × ℕ
conclude (stop slice) reached_start further = (page slice reached_start, 0)
conclude give_up reached_start further = (failed no_longer_loaded, 0)
conclude go_on reached_start further = further

module _ (cache : Cache) where
  open cache use {Held, events, listing, run_backwards_once}

  -- The loop `again` after a back-pagination, by its outcome.
  unfoldable pub after_pagination : (Bool → Held → Loaded × ℕ) → Option (Bool × Held) → Loaded × ℕ
  after_pagination again none = (failed not_loaded, 0)
  after_pagination again (some (reached, held')) = count_page (again reached held')

  unfoldable pub paginate : ℕ → Held → (Bool → Held → Loaded × ℕ) → Loaded × ℕ
  unfolding after_pagination
  paginate limit held again = after_pagination again (run_backwards_once (max limit 40) held)

  -- One round, on the events the cache holds.
  unfoldable pub round_on :
      ℕ
      → Option Text
      → Bool
      → List Text
      → (Option ℕ → List Event → Loaded × ℕ)
      → Option (List Event)
      → Loaded × ℕ
  unfolding tail_of cut_of judge conclude
  round_on limit before reached_start shown further none = (failed not_read, 0)
  round_on limit before reached_start shown further (some known) =
      let all = tail_of known shown in
      let cut = cut_of before all in
      conclude (judge is_message_like limit cut all reached_start) reached_start (further cut all)

  unfoldable pub round :
      ℕ → Option Text → Bool → Held → (Option ℕ → List Event → Loaded × ℕ) → Loaded × ℕ
  unfolding round_on
  round limit before reached_start held further =
      round_on limit before reached_start (listing held) further (events held)

  -- The loop of `timeline`, with the rounds that are left; the number counts the back-paginations.
  -- The source leaves the loop when its 13th round would paginate.
  unfoldable pub load_page : ℕ → Option Text → ℕ → Bool → Held → Loaded × ℕ
  unfolding round paginate
  load_page limit before zero reached_start held =
      round limit before reached_start held
        (λ cut all. (page (slice_or_empty cut all) reached_start, 0))
  load_page limit before (suc left) reached_start held =
      round limit before reached_start held
        (λ cut all. paginate limit held (load_page limit before left))

abbrev pub text_of : Option Text → Text
text_of none = []
text_of (some t) = t

-- What the walk over a page has gathered: the events to convert, newest first, the ids redacted, how
-- many events were consumed, and how many were lines.
pub record Walk : Type 0 where
  pub to_convert : List Event
  pub redacted : List Text
  pub consumed : ℕ
  pub messages : ℕ

-- The walk, newest first, over the events that `is_shown` makes lines: it stops when the page is full; a redaction is consumed and no line.
unfoldable pub walk_from : (Event → Bool) → ℕ → List Event → Walk → Walk
walk_from is_shown limit [] acc = acc
walk_from is_shown limit (ev ∷ evs) acc =
    let redaction =
      walk_from is_shown limit evs (record acc {
        redacted = text_of ev.redacts ∷ acc.redacted;
        consumed = acc.consumed + 1;
      }) in
    let line = walk_from is_shown limit evs (record acc {
      to_convert = acc.to_convert ++ ev ∷ [];
      consumed = acc.consumed + 1;
      messages = acc.messages + 1;
    }) in
    let other = walk_from is_shown limit evs (record acc { consumed = acc.consumed + 1 }) in
    if leb limit acc.messages
    then acc
    else (if is_some ev.redacts then redaction else (if is_shown ev then line else other))

-- Where the walk starts.
abbrev pub no_walk : Walk
no_walk = record { to_convert = []; redacted = []; consumed = 0; messages = 0 }

unfoldable pub walk : (Event → Bool) → ℕ → List Event → Walk
unfolding walk_from
walk is_shown limit evs = walk_from is_shown limit (reverse evs) no_walk

-- `events[i].event_id()`, at an index within the list.
abbrev pub id_of : Option Event → Option Text
id_of none = none
id_of (some ev) = ev.event_id

abbrev pub id_at : List Event → ℕ → Option Text
id_at evs i = id_of (get_elem? evs i)

-- The anchor of the page after this one.
unfoldable pub next_of : List Event → Bool → ℕ → Option Text
next_of evs reached_start consumed =
    if (leb (length evs) consumed && reached_start) || consumed == 0
    then none
    else id_at evs (length evs - consumed)

-- A page's events, oldest first, and the anchor of the next: what `timeline` and `thread` return,
-- the events not yet converted to messages.
unfoldable pub page_of : (Event → Bool) → ℕ → List Event → Bool → List Event × Option Text
unfolding walk next_of
page_of is_shown limit slice reached_start =
    let w = walk is_shown limit slice in
    (reverse w.to_convert, next_of slice reached_start w.consumed)

-- What `timeline` returns: the page's events, not yet converted, and the anchor of the next; or an
-- error.
pub data Reply : Type 0 where
  page_reply : List Event → Option Text → Reply
  no_page : Failure → Reply

abbrev pub reply_of : ℕ → Loaded × ℕ → Reply × ℕ
reply_of limit (page slice reached_start, n) =
    let (out, next) = page_of is_message_like limit slice reached_start in (page_reply out next, n)
reply_of limit (failed f, n) = (no_page f, n)

-- `limit.clamp(1, 200)`.
abbrev pub clamp_limit : ℕ → ℕ
clamp_limit limit = min (max limit 1) 200

-- `before.filter(|t| !t.is_empty())`.
abbrev pub anchor_of : Option Text → Option Text
anchor_of none = none
anchor_of (some t) = if is_empty t then none else some t

-- `timeline` of a room whose cache is open: the reply, and how many back-paginations it took.
unfoldable pub timeline : (cache : Cache) → ℕ → Option Text → cache.Held → Reply × ℕ
unfolding load_page page_of
timeline cache limit before held =
    reply_of (clamp_limit limit)
      (load_page cache (clamp_limit limit) (anchor_of before) 12 false held)
