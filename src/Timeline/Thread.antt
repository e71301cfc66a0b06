-- ===== src/Timeline/Thread.antt =====
-- Loading and cutting a page of a thread (src/core.rs: `thread`, up to the conversion of its events,
-- and the root that leads the first page).
use omarchy_chatd.Timeline.Events.{Event, is_thread_reply}
use omarchy_chatd.Timeline.Page.{
  has_id, cut_of, Failure, not_read, no_longer_loaded, not_loaded, Loaded, page, failed,
  slice_or_empty, Verdict, stop, give_up, go_on, judge, walk, page_of, clamp_limit, anchor_of,
}
use omarchy_chatd.Base.{
  ℕ, zero, suc, ◌+◌, max, Bool, true, false, not, ◌&&◌, ◌||◌, Option, none, some, List, [], ◌∷◌,
  ◌++◌, reverse, leb, if◌then◌else◌, is_some, length, any, all, keep, Text, text_eq,
}

-- The SDK's cache of a thread: the events held at first, and what each back-pagination gives by its
-- number and its size, newest first, with whether the start is reached; or fails.
pub record ThreadCache : Type 0 where
  pub initial : Option (List Event)
  pub older_batch : ℕ → ℕ → Option (List Event × Bool)

-- Equality of two optional ids.
abbrev pub same_id : Option Text → Option Text → Bool
same_id none none = true
same_id none (some j) = false
same_id (some i) none = false
same_id (some i) (some j) = text_eq i j

-- An event of a batch that is not the root, and not yet held.
unfoldable pub is_new : Text → List Event → Event → Bool
unfolding has_id
is_new root all ev =
    not (has_id root ev) && not (any (λ (x : Event). same_id x.event_id ev.event_id) all)

-- The events after a back-pagination: what is new, oldest first, before the others.
unfoldable pub prepend_batch : Text → List Event → List Event → List Event
unfolding is_new
prepend_batch root batch all = reverse (keep (is_new root all) batch) ++ all

module _ (cache : ThreadCache) (root : Text) (limit : ℕ) (before : Option Text) where
  -- A round of the loop by its verdict; in the last round the loop ends without a pagination.
  unfoldable pub conclude_thread : Verdict → Bool → Loaded → Loaded
  conclude_thread (stop slice) reached_start further = page slice reached_start
  conclude_thread give_up reached_start further = failed no_longer_loaded
  conclude_thread go_on reached_start further = further

  -- The loop after a back-pagination.
  unfoldable pub after_batch :
      (List Event → Bool → Loaded) → List Event → Option (List Event × Bool) → Loaded
  unfolding prepend_batch
  after_batch again all none = failed not_loaded
  after_batch again all (some (batch, reached)) = again (prepend_batch root batch all) reached

  -- The loop, with the rounds that are left, and the number of those made.
  unfoldable pub load_thread : ℕ → ℕ → List Event → Bool → Loaded
  unfolding cut_of judge after_batch conclude_thread
  load_thread zero n all reached =
      let cut = cut_of before all in
      conclude_thread (judge is_thread_reply limit cut all reached) reached
        (page (slice_or_empty cut all) reached)
  load_thread (suc left) n all reached =
      let cut = cut_of before all in
      let further =
        after_batch (load_thread left (n + 1)) all (cache.older_batch n (max limit 40)) in
      conclude_thread (judge is_thread_reply limit cut all reached) reached further

  unfoldable pub load_from : Option (List Event) → Loaded
  unfolding load_thread has_id
  load_from none = failed not_read
  load_from (some known) = load_thread 12 0 (keep (λ ev. not (has_id root ev)) known) false

-- A page of a thread before its conversion: the replies, the anchor of the next page, and whether
-- the thread's start is on it.
pub data ThreadPage : Type 0 where
  replies : List Event → Option Text → Bool → ThreadPage
  no_replies : Failure → ThreadPage

unfoldable pub thread_page : ℕ → Loaded → ThreadPage
thread_page limit (failed f) = no_replies f
thread_page limit (page slice reached) =
    let (out, next) = page_of is_thread_reply limit slice reached in
    let consumed = (walk is_thread_reply limit slice).consumed in
    replies out next (leb (length slice) consumed && reached)

-- `thread`, up to the conversion.
unfoldable pub thread : ThreadCache → Text → ℕ → Option Text → ThreadPage
unfolding load_from thread_page page_of walk
thread cache root limit before =
    thread_page (clamp_limit limit)
      (load_from cache root (clamp_limit limit) (anchor_of before) cache.initial)

-- The root leads the first page, where it can be loaded: where the thread's start is on the page, or
-- no anchor was given and there is no reply.
unfoldable pub lead_by_root {ℓ} : {A : Type ℓ} → Bool → Option Text → Option A → List A → List A
lead_by_root at_start before none out = out
lead_by_root at_start before (some m) [] = if at_start || not (is_some before) then m ∷ [] else []
lead_by_root at_start before (some m) (r ∷ out) = if at_start then m ∷ r ∷ out else r ∷ out
