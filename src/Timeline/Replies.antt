-- ===== src/Timeline/Replies.antt =====
-- A page of a thread has each reply once, and not the root (src/core.rs: `thread`).
use mathlib.Core.Path.{subst}
use omarchy_chatd.Timeline.Events.{Event, is_thread_reply}
use omarchy_chatd.Timeline.Page.{
  has_id, cut_of, Loaded, page, failed, slice_or_empty, Verdict, stop, give_up, go_on, judge, walk,
  page_of, clamp_limit, anchor_of,
}
use omarchy_chatd.Timeline.Walk.{shows}
use omarchy_chatd.Timeline.Pages.{walk-IsPage}
use omarchy_chatd.Timeline.Thread.{
  ThreadCache, same_id, is_new, prepend_batch, conclude_thread, after_batch, load_thread, load_from,
  ThreadPage, replies, no_replies, thread_page, thread,
}
use omarchy_chatd.Base.{
  ℕ, zero, suc, ◌+◌, ◌-◌, ◌≤◌, min, max, ◌≡◌, refl, sym, inl, inr, Bool, true, false, not, Option,
  none, some, List, [], ◌∷◌, reverse, arith, Bool-cases, length, take, drop, any, all, keep, All,
  All-append, All-take, All-filter, All-drop, All-reverse, All-kept, Pairwise, Pairwise-keep,
  Pairwise-take, Pairwise-drop, Pairwise-append, Pairwise-reverse, Text, text_eq, text_eq_sound,
  text_eq_iff,
}

-- Two events have different ids, or one has an id and the other none.
abbrev pub Differ : Event → Event → Type 0
Differ e d = same_id e.event_id d.event_id ≡ false

-- No two events have the same id, and none is the root.
pub record IsThread (root : Text) (evs : List Event) : Type 0 where
  pub rootless : All (λ ev. has_id root ev ≡ false) evs
  pub once : Pairwise Differ evs

-- What the server gives: no batch names an event twice.
abbrev pub IsDistinctBatch : Option (List Event × Bool) → Type 0
IsDistinctBatch none = Unit
IsDistinctBatch (some (batch, reached)) = Pairwise Differ batch

abbrev pub IsDistinctStart : Option (List Event) → Type 0
IsDistinctStart none = Unit
IsDistinctStart (some known) = Pairwise Differ known

same_id_sym : (i j : Option Text) → same_id i j ≡ false → same_id j i ≡ false
same_id_sym none none h = h
same_id_sym none (some j) h = refl
same_id_sym (some i) none h = refl
same_id_sym (some i) (some j) h = elim (Bool-cases (text_eq j i)) [
  | inl e ↦ let s = (text_eq_iff i j).1 (sym (text_eq_sound j i e)) in absurd (cc)
  | inr e ↦ e
]

is_new_root :
    (root : Text) (all : List Event) (ev : Event)
    → is_new root all ev ≡ true
    → has_id root ev ≡ false
unfolding is_new
is_new_root root all ev h = ground arith

any-false :
    (id : Option Text) (all : List Event)
    → any (λ (x : Event). same_id x.event_id id) all ≡ false
    → All (λ x. same_id id x.event_id ≡ false) all
any-false id [] h = tt
any-false id (x ∷ all) h =
    (same_id_sym x.event_id id (ground arith), any-false id all (ground arith))

is_new_differs :
    (root : Text) (all : List Event) (ev : Event) → is_new root all ev ≡ true → All (Differ ev) all
unfolding is_new
is_new_differs root all ev h = any-false ev.event_id all (ground arith)

prepend-IsThread :
    (root : Text) (batch all : List Event)
    → Pairwise Differ batch
    → IsThread root all
    → IsThread root (prepend_batch root batch all)
unfolding prepend_batch
prepend-IsThread root batch all d t =
    let new = keep (is_new root all) batch in
    record {
      rootless =
          All-append (λ ev. has_id root ev ≡ false) (reverse new) all
            (All-reverse (λ ev. has_id root ev ≡ false) new
              (All-kept (λ ev. has_id root ev ≡ false) (is_new root all) batch
                (is_new_root root all)))
            t.rootless;
      once =
          Pairwise-append Differ (reverse new) all
            (Pairwise-reverse Differ (λ e d. same_id_sym e.event_id d.event_id) new
              (Pairwise-keep Differ (is_new root all) batch d))
            t.once
            (All-reverse (λ ev. All (Differ ev) all) new
              (All-kept (λ ev. All (Differ ev) all) (is_new root all) batch
                (is_new_differs root all)));
    }

take-IsThread :
    (root : Text) (n : ℕ) (evs : List Event) → IsThread root evs → IsThread root (take n evs)
take-IsThread root n evs t = record {
  rootless = All-take (λ ev. has_id root ev ≡ false) n evs t.rootless;
  once = Pairwise-take Differ n evs t.once;
}

abbrev PageIsThread : Text → Loaded → Type 0
PageIsThread root (page slice reached) = IsThread root slice
PageIsThread root (failed f) = Unit

judge-IsThread :
    (root : Text) (limit : ℕ) (cut : Option ℕ) (all slice : List Event) (reached : Bool)
    → judge is_thread_reply limit cut all reached ≡ stop slice
    → IsThread root all
    → IsThread root slice
unfolding judge
judge-IsThread root limit none all slice reached e t = absurd (ground arith)
judge-IsThread root limit (some c) all slice reached e t =
    let same : take c all ≡ slice = ground arith in
    subst (IsThread root) same (take-IsThread root c all t)

slice_or_empty-IsThread :
    (root : Text) (cut : Option ℕ) (all : List Event)
    → IsThread root all
    → IsThread root (slice_or_empty cut all)
slice_or_empty-IsThread root none all t = record { rootless = tt; once = tt }
slice_or_empty-IsThread root (some c) all t = take-IsThread root c all t

module _ (cache : ThreadCache) (root : Text) (limit : ℕ) (before : Option Text)
    (distinct : (n size : ℕ) → IsDistinctBatch (cache.older_batch n size)) where
  conclude-IsThread :
      (v : Verdict) (cut : Option ℕ) (all : List Event) (reached : Bool) (further : Loaded)
      → judge is_thread_reply limit cut all reached ≡ v
      → IsThread root all
      → PageIsThread root further
      → PageIsThread root (conclude_thread cache root limit before v reached further)
  unfolding conclude_thread
  conclude-IsThread (stop slice) cut all reached further e t f =
      judge-IsThread root limit cut all slice reached e t
  conclude-IsThread give_up cut all reached further e t f = tt
  conclude-IsThread go_on cut all reached further e t f = f

  after_batch-IsThread :
      (again : List Event → Bool → Loaded) (all : List Event) (answer : Option (List Event × Bool))
      → IsDistinctBatch answer
      → IsThread root all
      → ((evs : List Event) (r : Bool) → IsThread root evs → PageIsThread root (again evs r))
      → PageIsThread root (after_batch cache root limit before again all answer)
  unfolding after_batch
  after_batch-IsThread again all none d t ih = tt
  after_batch-IsThread again all (some (batch, reached)) d t ih =
      ih (prepend_batch root batch all) reached (prepend-IsThread root batch all d t)

  load_thread-IsThread :
      (left n : ℕ) (all : List Event) (reached : Bool)
      → IsThread root all
      → PageIsThread root (load_thread cache root limit before left n all reached)
  unfolding load_thread
  load_thread-IsThread zero n all reached t =
      let cut = cut_of before all in
      conclude-IsThread (judge is_thread_reply limit cut all reached) cut all reached
        (page (slice_or_empty cut all) reached) refl t (slice_or_empty-IsThread root cut all t)
  load_thread-IsThread (suc left) n all reached t =
      let cut = cut_of before all in
      conclude-IsThread (judge is_thread_reply limit cut all reached) cut all reached _ refl t (
        after_batch-IsThread (load_thread cache root limit before left (n + 1)) all
          (cache.older_batch n (max limit 40)) (distinct n (max limit 40)) t
          (load_thread-IsThread left (n + 1)))

  load_from-IsThread :
      (known : Option (List Event))
      → IsDistinctStart known
      → PageIsThread root (load_from cache root limit before known)
  unfolding load_from
  load_from-IsThread none d = tt
  load_from-IsThread (some known) d =
      load_thread-IsThread 12 0 (keep (λ ev. not (has_id root ev)) known) false (record {
        rootless =
            All-kept (λ ev. has_id root ev ≡ false) (λ ev. not (has_id root ev)) known
              (λ ev h. ground arith);
        once = Pairwise-keep Differ (λ ev. not (has_id root ev)) known d;
      })

-- The replies of a page: at most as many as asked for, none of them the root, a redaction or an edit,
-- and none twice.
abbrev pub IsThreadPage : Text → ℕ → ThreadPage → Type 0
IsThreadPage root limit (no_replies f) = Unit
IsThreadPage root limit (replies out next at_start) =
    (length out ≤ limit) × All (λ ev. shows is_thread_reply ev ≡ true) out × IsThread root out

thread_page-IsThreadPage :
    (root : Text) (limit : ℕ) (r : Loaded)
    → PageIsThread root r
    → IsThreadPage root limit (thread_page limit r)
unfolding thread_page page_of
thread_page-IsThreadPage root limit (failed f) t = tt
thread_page-IsThreadPage root limit (page slice reached) t =
    let p = walk-IsPage is_thread_reply limit slice in
    let k = length slice - (walk is_thread_reply limit slice).consumed in
    let shown = keep (shows is_thread_reply) (drop k slice) in
    let all_shown : All (λ ev. shows is_thread_reply ev ≡ true) shown =
      All-kept (λ ev. shows is_thread_reply ev ≡ true) (shows is_thread_reply) (drop k slice)
        (λ ev h. h) in
    let threaded : IsThread root shown = record {
      rootless =
          All-filter (λ ev. has_id root ev ≡ false) (shows is_thread_reply) (drop k slice)
            (All-drop (λ ev. has_id root ev ≡ false) k slice t.rootless);
      once =
          Pairwise-keep Differ (shows is_thread_reply) (drop k slice)
            (Pairwise-drop Differ k slice t.once);
    } in
    (
      p.bounded,
      subst (All (λ ev. shows is_thread_reply ev ≡ true)) (sym p.lines) all_shown,
      subst (IsThread root) (sym p.lines) threaded,
    )

-- However the server cuts a thread into batches, also where they overlap with what is held, as long as
-- none names an event twice: a page of a thread has at most 200 replies and at most the limit if that
-- is not 0, all of them lines of a thread, no reply twice, and not the root.
pub thread-IsThreadPage :
    (cache : ThreadCache) (root : Text) (limit : ℕ) (before : Option Text)
    → IsDistinctStart cache.initial
    → ((n size : ℕ) → IsDistinctBatch (cache.older_batch n size))
    → IsThreadPage root (min (max limit 1) 200) (thread cache root limit before)
unfolding thread
thread-IsThreadPage cache root limit before d distinct =
    thread_page-IsThreadPage root (clamp_limit limit)
      (load_from cache root (clamp_limit limit) (anchor_of before) cache.initial)
      (load_from-IsThread cache root (clamp_limit limit) (anchor_of before) distinct cache.initial
        d)
