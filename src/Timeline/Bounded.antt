-- ===== src/Timeline/Bounded.antt =====
-- The bounds of a request for a page (src/core.rs: `timeline`).
use mathlib.Core.Path.{subst}
use omarchy_chatd.Base.{
  ℕ, ◌-◌, ◌≤◌, min, max, ◌≡◌, sym, inl, inr, Bool, true, false, Option, List, [], ◌∷◌, Bool-cases,
  length, drop, keep, All, Text,
}
use omarchy_chatd.Timeline.Events.{Event, is_message_like}
use omarchy_chatd.Timeline.Page.{
  Cache, Loaded, page, failed, load_page, walk, page_of, Reply, page_reply, no_page, reply_of,
  clamp_limit, anchor_of, timeline,
}
use omarchy_chatd.Timeline.Walk.{is_line}
use omarchy_chatd.Timeline.Pages.{walk-IsPage}
use omarchy_chatd.Timeline.Loading.{IsSettled, load_page-IsSettled}

-- A page of lines only, no more than the limit.
abbrev pub IsReply : ℕ → Reply → Type 0
IsReply limit (page_reply out next) = (length out ≤ limit) × All (λ e. is_line e ≡ true) out
IsReply limit (no_page f) = Unit

All-keep : (p : Event → Bool) (evs : List Event) → All (λ e. p e ≡ true) (keep p evs)
All-keep p [] = tt
All-keep p (e ∷ evs) = elim (Bool-cases (p e)) [
  | inl h ↦ rw h (h, All-keep p evs)
  | inr h ↦ rw h (All-keep p evs)
]

reply_of-IsReply :
    (limit : ℕ) (left : ℕ) (r : Loaded × ℕ)
    → IsSettled limit left r
    → IsReply limit (reply_of limit r).0 × ((reply_of limit r).1 ≤ left)
unfolding page_of
reply_of-IsReply limit left (page slice reached, n) h =
    let p = walk-IsPage is_message_like limit slice in
    let c = (walk is_message_like limit slice).consumed in
    (
      (
        p.bounded,
        subst (All (λ e. is_line e ≡ true)) (sym p.lines)
            (All-keep is_line (drop (length slice - c) slice)),
      ),
      h.0,
    )
reply_of-IsReply limit left (failed f, n) h = (tt, h)

-- A request for a page, whatever its limit and the cache's answers, makes at most 12
-- back-paginations, and a page that it returns has at most 200 events, at most the limit if that is
-- not 0, all of them lines.
pub timeline-IsReply :
    (cache : Cache) (limit : ℕ) (before : Option Text) (held : cache.Held)
    → let (reply, n) = timeline cache limit before held in
      IsReply (min (max limit 1) 200) reply × (n ≤ 12)
unfolding timeline
timeline-IsReply cache limit before held =
    reply_of-IsReply (clamp_limit limit) 12
      (load_page cache (clamp_limit limit) (anchor_of before) 12 false held)
      (load_page-IsSettled cache (clamp_limit limit) 12 (anchor_of before) false held)
