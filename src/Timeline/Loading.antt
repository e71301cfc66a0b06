-- ===== src/Timeline/Loading.antt =====
-- When the loading of a page stops (src/core.rs: the loop of `timeline`).
use omarchy_chatd.Base.{
  ℕ, zero, suc, ◌≤◌, max, ◌≡◌, refl, ◌⊎◌, Bool, true, false, Option, none, some, List, [], arith,
  Text,
}
use omarchy_chatd.Timeline.Events.{Event, is_message_like}
use omarchy_chatd.Timeline.Page.{
  Cache, cut_of, have_of, Loaded, page, failed, slice_or_empty, tail_of, Verdict, stop, give_up,
  go_on, judge, count_page, conclude, after_pagination, paginate, round_on, round, load_page,
  page_of,
}

-- Why a page was cut: it is full, the start of the room is reached, or all rounds are used.
abbrev pub IsSettled : ℕ → ℕ → Loaded × ℕ → Type 0
IsSettled limit left (page slice reached, n) =
    (n ≤ left) × ((limit ≤ have_of is_message_like limit slice) ⊎ ((reached ≡ true) ⊎ (n ≡ left)))
IsSettled limit left (failed f, n) = n ≤ left

count_page-IsSettled :
    (limit left : ℕ) (r : Loaded × ℕ)
    → IsSettled limit left r
    → IsSettled limit (suc left) (count_page r)
count_page-IsSettled limit left (page slice reached, n) h = ground (arith, h)
count_page-IsSettled limit left (failed f, n) h = omega arith

judge_stop :
    (limit : ℕ) (cut : Option ℕ) (known : List Event) (reached : Bool) {slice : List Event}
    → judge is_message_like limit cut known reached ≡ stop slice
    → (limit ≤ have_of is_message_like limit slice) ⊎ (reached ≡ true)
unfolding judge
judge_stop limit none known reached h = ground arith
judge_stop limit (some cut) known reached h = ground arith

conclude-IsSettled :
    (limit left : ℕ) (cut : Option ℕ) (known : List Event) (reached : Bool) (further : Loaded × ℕ)
    → IsSettled limit left further
    → IsSettled limit left
        (conclude (judge is_message_like limit cut known reached) reached further)
conclude-IsSettled limit left cut known reached further h =
    by_verdict (judge is_message_like limit cut known reached) refl
  where
    by_verdict :
        (v : Verdict)
        → judge is_message_like limit cut known reached ≡ v
        → IsSettled limit left (conclude v reached further)
    by_verdict (stop slice) e =
        unfold conclude in ground (arith, judge_stop limit cut known reached e)
    by_verdict give_up e = unfold conclude in omega arith
    by_verdict go_on e = unfold conclude in h

module _ (cache : Cache) where
  open cache use {Held, events, listing, run_backwards_once}

  round_on-IsSettled :
      (limit left : ℕ) (before : Option Text) (reached : Bool) (shown : List Text)
      (further : Option ℕ → List Event → Loaded × ℕ)
      → ((cut : Option ℕ) (known : List Event) → IsSettled limit left (further cut known))
      → (read : Option (List Event))
      → IsSettled limit left (round_on cache limit before reached shown further read)
  unfolding round_on
  round_on-IsSettled limit left before reached shown further h none = omega arith
  round_on-IsSettled limit left before reached shown further h (some known) =
      let evs = tail_of known shown in
      conclude-IsSettled limit left (cut_of before evs) evs reached
        (further (cut_of before evs) evs) (h (cut_of before evs) evs)

  after_pagination-IsSettled :
      (limit left : ℕ) (again : Bool → Held → Loaded × ℕ)
      → ((reached : Bool) (held' : Held) → IsSettled limit left (again reached held'))
      → (outcome : Option (Bool × Held))
      → IsSettled limit (suc left) (after_pagination cache again outcome)
  unfolding after_pagination
  after_pagination-IsSettled limit left again h none = omega arith
  after_pagination-IsSettled limit left again h (some (reached, held')) =
      count_page-IsSettled limit left (again reached held') (h reached held')

  -- Whatever the cache and the server do, a page is loaded with at most `left` back-paginations, and
  -- it is cut only where it holds `limit` lines, or the start of the room is reached, or all the
  -- rounds are used.
  pub load_page-IsSettled :
      (limit left : ℕ) (before : Option Text) (reached : Bool) (held : Held)
      → IsSettled limit left (load_page cache limit before left reached held)
  unfolding load_page round paginate
  load_page-IsSettled limit zero before reached held =
      round_on-IsSettled limit zero before reached (listing held)
        (λ cut known. (page (slice_or_empty cut known) reached, 0)) (λ cut known. ground arith)
        (events held)
  load_page-IsSettled limit (suc left) before reached held =
      round_on-IsSettled limit (suc left) before reached (listing held)
        (λ cut known. paginate cache limit held (load_page cache limit before left))
        (λ cut known.
          after_pagination-IsSettled limit left (load_page cache limit before left)
            (load_page-IsSettled limit left before) (run_backwards_once (max limit 40) held))
        (events held)

  -- What the last round does where the anchor is not found.
  round_on_lost :
      (limit : ℕ) (id : Text) (shown : List Text) (known : List Event)
      → cut_of (some id) (tail_of known shown) ≡ none
      → round_on cache limit
          (some id)
          false
          shown
          (λ cut all. (page (slice_or_empty cut all) false, 0))
          (some known)
        ≡ (page [] false, 0)
  unfolding round_on judge conclude
  round_on_lost limit id shown known c = rw c refl

  -- When the anchor is still not found in the last round and the start is not reached, the page is
  -- empty and names no further page, as at the end of the history.
  lost_anchor :
      (limit : ℕ) (id : Text) (held : Held) (known : List Event)
      → events held ≡ some known
      → cut_of (some id) (tail_of known (listing held)) ≡ none
      → (load_page cache limit (some id) 0 false held ≡ (page [] false, 0))
        × (page_of is_message_like limit [] false ≡ ([], none))
  unfolding load_page page_of round
  lost_anchor limit id held known e c = (rw e (round_on_lost limit id (listing held) known c), refl)
