-- ===== src/Timeline/Pages.antt =====
-- Reading page after page gives every line once, in order (src/core.rs: `timeline`, `thread`).
use omarchy_chatd.Base.{
  ℕ, zero, suc, ◌-◌, ◌≤◌, ◌<◌, ◌≡◌, refl, sym, ap, ◌∙◌, ◌≢◌, ◌⊎◌, inl, inr, Bool, true, false,
  Option, none, some, List, [], ◌∷◌, ◌++◌, reverse, arith, Option-cases, is_some, length, get_elem?,
  take, drop, all, keep, length-take, length-drop, take-append-drop, length-keep, All,
  length-reverse, reverse-take-reverse, keep-append, keep-reverse, take-take, get_elem?-take,
  get_elem?-lt, All-get_elem?, Text, text_eq_refl, text_eq_iff,
}
use native.Mathlib.Decide.{dec_lt}
use omarchy_chatd.Timeline.Events.{Event}
use omarchy_chatd.Timeline.Page.{
  has_id, suc_option, position, cut_of, walk_from, no_walk, walk, id_of, id_at, next_of, page_of,
}
use omarchy_chatd.Timeline.Walk.{shows, walk_from-IsWalked}

-- Every event has an id, and no two have the same.
abbrev pub HasIds : List Event → Type 0
HasIds evs = All (λ e. is_some e.event_id ≡ true) evs

abbrev pub IsDistinct : List Event → Type 0
IsDistinct [] = Unit
IsDistinct (e ∷ evs) = All (λ d. d.event_id ≢ e.event_id) evs × IsDistinct evs

has_id_other : (id : Text) (x : Event) → x.event_id ≢ some id → has_id id x ≡ false
unfolding has_id
has_id_other id x h = elim (Option-cases x.event_id) [
  | inl o ↦ rw o
  | inr (y, o) ↦ ground (arith, text_eq_iff y id)
]

has_id_self : (id : Text) (x : Event) → x.event_id ≡ some id → has_id id x ≡ true
unfolding has_id
has_id_self id x h = rw h (text_eq_refl id)

-- The anchor of an event is found at its place.
position_lem :
    (id : Text) (i : ℕ) (evs : List Event) (e : Event)
    → IsDistinct evs
    → get_elem? evs i ≡ some e
    → e.event_id ≡ some id
    → position (has_id id) evs ≡ some i
position_lem id i [] e d g h = cc
position_lem id zero (x ∷ evs) e d g h =
    let same : x ≡ e = cc in rw (has_id_self id x (ap (λ y. y.event_id) same ∙ h))
position_lem id (suc i) (x ∷ evs) e (n, d) g h =
    let differs : e.event_id ≢ x.event_id =
      All-get_elem? (λ y. y.event_id ≢ x.event_id) i evs e n g in
    rw (has_id_other id x (λ o. differs (h ∙ sym o)))
      (ap suc_option (position_lem id i evs e d g h))

-- What a client that reads on does with a page: the pages before it come first.
abbrev join : List Event → Option (List Event) → Option (List Event)
join out none = none
join out (some older) = some (older ++ out)

-- The reading on from an anchor, if there is one.
abbrev follow : (Option Text → Option (List Event)) → Option Text → Option (List Event)
follow again none = some []
follow again (some id) = again (some id)

next_of_end : (slice : List Event) (c : ℕ) → c ≡ length slice → next_of slice true c ≡ none
unfolding next_of
next_of_end slice c e = ground arith

next_of_more :
    (slice : List Event) (c : ℕ)
    → 0 < c
    → c < length slice
    → next_of slice true c ≡ id_at slice (length slice - c)
unfolding next_of
next_of_more slice c p q = ground arith

-- The anchor of a page is that of the event at its place, which has one.
anchor_lem :
    (all : List Event) (k : ℕ)
    → HasIds all
    → IsDistinct all
    → k < length all
    → (id : Text) × (id_at all k ≡ some id) × (cut_of (some id) all ≡ some k)
unfolding cut_of
anchor_lem all k i d h =
    let (e, g) = get_elem?-lt k all h in
    let named = All-get_elem? (λ x. is_some x.event_id ≡ true) k all e i g in
    let (id, o) = some_of e.event_id named in (id, rw g o, position_lem id k all e d g o)
  where
    some_of : (o : Option Text) → is_some o ≡ true → (id : Text) × (o ≡ some id)
    some_of none h = absurd (cc)
    some_of (some id) h = (id, refl)

-- The anchor that a page gives is that of the event at which it begins.
next_lem :
    (evs : List Event) (n c : ℕ)
    → n ≤ length evs
    → 0 < c
    → c < n
    → next_of (take n evs) true c ≡ id_at evs (n - c)
next_lem evs n c m p q =
    let long : length (take n evs) ≡ n = omega (arith, length-take n evs) in
    next_of_more (take n evs) c p (omega arith)
    ∙ ap (λ k. id_at (take n evs) (k - c)) long
    ∙ ap id_of (get_elem?-take n (n - c) evs (omega arith))

module _ (is_shown : Event → Bool) where
  -- The events taken for a page: the walk's lines are the last of the slice, in order.
  pub record IsPage (limit : ℕ) (slice : List Event) (out : List Event) (consumed : ℕ)
      : Type 0 where
    pub within : consumed ≤ length slice
    pub lines : out ≡ keep (shows is_shown) (drop (length slice - consumed) slice)
    pub full : (limit ≤ length out) ⊎ (consumed ≡ length slice)
    pub bounded : length out ≤ limit

  pub walk-IsPage :
      (limit : ℕ) (slice : List Event)
      → IsPage limit slice
          (reverse (walk is_shown limit slice).to_convert)
          (walk is_shown limit slice).consumed
  unfolding walk
  walk-IsPage limit slice =
      let w = walk_from-IsWalked is_shown limit (reverse slice) no_walk in
      let end = walk_from is_shown limit (reverse slice) no_walk in
      let long = length-reverse slice in
      let fits : w.taken ≤ length slice = omega (arith, w.within, long) in
      let same : end.consumed ≡ w.taken = omega (arith, w.consumed) in
      let size : length (reverse end.to_convert) ≡ end.messages =
        omega (arith, length-reverse end.to_convert, ap length w.gathered, w.counted) in
      record {
        within = omega arith;
        lines =
            ap reverse w.gathered
            ∙ sym (keep-reverse (shows is_shown) (take w.taken (reverse slice)))
            ∙ ap (keep (shows is_shown)) (reverse-take-reverse w.taken slice fits)
            ∙ ap (λ n. keep (shows is_shown) (drop (length slice - n) slice)) (sym same);
        full = ground (arith, w.ended);
        bounded = omega (arith, w.bounded (omega arith));
      }

  -- The page at a cut, and the reading on by `again` from its anchor.
  abbrev read_page :
      ℕ → List Event → (Option Text → Option (List Event)) → Option ℕ → Option (List Event)
  read_page limit all again none = none
  read_page limit all again (some cut) =
      let (out, next) = page_of is_shown limit (take cut all) true in join out (follow again next)

  -- Asking for page after page, each with the anchor that the last one gave, until none is left; the
  -- cache holds the whole room. `none` is that an anchor is not found or the fuel runs out.
  pub read_all : ℕ → List Event → ℕ → Option Text → Option (List Event)
  read_all limit all zero before = none
  read_all limit all (suc fuel) before =
      read_page limit all (read_all limit all fuel) (cut_of before all)

  -- What lies before a page, with the page, is what lies before its cut.
  whole_lem :
      (limit n c : ℕ) (evs out : List Event)
      → n ≤ length evs
      → IsPage limit (take n evs) out c
      → keep (shows is_shown) (take (n - c) evs) ++ out ≡ keep (shows is_shown) (take n evs)
  whole_lem limit n c evs out m p =
      let slice = take n evs in
      let long : length slice ≡ n = omega (arith, length-take n evs) in
      let front : take (n - c) evs ≡ take (length slice - c) slice =
        sym (take-take (n - c) n evs (omega arith)) ∙ ap (λ k. take (k - c) slice) (sym long) in
      ap (λ r. keep (shows is_shown) r ++ out) front
      ∙ ap (λ r. keep (shows is_shown) (take (length slice - c) slice) ++ r) p.lines
      ∙ sym (
          keep-append (shows is_shown) (take (length slice - c) slice)
            (drop (length slice - c) slice))
      ∙ ap (keep (shows is_shown)) (take-append-drop (length slice - c) slice)

  -- A page that leaves something before it has consumed something.
  consumed_pos :
      (limit c : ℕ) (slice out : List Event)
      → 1 ≤ limit
      → IsPage limit slice out c
      → c < length slice
      → 0 < c
  consumed_pos limit c slice out l p q =
      let size : length out ≤ c = omega (
        arith,
        ap length p.lines,
        length-keep (shows is_shown) (drop (length slice - c) slice),
        length-drop (length slice - c) slice,
      ) in
      ground (arith, p.full)

  page_lem :
      (limit : ℕ) (evs : List Event) (n : ℕ) (again : Option Text → Option (List Event))
      → 1 ≤ limit
      → HasIds evs
      → IsDistinct evs
      → n ≤ length evs
      → ((k : ℕ) (id : Text)
          → k < n
          → cut_of (some id) evs ≡ some k
          → again (some id) ≡ some (keep (shows is_shown) (take k evs)))
      → read_page limit evs again (some n) ≡ some (keep (shows is_shown) (take n evs))
  unfolding page_of
  page_lem limit evs n again l i d m ih =
      let slice = take n evs in
      let c = (walk is_shown limit slice).consumed in
      let p = walk-IsPage limit slice in
      let out = reverse (walk is_shown limit slice).to_convert in
      let long : length slice ≡ n = omega (arith, length-take n evs) in
      let within : c ≤ length slice = p.within in
      let whole = whole_lem limit n c evs out m p in
      elim (dec_lt c n) [
        | no q ↦
            let e : c ≡ length slice = omega arith in
            let z : n - c ≡ 0 = omega arith in
            ap (λ o. join out (follow again o)) (next_of_end slice c e)
            ∙ ap some (ap (λ k. keep (shows is_shown) (take k evs) ++ out) (sym z) ∙ whole)
        | yes q ↦
            let pos = consumed_pos limit c slice out l p (omega arith) in
            let (id, named, cut) = anchor_lem evs (n - c) i d (omega arith) in
            ap (λ o. join out (follow again o)) (next_lem evs n c m pos q ∙ named)
            ∙ ap (join out) (ih (n - c) id (omega arith) cut)
            ∙ ap some whole
      ]

  read_all_from :
      (limit : ℕ) (all : List Event) (fuel : ℕ) (before : Option Text) (n : ℕ)
      → 1 ≤ limit
      → HasIds all
      → IsDistinct all
      → cut_of before all ≡ some n
      → n ≤ length all
      → n < fuel
      → read_all limit all fuel before ≡ some (keep (shows is_shown) (take n all))
  unfolding read_all
  read_all_from limit all zero before n l i d c m f = elim f [ ]
  read_all_from limit all (suc fuel) before n l i d c m f =
      ap (read_page limit all (read_all limit all fuel)) c
      ∙ page_lem limit all n (read_all limit all fuel) l i d m
          (λ k id q e. read_all_from limit all fuel (some id) k l i d e (omega arith) (omega arith))

  -- Where all events are loaded, which have ids, no two the same, and the limit is at least 1, reading
  -- page after page ends and gives every event that is shown and is no redaction once, in order; with
  -- `is_message_like` for a room, with `is_thread_reply` for a thread.
  pub read_all_lem :
      (limit : ℕ) (all : List Event)
      → 1 ≤ limit
      → HasIds all
      → IsDistinct all
      → read_all limit all (suc (length all)) none ≡ some (keep (shows is_shown) all)
  read_all_lem limit all l i d =
      read_all_from limit all (suc (length all)) none (length all) l i d (unfold cut_of in refl)
        (omega arith) (omega arith)
      ∙ ap (λ r. some (keep (shows is_shown) r)) (take_all all)
    where
      take_all : (xs : List Event) → take (length xs) xs ≡ xs
      take_all [] = refl
      take_all (x ∷ xs) = ap (λ r. x ∷ r) (take_all xs)
