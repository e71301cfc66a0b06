-- ===== src/Timeline/Listing.antt =====
-- `contiguous_tail` against the chunks that the listing describes (src/core.rs; the format is the
-- one that its comment gives).
use omarchy_chatd.Base.{
  ℕ, suc, ◌+◌, ◌≡◌, refl, sym, ap, ◌∙◌, ◌≢◌, true, false, some, List, [], ◌∷◌, ◌++◌, map, arith,
  length, All, All-append, Text, codes, starts_with,
}
use mathlib.Core.List.{append_assoc}
use omarchy_chatd.Timeline.Chunks.{
  after_colon, count_hash, tail_body, tail_step, tail_from, contiguous_tail,
}

-- An event of a chunk, as the listing shows it: its order and its id.
pub record Item : Type 0 where
  pub order : Text
  pub id : Text

pub data Chunk : Type 0 where
  gap : (number token : Text) → Chunk
  items : (number : Text) (shown : List Item) → Chunk

show_item : Item → Text
show_item i = b'#' ∷ (i.order ++ (b':' ∷ b' ' ∷ i.id))

show_more : List Item → Text
show_more [] = codes "]"
show_more (i ∷ is) = b',' ∷ b' ' ∷ (show_item i ++ show_more is)

show_items : List Item → Text
show_items [] = codes "[]"
show_items (i ∷ is) = b'[' ∷ (show_item i ++ show_more is)

body_of : Chunk → Text
body_of (gap number token) = codes "gap['" ++ (token ++ codes "']")
body_of (items number shown) = show_items shown

number_of : Chunk → Text
number_of (gap number token) = number
number_of (items number shown) = number

-- `chunk #n: gap['token']` or `chunk #n: [#order: $id, …]`.
pub show : Chunk → Text
show c = codes "chunk #" ++ (number_of c ++ (b':' ∷ b' ' ∷ body_of c))

abbrev pub Lacks : ℕ → Text → Type 0
Lacks c s = All (λ d. d ≢ c) s

-- What the listing relies on: numbers have no colon, and no id or order has a `#`.
abbrev pub IsReadable : Chunk → Type 0
IsReadable (gap number token) = Lacks b':' number
IsReadable (items number shown) =
    Lacks b':' number × All (λ i. Lacks b'#' i.order × Lacks b'#' i.id) shown

-- The events after the last gap.
unfoldable pub events_after_gap : List Chunk → ℕ → ℕ
events_after_gap [] n = n
events_after_gap (gap number token ∷ cs) n = events_after_gap cs 0
events_after_gap (items number shown ∷ cs) n = events_after_gap cs (n + length shown)

count_hash-append : (s t : Text) → count_hash (s ++ t) ≡ count_hash s + count_hash t
unfolding count_hash
count_hash-append [] t = omega arith
count_hash-append (c ∷ s) t = ground (arith, count_hash-append s t)

count_hash_of_Lacks : (s : Text) → Lacks b'#' s → count_hash s ≡ 0
unfolding count_hash
count_hash_of_Lacks [] h = refl
count_hash_of_Lacks (c ∷ s) h = ground (arith, count_hash_of_Lacks s h.1)

count_hash-show_item :
    (i : Item) → Lacks b'#' i.order → Lacks b'#' i.id → count_hash (show_item i) ≡ 1
unfolding show_item
count_hash-show_item i o d =
    unfold count_hash in
    rw (count_hash-append i.order (b':' ∷ b' ' ∷ i.id))
      (ground (arith, count_hash_of_Lacks i.order o, count_hash_of_Lacks i.id d))

count_hash-skip : (c : ℕ) (s : Text) → c ≢ b'#' → count_hash (c ∷ s) ≡ count_hash s
unfolding count_hash
count_hash-skip c s h = ground arith

count_hash_end : count_hash (codes "]") ≡ 0
unfolding count_hash
count_hash_end = refl

-- One event shown, and what follows it.
count_hash_then :
    (i : Item) (t : Text)
    → Lacks b'#' i.order × Lacks b'#' i.id
    → count_hash (show_item i ++ t) ≡ suc (count_hash t)
count_hash_then i t (o, d) =
    omega (arith, count_hash-append (show_item i) t, count_hash-show_item i o d)

count_hash-show_more :
    (is : List Item)
    → All (λ i. Lacks b'#' i.order × Lacks b'#' i.id) is
    → count_hash (show_more is) ≡ length is
unfolding show_more
count_hash-show_more [] h = count_hash_end
count_hash-show_more (i ∷ is) (r, h) =
    count_hash-skip b',' _ (omega arith)
    ∙ count_hash-skip b' ' _ (omega arith)
    ∙ count_hash_then i (show_more is) r
    ∙ ap suc (count_hash-show_more is h)

count_hash-show_items :
    (is : List Item)
    → All (λ i. Lacks b'#' i.order × Lacks b'#' i.id) is
    → count_hash (show_items is) ≡ length is
unfolding show_items
count_hash-show_items [] h = count_hash-skip b'[' _ (omega arith) ∙ count_hash_end
count_hash-show_items (i ∷ is) (r, h) =
    count_hash-skip b'[' _ (omega arith)
    ∙ count_hash_then i (show_more is) r
    ∙ ap suc (count_hash-show_more is h)

after_colon_lem :
    (s body : Text) → Lacks b':' s → after_colon (s ++ (b':' ∷ b' ' ∷ body)) ≡ some body
unfolding after_colon
after_colon_lem [] body h = refl
after_colon_lem (a ∷ []) body h = ground arith
after_colon_lem (a ∷ b ∷ s) body (p, h) = ground (arith, after_colon_lem (b ∷ s) body h)

chunk_Lacks : Lacks b':' (codes "chunk #")
chunk_Lacks = omega arith

-- The part of a shown chunk behind its first colon is its body.
after_colon-show : (c : Chunk) → Lacks b':' (number_of c) → after_colon (show c) ≡ some (body_of c)
unfolding show
after_colon-show c h =
    rw (← append_assoc (codes "chunk #") (number_of c) (b':' ∷ b' ' ∷ body_of c)) (
      after_colon_lem (codes "chunk #" ++ number_of c) (body_of c)
        (All-append (λ d. d ≢ b':') (codes "chunk #") (number_of c) chunk_Lacks h))

show_items_no_gap : (is : List Item) → starts_with (show_items is) (codes "gap[") ≡ false
unfolding show_items starts_with
show_items_no_gap [] = refl
show_items_no_gap (i ∷ is) = refl

gap_is_gap : (t : Text) → starts_with (codes "gap['" ++ t) (codes "gap[") ≡ true
unfolding starts_with
gap_is_gap t = refl

tail_body-gap : (t : Text) (n : ℕ) → tail_body (some (codes "gap['" ++ t)) n ≡ 0
unfolding tail_body
tail_body-gap t n = rw (gap_is_gap t)

tail_body-items :
    (is : List Item) (n : ℕ)
    → All (λ i. Lacks b'#' i.order × Lacks b'#' i.id) is
    → tail_body (some (show_items is)) n ≡ n + length is
unfolding tail_body
tail_body-items is n h = rw (show_items_no_gap is, count_hash-show_items is h)

tail_step-show :
    (c : Chunk) (cs : List Chunk) (n : ℕ)
    → IsReadable c
    → events_after_gap (c ∷ cs) n ≡ events_after_gap cs (tail_step (show c) n)
unfolding events_after_gap tail_step number_of body_of
tail_step-show (gap number token) cs n h = ap (events_after_gap cs) (
    sym (
      ap (λ o. tail_body o n) (after_colon-show (gap number token) h)
      ∙ tail_body-gap (token ++ codes "']") n))
tail_step-show (items number shown) cs n (h, r) = ap (events_after_gap cs) (
    sym (
      ap (λ o. tail_body o n) (after_colon-show (items number shown) h)
      ∙ tail_body-items shown n r))

tail_from-show :
    (cs : List Chunk) (n : ℕ)
    → All IsReadable cs
    → tail_from (map show cs) n ≡ events_after_gap cs n
tail_from-show [] n h = unfold events_after_gap in refl
tail_from-show (c ∷ cs) n (r, h) =
    tail_from-show cs (tail_step (show c) n) h ∙ sym (tail_step-show c cs n r)

-- On a listing of the documented form whose ids hold no `#`, the count is that of the events after
-- the last gap.
pub contiguous_tail-show :
    (cs : List Chunk) → All IsReadable cs → contiguous_tail (map show cs) ≡ events_after_gap cs 0
unfolding contiguous_tail
contiguous_tail-show cs h = tail_from-show cs 0 h
