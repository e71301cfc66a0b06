-- ===== src/Messages/Bounded.antt =====
-- The cache of previews stays bounded, and each is one short line (src/core.rs: `reply_preview`,
-- `build_reply_preview`).
use omarchy_chatd.Messages.Convert.{Place}
use omarchy_chatd.Messages.Events.{Parsed, ReplyPreview}
use omarchy_chatd.Messages.Previews.{
  max_reply_cache, Previews, preview_key, get_preview, drop_preview, insert_preview,
  forget_reply_preview, store_preview, words_from, join_words, one_line, cut_line, quoted_text,
  edit_body, preview_from, Quoted, build_from, build_reply_preview, stored, preview_or_build,
  reply_preview,
}
use omarchy_chatd.Base.{
  ℕ, ◌≤◌, ◌≡◌, refl, ◌⊎◌, inl, inr, false, Option, none, some, List, [], ◌∷◌, ◌++◌, arith, ltb, leb,
  if◌then◌else◌, Bool-cases, or_else, length, take, length-append, length-take, All, All-append,
  All-take, Text, text_eq, is_empty, is_whitespace,
}

-- A character of a line of words: no white space but a single kind of space.
abbrev pub IsInLine : ℕ → Type 0
IsInLine c = (is_whitespace c ≡ false) ⊎ (c ≡ 32)

-- One line of at most 161 characters.
pub record IsShort (s : Text) : Type 0 where
  pub short : length s ≤ 161
  pub in_line : All IsInLine s

-- Every preview in the cache is short, and there are at most 4096.
pub record IsBounded (c : Previews) : Type 0 where
  pub few : length c ≤ max_reply_cache
  pub lines : All (λ (e : Text × ReplyPreview). IsShort e.1.body) c

abbrev NoWhite : Text → Type 0
NoWhite w = All (λ c. is_whitespace c ≡ false) w

words_next :
    (v s : Text)
    → NoWhite v
    → All NoWhite (words_from [] s)
    → All NoWhite (if is_empty v then words_from [] s else v ∷ words_from [] s)
words_next [] s k h = h
words_next (d ∷ v) s k h = (k, h)

words_from-All : (word s : Text) → NoWhite word → All NoWhite (words_from word s)
unfolding words_from
words_from-All [] [] h = tt
words_from-All (d ∷ word) [] h = (h, tt)
words_from-All word (c ∷ s) h =
    let next = words_from-All [] s tt in
    let same = words_from-All (word ++ c ∷ []) s in
    elim (Bool-cases (is_whitespace c)) [
      | inl y ↦ rw y (words_next word s h next)
      | inr n ↦ rw n (same (All-append (λ x. is_whitespace x ≡ false) word (c ∷ []) h (n, tt)))
    ]

in_line : (w : Text) → NoWhite w → All IsInLine w
in_line [] h = tt
in_line (c ∷ w) h = (inl h.0, in_line w h.1)

join_words-All : (ws : List Text) → All NoWhite ws → All IsInLine (join_words ws)
unfolding join_words
join_words-All [] h = tt
join_words-All (w ∷ []) h = in_line w h.0
join_words-All (w ∷ v ∷ ws) h =
    All-append IsInLine w (32 ∷ join_words (v ∷ ws)) (in_line w h.0)
      (inr refl, join_words-All (v ∷ ws) h.1)

cut_line-IsShort : (body : Text) → IsShort (cut_line (one_line body))
unfolding cut_line one_line
cut_line-IsShort body =
    let line = join_words (words_from [] body) in
    let fine = join_words-All (words_from [] body) (words_from-All [] body tt) in
    elim (Bool-cases (ltb 160 (length line))) [
      | inl y ↦ rw y (record {
        short = omega (arith, length-append (take 160 line) (0x2026 ∷ []), length-take 160 line);
        in_line =
            All-append IsInLine (take 160 line) (0x2026 ∷ []) (All-take IsInLine 160 line fine)
              (inl refl, tt);
      })
      | inr n ↦ rw n (record { short = ground arith; in_line = fine })
    ]

abbrev pub ShortIfAny : Option ReplyPreview → Type 0
ShortIfAny none = Unit
ShortIfAny (some p) = IsShort p.body

build-ShortIfAny :
    (place : Place) (event : Text) (q : Quoted) → ShortIfAny (build_reply_preview place event q)
unfolding build_reply_preview build_from preview_from
build-ShortIfAny place event q = from_event q.event
  where
    from_text : (o : Option (Text × Text)) → ShortIfAny (preview_from place event o)
    from_text none = tt
    from_text (some (sender, body)) = cut_line-IsShort body

    from_event :
        (o : Option Parsed)
        → ShortIfAny (build_from place event (or_else (edit_body q.cached) q.bundled) o)
    from_event none = tt
    from_event (some parsed) =
        from_text (quoted_text (or_else (edit_body q.cached) q.bundled) parsed)

abbrev Shorts : Previews → Type 0
Shorts c = All (λ (e : Text × ReplyPreview). IsShort e.1.body) c

drop-Shorts : (k : Text) (c : Previews) → Shorts c → Shorts (drop_preview k c)
unfolding drop_preview
drop-Shorts k [] h = tt
drop-Shorts k ((j, p) ∷ c) h = elim (Bool-cases (text_eq k j)) [
  | inl e ↦ rw e (drop-Shorts k c h.1)
  | inr n ↦ rw n (h.0, drop-Shorts k c h.1)
]

length-drop : (k : Text) (c : Previews) → length (drop_preview k c) ≤ length c
unfolding drop_preview
length-drop k [] = omega arith
length-drop k ((j, p) ∷ c) = ground (arith, length-drop k c)

store-IsBounded :
    (k : Text) (p : ReplyPreview) (c : Previews)
    → IsShort p.body
    → IsBounded c
    → IsBounded (store_preview k p c)
unfolding store_preview insert_preview
store-IsBounded k p c s b = elim (Bool-cases (leb max_reply_cache (length c))) [
  | inl y ↦
      rw y (record { few = unfold drop_preview in omega arith; lines = (s, drop-Shorts k [] tt) })
  | inr n ↦ rw n (record {
    few = let l = length-drop k c in ground arith;
    lines = (s, drop-Shorts k c b.lines);
  })
]

forget-IsBounded :
    (room event : Text) (c : Previews) → IsBounded c → IsBounded (forget_reply_preview room event c)
unfolding forget_reply_preview
forget-IsBounded room event c b = record {
  few = omega (arith, length-drop (preview_key room event) c, b.few);
  lines = drop-Shorts (preview_key room event) c b.lines;
}

preview_or_build-IsBounded :
    (k : Text) (known built : Option ReplyPreview) (c : Previews)
    → ShortIfAny built
    → IsBounded c
    → IsBounded (preview_or_build k known built c).1
unfolding preview_or_build stored
preview_or_build-IsBounded k (some p) built c s b = b
preview_or_build-IsBounded k none none c s b = b
preview_or_build-IsBounded k none (some p) c s b = store-IsBounded k p c s b

-- What the program does with the cache, which is one for all rooms: it asks for the preview of an
-- event of a room, or forgets one.
pub data Use : Type 0 where
  ask : Place → Text → Quoted → Use
  forget : Text → Text → Use

abbrev pub use_once : Use → Previews → Previews
use_once (ask place event q) c = (reply_preview place event q c).1
use_once (forget room event) c = forget_reply_preview room event c

abbrev pub uses : List Use → Previews → Previews
uses [] c = c
uses (u ∷ us) c = uses us (use_once u c)

use_once-IsBounded : (u : Use) (c : Previews) → IsBounded c → IsBounded (use_once u c)
unfolding reply_preview
use_once-IsBounded (ask place event q) c b =
    let k = preview_key place.room_id event in
    preview_or_build-IsBounded k (get_preview k c) (build_reply_preview place event q) c
      (build-ShortIfAny place event q) b
use_once-IsBounded (forget room event) c b = forget-IsBounded room event c b

uses-IsBounded : (us : List Use) (c : Previews) → IsBounded c → IsBounded (uses us c)
uses-IsBounded [] c b = b
uses-IsBounded (u ∷ us) c b = uses-IsBounded us (use_once u c) (use_once-IsBounded u c b)

-- However it is used, by requests one at a time in any rooms, the cache of previews holds at most 4096
-- of them, and each is one line of at most 161 characters, with no white space in it but spaces.
pub previews-IsBounded : (us : List Use) → IsBounded (uses us [])
previews-IsBounded us = uses-IsBounded us [] (record { few = omega arith; lines = tt })
