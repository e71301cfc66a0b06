-- ===== src/Connection/Bounds.antt =====
-- The bounded reader of `handle_conn` against a plain splitting into lines (src/main.rs).
use omarchy_chatd.Base.{
  ℕ, zero, suc, ◌+◌, ◌≤◌, ◌<◌, ◌≡◌, refl, ◌↔◌, Bool, true, false, not, ◌&&◌, some, List, [], ◌∷◌,
  arith, ltb, ◌==◌, if◌then◌else◌, length, any, All,
}
use native.Mathlib.Decide.{dec_le}
use mathlib.Core.Path.{subst}
use omarchy_chatd.Connection.Reader.{
  newline, read_until, is_blank, Ending, closed, too_long, failed, hand_over, is_nil,
  ends_in_newline, needs_more, read_lines,
}

-- One line with no bound on its length, and what follows it.
read_line : List ℕ → List ℕ × List ℕ
read_line [] = ([], [])
read_line (b ∷ bytes) =
    let rest = read_line bytes in if b == newline then (b ∷ [], bytes) else (b ∷ rest.0, rest.1)

abbrev extend : ℕ → List (List ℕ) → List (List ℕ)
extend b [] = (b ∷ []) ∷ []
extend b (line ∷ lines) = (b ∷ line) ∷ lines

-- All lines of a stream, each with its newline, the last perhaps without.
unfoldable pub lines_of : List ℕ → List (List ℕ)
lines_of [] = []
lines_of (b ∷ bytes) =
    let rest = lines_of bytes in if b == newline then (b ∷ []) ∷ rest else extend b rest

-- Serving a list of lines: those that are not blank, up to the first that is over the limit; of a
-- broken connection up to the first that has no newline.
unfoldable pub serve : ℕ → Bool → List (List ℕ) → List (List ℕ) × Ending
unfolding ends_in_newline
serve limit broken [] = ([], if broken then failed else closed)
serve limit broken (line ∷ lines) =
    let rest = serve limit broken lines in
    if ltb limit (length line)
    then ([], too_long)
    else (if broken && not (ends_in_newline line)
        then ([], failed)
        else (if is_blank line then rest else hand_over line rest))

lines_of-cons :
    (b : ℕ) (bytes : List ℕ)
    → lines_of (b ∷ bytes) ≡ (read_line (b ∷ bytes)).0 ∷ lines_of (read_line (b ∷ bytes)).1
unfolding lines_of read_line
lines_of-cons b [] = ground arith
lines_of-cons b (c ∷ bytes) = ground (arith, lines_of-cons c bytes)

-- A line within the limit is read whole; of a longer one exactly the limit is read.
read_until-read_line :
    (n : ℕ) (bytes : List ℕ) → length (read_line bytes).0 ≤ n → read_until n bytes ≡ read_line bytes
unfolding read_until read_line
read_until-read_line zero [] h = refl
read_until-read_line zero (b ∷ bytes) h = ground arith
read_until-read_line (suc n) [] h = refl
read_until-read_line (suc n) (b ∷ bytes) h = ground (arith, read_until-read_line n bytes)

length-read_until :
    (n : ℕ) (bytes : List ℕ) → n < length (read_line bytes).0 → length (read_until n bytes).0 ≡ n
unfolding read_until read_line
length-read_until zero bytes h = refl
length-read_until (suc n) [] h = ground arith
length-read_until (suc n) (b ∷ bytes) h = ground (arith, length-read_until n bytes)

length-left : (b : ℕ) (bytes : List ℕ) → length (read_line (b ∷ bytes)).1 ≤ length bytes
unfolding read_line
length-left b [] = ground arith
length-left b (c ∷ bytes) = ground (arith, length-left c bytes)

line_nonempty : (b : ℕ) (bytes : List ℕ) → is_nil (read_line (b ∷ bytes)).0 ≡ false
unfolding read_line
line_nonempty b bytes = ground arith

read_until-nil : (n : ℕ) → read_until n [] ≡ ([], [])
unfolding read_until
read_until-nil zero = refl
read_until-nil (suc n) = refl

over_limit :
    (n : ℕ) (bytes : List ℕ)
    → n < length (read_line bytes).0
    → n < length (read_until (n + 1) bytes).0
over_limit n bytes h = elim (dec_le (length (read_line bytes).0) (n + 1)) [
  | yes p ↦ rw (read_until-read_line (n + 1) bytes p) h
  | no p ↦ omega (arith, length-read_until (n + 1) bytes (omega arith))
]

is_nil_of_pos : (l : List ℕ) → 0 < length l → is_nil l ≡ false
is_nil_of_pos [] h = elim h [ ]
is_nil_of_pos (b ∷ l) h = refl

-- One round, where the line is within the limit, and where it is not.
round_within :
    (limit : ℕ) (broken : Bool) (fuel b : ℕ) (bytes : List ℕ)
    → length (read_line (b ∷ bytes)).0 ≤ limit
    → read_lines limit broken fuel (read_line (b ∷ bytes)).1
      ≡ some (serve limit broken (lines_of (read_line (b ∷ bytes)).1))
    → read_lines limit broken (suc fuel) (b ∷ bytes)
      ≡ some (serve limit broken (lines_of (b ∷ bytes)))
unfolding read_lines serve needs_more
round_within limit broken fuel b bytes h ih =
    rw (lines_of-cons b bytes, read_until-read_line (limit + 1) (b ∷ bytes) (omega arith))
      (ground (arith, line_nonempty b bytes))

round_over :
    (limit : ℕ) (broken : Bool) (fuel b : ℕ) (bytes : List ℕ)
    → limit < length (read_line (b ∷ bytes)).0
    → read_lines limit broken (suc fuel) (b ∷ bytes)
      ≡ some (serve limit broken (lines_of (b ∷ bytes)))
unfolding read_lines serve needs_more
round_over limit broken fuel b bytes h =
    let over = over_limit limit (b ∷ bytes) h in
    rw (lines_of-cons b bytes)
      (ground (arith, over, is_nil_of_pos (read_until (limit + 1) (b ∷ bytes)).0 (omega arith)))

round_nil :
    (limit : ℕ) (broken : Bool) (fuel : ℕ)
    → read_lines limit broken (suc fuel) [] ≡ some (serve limit broken (lines_of []))
unfolding read_lines serve needs_more lines_of ends_in_newline
round_nil limit broken fuel = rw (read_until-nil (limit + 1)) (ground arith)

-- With more rounds than bytes the loop ends, and what it hands over is what serving the lines of
-- the whole stream hands over: every line that is not blank, in order, up to the first that is
-- over the limit, which ends the connection; where a read fails in the end, without the line that
-- it was in.
pub read_lines-eq-serve :
    (limit : ℕ) (broken : Bool) (fuel : ℕ) (bytes : List ℕ)
    → length bytes < fuel
    → read_lines limit broken fuel bytes ≡ some (serve limit broken (lines_of bytes))
read_lines-eq-serve limit broken zero bytes h = elim h [ ]
read_lines-eq-serve limit broken (suc fuel) [] h = round_nil limit broken fuel
read_lines-eq-serve limit broken (suc fuel) (b ∷ bytes) h =
    elim (dec_le (length (read_line (b ∷ bytes)).0) limit) [
      | yes p ↦ round_within limit broken fuel b bytes p (
          read_lines-eq-serve limit broken fuel (read_line (b ∷ bytes)).1
            (omega (arith, length-left b bytes)))
      | no p ↦ round_over limit broken fuel b bytes (omega arith)
    ]

-- Every line that is served is within the limit and not blank.
pub serve-All :
    (limit : ℕ) (broken : Bool) (lines : List (List ℕ))
    → All (λ l. (length l ≤ limit) × (is_blank l ≡ false)) (serve limit broken lines).0
unfolding serve
serve-All limit broken [] = tt
serve-All limit broken (l ∷ lines) = ground (arith, serve-All limit broken lines)

-- Serving what a client closes ends in `too_long` exactly when some line is over the limit.
pub serve-too_long_iff :
    (limit : ℕ) (lines : List (List ℕ))
    → ((serve limit false lines).1 ≡ too_long) ↔ (any (λ l. ltb limit (length l)) lines ≡ true)
unfolding serve
serve-too_long_iff limit [] = ground arith
serve-too_long_iff limit (l ∷ lines) = ground (arith, serve-too_long_iff limit lines)

-- What one connection that the client closes hands to its tasks is within the limit and not blank, and the connection is
-- ended for a long line exactly when the stream has one.
read_lines_served :
    (limit fuel : ℕ) (bytes : List ℕ) (lines : List (List ℕ)) (ending : Ending)
    → length bytes < fuel
    → read_lines limit false fuel bytes ≡ some (lines, ending)
    → All (λ l. (length l ≤ limit) × (is_blank l ≡ false)) lines
      × ((ending ≡ too_long) ↔ (any (λ l. ltb limit (length l)) (lines_of bytes) ≡ true))
read_lines_served limit fuel bytes lines ending h e =
    let same : serve limit false (lines_of bytes) ≡ (lines, ending) =
      cc (read_lines-eq-serve limit false fuel bytes h) in
    subst
      (λ (r : List (List ℕ) × Ending).
        All (λ l. (length l ≤ limit) × (is_blank l ≡ false)) r.0
        × ((r.1 ≡ too_long) ↔ (any (λ l. ltb limit (length l)) (lines_of bytes) ≡ true)))
      same (serve-All limit false (lines_of bytes), serve-too_long_iff limit (lines_of bytes))
