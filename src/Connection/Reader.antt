-- ===== src/Connection/Reader.antt =====
-- The loop of `handle_conn` over the bytes of one connection (src/main.rs).
use omarchy_chatd.Base.{
  ℕ, zero, suc, ◌+◌, ◌*◌, Bool, true, false, not, ◌&&◌, ◌||◌, Option, none, some, List, [], ◌∷◌,
  ltb, leb, ◌==◌, if◌then◌else◌, length,
}

-- `MAX_REQUEST_BYTES`.
abbrev pub max_request_bytes : ℕ
max_request_bytes = 1024 * 1024

abbrev pub newline : ℕ
newline = 10

-- `reader.take(limit).read_until(b'\n', &mut line)`: the bytes up to and with the first newline,
-- at most `limit` of them, and what is left in the stream.
unfoldable pub read_until : ℕ → List ℕ → List ℕ × List ℕ
read_until zero bytes = ([], bytes)
read_until (suc limit) [] = ([], [])
read_until (suc limit) (b ∷ bytes) =
    let rest = read_until limit bytes in
    if b == newline then (b ∷ [], bytes) else (b ∷ rest.0, rest.1)

-- One byte that is white space.
abbrev is_blank_byte : ℕ → Bool
is_blank_byte a = (leb 9 a && leb a 13) || a == 32

-- The UTF-8 encodings of the other white space: two bytes, and three.
abbrev is_blank_pair : ℕ → ℕ → Bool
is_blank_pair a b = a == 0xc2 && (b == 0x85 || b == 0xa0)

abbrev is_blank_triple : ℕ → ℕ → ℕ → Bool
is_blank_triple a b c =
    (a == 0xe1 && b == 0x9a && c == 0x80)
    || (a == 0xe2
        && b == 0x80
        && ((leb 0x80 c && leb c 0x8a) || c == 0xa8 || c == 0xa9 || c == 0xaf))
    || (a == 0xe2 && b == 0x81 && c == 0x9f)
    || (a == 0xe3 && b == 0x80 && c == 0x80)

-- `String::from_utf8_lossy(line).trim().is_empty()`: every character is white space; a byte that
-- does not decode is replaced by U+FFFD, which is not.
unfoldable pub is_blank : List ℕ → Bool
is_blank [] = true
is_blank (a ∷ []) = is_blank_byte a
is_blank (a ∷ b ∷ []) =
    let rest = is_blank (b ∷ []) in if is_blank_byte a then rest else is_blank_pair a b
is_blank (a ∷ b ∷ c ∷ bytes) =
    let one = is_blank (b ∷ c ∷ bytes) in
    let two = is_blank (c ∷ bytes) in
    let three = is_blank bytes in
    if is_blank_byte a
    then one
    else (if is_blank_pair a b then two else is_blank_triple a b c && three)

-- How the loop of a connection ends: the client closed it, sent a line over the limit, or a read
-- failed.
pub data Ending : Type 0 where
  closed too_long failed : Ending

abbrev pub hand_over : List ℕ → List (List ℕ) × Ending → List (List ℕ) × Ending
hand_over line (lines, ending) = (line ∷ lines, ending)

abbrev pub Option-map {ℓ κ} : {A : Type ℓ} {B : Type κ} → (A → B) → Option A → Option B
Option-map f none = none
Option-map f (some a) = some (f a)

abbrev pub is_nil : List ℕ → Bool
is_nil [] = true
is_nil (b ∷ bytes) = false

unfoldable pub ends_in_newline : List ℕ → Bool
ends_in_newline [] = false
ends_in_newline (b ∷ []) = b == newline
ends_in_newline (b ∷ c ∷ bytes) = ends_in_newline (c ∷ bytes)

-- A read that the bytes at hand do not end: no newline came, and fewer bytes than are read at most.
unfoldable pub needs_more : ℕ → List ℕ → Bool
unfolding ends_in_newline
needs_more limit line = not (ends_in_newline line) && leb (length line) limit

-- The loop over the bytes that come before the client closes the connection, or, if it is broken,
-- before a read fails: the lines that are handed to tasks, in order, and how it ends; `none` is that
-- the fuel ran out.
unfoldable pub read_lines : ℕ → Bool → ℕ → List ℕ → Option (List (List ℕ) × Ending)
unfolding needs_more
read_lines limit broken zero bytes = none
read_lines limit broken (suc fuel) bytes =
    let line = (read_until (limit + 1) bytes).0 in
    let rest = read_lines limit broken fuel (read_until (limit + 1) bytes).1 in
    if broken && needs_more limit line
    then some ([], failed)
    else (if is_nil line
        then some ([], closed)
        else (if ltb limit (length line)
            then some ([], too_long)
            else (if is_blank line then rest else Option-map (hand_over line) rest)))
