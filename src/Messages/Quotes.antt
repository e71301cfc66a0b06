-- ===== src/Messages/Quotes.antt =====
-- The quoted fallback at the head of a reply (src/core.rs: `strip_reply_fallback`).
use omarchy_chatd.Base.{
  ℕ, Bool, false, not, List, [], ◌∷◌, ◌++◌, map, ◌==◌, if◌then◌else◌, Text, codes, is_empty,
  starts_with,
}

abbrev pub newline : ℕ
newline = 10

abbrev pub carriage_return : ℕ
carriage_return = 13

-- One line of `str::lines` that a newline ends, without a carriage return at its end.
unfoldable pub chomp : Text → Text
chomp [] = []
chomp (c ∷ []) = if c == carriage_return then [] else c ∷ []
chomp (c ∷ d ∷ s) = c ∷ chomp (d ∷ s)

abbrev pub prepend : ℕ → List Text → List Text
prepend c [] = (c ∷ []) ∷ []
prepend c (line ∷ lines) = (c ∷ line) ∷ lines

-- The pieces of a text between its newlines; nothing follows a newline at the end.
unfoldable pub split_lines : Text → List Text
split_lines [] = []
split_lines (c ∷ s) = let rest = split_lines s in if c == newline then [] ∷ rest else prepend c rest

unfoldable pub ends_in_newline : Text → Bool
ends_in_newline [] = false
ends_in_newline (c ∷ []) = c == newline
ends_in_newline (c ∷ d ∷ s) = ends_in_newline (d ∷ s)

-- The last piece has no newline after it, and keeps its carriage return.
unfoldable pub chomp_all_but_last : List Text → List Text
unfolding chomp
chomp_all_but_last [] = []
chomp_all_but_last (line ∷ []) = line ∷ []
chomp_all_but_last (line ∷ next ∷ lines) = chomp line ∷ chomp_all_but_last (next ∷ lines)

-- `str::lines`.
unfoldable pub lines_of : Text → List Text
unfolding split_lines chomp chomp_all_but_last ends_in_newline
lines_of s =
    if ends_in_newline s then map chomp (split_lines s) else chomp_all_but_last (split_lines s)

-- What is left of the lines after the first empty one.
unfoldable pub after_blank : List Text → List Text
after_blank [] = []
after_blank (line ∷ lines) = let rest = after_blank lines in if is_empty line then lines else rest

-- `lines.join("\n")`.
unfoldable pub join_lines : List Text → Text
join_lines [] = []
join_lines (line ∷ []) = line
join_lines (line ∷ next ∷ lines) = line ++ newline ∷ join_lines (next ∷ lines)

unfoldable pub rest_or : Text → List Text → Text
unfolding join_lines
rest_or body [] = body
rest_or body (line ∷ lines) = join_lines (line ∷ lines)

-- `strip_reply_fallback`.
unfoldable pub strip_reply_fallback : Text → Text
unfolding starts_with lines_of after_blank rest_or
strip_reply_fallback body =
    if not (starts_with body (codes "> ")) then body else rest_or body (after_blank (lines_of body))
