-- ===== src/Timeline/Chunks.antt =====
-- The cache's chunk listing (src/core.rs: `contiguous_tail`).
use omarchy_chatd.Base.{
  ℕ, suc, ◌+◌, ◌&&◌, Option, none, some, List, [], ◌∷◌, ◌==◌, if◌then◌else◌, Text, codes,
  starts_with,
}

-- `line.split_once(": ")`, its second half.
unfoldable pub after_colon : Text → Option Text
after_colon [] = none
after_colon (a ∷ []) = none
after_colon (a ∷ b ∷ s) =
    let rest = after_colon (b ∷ s) in if a == b':' && b == b' ' then some s else rest

-- `body.matches('#').count()`.
unfoldable pub count_hash : Text → ℕ
count_hash [] = 0
count_hash (c ∷ s) = let rest = count_hash s in if c == b'#' then suc rest else rest

-- One line of the listing, on the count so far, by its half behind the colon.
unfoldable pub tail_body : Option Text → ℕ → ℕ
tail_body none n = n
tail_body (some body) n = if starts_with body (codes "gap[") then 0 else n + count_hash body

unfoldable pub tail_step : Text → ℕ → ℕ
tail_step line n = tail_body (after_colon line) n

abbrev pub tail_from : List Text → ℕ → ℕ
tail_from [] n = n
tail_from (line ∷ lines) n = tail_from lines (tail_step line n)

-- `contiguous_tail`.
unfoldable pub contiguous_tail : List Text → ℕ
unfolding tail_step tail_body after_colon
contiguous_tail lines = tail_from lines 0
