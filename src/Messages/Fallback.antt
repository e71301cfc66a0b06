-- ===== src/Messages/Fallback.antt =====
-- Stripping the quote of a reply gives back the reply (src/core.rs: `strip_reply_fallback`).
use omarchy_chatd.Messages.Quotes.{
  newline, chomp, split_lines, ends_in_newline, chomp_all_but_last, lines_of, after_blank,
  join_lines, rest_or, strip_reply_fallback,
}
use omarchy_chatd.Base.{
  ℕ, ◌≡◌, refl, ap, ◌∙◌, ◌⊎◌, inl, inr, true, false, List, [], ◌∷◌, ◌++◌, map, arith, ◌==◌,
  Bool-cases, if_lem, All, All-append, Text, codes, is_empty, starts_with,
}

-- A line of a text: no newline in it, and no carriage return at its end.
pub record IsLine (l : Text) : Type 0 where
  pub whole : All (λ c. (c == newline) ≡ false) l
  pub kept : chomp l ≡ l

abbrev pub Lines : List Text → Type 0
Lines ls = All IsLine ls

-- The last line is there, and is not empty.
abbrev pub IsEnded : List Text → Type 0
IsEnded [] = ⊥
IsEnded (l ∷ []) = is_empty l ≡ false
IsEnded (l ∷ m ∷ ls) = IsEnded (m ∷ ls)

split_line :
    (l s : Text)
    → All (λ c. (c == newline) ≡ false) l
    → split_lines (l ++ newline ∷ s) ≡ l ∷ split_lines s
unfolding split_lines
split_line [] s h = refl
split_line (c ∷ l) s h = rw (h.0, split_line l s h.1) refl

split_last :
    (c : ℕ) (l : Text)
    → All (λ c. (c == newline) ≡ false) (c ∷ l)
    → split_lines (c ∷ l) ≡ (c ∷ l) ∷ []
unfolding split_lines
split_last c [] h = rw h.0 refl
split_last c (d ∷ l) h = rw (h.0, split_last d l h.1) refl

split-join : (ls : List Text) → Lines ls → IsEnded ls → split_lines (join_lines ls) ≡ ls
unfolding join_lines
split-join [] h e = absurd e
split-join ([] ∷ []) h e = absurd (cc)
split-join ((c ∷ l) ∷ []) h e = split_last c l h.0.whole
split-join (l ∷ m ∷ ls) h e =
    split_line l (join_lines (m ∷ ls)) h.0.whole ∙ ap (λ r. l ∷ r) (split-join (m ∷ ls) h.1 e)

chomp_all : (ls : List Text) → Lines ls → map chomp ls ≡ ls
chomp_all [] h = refl
chomp_all (l ∷ ls) h = rw (h.0.kept, chomp_all ls h.1) refl

chomp-Lines : (ls : List Text) → Lines ls → chomp_all_but_last ls ≡ ls
unfolding chomp_all_but_last
chomp-Lines [] h = refl
chomp-Lines (l ∷ []) h = refl
chomp-Lines (l ∷ m ∷ ls) h = rw (h.0.kept, chomp-Lines (m ∷ ls) h.1) refl

lines_of-join : (ls : List Text) → Lines ls → IsEnded ls → lines_of (join_lines ls) ≡ ls
unfolding lines_of
lines_of-join ls h e = rw (split-join ls h e) (
    if_lem (λ r. r ≡ ls) (ends_in_newline (join_lines ls)) (λ _. chomp_all ls h)
      (λ _. chomp-Lines ls h))

after_quote :
    (quote more : List Text)
    → All (λ l. is_empty l ≡ false) quote
    → after_blank (quote ++ [] ∷ more) ≡ more
unfolding after_blank
after_quote [] more h = refl
after_quote (l ∷ quote) more h = rw h.0 (after_quote quote more h.1)

starts_with-append : (s t p : Text) → starts_with s p ≡ true → starts_with (s ++ t) p ≡ true
unfolding starts_with
starts_with-append s t [] h = refl
starts_with-append [] t (c ∷ p) h = cc
starts_with-append (a ∷ s) t (c ∷ p) h = ground (arith, starts_with-append s t p)

starts_with-join :
    (l : Text) (ls : List Text) (p : Text)
    → starts_with l p ≡ true
    → starts_with (join_lines (l ∷ ls)) p ≡ true
unfolding join_lines
starts_with-join l [] p h = h
starts_with-join l (m ∷ ls) p h = starts_with-append l (newline ∷ join_lines (m ∷ ls)) p h

Lines-append : (xs ys : List Text) → Lines xs → Lines ys → Lines (xs ++ ys)
Lines-append xs ys h k = All-append IsLine xs ys h k

IsEnded-append :
    (xs : List Text) (y : Text) (ys : List Text) → IsEnded (y ∷ ys) → IsEnded (xs ++ y ∷ ys)
IsEnded-append [] y ys e = e
IsEnded-append (x ∷ []) y ys e = e
IsEnded-append (x ∷ x' ∷ xs) y ys e = IsEnded-append (x' ∷ xs) y ys e

-- A reply whose body opens with a quote, an empty line after it, gives back its own lines: the
-- quote's first line begins with `> `, none of its lines is empty, and the reply ends in a line that
-- is not empty.
pub strip-quote :
    (first : Text) (quote : List Text) (line : Text) (more : List Text)
    → Lines (first ∷ quote)
    → All (λ l. is_empty l ≡ false) (first ∷ quote)
    → starts_with first (codes "> ") ≡ true
    → Lines (line ∷ more)
    → IsEnded (line ∷ more)
    → strip_reply_fallback (join_lines (first ∷ quote ++ [] ∷ line ∷ more))
      ≡ join_lines (line ∷ more)
unfolding strip_reply_fallback rest_or
strip-quote first quote line more q n s m e =
    let ls : List Text = (first ∷ quote) ++ ([] ∷ line ∷ more) in
    let plain : Lines ([] ∷ line ∷ more) =
      (record { whole = tt; kept = unfold chomp in refl }, m) in
    let whole : Lines ls = All-append IsLine (first ∷ quote) ([] ∷ line ∷ more) q plain in
    let ended : IsEnded ls = IsEnded-append (first ∷ quote) [] (line ∷ more) e in
    rw (starts_with-join first (quote ++ ([] ∷ line ∷ more)) (codes "> ") s) (
      ap (λ r. rest_or (join_lines ls) (after_blank r)) (lines_of-join ls whole ended)
      ∙ ap (rest_or (join_lines ls)) (after_quote (first ∷ quote) (line ∷ more) n))

-- A body that does not open with a quote, or in which no line follows an empty one, stays as it is.
pub strip_plain :
    (body : Text)
    → (starts_with body (codes "> ") ≡ false) ⊎ (after_blank (lines_of body) ≡ [])
    → strip_reply_fallback body ≡ body
unfolding strip_reply_fallback rest_or
strip_plain body (inl h) = rw h refl
strip_plain body (inr h) = elim (Bool-cases (starts_with body (codes "> "))) [
  | inl s ↦ rw (s, h) refl
  | inr s ↦ rw s refl
]
